-- ===== src/Disk/Register.antt =====
-- The list of kernel/disk.c: which disk has which id.
use test_os.Base.{
  ℕ, zero, suc, ◌+◌, ◌%◌, ◌^◌, ◌≤◌, ◌<◌, ◌≡◌, ◌≢◌, ◌⊎◌, inl, inr, refl, sym, ◌∙◌, ap, subst, arith,
  true, false, none, some, List, [], ◌∷◌, All, length, bit_and, bit_or, ltb, ◌==◌, if◌then◌else◌,
  Bool-cases,
}
use native.Mathlib.Decide.{ℕ_discrete, dec_lt}
use test_os.Base.Bits.{bit_and-mask}
use test_os.Disk.{
  Disk, Disks, kernel_disk_id_start, kernel_disk_id_end, disk_word, write_disk, find_node,
  find_disk_by_id, new_disk, next_disk_id, disk_register,
}

-- From a pointer the `next` fields lead through the addresses to NULL; the ids count down.
abbrev pub Listed : (ℕ → Disk) → ℕ → List ℕ → Type 0
Listed disks p [] = p ≡ 0
Listed disks p (x ∷ xs) =
    (p ≡ x)
    × (x ≢ 0)
    × ((disks x).id ≡ kernel_disk_id_start + length xs)
    × ((disks x).ref < disk_word)
    × Listed disks (disks x).next xs

-- The disks `ds` are registered, the last one first, and the lock is free.
pub record IsDisks {W : Type 0} (s : Disks W) (ds : List ℕ) : Type 0 where
  pub listed : Listed s.disk s.disk_list ds
  pub next_id : s.disk_id ≡ kernel_disk_id_start + length ds
  pub few : length ds ≤ 26
  pub free_lock : s.disk_lock ≡ 0

-- The registered disk with the id, 0 if there is none.
abbrev pub disk_number : List ℕ → ℕ → ℕ
disk_number [] id = 0
disk_number (x ∷ xs) id = if id == kernel_disk_id_start + length xs then x else disk_number xs id

find_node-Listed :
    (ds : List ℕ) (fuel : ℕ) (disks : ℕ → Disk) (p id : ℕ)
    → length ds < fuel
    → Listed disks p ds
    → find_node fuel disks p id ≡ some (disk_number ds id)
unfolding find_node
find_node-Listed ds zero disks p id few listed = absurd (omega arith)
find_node-Listed [] (suc fuel) disks p id few at =
    let test : (p == 0) ≡ true = ground arith in rw test refl
find_node-Listed (x ∷ xs) (suc fuel) disks p id few (at, ne, its_id, ref, listed) =
    let test : (p == 0) ≡ false = ground arith in
    let here : ((disks p).id == id) ≡ (id == kernel_disk_id_start + length xs) =
      ground (arith, ap (λ q. (disks q).id) at) in
    let rest : find_node fuel disks (disks p).next id ≡ some (disk_number xs id) =
      ap (λ q. find_node fuel disks (disks q).next id) at
      ∙ find_node-Listed xs fuel disks (disks x).next id (omega arith) listed in
    rw (test, here, rest)
      (elim (Bool-cases (id == kernel_disk_id_start + length xs)) [
        | inl e ↦ rw e (ap some at)
        | inr ne ↦ rw ne refl
      ])

module _ {W : Type 0} (s : Disks W) (ds : List ℕ) (h : IsDisks s ds) where
  pub find_disk_by_id-IsDisks :
      (fuel id : ℕ)
      → length ds < fuel
      → find_disk_by_id fuel id s ≡ some (disk_number ds (id % 2 ^ 16), s)
  unfolding find_disk_by_id
  find_disk_by_id-IsDisks fuel id few =
      let lock : bit_and (bit_or s.disk_lock 1) 0 ≡ s.disk_lock =
        omega (arith, bit_and-mask 0 (bit_or s.disk_lock 1), h.free_lock) in
      rw (find_node-Listed ds fuel s.disk s.disk_list (id % 2 ^ 16) few h.listed)
        (ap (λ l. some (disk_number ds (id % 2 ^ 16), record s { disk_lock = l })) lock)

Listed-frame :
    (disks disks' : ℕ → Disk) (p : ℕ) (ds : List ℕ)
    → All (λ q. disks' q ≡ disks q) ds
    → Listed disks p ds
    → Listed disks' p ds
Listed-frame disks disks' p [] same at = at
Listed-frame disks disks' p (x ∷ xs) (here, same) (at, ne, its_id, ref, listed) = (
  at,
  ne,
  ap (λ (d : Disk). d.id) here ∙ its_id,
  subst (λ (d : Disk). d.ref < disk_word) (sym here) ref,
  subst (λ (d : Disk). Listed disks' d.next xs) (sym here)
      (Listed-frame disks disks' (disks x).next xs same listed),
)

others_same :
    (disks : ℕ → Disk) (p : ℕ) (d : Disk) (ds : List ℕ)
    → All (λ q. q ≢ p) ds
    → All (λ q. write_disk disks p d q ≡ disks q) ds
others_same disks p d [] fresh = tt
others_same disks p d (x ∷ xs) (ne, fresh) = (ground arith, others_same disks p d xs fresh)

-- After a disk has been registered at `p`.
pub record Registered {W : Type 0} (s : Disks W) (ds : List ℕ) (p : ℕ) (s' : Disks W) : Type 0 where
  pub well_formed : IsDisks s' (p ∷ ds)
  pub its_id : (s'.disk p).id ≡ kernel_disk_id_start + length ds
  pub unused : (s'.disk p).ref ≡ 0
  pub same_disks : (q : ℕ) → q ≢ p → s'.disk q ≡ s.disk q
  pub found :
      (fuel id : ℕ)
      → length ds + 1 < fuel
      → find_disk_by_id fuel id s'
        ≡ some (
          if id % 2 ^ 16 == kernel_disk_id_start + length ds
              then p
              else disk_number ds (id % 2 ^ 16),
          s',
        )

module _ {W : Type 0} (s : Disks W) (ds : List ℕ) (h : IsDisks s ds) (p name unknown : ℕ)
    (some_node : p ≢ 0) (fresh : All (λ q. q ≢ p) ds) (room : length ds < 26) where
  abbrev added : Disks W
  added = record s {
    disk = write_disk s.disk p (new_disk s.disk_id name unknown s.disk_list);
    disk_list = p;
    disk_id = next_disk_id s.disk_id;
  }

  added-IsDisks : IsDisks added (p ∷ ds)
  added-IsDisks = record {
    listed = (
      refl,
      some_node,
      ground (arith, h.next_id),
      ground arith,
      subst (λ q. Listed added.disk q ds) {x = s.disk_list} {y = (added.disk p).next} (ground arith)
          (Listed-frame s.disk added.disk s.disk_list ds
            (others_same s.disk p (new_disk s.disk_id name unknown s.disk_list) ds fresh) h.listed),
    );
    next_id = omega (arith, h.next_id);
    few = omega arith;
    free_lock = h.free_lock;
  }

  added-Registered : Registered s ds p added
  added-Registered = record {
    well_formed = added-IsDisks;
    its_id = ground (arith, h.next_id);
    unused = ground arith;
    same_disks = λ q ne. ground arith;
    found =
        λ fuel id few. find_disk_by_id-IsDisks added (p ∷ ds) added-IsDisks fuel id (omega arith);
  }

-- With `ds` registered and memory at `p`, on the list of no disk, `disk_register` returns NULL and changes nothing where 26 disks are
-- registered; otherwise it fails its assertion without memory, and with memory it registers a disk at
-- `p` with the next id, under which, and under no other, `find_disk_by_id` finds it from then on, while
-- it finds the disks registered before as before.
pub disk_register-Registered :
    {W : Type 0}
    → (s : Disks W) (ds : List ℕ) (p name unknown : ℕ) → IsDisks s ds
    → All (λ q. q ≢ p) ds
    → ((length ds ≡ 26) × (disk_register p name unknown s ≡ some (0, s)))
      ⊎ (((length ds < 26) × (p ≡ 0) × (disk_register p name unknown s ≡ none))
          ⊎ ((length ds < 26)
              × (p ≢ 0)
              × (s' : Disks W) × (disk_register p name unknown s ≡ some (p, s'))
              × Registered s ds p s'))
unfolding disk_register
disk_register-Registered s ds p name unknown h fresh = elim (dec_lt (length ds) 26) [
  | no full ↦
      let test : ltb kernel_disk_id_end s.disk_id ≡ true = ground (arith, h.next_id) in
      rw test (inl (omega (arith, h.few), refl))
  | yes room ↦
      let test : ltb kernel_disk_id_end s.disk_id ≡ false = ground (arith, h.next_id) in
      rw test (elim (ℕ_discrete p 0) [
        | yes no_memory ↦
            let null : (p == 0) ≡ true = ground arith in rw null (inr (inl (room, no_memory, refl)))
        | no some_node ↦
            let null : (p == 0) ≡ false = ground arith in
            rw null (
              inr (
                inr (
                  room,
                  some_node,
                  added s ds h p name unknown some_node fresh room,
                  refl,
                  added-Registered s ds h p name unknown some_node fresh room,
                )))
      ])
]
