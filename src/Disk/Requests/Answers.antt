-- ===== src/Disk/Requests/Answers.antt =====
-- The common part of the requests of kernel/disk.c: the disk is looked up, its driver is called.
use test_os.Base.{
  ℕ, ◌+◌, ◌%◌, ◌^◌, ◌≤◌, ◌<◌, ◌≡◌, ◌⊎◌, inl, inr, refl, ◌∙◌, ap, arith, Bool, true, false, not,
  ◌&&◌, Option, some, List, [], ◌∷◌, length, leb, ◌==◌, if◌then◌else◌, Bool-cases,
}
use test_os.Disk.{
  Disk, Disks, Call, kernel_disk_id_start, kernel_disk_id_end, disk_word, find_disk_by_id, add_ref,
  with_ref, to_driver,
}
use test_os.Disk.Register.{IsDisks, disk_number, find_disk_by_id-IsDisks}
use test_os.Disk.Requests.Served.{
  Quiet, Minds, Quiet-refl, Quiet-trans, with_ref-Quiet, add_ref_self,
}

-- The driver of the disk `p` was called with its count one up, and gave the answer `v`.
abbrev pub Called : {W : Type 0} → Call W → Disks W → (p : ℕ) → (Disk → ℕ) → ℕ → Type 0
Called {W = W} call s p op v =
    (args : List ℕ) × (s1 : Disks W) × (v ≡ (call (op (s.disk p)) (p ∷ args) s1).0)
    × ((s1.disk p).ref ≡ ((s.disk p).ref + 1) % disk_word)

-- A disk was found, and its driver has the operation.
abbrev pub can : {W : Type 0} → Disks W → (p : ℕ) → (Disk → ℕ) → Bool
can s p op = not (p == 0) && not (op (s.disk p) == 0)

disk_number_out :
    (ds : List ℕ) (id : ℕ)
    → length ds ≤ 26
    → (leb kernel_disk_id_start id && leb id kernel_disk_id_end) ≡ false
    → disk_number ds id ≡ 0
disk_number_out [] id few out = refl
disk_number_out (x ∷ xs) id few out =
    let elsewhere : (id == kernel_disk_id_start + length xs) ≡ false = ground arith in
    rw elsewhere (disk_number_out xs id (omega arith) out)

module _ {W : Type 0} (call : Call W) (minds : Minds call) (s : Disks W) (ds : List ℕ)
    (h : IsDisks s ds) (fuel : ℕ) (enough : length ds < fuel) where
  to_driver_lem :
      (id : ℕ) (op : Disk → ℕ) (error : ℕ) (act : ℕ → Disks W → Option (ℕ × Disks W))
      → to_driver fuel id op error act s
        ≡ (if can s (disk_number ds id) op then act (disk_number ds id) s else some (error, s))
  unfolding to_driver
  to_driver_lem id op error act =
      elim (Bool-cases (leb kernel_disk_id_start id && leb id kernel_disk_id_end)) [
        | inl inside ↦
            let short : id % 2 ^ 16 ≡ id = ground arith in
            let found : find_disk_by_id fuel id s ≡ some (disk_number ds id, s) =
              find_disk_by_id-IsDisks s ds h fuel id enough
              ∙ ap (λ i. some (disk_number ds i, s)) short in
            rw (inside, found) refl
        | inr outside ↦ rw (outside, disk_number_out ds id h.few outside) refl
      ]

  -- An answer `v` to a request for the operation `op` of the disk `p`, if the arguments are allowed.
  abbrev pub Answer : Bool → (p : ℕ) → (Disk → ℕ) → (error v : ℕ) → Disks W → Type 0
  Answer ok p op error v s' =
      (((ok && can s p op) ≡ true) × Called call s p op v)
      ⊎ (((ok && can s p op) ≡ false) × (v ≡ error) × (s' ≡ s))

  pub asked :
      (ok : Bool) (id : ℕ) (op : Disk → ℕ) (error : ℕ) (act : ℕ → Disks W → Option (ℕ × Disks W))
      → ((p : ℕ)
          → (v : ℕ) × (s' : Disks W) × (act p s ≡ some (v, s')) × Quiet s s' × Called call s p op v)
      → (v : ℕ) × (s' : Disks W) × ((if ok
            then to_driver fuel id op error act s
            else some (error, s))
          ≡ some (v, s'))
        × Quiet s s'
        × Answer ok (disk_number ds id) op error v s'
  asked false id op error act acts = (error, s, refl, Quiet-refl s, inr (refl, refl, refl))
  asked true id op error act acts = elim (Bool-cases (can s (disk_number ds id) op)) [
    | inl yes_it_can ↦
        let (v, s', ran, quiet, called) = acts (disk_number ds id) in
        (
          v,
          s',
          to_driver_lem id op error act
              ∙ ap (λ b. if b then act (disk_number ds id) s else some (error, s)) yes_it_can
              ∙ ran,
          quiet,
          inl (yes_it_can, called),
        )
    | inr it_cannot ↦ (
      error,
      s,
      to_driver_lem id op error act
          ∙ ap (λ b. if b then act (disk_number ds id) s else some (error, s)) it_cannot,
      Quiet-refl s,
      inr (it_cannot, refl, refl),
    )
  ]

  -- A request that is just passed on.
  pub passed_on :
      (t : Disks W) (op : Disk → ℕ) (args : List ℕ) (p : ℕ)
      → Quiet s t
      → t.disk ≡ s.disk
      → Quiet s (with_ref call p op args t).1 × Called call s p op (with_ref call p op args t).0
  unfolding with_ref
  passed_on t op args p quiet same = (
    Quiet-trans s t (with_ref call p op args t).1 quiet (with_ref-Quiet call minds t p op args),
    (
      args,
      add_ref p 1 t,
      ap (λ (f : ℕ → Disk). (call (op (f p)) (p ∷ args) (add_ref p 1 t)).0) same,
      add_ref_self p 1 t ∙ ap (λ (f : ℕ → Disk). ((f p).ref + 1) % disk_word) same,
    ),
  )

  pub simply :
      (op : Disk → ℕ) (args : List ℕ) (p : ℕ)
      → (v : ℕ) × (s' : Disks W) × (some (with_ref call p op args s) ≡ some (v, s'))
        × Quiet s s'
        × Called call s p op v
  simply op args p =
      let (quiet, called) = passed_on s op args p (Quiet-refl s) refl in
      ((with_ref call p op args s).0, (with_ref call p op args s).1, refl, quiet, called)
