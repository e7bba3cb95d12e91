-- ===== src/Disk/Requests/Served.antt =====
-- What a request of kernel/disk.c does, against a table of the requests.
use test_os.Base.{ℕ, ◌+◌, ◌-◌, ◌%◌, ◌<◌, ◌≡◌, ◌≢◌, refl, sym, ◌∙◌, ap, subst, arith, List, [], ◌∷◌}
use test_os.Disk.{Disk, Disks, Call, disk_word, add_ref, with_ref}
use test_os.Disk.Register.{Listed, IsDisks}
use native.Mathlib.Decide.{ℕ_discrete}

-- What stays as it is: the list, the ids and the counts of requests.
pub record Quiet {W : Type 0} (s s' : Disks W) : Type 0 where
  pub same_list : s'.disk_list ≡ s.disk_list
  pub same_lock : s'.disk_lock ≡ s.disk_lock
  pub same_id : s'.disk_id ≡ s.disk_id
  pub same_ids : (q : ℕ) → (s'.disk q).id ≡ (s.disk q).id
  pub same_next : (q : ℕ) → (s'.disk q).next ≡ (s.disk q).next
  pub same_ref : (q : ℕ) → (s.disk q).ref < disk_word → (s'.disk q).ref ≡ (s.disk q).ref

-- The drivers leave the list, the ids and the counts alone, and do not hold the lock when they return.
abbrev pub Minds : {W : Type 0} → Call W → Type 0
Minds {W = W} call = (fn : ℕ) (args : List ℕ) (s : Disks W) → Quiet s (call fn args s).1

pub Quiet-refl : {W : Type 0} → (s : Disks W) → Quiet s s
Quiet-refl s = record {
  same_list = refl;
  same_lock = refl;
  same_id = refl;
  same_ids = λ q. refl;
  same_next = λ q. refl;
  same_ref = λ q _. refl;
}

pub Quiet-trans : {W : Type 0} → (s t u : Disks W) → Quiet s t → Quiet t u → Quiet s u
Quiet-trans s t u i j = record {
  same_list = j.same_list ∙ i.same_list;
  same_lock = j.same_lock ∙ i.same_lock;
  same_id = j.same_id ∙ i.same_id;
  same_ids = λ q. j.same_ids q ∙ i.same_ids q;
  same_next = λ q. j.same_next q ∙ i.same_next q;
  same_ref = λ q small.
      j.same_ref q (subst (λ r. r < disk_word) (sym (i.same_ref q small)) small)
      ∙ i.same_ref q small;
}

pub Quiet-Listed :
    {W : Type 0}
    → (s s' : Disks W) (p : ℕ) (ds : List ℕ) → Quiet s s'
    → Listed s.disk p ds
    → Listed s'.disk p ds
Quiet-Listed s s' p [] quiet at = at
Quiet-Listed s s' p (x ∷ xs) quiet (at, ne, its_id, ref, listed) = (
  at,
  ne,
  quiet.same_ids x ∙ its_id,
  subst (λ r. r < disk_word) (sym (quiet.same_ref x ref)) ref,
  subst (λ q. Listed s'.disk q xs) (sym (quiet.same_next x))
      (Quiet-Listed s s' (s.disk x).next xs quiet listed),
)

pub Quiet-IsDisks :
    {W : Type 0} → (s s' : Disks W) (ds : List ℕ) → Quiet s s' → IsDisks s ds → IsDisks s' ds
Quiet-IsDisks s s' ds quiet h = record {
  listed =
      subst (λ q. Listed s'.disk q ds) (sym quiet.same_list)
        (Quiet-Listed s s' s.disk_list ds quiet h.listed);
  next_id = quiet.same_id ∙ h.next_id;
  few = h.few;
  free_lock = quiet.same_lock ∙ h.free_lock;
}

pub add_ref_self :
    {W : Type 0}
    → (p k : ℕ) (s : Disks W) → ((add_ref p k s).disk p).ref ≡ ((s.disk p).ref + k) % disk_word
add_ref_self p k s = ground arith

add_ref_ne : {W : Type 0} → (p k q : ℕ) (s : Disks W) → q ≢ p → (add_ref p k s).disk q ≡ s.disk q
add_ref_ne p k q s ne = ground arith

-- The count goes up and down again.
module _ {W : Type 0} (call : Call W) (minds : Minds call) (s : Disks W) (p : ℕ) (op : Disk → ℕ)
    (args : List ℕ) where
  abbrev during : Disks W
  during = (call (op (s.disk p)) (p ∷ args) (add_ref p 1 s)).1

  ref_restored :
      (q : ℕ)
      → (s.disk q).ref < disk_word
      → ((add_ref p (disk_word - 1) during).disk q).ref ≡ (s.disk q).ref
  ref_restored q small =
      let quiet = minds (op (s.disk p)) (p ∷ args) (add_ref p 1 s) in
      elim (ℕ_discrete q p) [
        | yes e ↦
            let up = quiet.same_ref p (omega (arith, add_ref_self p 1 s)) in
            ap (λ r. ((add_ref p (disk_word - 1) during).disk r).ref) e
            ∙ omega (
              arith,
              up,
              small,
              add_ref_self p 1 s,
              add_ref_self p (disk_word - 1) during,
              ap (λ r. (s.disk r).ref) e,
            )
            ∙ ap (λ r. (s.disk r).ref) (sym e)
        | no ne ↦
            let same = ap (λ (d : Disk). d.ref) (add_ref_ne p 1 q s ne) in
            ap (λ (d : Disk). d.ref) (add_ref_ne p (disk_word - 1) q during ne)
            ∙ quiet.same_ref q (subst (λ r. r < disk_word) (sym same) small)
            ∙ same
      ]

  pub with_ref-Quiet : Quiet s (with_ref call p op args s).1
  unfolding with_ref
  with_ref-Quiet =
      let quiet = minds (op (s.disk p)) (p ∷ args) (add_ref p 1 s) in
      record {
        same_list = quiet.same_list;
        same_lock = quiet.same_lock;
        same_id = quiet.same_id;
        same_ids = λ q. ground (arith, quiet.same_ids q);
        same_next = λ q. ground (arith, quiet.same_next q);
        same_ref = ref_restored;
      }
