-- ===== src/Disk/Format/Checks.antt =====
-- The file systems of kernel/disk.c leave the list of disks alone.
use test_os.Base.{
  ℕ, zero, suc, ◌<◌, ◌≡◌, inl, inr, refl, sym, ◌∙◌, ap, subst, arith, true, false, List, [], ◌∷◌,
  length, ◌==◌, some, Bool-cases,
}
use test_os.Disk.{Disks, Call}
use test_os.Disk.Register.{Listed, IsDisks}
use test_os.Disk.Requests.Served.{
  Quiet, Minds, Quiet-refl, Quiet-trans, Quiet-Listed, Quiet-IsDisks,
}
use test_os.Disk.Format.{FsOpts, check_with, check_loop, init_disk}

module _ {W : Type 0} (call : Call W) (minds : Minds call) (fuel : ℕ) where
  check_with-Quiet :
      (opts : List FsOpts) (p : ℕ) (s : Disks W) → Quiet s (check_with call fuel opts p s)
  unfolding check_with
  check_with-Quiet [] p s = Quiet-refl s
  check_with-Quiet (o ∷ opts) p s =
      let checked = call o.check (p ∷ []) s in
      let here = minds o.check (p ∷ []) s in
      elim (Bool-cases (checked.0 == 0)) [
        | inl e ↦ rw e here
        | inr ne ↦ rw ne (
            Quiet-trans s checked.1 (check_with call fuel opts p checked.1) here
              (check_with-Quiet opts p checked.1))
      ]

  check_loop-Quiet :
      (ds : List ℕ) (rounds : ℕ) (opts : List FsOpts) (p : ℕ) (s : Disks W)
      → length ds < rounds
      → Listed s.disk p ds
      → (s' : Disks W) × (check_loop call fuel rounds opts p s ≡ some s') × Quiet s s'
  unfolding check_loop
  check_loop-Quiet ds zero opts p s few listed = absurd (omega arith)
  check_loop-Quiet [] (suc rounds) opts p s few at =
      let test : (p == 0) ≡ true = ground arith in rw test (s, refl, Quiet-refl s)
  check_loop-Quiet (x ∷ xs) (suc rounds) opts p s few (at, ne, its_id, ref, listed) =
      let test : (p == 0) ≡ false = ground arith in
      let checked = check_with call fuel opts p s in
      let quiet = check_with-Quiet opts p s in
      let start : (checked.disk p).next ≡ (s.disk x).next =
        quiet.same_next p ∙ ap (λ q. (s.disk q).next) at in
      let (s', ran, after) =
        check_loop-Quiet xs rounds opts (checked.disk p).next checked (omega arith) (
          subst (λ q. Listed checked.disk q xs) (sym start)
            (Quiet-Listed s checked (s.disk x).next xs quiet listed)) in
      rw test (s', ran, Quiet-trans s checked s' quiet after)

-- With file systems that mind the list, the registered disks and fuel above their number, `init_disk`
-- returns, and the disks stay registered as they are.
pub init_disk-IsDisks :
    {W : Type 0}
    → (call : Call W) (fuel : ℕ) (opts : List FsOpts) (s : Disks W) (ds : List ℕ) → Minds call
    → IsDisks s ds
    → length ds < fuel
    → (s' : Disks W) × (init_disk call fuel opts s ≡ some s') × Quiet s s' × IsDisks s' ds
unfolding init_disk
init_disk-IsDisks call fuel opts s ds minds h few =
    let (s', ran, quiet) =
      check_loop-Quiet call minds fuel ds fuel opts s.disk_list s few h.listed in
    (s', ran, quiet, Quiet-IsDisks s s' ds quiet h)
