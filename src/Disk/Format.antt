-- ===== src/Disk/Format.antt =====
-- `disk_format` and `init_disk` of kernel/disk.c, without what they print. The table `fs_opts` of
-- kernel/fs.h is a parameter: each entry has the address of its name and two functions.
pub mod Checks
use test_os.Base.{
  ℕ, zero, suc, ◌+◌, ◌<◌, ◌≡◌, ◌≢◌, Bool, true, false, not, ◌||◌, Option, none, some, List, [], ◌∷◌,
  ◌==◌, if◌then◌else◌, ◌>>=◌,
}
use test_os.Base.Memory.{load32}
use test_os.Cstring.{Order, less, same, more, strcmp}
use test_os.Disk.{Disk, Disks, Call, find_disk_by_id}

-- An entry of `fs_opts`.
pub record FsOpts : Type 0 where
  pub type_name : ℕ
  pub check : ℕ
  pub format : ℕ

-- `!strcmp(…)`
abbrev pub is_same : Order → Bool
is_same less = false
is_same same = true
is_same more = false

module _ {W : Type 0} (call : Call W) (fuel : ℕ) where
  -- `for (i = 0; …)` of `disk_format`: the entry with the name formats the disk, then checks it.
  unfoldable pub format_with : List FsOpts → (fs_type p : ℕ) → Disks W → Option (Disks W)
  format_with [] fs_type p s = some s
  format_with (o ∷ opts) fs_type p s =
      let rest = format_with opts fs_type p s in
      let formatted = call o.format (p ∷ []) s in
      let checked = call o.check (p ∷ []) formatted.1 in
      strcmp fuel s.memory fs_type o.type_name >>= (λ r.
        if is_same r then some (if formatted.0 == 0 then checked.1 else formatted.1) else rest)

  -- `id` points to the letter of the disk.
  unfoldable pub disk_format : List FsOpts → (id fs_type : ℕ) → Disks W → Option (Disks W)
  unfolding format_with
  disk_format opts id fs_type s = find_disk_by_id fuel (load32 s.memory id) s >>= (λ found.
      if found.0 == 0 || not ((found.1.disk found.0).ref == 0)
      then some found.1
      else format_with opts fs_type found.0 found.1)

  -- `for (i = 0; …)` of `init_disk`: the first file system whose check succeeds takes the disk.
  unfoldable pub check_with : List FsOpts → (p : ℕ) → Disks W → Disks W
  check_with [] p s = s
  check_with (o ∷ opts) p s =
      let checked = call o.check (p ∷ []) s in
      let rest = check_with opts p checked.1 in if checked.0 == 0 then checked.1 else rest

  -- `while (node != NULL)` of `init_disk`; `none` means that the fuel is used up.
  unfoldable pub check_loop : ℕ → List FsOpts → (node : ℕ) → Disks W → Option (Disks W)
  unfolding check_with
  check_loop zero opts node s = none
  check_loop (suc rounds) opts node s =
      let checked = check_with opts node s in
      let rest = check_loop rounds opts (checked.disk node).next checked in
      if node == 0 then some s else rest

  unfoldable pub init_disk : List FsOpts → Disks W → Option (Disks W)
  unfolding check_loop
  init_disk opts s = check_loop fuel opts s.disk_list s
