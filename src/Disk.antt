-- ===== src/Disk.antt =====
-- kernel/disk.c and include/disk.h: the list of disks and the requests to their drivers. The structures
-- `disk`, `file` and `dir` are records at their addresses, NULL is 0. A call through a function pointer
-- of a disk is a parameter: it takes the pointer and the arguments, all of them machine words, and may
-- change the whole state, in which `driver` is what the drivers keep for themselves. `malloc` is an
-- argument, the address that it returns; what is given to `free` is listed. Loops over the list and over
-- a path run on fuel; `none` means that it is used up.
pub mod Register
pub mod Requests
pub mod Format
mod Examples
use test_os.Base.{
  ℕ, zero, suc, ◌+◌, ◌-◌, ◌*◌, ◌%◌, ◌^◌, Bool, true, false, ◌&&◌, ◌||◌, not, Option, none, some,
  List, [], ◌∷◌, bit_and, bit_or, ltb, leb, ◌==◌, if◌then◌else◌, ◌>>=◌,
}
use test_os.Base.Memory.{Memory}

abbrev pub kernel_disk_id_start : ℕ
kernel_disk_id_start = 14945

abbrev pub kernel_disk_id_end : ℕ
kernel_disk_id_end = 14970

abbrev pub fs_request_type_size : ℕ
fs_request_type_size = 16

abbrev pub file_seek_end : ℕ
file_seek_end = 2

abbrev pub disk_word : ℕ
disk_word = 2 ^ 32

-- -1
abbrev pub failed : ℕ
failed = disk_word - 1

-- `struct disk`; the operations are function pointers.
pub record Disk : Type 0 where
  pub id : ℕ
  pub name : ℕ
  pub total : ℕ
  pub free : ℕ
  pub used : ℕ
  pub ref : ℕ
  pub device_read : ℕ
  pub device_write : ℕ
  pub fs_file_open : ℕ
  pub fs_file_close : ℕ
  pub fs_file_read : ℕ
  pub fs_file_write : ℕ
  pub fs_file_seek : ℕ
  pub fs_dir_open : ℕ
  pub fs_dir_close : ℕ
  pub fs_dir_read : ℕ
  pub fs_dir_create_entry : ℕ
  pub fs_dir_create : ℕ
  pub fs_request : ℕ
  pub device : ℕ
  pub fs : ℕ
  pub fs_type : ℕ
  pub next : ℕ

-- `struct file`
pub record File : Type 0 where
  pub id : ℕ
  pub disk : ℕ
  pub path : List ℕ
  pub fs_file : ℕ

-- `struct dir`
pub record Dir : Type 0 where
  pub id : ℕ
  pub disk : ℕ
  pub path : List ℕ
  pub fs_dir : ℕ

-- The static variables, the structures in memory, the bytes in memory, and what was given to `free`.
pub record Disks (W : Type 0) : Type 0 where
  pub disk_list : ℕ
  pub disk_lock : ℕ
  pub disk_id : ℕ
  pub disk : ℕ → Disk
  pub file : ℕ → File
  pub dir : ℕ → Dir
  pub memory : Memory
  pub freed : List ℕ
  pub driver : W

-- `fn(args)` through a function pointer of a disk.
abbrev pub Call : Type 0 → Type 0
Call W = (fn : ℕ) → List ℕ → Disks W → ℕ × Disks W

abbrev pub write_disk : (ℕ → Disk) → ℕ → Disk → ℕ → Disk
write_disk disks p d q = if p == q then d else disks q

-- `while (node != NULL)`: the disk, or NULL.
unfoldable pub find_node : ℕ → (ℕ → Disk) → (p id : ℕ) → Option ℕ
find_node zero disks p id = none
find_node (suc fuel) disks p id =
    let rest = find_node fuel disks (disks p).next id in
    if p == 0 then some 0 else if (disks p).id == id then some p else rest

unfoldable pub find_disk_by_id : {W : Type 0} → ℕ → (id : ℕ) → Disks W → Option (ℕ × Disks W)
unfolding find_node
find_disk_by_id fuel id s =
    let locked = record s { disk_lock = bit_or s.disk_lock 1 } in
    find_node fuel locked.disk locked.disk_list (id % 2 ^ 16) >>= λ p.
    some (p, record locked { disk_lock = bit_and locked.disk_lock 0 })

-- The structure of a new disk; `unknown` is the address of `UNKNOWN_FS_TYPE`.
abbrev pub new_disk : (id name unknown next : ℕ) → Disk
new_disk id name unknown next = record {
  id = id;
  name = name;
  total = 0;
  free = 0;
  used = 0;
  ref = 0;
  device_read = 0;
  device_write = 0;
  fs_file_open = 0;
  fs_file_close = 0;
  fs_file_read = 0;
  fs_file_write = 0;
  fs_file_seek = 0;
  fs_dir_open = 0;
  fs_dir_close = 0;
  fs_dir_read = 0;
  fs_dir_create_entry = 0;
  fs_dir_create = 0;
  fs_request = 0;
  device = 0;
  fs = 0;
  fs_type = unknown;
  next = next;
}

-- `++(disk_id.number)`, a byte.
abbrev pub next_disk_id : ℕ → ℕ
next_disk_id all = all - all % 256 + (all % 256 + 1) % 256

-- `p` is what `malloc` returns; the failed assertion is `none`, NULL is 0.
unfoldable pub disk_register : {W : Type 0} → (p name unknown : ℕ) → Disks W → Option (ℕ × Disks W)
disk_register p name unknown s =
    if ltb kernel_disk_id_end s.disk_id
    then some (0, s)
    else if p == 0
    then none
    else some (
      p,
      record s {
        disk = write_disk s.disk p (new_disk s.disk_id name unknown s.disk_list);
        disk_list = p;
        disk_id = next_disk_id s.disk_id;
      },
    )

-- `disk->ref += k`
abbrev pub add_ref : {W : Type 0} → (p k : ℕ) → Disks W → Disks W
add_ref p k s = record s {
  disk = write_disk s.disk p (record (s.disk p) { ref = ((s.disk p).ref + k) % disk_word });
}

-- A request to the driver of the disk `p`, which is counted in `ref` while it runs.
unfoldable pub with_ref :
    {W : Type 0} → Call W → (p : ℕ) → (Disk → ℕ) → List ℕ → Disks W → ℕ × Disks W
with_ref call p op args s =
    let done = call (op (s.disk p)) (p ∷ args) (add_ref p 1 s) in
    (done.0, add_ref p (disk_word - 1) done.1)

-- The tests before a request: a disk id, a disk with the id, an operation of its driver.
unfoldable pub to_driver :
    {W : Type 0}
    → ℕ
    → (id : ℕ) → (Disk → ℕ)
    → (error : ℕ) → (ℕ → Disks W → Option (ℕ × Disks W))
    → Disks W
    → Option (ℕ × Disks W)
unfolding find_disk_by_id
to_driver fuel id op error act s =
    if leb kernel_disk_id_start id && leb id kernel_disk_id_end
    then find_disk_by_id fuel id s >>= (λ found.
      if not (found.0 == 0) && not (op (found.1.disk found.0) == 0)
      then act found.0 found.1
      else some (error, found.1))
    else some (error, s)

-- `while (*path && *path != '/')`
unfoldable pub skip_path : ℕ → Memory → ℕ → Option ℕ
skip_path zero m path = none
skip_path (suc fuel) m path =
    let rest = skip_path fuel m (path + 1) in
    if (m path == 0) || (m path == b'/') then some path else rest

-- `*(uint16_t *)path`
abbrev pub disk_path_id : Memory → ℕ → ℕ
disk_path_id m path = m path + m (path + 1) * 256

abbrev pub write_file : (ℕ → File) → ℕ → File → ℕ → File
write_file files p f q = if p == q then f else files q

abbrev pub write_dir : (ℕ → Dir) → ℕ → Dir → ℕ → Dir
write_dir dirs p d q = if p == q then d else dirs q

-- `if (p != NULL) free(p);`
abbrev pub free_some : {W : Type 0} → ℕ → Disks W → Disks W
free_some p s = if p == 0 then s else record s { freed = p ∷ s.freed }
