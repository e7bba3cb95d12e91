-- ===== src/Fat.antt =====
-- kernel/fat32.c: the FAT32 file system. The device under a disk is an interface, `Device`: `struct disk`
-- reaches it through the pointers `device_read` and `device_write`. A byte of a disk has the address
-- `sector * 512 + offset`.
pub mod Blocks
pub mod Table
pub mod Transfer
pub mod Names
pub mod Files
mod Examples
use test_os.Base.{
  ℕ, zero, suc, ◌+◌, ◌-◌, ◌*◌, ◌%◌, ◌^◌, ◌<◌, ◌≡◌, Bool, true, ◌&&◌, ◌==◌, if◌then◌else◌,
}
use test_os.Base.Memory.{Memory, within}

abbrev pub sector_size : ℕ
sector_size = 512

abbrev pub fat_word : ℕ
fat_word = 2 ^ 32

-- The devices of all disks: a request names the disk, the first sector and the number of sectors. Its
-- result is not 0 where the Boolean is true. What a failing read leaves in the buffer, and a failing
-- write on the disk, is open.
pub record Device : Type 1 where
  pub State : Type 0
  pub device_read : State → (disk sector count : ℕ) → Bool × (ℕ → ℕ)
  pub device_write : State → (disk sector count : ℕ) → (ℕ → ℕ) → Bool × State

-- What a device promises: `bytes` is what is on the disks.
pub record IsLawful (d : Device) : Type 0 where
  pub bytes : d.State → (disk : ℕ) → Memory
  pub bytes-device_read :
      (s : d.State) (disk sector count i : ℕ)
      → (d.device_read s disk sector count).0 ≡ true
      → i < count * sector_size
      → (d.device_read s disk sector count).1 i ≡ bytes s disk (sector * sector_size + i)
  pub bytes-device_write :
      (s : d.State) (disk sector count : ℕ) (buf : ℕ → ℕ) (e a : ℕ)
      → (d.device_write s disk sector count buf).0 ≡ true
      → bytes (d.device_write s disk sector count buf).1 e a ≡ (
          if (e == disk) && within (sector * sector_size) (count * sector_size) a
          then buf (a - sector * sector_size)
          else bytes s e a)

-- No request fails.
pub record Works (d : Device) : Type 0 where
  pub reads : (s : d.State) (disk sector count : ℕ) → (d.device_read s disk sector count).0 ≡ true
  pub writes :
      (s : d.State) (disk sector count : ℕ) (buf : ℕ → ℕ)
      → (d.device_write s disk sector count buf).0 ≡ true

-- `struct fat32_fs` with the fields of its `bpb` that are used after the check.
pub record FatFs : Type 0 where
  pub cluster_sectors : ℕ
  pub reserved_sectors : ℕ
  pub num_fats : ℕ
  pub fat_sectors : ℕ
  pub rootdir_cluster : ℕ
  pub total_sectors : ℕ
  pub first_data_cluster : ℕ

-- `struct fat32_dir_entry`; an array of characters is a function of the index.
pub record DirEntry : Type 0 where
  pub index_in_dir : ℕ
  pub dir_first_cluster : ℕ
  pub name : ℕ → ℕ
  pub first_cluster : ℕ
  pub attrib : ℕ
  pub size : ℕ

-- `struct fat32_file`; `blocklist` has `blocklist_size` words, of which the first are set.
pub record FatFile : Type 0 where
  pub size : ℕ
  pub blocklist_size : ℕ
  pub blocklist : ℕ → ℕ
  pub dir_entry : DirEntry
