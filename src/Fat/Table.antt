-- ===== src/Fat/Table.antt =====
-- The buffer of the file allocation table in kernel/fat32.c, `commit_fat32_buffer` to
-- `set_next_cluster_fat32`. A file system is a pointer `fs`, and `fs_at` is what it points to.
pub mod View
pub mod Fetch
pub mod Total
pub mod Entries
use test_os.Base.{
  ℕ, zero, suc, ◌+◌, ◌-◌, ◌*◌, ◌/◌, ◌%◌, ◌^◌, Bool, true, false, not, ◌&&◌, ltb, bit_or, ◌==◌,
  if◌then◌else◌,
}
use test_os.Base.Memory.{Memory, load32, store32}
use test_os.Fat.{Device, FatFs, fat_word}
use test_os.Fat.Transfer.{fill}

-- The global variables, with the devices.
pub record Cache (S : Type 0) : Type 0 where
  pub device : S
  pub fat32_buf : Memory
  pub fat32_buf_fs : ℕ
  pub fat32_buf_sector : ℕ
  pub fat32_buf_changed : Bool

abbrev pub fat32_sector : ℕ → ℕ
fat32_sector cluster = cluster * 4 % fat_word / 512

abbrev pub fat32_offset : ℕ → ℕ
fat32_offset cluster = cluster * 4 % fat_word % 512

module _ (d : Device) where
  -- The buffer goes to each of the `num_fats` tables that are left.
  unfoldable pub write_fats :
      (disk num_fats fat_sectors sector : ℕ) (buf : Memory) → d.State → Bool × d.State
  write_fats disk zero fat_sectors sector buf s = (true, s)
  write_fats disk (suc num_fats) fat_sectors sector buf s =
      let w = d.device_write s disk sector 2 buf in
      let rest = write_fats disk num_fats fat_sectors ((sector + fat_sectors) % fat_word) buf w.1 in
      if w.0 then rest else w

module _ (d : Device) (fs_at : ℕ → FatFs) where
  -- A result of true is 0, one of false is -FAT_EIO.
  unfoldable pub commit_fat32_buffer : (disk fs : ℕ) → Cache d.State → Bool × Cache d.State
  unfolding write_fats
  commit_fat32_buffer disk fs c =
      let w =
        write_fats d disk ((fs_at fs).num_fats) ((fs_at fs).fat_sectors) c.fat32_buf_sector
          c.fat32_buf c.device in
      if not (fs == c.fat32_buf_fs)
      then (true, c)
      else if w.0
      then (true, record c { device = w.1; fat32_buf_changed = false })
      else (false, record c { device = w.1 })

  -- The read of the buffer, and what it is for.
  unfoldable pub load_fat32_buffer : (disk fs sector : ℕ) → Cache d.State → Bool × Cache d.State
  load_fat32_buffer disk fs sector c =
      let r = d.device_read c.device disk sector 2 in
      let loaded = record c { fat32_buf = fill c.fat32_buf 0 1024 r.1 } in
      if r.0
      then (
        true,
        record loaded { fat32_buf_fs = fs; fat32_buf_sector = sector; fat32_buf_changed = false },
      )
      else (false, record loaded { fat32_buf_fs = 0 })

  -- The buffer is `fat32_buf` of the result; false is `NULL`.
  unfoldable pub get_fat32_buffer : (disk fs sector : ℕ) → Cache d.State → Bool × Cache d.State
  unfolding commit_fat32_buffer load_fat32_buffer
  get_fat32_buffer disk fs sector c =
      let sector = (sector + (fs_at fs).reserved_sectors) % fat_word in
      let committed = commit_fat32_buffer disk c.fat32_buf_fs c in
      if (fs == c.fat32_buf_fs) && (sector == c.fat32_buf_sector)
      then (true, c)
      else if c.fat32_buf_changed && not (c.fat32_buf_fs == 0)
      then (if committed.0
          then load_fat32_buffer disk fs sector committed.1
          else (false, record committed.1 { fat32_buf_fs = 0 }))
      else load_fat32_buffer disk fs sector c

  unfoldable pub get_next_cluster_fat32 : (disk fs cluster : ℕ) → Cache d.State → ℕ × Cache d.State
  unfolding get_fat32_buffer
  get_next_cluster_fat32 disk fs cluster c =
      let r = get_fat32_buffer disk fs (fat32_sector cluster) c in
      let value = load32 r.1.fat32_buf (fat32_offset cluster) in
      if r.0
      then (if ltb 268435445 value then bit_or value 4026531840 else value, r.1)
      else (0, r.1)

  unfoldable pub set_next_cluster_fat32 :
      (disk fs cluster next : ℕ) → Cache d.State → Bool × Cache d.State
  unfolding get_fat32_buffer
  set_next_cluster_fat32 disk fs cluster next c =
      let r = get_fat32_buffer disk fs (fat32_sector cluster) c in
      if r.0
      then (
        true,
        record r.1 {
          fat32_buf = store32 r.1.fat32_buf (fat32_offset cluster) next;
          fat32_buf_changed = true;
        },
      )
      else r
