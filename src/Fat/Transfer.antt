-- ===== src/Fat/Transfer.antt =====
-- Reading and writing the bytes of a file of kernel/fat32.c, from `get_data_cluster_offset` to
-- `fat32_file_rw`. Buffers do not overlap the local array of a cluster, so that `memcpy` copies them,
-- but for `NULL`, which it leaves alone.
-- A part of a cluster lies in the cluster at each call, so that the assertion on it holds.
pub mod Spots
pub mod Placed
pub mod Pieces
pub mod Read
pub mod Sound
pub mod Write
pub mod Total
pub mod Back
use test_os.Base.{
  ℕ, zero, suc, ◌+◌, ◌-◌, ◌*◌, ◌/◌, ◌%◌, ◌^◌, Bool, true, false, not, Option, none, some, min,
  bit_and, leb, ltb, ◌==◌, if◌then◌else◌,
}
use test_os.Base.Memory.{Memory, within}
use test_os.Fat.{Device, FatFs, FatFile, sector_size, fat_word}

-- The bytes `b` from `p` on.
abbrev pub fill : Memory → (p n : ℕ) → (ℕ → ℕ) → Memory
fill m p n b a = if within p n a then b (a - p) else m a

abbrev pub cluster_size : FatFs → ℕ
cluster_size fs = fs.cluster_sectors * sector_size

-- The difference `cluster_idx - 2` is one of words.
unfoldable pub get_data_cluster_offset : FatFs → (cluster_idx : ℕ) → ℕ
get_data_cluster_offset fs cluster_idx =
    (fs.first_data_cluster + fs.cluster_sectors * ((cluster_idx + (fat_word - 2)) % fat_word))
    % fat_word

unfoldable pub file_get_cluster : FatFile → (file_cluster : ℕ) → ℕ
file_get_cluster file file_cluster =
    if leb file.blocklist_size file_cluster then 0 else file.blocklist file_cluster

-- The devices, and the memory with the buffers.
pub record Io (S : Type 0) : Type 0 where
  pub device : S
  pub memory : Memory

-- A result of true is 0, one of false is -FAT_EIO.
module _ (d : Device) (disk : ℕ) (fs : FatFs) where
  unfoldable pub read_cluster : (buf cluster_idx : ℕ) → Io d.State → Bool × Io d.State
  read_cluster buf cluster_idx io =
      let r =
        d.device_read io.device disk (get_data_cluster_offset fs cluster_idx) fs.cluster_sectors in
      (r.0, record io { memory = fill io.memory buf (cluster_size fs) r.1 })

  unfoldable pub write_cluster : (buf cluster_idx : ℕ) → Io d.State → Bool × Io d.State
  write_cluster buf cluster_idx io =
      let r =
        d.device_write io.device disk (get_data_cluster_offset fs cluster_idx) fs.cluster_sectors
          (λ i. io.memory (buf + i)) in
      (r.0, record io { device = r.1 })

  unfoldable pub read_cluster_part :
      (buf cluster_idx offset len : ℕ) → Io d.State → Bool × Io d.State
  read_cluster_part buf cluster_idx offset len io =
      let r =
        d.device_read io.device disk (get_data_cluster_offset fs cluster_idx) fs.cluster_sectors in
      let copied = if buf == 0 then io.memory else fill io.memory buf len (λ i. r.1 (offset + i)) in
      if r.0 then (true, record io { memory = copied }) else (false, io)

  unfoldable pub write_cluster_part :
      (buf cluster_idx offset len : ℕ) → Io d.State → Bool × Io d.State
  write_cluster_part buf cluster_idx offset len io =
      let r =
        d.device_read io.device disk (get_data_cluster_offset fs cluster_idx) fs.cluster_sectors in
      let w =
        d.device_write io.device disk (get_data_cluster_offset fs cluster_idx) fs.cluster_sectors
          (if buf == 0 then r.1 else fill r.1 offset len (λ i. io.memory (buf + i))) in
      if r.0 then (w.0, record io { device = w.1 }) else (false, io)

  unfoldable pub rw_cluster :
      (is_write : Bool) → (buf cluster_idx : ℕ) → Io d.State → Bool × Io d.State
  unfolding read_cluster write_cluster
  rw_cluster true = write_cluster
  rw_cluster false = read_cluster

  unfoldable pub rw_cluster_part :
      (is_write : Bool) → (buf cluster_idx offset len : ℕ) → Io d.State → Bool × Io d.State
  unfolding read_cluster_part write_cluster_part
  rw_cluster_part true = write_cluster_part
  rw_cluster_part false = read_cluster_part

  module _ (file : FatFile) (is_write : Bool) where
    -- A part of the cluster `k` of the file, if the file has it.
    unfoldable pub rw_part : (p k offset_in_cluster count : ℕ) → Io d.State → Bool × Io d.State
    unfolding rw_cluster_part file_get_cluster
    rw_part p k offset_in_cluster count io =
        let disk_cluster = file_get_cluster file k in
        if disk_cluster == 0
        then (false, io)
        else rw_cluster_part is_write p disk_cluster offset_in_cluster count io

    -- `while (n >= cluster_size)`, which runs `n / cluster_size` times.
    unfoldable pub rw_whole : (rounds p k : ℕ) → Io d.State → Bool × Io d.State
    unfolding rw_cluster file_get_cluster
    rw_whole zero p k io = (true, io)
    rw_whole (suc rounds) p k io =
        let disk_cluster = file_get_cluster file k in
        let r = rw_cluster is_write p disk_cluster io in
        let rest = rw_whole rounds (p + cluster_size fs) (k + 1) r.1 in
        if disk_cluster == 0 then (false, io) else if r.0 then rest else r

    -- The whole clusters in the middle, and the begun one at the end.
    unfoldable pub rw_rest : (p k n : ℕ) → Io d.State → Bool × Io d.State
    unfolding rw_whole rw_part
    rw_rest p k n io =
        let size = cluster_size fs in
        let r = rw_whole (n / size) p k io in
        let left = n % size in
        if not r.0
        then r
        else if left == 0
        then r
        else rw_part (p + n / size * size) (k + n / size) 0 left r.1

    -- The result, or -FAT_EIO.
    unfoldable pub fat32_file_rw : (buf offset len : ℕ) → Io d.State → Option ℕ × Io d.State
    unfolding rw_rest rw_part
    fat32_file_rw buf offset len io =
        let size = cluster_size fs in
        let k = offset / size in
        let offset_in_cluster = bit_and offset (size - 1) in
        let count = min len (size - offset_in_cluster) in
        let first = rw_part buf k offset_in_cluster count io in
        let r =
          if offset_in_cluster == 0
          then rw_rest buf k len io
          else if first.0
          then rw_rest (buf + count) (k + 1) (len - count) first.1
          else first in
        (if r.0 then some len else none, r.1)
