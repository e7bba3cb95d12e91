-- ===== src/Fat/Blocks.antt =====
-- The list of a file's clusters in kernel/fat32.c: `fat32_file_open_by_dir_entry`, and what
-- `fat32_truncate_file` and `fat32_extend_file` do up to the commit of the table. A list of size 0
-- stands for `NULL`, and `malloc` and `realloc` have enough memory.
pub mod Chain
pub mod Open
pub mod Free
pub mod Commit
pub mod Take
pub mod Grow
pub mod Extend
pub mod Truncate
use test_os.Base.{
  ℕ, zero, suc, ◌+◌, ◌-◌, ◌*◌, ◌/◌, ◌%◌, ◌^◌, Bool, true, false, not, ◌&&◌, ltb, leb, ◌==◌,
  if◌then◌else◌, Option, some, none,
}
use test_os.Base.Memory.{Memory}
use test_os.Fat.{Device, FatFs, FatFile, DirEntry, fat_word}
use test_os.Fat.Transfer.{cluster_size, get_data_cluster_offset}
use test_os.Fat.Table.{Cache, commit_fat32_buffer, get_next_cluster_fat32, set_next_cluster_fat32}

-- `NUM_CLUSTERS`
abbrev pub num_clusters : (x cluster_size : ℕ) → ℕ
num_clusters x cluster_size = (x + cluster_size + (fat_word - 1)) % fat_word / cluster_size

-- `blocklist[i] = cluster`
abbrev pub put_block : (ℕ → ℕ) → (i cluster : ℕ) → ℕ → ℕ
put_block blocklist i cluster k = if k == i then cluster else blocklist k

-- The number of clusters that have been followed, with the list and its size; an error; or the fuel is
-- used up, since the code follows a chain with a loop for ever.
pub data Followed : Type 0 where
  ended : (i blocklist_size : ℕ) (blocklist : ℕ → ℕ) → Followed
  broken : Followed
  running : Followed

pub data Opened : Type 0 where
  opened : FatFile → Opened
  failed : Opened
  still : Opened

pub data Failure : Type 0 where
  eio : Failure
  enospc : Failure

module _ (d : Device) (fs_at : ℕ → FatFs) (disk fs : ℕ) where
  -- The loop of `fat32_file_open_by_dir_entry`.
  unfoldable pub follow :
      (fuel i blocklist_size : ℕ) (blocklist : ℕ → ℕ) → Cache d.State → Followed × Cache d.State
  unfolding get_next_cluster_fat32
  follow zero i blocklist_size blocklist c = (running, c)
  follow (suc fuel) i blocklist_size blocklist c =
      let r = get_next_cluster_fat32 d fs_at disk fs (blocklist (i - 1)) c in
      let grown = if leb blocklist_size i then blocklist_size * 2 % fat_word else blocklist_size in
      let rest = follow fuel (i + 1) grown (put_block blocklist i r.0) r.1 in
      if r.0 == 0
      then (broken, r.1)
      else if leb 4294967288 r.0
      then (ended i blocklist_size blocklist, r.1)
      else rest

  -- The file, with the size if it was not known.
  abbrev pub opened_file : DirEntry → Followed → Opened
  opened_file entry (ended i blocklist_size blocklist) = opened (record {
    size = if entry.size == 0 then i * cluster_size (fs_at fs) % fat_word else entry.size;
    blocklist_size = blocklist_size;
    blocklist = blocklist;
    dir_entry = entry;
  })
  opened_file entry broken = failed
  opened_file entry running = still

  unfoldable pub fat32_file_open_by_dir_entry :
      (fuel : ℕ) → DirEntry → Cache d.State → Opened × Cache d.State
  unfolding follow
  fat32_file_open_by_dir_entry fuel entry c =
      let blocklist_size =
        if entry.size == 0 then 1 else num_clusters entry.size (cluster_size (fs_at fs)) in
      let r = follow fuel 1 blocklist_size (λ k. entry.first_cluster) c in
      if entry.first_cluster == 0
      then (
        opened (record {
          size = entry.size;
          blocklist_size = 0;
          blocklist = (λ k. 0);
          dir_entry = entry;
        }),
        c,
      )
      else (opened_file entry r.0, r.1)

  -- The loops of `fat32_truncate_file`: `n` clusters from `i` on are free again.
  unfoldable pub free_blocks : (n i : ℕ) (blocklist : ℕ → ℕ) → Cache d.State → Bool × Cache d.State
  unfolding set_next_cluster_fat32
  free_blocks zero i blocklist c = (true, c)
  free_blocks (suc n) i blocklist c =
      let w = set_next_cluster_fat32 d fs_at disk fs (blocklist i) 0 c in
      let after = free_blocks n (i + 1) blocklist w.1 in
      let skipped = free_blocks n (i + 1) blocklist c in
      if leb 2 (blocklist i) then if w.0 then after else w else skipped

  -- The number of clusters that stay.
  abbrev pub truncated_blocks : (new_size : ℕ) → ℕ
  truncated_blocks new_size =
      let n = num_clusters new_size (cluster_size (fs_at fs)) in
      if new_size == 0 then 0 else if n == 0 then 1 else n

  -- `if (file->blocklist != NULL)` of `fat32_truncate_file`.
  unfoldable pub truncate_blocks :
      (new_blocks : ℕ) → FatFile → Cache d.State → Bool × FatFile × Cache d.State
  unfolding free_blocks set_next_cluster_fat32 commit_fat32_buffer
  truncate_blocks new_blocks file c =
      let all = free_blocks file.blocklist_size 0 file.blocklist c in
      let tail = free_blocks (file.blocklist_size - new_blocks) new_blocks file.blocklist c in
      let last =
        set_next_cluster_fat32 d fs_at disk fs (file.blocklist (new_blocks - 1)) 268435455 tail.1 in
      let none_left = record file {
        blocklist = (λ k. 0);
        blocklist_size = 0;
        dir_entry = record file.dir_entry { first_cluster = 0 };
      } in
      let after_all = commit_fat32_buffer d fs_at disk fs all.1 in
      let after_last = commit_fat32_buffer d fs_at disk fs last.1 in
      let after = commit_fat32_buffer d fs_at disk fs c in
      if file.blocklist_size == 0
      then (true, file, c)
      else if new_blocks == 0
      then (if all.0 then (after_all.0, none_left, after_all.1) else (false, file, all.1))
      else if ltb new_blocks file.blocklist_size
      then (if tail.0 && last.0
          then (after_last.0, record file { blocklist_size = new_blocks }, after_last.1)
          else (false, file, if tail.0 then last.1 else tail.1))
      else (after.0, file, after.1)

  -- The inner loop of `fat32_extend_file`: the cluster that it stops at, which is free or the end.
  unfoldable pub find_free : (n j : ℕ) → Cache d.State → ℕ × Cache d.State
  unfolding get_next_cluster_fat32
  find_free zero j c = (j, c)
  find_free (suc n) j c =
      let r = get_next_cluster_fat32 d fs_at disk fs j c in
      let rest = find_free n (j + 1) r.1 in
      let skipped = find_free n (j + 1) c in
      if ltb j 2 then skipped else if r.0 == 0 then (j, r.1) else rest

  -- `zero_cluster` is what stands in memory at that array: 512 zeros, and the bytes behind it.
  module _ (zero_cluster : Memory) where
    unfoldable pub fat32_zero_cluster : (cluster_idx : ℕ) → Cache d.State → Bool × Cache d.State
    unfolding get_data_cluster_offset
    fat32_zero_cluster cluster_idx c =
        let w =
          d.device_write c.device disk (get_data_cluster_offset (fs_at fs) cluster_idx)
            ((fs_at fs).cluster_sectors) zero_cluster in
        (w.0, record c { device = w.1 })

    -- What is done with the free cluster `j`, for the place `i` of the list.
    unfoldable pub take_block : (i j : ℕ) → FatFile → Cache d.State → Bool × FatFile × Cache d.State
    unfolding fat32_zero_cluster set_next_cluster_fat32
    take_block i j file c =
        let zeroed = fat32_zero_cluster j c in
        let listed = record file { blocklist = put_block file.blocklist i j } in
        let marked = set_next_cluster_fat32 d fs_at disk fs j 268435455 zeroed.1 in
        let linked = set_next_cluster_fat32 d fs_at disk fs (listed.blocklist (i - 1)) j marked.1 in
        if not zeroed.0
        then (false, file, zeroed.1)
        else if not marked.0
        then (false, listed, marked.1)
        else if i == 0
        then (
          true,
          record listed { dir_entry = record listed.dir_entry { first_cluster = j } },
          marked.1,
        )
        else (linked.0, listed, linked.1)

    -- The outer loop.
    unfoldable pub allocate :
        (end rounds i free_index : ℕ)
        → FatFile
        → Cache d.State
        → Option Failure × FatFile × Cache d.State
    unfolding find_free take_block
    allocate end zero i free_index file c = (none, file, c)
    allocate end (suc rounds) i free_index file c =
        let found = find_free (end - free_index) free_index c in
        let taken = take_block i found.0 file found.1 in
        let rest = allocate end rounds (i + 1) (found.0 + 1) taken.1 taken.2 in
        if leb end found.0
        then (some enospc, file, found.1)
        else if taken.0
        then rest
        else (some eio, taken.1, taken.2)

    -- `if (new_blocklist_size > old_blocklist_size)`, which ends with the commit.
    unfoldable pub extend_blocks :
        (new_blocklist_size : ℕ)
        → FatFile
        → Cache d.State
        → Option Failure × FatFile × Cache d.State
    unfolding allocate commit_fat32_buffer
    extend_blocks new_blocklist_size file c =
        let g = fs_at fs in
        let sectors = (g.total_sectors + (fat_word - g.first_data_cluster)) % fat_word in
        let r =
          allocate (num_clusters sectors g.cluster_sectors + 2)
            (new_blocklist_size - file.blocklist_size) file.blocklist_size 2
            (record file { blocklist_size = new_blocklist_size }) c in
        let committed = commit_fat32_buffer d fs_at disk fs r.2 in
        if ltb file.blocklist_size new_blocklist_size
        then elim r.0 [
          | some e ↦ r
          | none ↦ (if committed.0 then none else some eio, r.1, committed.1)
        ]
        else (none, file, c)
