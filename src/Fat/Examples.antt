-- ===== src/Fat/Examples.antt =====
-- The file system of kernel/fat32.c on a small disk: one sector per cluster, two tables of a sector, and
-- a file in the clusters 2 and 3.
use test_os.Base.{
  ℕ, zero, suc, ◌+◌, ◌-◌, ◌*◌, ◌<◌, ◌≡◌, inr, refl, arith, true, false, ◌&&◌, ◌==◌, if◌then◌else◌,
  some, none,
}
use test_os.Base.Memory.{Memory, within}
use test_os.Fat.{Device, IsLawful, Works, FatFs, FatFile, DirEntry, sector_size}
use test_os.Fat.Transfer.{Io, fat32_file_rw}
use test_os.Fat.Transfer.Placed.{IsPlaced}
use test_os.Fat.Transfer.Sound.{IsSound}
use test_os.Fat.Transfer.Read.{ReadTo, fat32_file_rw-ReadTo}
use test_os.Fat.Transfer.Write.{Wrote, fat32_file_rw-Wrote}
use test_os.Fat.Transfer.Total.{fat32_file_rw-some}
use test_os.Fat.Transfer.Back.{fat32_file_rw-fat32_file_rw}
use test_os.Fat.Table.{Cache, get_next_cluster_fat32, set_next_cluster_fat32}
use test_os.Fat.Table.View.{IsTable}
use test_os.Fat.Table.Entries.{
  Shows, fat_entry, get_next_cluster_fat32_lem, set_next_cluster_fat32_lem,
}
use test_os.Fat.Files.Whole.{ReadWhole, fat32_file_read-fat32_file_open_by_dir_entry}
use test_os.Fat.Names.{DiskEntry, short_fn_to_string, string_to_short_fn}
use test_os.Fat.Names.Loops.{IsShort}
use test_os.Fat.Names.Short.{short_fn_to_string-string_to_short_fn}
use test_os.Fat.Blocks.{fat32_file_open_by_dir_entry, extend_blocks, truncate_blocks}
use test_os.Fat.Blocks.Chain.{IsChain}
use test_os.Fat.Blocks.Open.{OpenedAs, fat32_file_open_by_dir_entry-IsChain}
use test_os.Fat.Blocks.Take.{IsSpace}
use test_os.Fat.Blocks.Commit.{IsSaved}
use test_os.Fat.Blocks.Extend.{HasChain, Grown, extend_blocks-Grown}
use test_os.Fat.Blocks.Truncate.{Truncated, truncate_blocks-Truncated}

-- Disks that hold what has been written.
abbrev ram : Device
ram = record {
  State = ℕ → Memory;
  device_read = λ s disk sector count. (true, λ i. s disk (sector * sector_size + i));
  device_write = λ s disk sector count buf. (
    true,
    λ e a.
        if (e == disk) && within (sector * sector_size) (count * sector_size) a
        then buf (a - sector * sector_size)
        else s e a,
  );
}

abbrev ram_laws : IsLawful ram
ram_laws = record {
  bytes = λ s. s;
  bytes-device_read = λ s disk sector count i done lt. refl;
  bytes-device_write = λ s disk sector count buf e a done. refl;
}

abbrev ram_works : Works ram
ram_works = record { reads = λ s disk sector count. refl; writes = λ s disk sector count buf. refl }

abbrev small_fs : FatFs
small_fs = record {
  cluster_sectors = 1;
  reserved_sectors = 2;
  num_fats = 2;
  fat_sectors = 1;
  rootdir_cluster = 2;
  total_sectors = 20;
  first_data_cluster = 4;
}

abbrev fs_at : ℕ → FatFs
fs_at fs = small_fs

-- The word of cluster 2 is 3, and that of cluster 3 is the end.
abbrev disks : ℕ → Memory
disks disk a = if a == 1032 then 3 else if within 1036 3 a then 255 else if a == 1039 then 15 else 0

abbrev file_entry : DirEntry
file_entry = record {
  index_in_dir = 0;
  dir_first_cluster = 0;
  name = (λ k. 0);
  first_cluster = 2;
  attrib = 0;
  size = 600;
}

abbrev two_blocks : FatFile
two_blocks = record {
  size = 600;
  blocklist_size = 2;
  blocklist = (λ k. k + 2);
  dir_entry = file_entry;
}

two_blocks-IsPlaced : IsPlaced small_fs two_blocks
two_blocks-IsPlaced = record { in_data = λ i lt. omega arith; is_word = λ i lt. omega (arith, lt) }

two_blocks-IsSound : IsSound small_fs two_blocks
two_blocks-IsSound = record {
  distinct = λ i j lt lt' e. omega (arith, e);
  placed = two_blocks-IsPlaced;
}

abbrev two_letters : Io ram.State
two_letters = record {
  device = disks;
  memory = (λ a. if a == 100 then 65 else if a == 101 then 66 else 0);
}

fat32_file_rw-fat32_file_rw_example :
    ((fat32_file_rw ram 0 small_fs two_blocks false 200 511 2
        (fat32_file_rw ram 0 small_fs two_blocks true 100 511 2 two_letters).1).0
      ≡ some 2)
    × ((a : ℕ)
        → (fat32_file_rw ram 0 small_fs two_blocks false 200 511 2
              (fat32_file_rw ram 0 small_fs two_blocks true 100 511 2 two_letters).1).1.memory
            a
          ≡ (if within 200 2 a then two_letters.memory (100 + (a - 200)) else two_letters.memory a))
fat32_file_rw-fat32_file_rw_example =
    fat32_file_rw-fat32_file_rw ram ram_laws ram_works 0 small_fs two_blocks two_blocks-IsSound 9
      100 200 511 2 two_letters refl (omega arith) (omega arith) (omega arith)

two_set : (i : ℕ) → i < 2 → (two_blocks.blocklist i == 0) ≡ false
two_set i lt = ground arith

fat32_file_rw-some_example :
    (fat32_file_rw ram 0 small_fs two_blocks true 100 511 2 two_letters).0 ≡ some 2
fat32_file_rw-some_example =
    fat32_file_rw-some ram ram_works 0 small_fs two_blocks true two_set 9 100 511 2 two_letters refl
      (omega arith)

fat32_file_rw-ReadTo_example :
    ReadTo ram ram_laws 0 small_fs two_blocks two_letters 200 511 2
      (fat32_file_rw ram 0 small_fs two_blocks false 200 511 2 two_letters).1
fat32_file_rw-ReadTo_example =
    fat32_file_rw-ReadTo ram ram_laws 0 small_fs two_blocks two_blocks-IsPlaced 9 200 511 2
      two_letters refl (omega arith)
      (fat32_file_rw-some ram ram_works 0 small_fs two_blocks false two_set 9 200 511 2 two_letters
        refl (omega arith))

fat32_file_rw-Wrote_example :
    Wrote ram ram_laws 0 small_fs two_blocks two_letters 100 511 2
      (fat32_file_rw ram 0 small_fs two_blocks true 100 511 2 two_letters).1
fat32_file_rw-Wrote_example =
    fat32_file_rw-Wrote ram ram_laws 0 small_fs two_blocks two_blocks-IsSound 9 100 511 2
      two_letters refl (omega arith)
      (fat32_file_rw-some ram ram_works 0 small_fs two_blocks true two_set 9 100 511 2 two_letters
        refl (omega arith))

small_fs-IsTable : IsTable small_fs
small_fs-IsTable = record {
  some_fats = omega arith;
  is_word = omega arith;
  few_clusters = omega arith;
}

abbrev empty_buffer : Cache ram.State
empty_buffer = record {
  device = disks;
  fat32_buf = (λ a. 0);
  fat32_buf_fs = 0;
  fat32_buf_sector = 0;
  fat32_buf_changed = false;
}

abbrev words : ℕ → ℕ
words = fat_entry ram ram_laws ram_works fs_at 0 1 refl small_fs-IsTable empty_buffer

empty_buffer-Shows : Shows ram ram_laws ram_works fs_at 0 1 refl small_fs-IsTable empty_buffer words
empty_buffer-Shows = (
  record {
    other = λ foreign. refl;
    low = λ own. absurd (cc);
    high = λ own. absurd (cc);
    clean = λ own. absurd (cc);
  },
  λ cluster lt. refl,
)

get_next_cluster_fat32_lem_example :
    ((get_next_cluster_fat32 ram fs_at 0 1 2 empty_buffer).0 ≡ 3)
    × Shows ram ram_laws ram_works fs_at 0 1 refl small_fs-IsTable
        (get_next_cluster_fat32 ram fs_at 0 1 2 empty_buffer).1
        words
get_next_cluster_fat32_lem_example =
    get_next_cluster_fat32_lem ram ram_laws ram_works fs_at 0 1 refl small_fs-IsTable 2 empty_buffer
      words empty_buffer-Shows (omega arith)

set_next_cluster_fat32_lem_example :
    ((set_next_cluster_fat32 ram fs_at 0 1 3 4 empty_buffer).0 ≡ true)
    × Shows ram ram_laws ram_works fs_at 0 1 refl small_fs-IsTable
        (set_next_cluster_fat32 ram fs_at 0 1 3 4 empty_buffer).1
        (λ k. if k == 3 then 4 else words k)
set_next_cluster_fat32_lem_example =
    set_next_cluster_fat32_lem ram ram_laws ram_works fs_at 0 1 refl small_fs-IsTable 3 4
      empty_buffer words empty_buffer-Shows (omega arith) (omega arith)

two-IsChain : IsChain words 128 2 two_blocks.blocklist
two-IsChain = record {
  has_one = omega arith;
  in_table = λ i lt. omega (arith, lt);
  in_data = λ i lt. omega arith;
  unmarked = λ i lt. omega (arith, lt);
  linked = λ i lt. first_link i (omega (arith, lt));
  ends = refl;
}
  where
    first_link : (i : ℕ) → i < 1 → words (i + 2) ≡ i + 1 + 2
    first_link zero lt = refl
    first_link (suc i) lt = absurd (omega (arith, lt))

fat32_file_open_by_dir_entry-IsChain_example :
    OpenedAs ram ram_laws ram_works fs_at 0 1 refl small_fs-IsTable words file_entry 2
      two_blocks.blocklist
      (fat32_file_open_by_dir_entry ram fs_at 0 1 2 file_entry empty_buffer)
fat32_file_open_by_dir_entry-IsChain_example =
    fat32_file_open_by_dir_entry-IsChain ram ram_laws ram_works fs_at 0 1 refl small_fs-IsTable
      words file_entry 2 2 two_blocks.blocklist empty_buffer two-IsChain
      (record { first = refl; fits = inr (omega arith, refl) }) (omega arith) (omega arith)
      empty_buffer-Shows

small_fs-IsSpace : IsSpace small_fs 18
small_fs-IsSpace = record {
  in_table = omega arith;
  unmarked = omega arith;
  some_sectors = omega arith;
  behind = omega arith;
  is_word = omega arith;
}

two_blocks-HasChain :
    HasChain ram ram_laws ram_works fs_at 0 1 refl small_fs-IsTable words 2 two_blocks
two_blocks-HasChain = record { chain = λ more. two-IsChain; first = λ more. refl }

extend_blocks-Grown_example :
    Grown ram ram_laws ram_works fs_at 0 1 refl small_fs-IsTable words 18 1 2
      (record two_blocks { blocklist_size = 3 })
      (extend_blocks ram fs_at 0 1 (λ a. 0) 3 two_blocks empty_buffer)
    × ((extend_blocks ram fs_at 0 1 (λ a. 0) 3 two_blocks empty_buffer).0 ≡ none
        → IsSaved ram ram_laws ram_works fs_at 0 1 refl small_fs-IsTable
            (extend_blocks ram fs_at 0 1 (λ a. 0) 3 two_blocks empty_buffer).2)
extend_blocks-Grown_example =
    extend_blocks-Grown ram ram_laws ram_works fs_at 0 1 refl small_fs-IsTable (λ a. 0) 3 words
      two_blocks empty_buffer small_fs-IsSpace empty_buffer-Shows two_blocks-HasChain (omega arith)

truncate_blocks-Truncated_example :
    Truncated ram ram_laws ram_works fs_at 0 1 refl small_fs-IsTable words 1 two_blocks
      (truncate_blocks ram fs_at 0 1 1 two_blocks empty_buffer)
truncate_blocks-Truncated_example =
    truncate_blocks-Truncated ram ram_laws ram_works fs_at 0 1 refl small_fs-IsTable 1 words
      two_blocks empty_buffer empty_buffer-Shows two_blocks-HasChain (omega arith)

-- `ab.d`
abbrev short_name : ℕ → ℕ
short_name k = if k == 2 then b'.' else if k == 4 then 0 else b'a' + k

short_name-IsShort : IsShort short_name 2 1
short_name-IsShort = record {
  letters = λ k lt. (ground (arith, lt), ground (arith, lt));
  more = λ k lt. (ground (arith, lt), ground (arith, lt));
  name_fits = omega arith;
  ext_fits = omega arith;
  no_ext = λ e. absurd (omega (arith, e));
  dot = λ more. refl;
  stop = λ more. refl;
}

abbrev empty_entry : DiskEntry
empty_entry = record { name = (λ k. 0); ext = (λ k. 0); attrib = 0; first_cluster = 0; size = 0 }

short_fn_to_string-string_to_short_fn_example :
    short_fn_to_string (string_to_short_fn (λ buf c p. none) empty_entry short_name) (λ k. 0) 3
    ≡ b'd'
short_fn_to_string-string_to_short_fn_example =
    short_fn_to_string-string_to_short_fn (λ buf c p. none) empty_entry short_name (λ k. 0) 2 1 3
      short_name-IsShort (omega arith)

fat32_file_read-fat32_file_open_by_dir_entry_example :
    ReadWhole ram ram_laws ram_works fs_at 0 1 refl small_fs-IsTable two_blocks.blocklist
      two_letters.memory 200 500 100
      (fat32_file_open_by_dir_entry ram fs_at 0 1 2 file_entry empty_buffer)
fat32_file_read-fat32_file_open_by_dir_entry_example =
    fat32_file_read-fat32_file_open_by_dir_entry ram ram_laws ram_works fs_at 0 1 refl
      small_fs-IsTable words file_entry 2 2 9 two_blocks.blocklist empty_buffer two_letters.memory
      200 500 100 two-IsChain (record { first = refl; fits = inr (omega arith, refl) })
      (omega arith) (omega arith) empty_buffer-Shows (λ i lt. two_blocks-IsPlaced.is_word i lt) refl
      (omega arith) (omega arith) (omega arith) (omega arith)
