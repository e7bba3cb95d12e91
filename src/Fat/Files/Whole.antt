-- ===== src/Fat/Files/Whole.antt =====
-- From the directory entry of a file of kernel/fat32.c to its bytes.
use native.Mathlib.Nat.{div-lt_iff_lt-mul, div-add-mod', mod-lt, mod-eq_of_lt, one-le-pow}
use test_os.Base.{
  ℕ, ◌+◌, ◌-◌, ◌*◌, ◌/◌, ◌%◌, ◌^◌, ◌≤◌, ◌<◌, ◌≡◌, inl, inr, refl, sym, ◌∙◌, ap, subst, arith, false,
  ltb, ◌==◌, if◌then◌else◌, Bool-cases,
}
use test_os.Base.Memory.{Memory, within}
use test_os.Fat.{Device, IsLawful, Works, FatFs, FatFile, DirEntry, fat_word}
use test_os.Fat.Transfer.{cluster_size, Io}
use test_os.Fat.Transfer.Spots.{cluster_addr, file_byte}
use test_os.Fat.Transfer.Placed.{IsPlaced}
use test_os.Fat.Transfer.Sound.{capacity}
use test_os.Fat.Transfer.Read.{fat32_file_rw-ReadTo}
use test_os.Fat.Transfer.Total.{fat32_file_rw-some}
use test_os.Fat.Table.{Cache}
use test_os.Fat.Table.View.{IsTable}
use test_os.Fat.Table.Entries.{Shows}
use test_os.Fat.Blocks.{num_clusters, Opened, opened, fat32_file_open_by_dir_entry}
use test_os.Fat.Blocks.Chain.{IsChain}
use test_os.Fat.Blocks.Open.{limit, IsEntryOf, fat32_file_open_by_dir_entry-IsChain}
use test_os.Fat.Files.{as_size, fat32_file_read}

-- The clusters that a size takes have room for it.
num_clusters-room :
    (size c : ℕ) → 0 < c → 0 < size → size + c < fat_word → size ≤ num_clusters size c * c
num_clusters-room size c positive some_size small =
    let whole : (size + c + (fat_word - 1)) % fat_word ≡ size + c - 1 =
      omega (arith, small, positive) in
    let top = size + c - 1 in
    subst (λ t. size ≤ t / c * c) (sym whole)
      (omega (arith, div-add-mod' top c, mod-lt top positive))

module _ (d : Device) (laws : IsLawful d) (works : Works d) (fs_at : ℕ → FatFs) (disk fs : ℕ)
    (some_fs : (fs == 0) ≡ false) (table : IsTable (fs_at fs)) where
  -- The byte `k` of the chain.
  abbrev pub chain_byte : d.State → (b : ℕ → ℕ) → (k : ℕ) → ℕ
  chain_byte s b k =
      laws.bytes s disk
        (cluster_addr (fs_at fs) (b (k / cluster_size (fs_at fs))) + k % cluster_size (fs_at fs))

  -- The file has been opened, and then read.
  abbrev pub ReadWhole :
      (b : ℕ → ℕ) (memory : Memory) (buffer offset length : ℕ) → Opened × Cache d.State → Type 0
  ReadWhole b memory buffer offset length o =
      (file : FatFile) × (o.0 ≡ opened file)
      × let r =
          fat32_file_read d disk (fs_at fs) file buffer offset length
            (record { device = o.1.device; memory = memory }) in
        (r.0 ≡ length)
        × ((a : ℕ)
            → r.1.memory a ≡ (
                if within buffer length a
                then chain_byte o.1.device b (offset + (a - buffer))
                else memory a))

  -- A file of known size that is opened by its directory entry and read, inside its size, to a place
  -- that is not `NULL`, gives the bytes of its chain of clusters, and their number. The device works, the
  -- entry agrees with the chain, whose sectors are words, a cluster has a power of two of bytes, and the
  -- size and that of a cluster are below 2 ^ 32 together.
  pub fat32_file_read-fat32_file_open_by_dir_entry :
      (words : ℕ → ℕ) (entry : DirEntry) (n fuel j : ℕ) (b : ℕ → ℕ) (c : Cache d.State)
      (memory : Memory) (buffer offset length : ℕ)
      → IsChain words (limit d laws works fs_at disk fs some_fs table) n b
      → IsEntryOf d laws works fs_at disk fs some_fs table entry n b
      → n * 2 < fat_word
      → n ≤ fuel
      → Shows d laws works fs_at disk fs some_fs table c words
      → ((i : ℕ)
          → i < n
          → (fs_at fs).first_data_cluster + (fs_at fs).cluster_sectors * (b i - 2) < fat_word)
      → cluster_size (fs_at fs) ≡ 2 ^ j
      → 0 < buffer
      → 0 < entry.size
      → entry.size + cluster_size (fs_at fs) < fat_word
      → offset + length ≤ entry.size
      → ReadWhole b memory buffer offset length
          (fat32_file_open_by_dir_entry d fs_at disk fs fuel entry c)
  unfolding fat32_file_read
  fat32_file_read-fat32_file_open_by_dir_entry words entry n fuel j b c memory buffer offset length
        chain of few enough shows words_of power some_place known small fits =
      let g = fs_at fs in
      let o = fat32_file_open_by_dir_entry d fs_at disk fs fuel entry c in
      let (file, done, same_entry, size, room, exact, same, shows') =
        fat32_file_open_by_dir_entry-IsChain d laws works fs_at disk fs some_fs table words entry n
          fuel b c chain of few enough shows in
      let io : Io d.State = record { device = o.1.device; memory = memory } in
      let blocks : file.blocklist_size ≡ n = exact known in
      let some_size : 0 < cluster_size g = omega (arith, power, one-le-pow j 2) in
      let clusters : num_clusters entry.size (cluster_size g) ≡ n = elim of.fits [
        | inl unknown ↦ absurd (omega (arith, known, unknown))
        | inr (positive, e) ↦ e
      ] in
      let clusters_room = num_clusters-room entry.size (cluster_size g) some_size known small in
      let inside : offset + length ≤ capacity g file = omega (
        arith,
        fits,
        num_clusters-room entry.size (cluster_size g) some_size known small,
        ap (λ t. t * cluster_size g) (clusters ∙ sym blocks),
      ) in
      let size' : file.size ≡ entry.size = size ∙ ground (arith, known) in
      let below : ltb file.size ((offset + length) % fat_word) ≡ false = ground (
        arith,
        size',
        fits,
        mod-eq_of_lt {n = offset + length} {m = fat_word} (omega (arith, fits, small)),
      ) in
      let result =
        fat32_file_rw-some d works disk g file false
          (λ i lt. ground (
            arith,
            same i (omega (arith, lt, blocks)),
            chain.in_data i (omega (arith, lt, blocks)),
          ))
          j buffer offset length io power inside in
      let placed : IsPlaced g file = record {
        in_data = λ i lt. omega (
          arith,
          same i (omega (arith, lt, blocks)),
          chain.in_data i (omega (arith, lt, blocks)),
        );
        is_word = λ i lt.
            subst (λ t. g.first_data_cluster + g.cluster_sectors * (t - 2) < fat_word)
              (sym (same i (omega (arith, lt, blocks)))) (words_of i (omega (arith, lt, blocks)));
      } in
      let (kept, bytes) =
        fat32_file_rw-ReadTo d laws disk g file placed j buffer offset length io power some_place
          result in
      let chain_at : (k : ℕ)
          → k < entry.size
          → file_byte d laws disk g file o.1.device k ≡ chain_byte o.1.device b k =
        λ k lt.
          ap (λ t. laws.bytes o.1.device disk (cluster_addr g t + k % cluster_size g))
            (same (k / cluster_size g) (
              (div-lt_iff_lt-mul some_size).1
                (omega (arith, lt, clusters_room, ap (λ t. t * cluster_size g) clusters)))) in
      (
        file,
        done,
        (
          rw below (ap as_size result),
          λ a. rw below (
              bytes a ∙ elim (Bool-cases (within buffer length a)) [
                | inr away ↦ rw away refl
                | inl here ↦ rw here (chain_at (offset + (a - buffer)) (ground (arith, here, fits)))
              ]),
        ),
      )
