-- ===== src/Fat/Transfer/Read.antt =====
-- `fat32_file_rw` of kernel/fat32.c, reading.
use test_os.Base.{
  ◌==◌, if_elim, ℕ, ◌+◌, ◌-◌, ◌*◌, ◌^◌, ◌≤◌, ◌<◌, ◌≡◌, inl, inr, refl, sym, ◌∙◌, ap, subst, arith,
  true, false, if◌then◌else◌, Bool-cases, some,
}
use test_os.Base.Memory.{within}
use test_os.Fat.{Device, IsLawful, FatFs, FatFile}
use test_os.Fat.Transfer.{
  fill, cluster_size, get_data_cluster_offset, Io, read_cluster, read_cluster_part, rw_cluster,
  rw_cluster_part, fat32_file_rw,
}
use test_os.Fat.Transfer.Placed.{IsPlaced, data_sector}
use test_os.Fat.Transfer.Spots.{file_spot, file_spot-block, file_byte}
use native.Mathlib.Decide.{dec_lt}
use test_os.Fat.Transfer.Pieces.{Served, Pieces, fat32_file_rw-R}

-- Two pieces of a sequence of bytes, side by side.
pub within_add :
    (f : ℕ → ℕ) (p pos c n a old mid : ℕ)
    → mid ≡ (if within p c a then f (pos + (a - p)) else old)
    → (if within (p + c) n a then f (pos + c + (a - (p + c))) else mid)
      ≡ (if within p (c + n) a then f (pos + (a - p)) else old)
within_add f p pos c n a old mid e = elim (dec_lt a (p + c)) [
  | yes lt ↦ ground (arith, e)
  | no ge ↦ ground (arith, e, ap f {x = pos + c + (a - (p + c))} {y = pos + (a - p)} (omega arith))
]

module _ (d : Device) (laws : IsLawful d) (disk : ℕ) (fs : FatFs) (file : FatFile) where
  -- From `p` on, memory holds the `n` bytes of the file from `pos` on; nothing else has changed.
  abbrev pub ReadTo : Io d.State → (p pos n : ℕ) → Io d.State → Type 0
  ReadTo io p pos n io' =
      (io'.device ≡ io.device)
      × ((a : ℕ)
          → io'.memory a ≡ (
              if within p n a
              then file_byte d laws disk fs file io.device (pos + (a - p))
              else io.memory a))

  ReadTo-zero : (io : Io d.State) (p pos : ℕ) → ReadTo io p pos 0 io
  ReadTo-zero io p pos = (refl, λ a. ground arith)

  ReadTo-add :
      (io io1 io2 : Io d.State) (p pos c n : ℕ)
      → ReadTo io p pos c io1
      → ReadTo io1 (p + c) (pos + c) n io2
      → ReadTo io p pos (c + n) io2
  ReadTo-add io io1 io2 p pos c n (same, first) (same', second) = (
    same' ∙ same,
    λ a.
        second a
        ∙ ap
            (λ t.
              if within (p + c) n a
              then file_byte d laws disk fs file t (pos + c + (a - (p + c)))
              else io1.memory a)
            same
        ∙ within_add (file_byte d laws disk fs file io.device) p pos c n a (io.memory a)
            (io1.memory a) (first a),
  )

  module _ (placed : IsPlaced fs file) where
    -- A part of a cluster, from the buffer of the device.
    block_bytes :
        (s : d.State) (k o n i : ℕ)
        → k < file.blocklist_size
        → o + n ≤ cluster_size fs
        → i < n
        → (d.device_read s disk
            (get_data_cluster_offset fs (file.blocklist k))
            fs.cluster_sectors).0
          ≡ true
        → (d.device_read s disk
              (get_data_cluster_offset fs (file.blocklist k))
              fs.cluster_sectors).1
            (o + i)
          ≡ file_byte d laws disk fs file s (k * cluster_size fs + o + i)
    block_bytes s k o n i there fits lt worked =
        laws.bytes-device_read s disk (get_data_cluster_offset fs (file.blocklist k))
          fs.cluster_sectors (o + i) worked (omega arith)
        ∙ ap (laws.bytes s disk) (
            ap (λ t. t + (o + i)) (data_sector fs file k placed there)
            ∙ sym (file_spot-block fs file k (o + i) (omega arith))
            ∙ ap (file_spot fs file) {x = k * cluster_size fs + (o + i)}
                {y = k * cluster_size fs + o + i} (omega arith))

    filled :
        (io : Io d.State) (p k o n : ℕ) (b : ℕ → ℕ)
        → ((i : ℕ)
            → i < n
            → b i ≡ file_byte d laws disk fs file io.device (k * cluster_size fs + o + i))
        → ReadTo io p (k * cluster_size fs + o) n (record io { memory = fill io.memory p n b })
    filled io p k o n b at = (
      refl,
      λ a. elim (Bool-cases (within p n a)) [
        | inl here ↦ rw here (at (a - p) (ground arith))
        | inr away ↦ rw away refl
      ],
    )

    read_part :
        (p k o n : ℕ) (io : Io d.State)
        → k < file.blocklist_size
        → o + n ≤ cluster_size fs
        → 0 < p
        → Served d disk fs file false ReadTo io p
            (k * cluster_size fs + o)
            n
            (rw_cluster_part d disk fs false p (file.blocklist k) o n io)
    unfolding rw_cluster_part read_cluster_part
    read_part p k o n io lt fits some_place =
        let not_null : (p == 0) ≡ false = ground (arith, some_place) in
        let r =
          d.device_read io.device disk (get_data_cluster_offset fs (file.blocklist k))
            fs.cluster_sectors in
        rw not_null (
          if_elim (Served d disk fs file false ReadTo io p (k * cluster_size fs + o) n) r.0
            (λ worked done.
              filled io p k o n (λ i. r.1 (o + i))
                (λ i lt'. block_bytes io.device k o n i lt fits lt' worked))
            (λ failed done. absurd (cc)))

    read_whole :
        (p k : ℕ) (io : Io d.State)
        → k < file.blocklist_size
        → Served d disk fs file false ReadTo io p
            (k * cluster_size fs)
            (cluster_size fs)
            (rw_cluster d disk fs false p (file.blocklist k) io)
    unfolding rw_cluster read_cluster
    read_whole p k io lt worked =
        let r =
          d.device_read io.device disk (get_data_cluster_offset fs (file.blocklist k))
            fs.cluster_sectors in
        let start : k * cluster_size fs + 0 ≡ k * cluster_size fs = omega arith in
        subst
          (λ pos.
            ReadTo io p pos (cluster_size fs)
              (record io { memory = fill io.memory p (cluster_size fs) r.1 }))
          start
          (filled io p k 0 (cluster_size fs) r.1 (λ i lt'.
            ap r.1 {x = i} {y = 0 + i} (omega arith)
            ∙ block_bytes io.device k 0 (cluster_size fs) i lt (omega arith) lt' worked))

    pub read_pieces : Pieces d disk fs file false ReadTo
    read_pieces = record {
      moot = λ io io' p pos pos' (same, bytes). (same, λ a. bytes a ∙ ground arith);
      nothing = ReadTo-zero;
      add = ReadTo-add;
      part = read_part;
      whole = read_whole;
    }

-- Reading: where the code reports `len` bytes, memory from `buf` on, which is not `NULL`, holds the
-- `len` bytes of the file from `offset` on, and the devices and the rest of memory are as before. The
-- file's clusters are numbers from 2 on with sectors that are words, and a cluster has a power of two of
-- bytes.
pub fat32_file_rw-ReadTo :
    (d : Device) (laws : IsLawful d) (disk : ℕ) (fs : FatFs) (file : FatFile)
    → IsPlaced fs file
    → (j buf offset len : ℕ) (io : Io d.State) → cluster_size fs ≡ 2 ^ j
    → 0 < buf
    → (fat32_file_rw d disk fs file false buf offset len io).0 ≡ some len
    → ReadTo d laws disk fs file io buf offset len
        (fat32_file_rw d disk fs file false buf offset len io).1
fat32_file_rw-ReadTo d laws disk fs file placed j buf offset len io power some_place result =
    fat32_file_rw-R d disk fs file false (ReadTo d laws disk fs file)
      (read_pieces d laws disk fs file placed) j buf offset len io power some_place result
