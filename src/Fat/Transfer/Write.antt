-- ===== src/Fat/Transfer/Write.antt =====
-- `fat32_file_rw` of kernel/fat32.c, writing.
use test_os.Base.{
  false, if_elim, ℕ, ◌+◌, ◌-◌, ◌*◌, ◌^◌, ◌≤◌, ◌<◌, ◌≡◌, ◌≢◌, inl, inr, refl, sym, ◌∙◌, ap, ap₂,
  subst, arith, Bool, true, ◌&&◌, ◌==◌, if◌then◌else◌, Bool-cases, some,
}
use test_os.Base.Memory.{Memory, within}
use test_os.Fat.{sector_size, Device, IsLawful, FatFs, FatFile}
use test_os.Fat.Transfer.{
  fill, cluster_size, get_data_cluster_offset, Io, write_cluster_part, write_cluster, rw_cluster,
  rw_cluster_part, fat32_file_rw,
}
use test_os.Fat.Transfer.Placed.{data_sector}
use test_os.Fat.Transfer.Spots.{cluster_addr, file_spot, file_spot-block, file_byte}
use test_os.Fat.Transfer.Pieces.{Served, Pieces, fat32_file_rw-R}
use test_os.Fat.Transfer.Read.{within_add}
use test_os.Fat.Transfer.Sound.{IsSound, capacity, in_block, spot_within}

-- A block that has been read, changed in a part and written.
patched :
    (e disk addr size o n a p : ℕ) (m : Memory) (block : ℕ → ℕ) (bytes : ℕ → ℕ → ℕ)
    → o + n ≤ size
    → ((i : ℕ) → i < size → block i ≡ bytes disk (addr + i))
    → (if (e == disk) && within addr size a
        then fill block o n (λ i. m (p + i)) (a - addr)
        else bytes e a)
      ≡ (if (e == disk) && within (addr + o) n a then m (p + (a - (addr + o))) else bytes e a)
patched e disk addr size o n a p m block bytes fits read =
    elim (Bool-cases ((e == disk) && within addr size a)) [
      | inr off ↦ ground (arith, off)
      | inl on ↦
          let same : e ≡ disk = ground (arith, on) in
          let at : block (a - addr) ≡ bytes e a =
            read (a - addr) (ground (arith, on)) ∙ ap₂ bytes (sym same) (ground (arith, on)) in
          elim (Bool-cases (within (addr + o) n a)) [
            | inr off ↦ ground (arith, on, off, at)
            | inl here ↦ ground (
              arith,
              on,
              here,
              ap m {x = p + (a - addr - o)} {y = p + (a - (addr + o))} (omega arith),
            )
          ]
    ]

module _ (d : Device) (laws : IsLawful d) (disk : ℕ) (fs : FatFs) (file : FatFile) where
  -- The `n` bytes of the file from `pos` on are those of memory from `p` on. Nothing else on the disks
  -- has changed, and nothing in memory.
  abbrev pub Wrote : Io d.State → (p pos n : ℕ) → Io d.State → Type 0
  Wrote io p pos n io' =
      (io'.memory ≡ io.memory)
      × ((x : ℕ)
          → x < capacity fs file
          → file_byte d laws disk fs file io'.device x ≡ (
              if within pos n x
              then io.memory (p + (x - pos))
              else file_byte d laws disk fs file io.device x))
      × ((e a : ℕ)
          → ((x : ℕ) → x < capacity fs file → e ≡ disk → file_spot fs file x ≢ a)
          → laws.bytes io'.device e a ≡ laws.bytes io.device e a)

  -- The same for a piece of the disk.
  abbrev Patched : Io d.State → (p start n : ℕ) → Io d.State → Type 0
  Patched io p start n io' =
      (io'.memory ≡ io.memory)
      × ((e a : ℕ)
          → laws.bytes io'.device e a ≡ (
              if (e == disk) && within start n a
              then io.memory (p + (a - start))
              else laws.bytes io.device e a))

  Wrote-zero : (io : Io d.State) (p pos : ℕ) → Wrote io p pos 0 io
  Wrote-zero io p pos = (refl, λ x lt. ground arith, λ e a away. refl)

  Wrote-add :
      (io io1 io2 : Io d.State) (p pos c n : ℕ)
      → Wrote io p pos c io1
      → Wrote io1 (p + c) (pos + c) n io2
      → Wrote io p pos (c + n) io2
  Wrote-add io io1 io2 p pos c n (same, first, rest) (same', second, rest') = (
    same' ∙ same,
    λ x lt.
        second x lt
        ∙ ap
            (λ m.
              if within (pos + c) n x
              then m (p + c + (x - (pos + c)))
              else file_byte d laws disk fs file io1.device x)
            same
        ∙ within_add io.memory pos p c n x (file_byte d laws disk fs file io.device x)
            (file_byte d laws disk fs file io1.device x) (first x lt),
    λ e a away. rest' e a away ∙ rest e a away,
  )

  module _ (sound : IsSound fs file) where
    Patched-Wrote :
        (p k o n : ℕ) (io io' : Io d.State)
        → k < file.blocklist_size
        → o + n ≤ cluster_size fs
        → Patched io p (cluster_addr fs (file.blocklist k) + o) n io'
        → Wrote io p (k * cluster_size fs + o) n io'
    Patched-Wrote p k o n io io' lt fits (same, bytes) = (
      same,
      λ x in_file.
          bytes disk (file_spot fs file x)
          ∙ elim (spot_within fs file sound k o n x lt fits in_file) [
            | inl (here, on, at) ↦ ground (arith, on, here, ap (λ t. io.memory (p + t)) at)
            | inr (away, off) ↦ ground (arith, off, away)
          ],
      λ e a away.
          bytes e a
          ∙ elim (Bool-cases ((e == disk) && within (cluster_addr fs (file.blocklist k) + o) n a)) [
            | inr off ↦ rw off refl
            | inl on ↦
                let i = a - cluster_addr fs (file.blocklist k) in
                let small : i < cluster_size fs = ground (arith, on) in
                absurd (
                  away (k * cluster_size fs + i)
                    (in_block k (file.blocklist_size) (cluster_size fs) i lt small)
                    (ground (arith, on)) (file_spot-block fs file k i small ∙ ground (arith, on)))
          ],
    )

  -- The address that the code computes.
  abbrev sector_addr : ℕ → ℕ
  sector_addr c = get_data_cluster_offset fs c * sector_size

  write_part-Patched :
      (p c o n : ℕ) (io : Io d.State)
      → o + n ≤ cluster_size fs
      → 0 < p
      → (write_cluster_part d disk fs p c o n io).0 ≡ true
      → Patched io p (sector_addr c + o) n (write_cluster_part d disk fs p c o n io).1
  unfolding write_cluster_part
  write_part-Patched p c o n io fits some_place =
      let not_null : (p == 0) ≡ false = ground (arith, some_place) in
      let r = d.device_read io.device disk (get_data_cluster_offset fs c) fs.cluster_sectors in
      rw not_null (
        if_elim (λ (t : Bool × Io d.State). t.0 ≡ true → Patched io p (sector_addr c + o) n t.1) r.0
          (λ worked done. (
            refl,
            λ e a.
                laws.bytes-device_write io.device disk (get_data_cluster_offset fs c)
                  fs.cluster_sectors (fill r.1 o n (λ i. io.memory (p + i))) e a done
                ∙ patched e disk (sector_addr c) (cluster_size fs) o n a p io.memory r.1
                    (laws.bytes io.device) fits
                    (λ i lt.
                      laws.bytes-device_read io.device disk (get_data_cluster_offset fs c)
                        fs.cluster_sectors i worked lt),
          ))
          (λ failed done. absurd (cc)))

  write_whole-Patched :
      (p c : ℕ) (io : Io d.State)
      → (write_cluster d disk fs p c io).0 ≡ true
      → Patched io p (sector_addr c) (cluster_size fs) (write_cluster d disk fs p c io).1
  unfolding write_cluster
  write_whole-Patched p c io done = (
    refl,
    λ e a.
        laws.bytes-device_write io.device disk (get_data_cluster_offset fs c) fs.cluster_sectors
          (λ i. io.memory (p + i)) e a done,
  )

  module _ (sound : IsSound fs file) where
    write_part :
        (p k o n : ℕ) (io : Io d.State)
        → k < file.blocklist_size
        → o + n ≤ cluster_size fs
        → 0 < p
        → Served d disk fs file true Wrote io p
            (k * cluster_size fs + o)
            n
            (rw_cluster_part d disk fs true p (file.blocklist k) o n io)
    unfolding rw_cluster_part
    write_part p k o n io lt fits some_place done =
        let io' = (write_cluster_part d disk fs p (file.blocklist k) o n io).1 in
        Patched-Wrote sound p k o n io io' lt fits (
          subst (λ start. Patched io p (start + o) n io') (data_sector fs file k sound.placed lt)
            (write_part-Patched p (file.blocklist k) o n io fits some_place done))

    write_whole :
        (p k : ℕ) (io : Io d.State)
        → k < file.blocklist_size
        → Served d disk fs file true Wrote io p
            (k * cluster_size fs)
            (cluster_size fs)
            (rw_cluster d disk fs true p (file.blocklist k) io)
    unfolding rw_cluster
    write_whole p k io lt done =
        let io' = (write_cluster d disk fs p (file.blocklist k) io).1 in
        let addr = cluster_addr fs (file.blocklist k) in
        subst (λ pos. Wrote io p pos (cluster_size fs) io') {x = k * cluster_size fs + 0}
          (omega arith)
          (Patched-Wrote sound p k 0 (cluster_size fs) io io' lt (omega arith) (
            subst (λ start. Patched io p start (cluster_size fs) io')
              {x = sector_addr (file.blocklist k)} {y = addr + 0}
              (omega (arith, data_sector fs file k sound.placed lt))
              (write_whole-Patched p (file.blocklist k) io done)))

    write_pieces : Pieces d disk fs file true Wrote
    write_pieces = record {
      moot =
          λ io io' p pos pos' (same, bytes, rest). (same, λ x lt. bytes x lt ∙ ground arith, rest);
      nothing = Wrote-zero;
      add = Wrote-add;
      part = write_part;
      whole = write_whole;
    }

-- Writing: where the code reports `len` bytes, the `len` bytes of the file from `offset` on are those
-- of memory from `buf` on, which is not `NULL`, and the other bytes in the file's clusters, the bytes
-- outside them and memory are as before. The file's clusters are distinct numbers from 2 on with sectors
-- that are words, and a cluster has a power of two of bytes.
pub fat32_file_rw-Wrote :
    (d : Device) (laws : IsLawful d) (disk : ℕ) (fs : FatFs) (file : FatFile)
    → IsSound fs file
    → (j buf offset len : ℕ) (io : Io d.State) → cluster_size fs ≡ 2 ^ j
    → 0 < buf
    → (fat32_file_rw d disk fs file true buf offset len io).0 ≡ some len
    → Wrote d laws disk fs file io buf offset len
        (fat32_file_rw d disk fs file true buf offset len io).1
fat32_file_rw-Wrote d laws disk fs file sound j buf offset len io power some_place result =
    fat32_file_rw-R d disk fs file true (Wrote d laws disk fs file)
      (write_pieces d laws disk fs file sound) j buf offset len io power some_place result
