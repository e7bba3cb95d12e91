-- ===== src/Fat/Blocks/Take.antt =====
-- Taking a free cluster, `take_block`, of kernel/fat32.c.
use native.Mathlib.Nat.{mul-le-mul_left}
use test_os.Base.{
  ℕ, ◌+◌, ◌-◌, ◌*◌, ◌≤◌, ◌<◌, ◌≡◌, refl, sym, ◌∙◌, ap, arith, Bool, true, false, not, ◌&&◌, ◌==◌,
  if◌then◌else◌, if_elim,
}
use test_os.Base.Memory.{Memory, within, load32_frame}
use test_os.Fat.{Device, IsLawful, Works, FatFs, FatFile, fat_word, sector_size}
use test_os.Fat.Transfer.{get_data_cluster_offset}
use test_os.Fat.Table.{Cache, set_next_cluster_fat32}
use test_os.Fat.Table.View.{IsTable, in_fat, view}
use test_os.Fat.Table.Entries.{entry_addr, set_next_cluster_fat32_lem}
use test_os.Fat.Blocks.{put_block, fat32_zero_cluster, take_block}
use test_os.Fat.Blocks.Free.{Seen}
use test_os.Fat.Transfer.Placed.{offset_word}

-- The clusters from 2 to `end` have words in the table and sectors behind the tables.
pub record IsSpace (fs : FatFs) (end : ℕ) : Type 0 where
  pub in_table : end ≤ fs.fat_sectors * 128
  pub unmarked : end ≤ 268435446
  pub some_sectors : 0 < fs.cluster_sectors
  pub behind : fs.reserved_sectors + fs.fat_sectors ≤ fs.first_data_cluster
  pub is_word : fs.first_data_cluster + fs.cluster_sectors * end < fat_word

behind_table :
    (fs : FatFs) (end j : ℕ)
    → IsSpace fs end
    → 2 ≤ j
    → j < end
    → fs.reserved_sectors + fs.fat_sectors ≤ get_data_cluster_offset fs j
unfolding get_data_cluster_offset
behind_table fs end j space two lt = omega (
  arith,
  space.behind,
  offset_word fs.first_data_cluster fs.cluster_sectors j two
      (omega (
        arith,
        space.is_word,
        mul-le-mul_left {m = j - 2} {n = end} fs.cluster_sectors (omega (arith, lt)),
      ))
      space.some_sectors,
)

-- The words when the cluster `j` has been taken for the place `i`, behind the cluster `p`.
abbrev pub taken_words : (i p j : ℕ) → (ℕ → ℕ) → ℕ → ℕ
taken_words i p j words k =
    if (not (i == 0)) && (k == p) then j else if k == j then 268435455 else words k

module _ (d : Device) (laws : IsLawful d) (works : Works d) (fs_at : ℕ → FatFs) (disk fs : ℕ)
    (some_fs : (fs == 0) ≡ false) (table : IsTable (fs_at fs)) where
  reseen :
      (words words' : ℕ → ℕ) (c : Cache d.State)
      → ((k : ℕ) → words k ≡ words' k)
      → Seen d laws works fs_at disk fs some_fs table c words
      → Seen d laws works fs_at disk fs some_fs table c words'
  reseen words words' c same (cached, shows) = (cached, λ k lt. shows k lt ∙ same k)

  -- A write behind the table does not change it.
  moved-Seen :
      (words : ℕ → ℕ) (c : Cache d.State) (s : d.State)
      → ((a : ℕ) → in_fat (fs_at fs) a ≡ true → laws.bytes s disk a ≡ laws.bytes c.device disk a)
      → Seen d laws works fs_at disk fs some_fs table c words
      → Seen d laws works fs_at disk fs some_fs table (record c { device = s }) words
  moved-Seen words c s same (cached, shows) =
      let c' = record c { device = s } in
      let seen : (a : ℕ)
          → in_fat (fs_at fs) a ≡ true
          → view d laws fs_at disk fs c' a ≡ view d laws fs_at disk fs c a =
        λ a here.
          ap
            (λ t.
              if (c.fat32_buf_fs == fs) && within (c.fat32_buf_sector * sector_size) 1024 a
              then c.fat32_buf (a - c.fat32_buf_sector * sector_size)
              else t)
            (same a here) in
      (
        record {
          other = cached.other;
          low = cached.low;
          high = cached.high;
          clean = λ own kept a here. seen a here ∙ cached.clean own kept a here ∙ sym (same a here);
        },
        λ k lt.
            load32_frame (view d laws fs_at disk fs c) (view d laws fs_at disk fs c')
              (entry_addr d laws works fs_at disk fs some_fs table k)
              (λ a low high. seen a (ground arith))
            ∙ shows k lt,
      )

  module _ (zero_cluster : Memory) where
    zero-Seen :
        (words : ℕ → ℕ) (end j : ℕ) (c : Cache d.State)
        → IsSpace (fs_at fs) end
        → 2 ≤ j
        → j < end
        → Seen d laws works fs_at disk fs some_fs table c words
        → ((fat32_zero_cluster d fs_at disk fs zero_cluster j c).0 ≡ true)
          × Seen d laws works fs_at disk fs some_fs table
              (fat32_zero_cluster d fs_at disk fs zero_cluster j c).1
              words
    unfolding fat32_zero_cluster
    zero-Seen words end j c space two lt shows =
        let g = fs_at fs in
        let start = get_data_cluster_offset g j in
        let done = works.writes c.device disk start g.cluster_sectors zero_cluster in
        (
          done,
          moved-Seen words c (d.device_write c.device disk start g.cluster_sectors zero_cluster).1
              (λ a here.
                laws.bytes-device_write c.device disk start g.cluster_sectors zero_cluster disk a
                  done
                ∙ ground (arith, here, behind_table g end j space two lt))
              shows,
        )

    -- The cluster is in the list and in the table, and nothing fails.
    abbrev pub Taken : (words : ℕ → ℕ) (i j : ℕ) → FatFile → Bool × FatFile × Cache d.State → Type 0
    Taken words i j file r =
        (r.0 ≡ true)
        × (r.1.blocklist ≡ put_block file.blocklist i j)
        × (r.1.blocklist_size ≡ file.blocklist_size)
        × (r.1.dir_entry.first_cluster ≡ (if i == 0 then j else file.dir_entry.first_cluster))
        × Seen d laws works fs_at disk fs some_fs table r.2
            (taken_words i (file.blocklist (i - 1)) j words)

    pub take_block-Taken :
        (words : ℕ → ℕ) (end i j : ℕ) (file : FatFile) (c : Cache d.State)
        → IsSpace (fs_at fs) end
        → 2 ≤ j
        → j < end
        → (0 < i → file.blocklist (i - 1) < (fs_at fs).fat_sectors * 128)
        → Seen d laws works fs_at disk fs some_fs table c words
        → Taken words i j file (take_block d fs_at disk fs zero_cluster i j file c)
    unfolding take_block
    take_block-Taken words end i j file c space two lt before shows =
        let zeroed = fat32_zero_cluster d fs_at disk fs zero_cluster j c in
        let (cleared, shows0) = zero-Seen words end j c space two lt shows in
        let words1 : ℕ → ℕ = λ k. if k == j then 268435455 else words k in
        let after = taken_words i (file.blocklist (i - 1)) j words in
        let marked = set_next_cluster_fat32 d fs_at disk fs j 268435455 zeroed.1 in
        let (worked, shows1) =
          set_next_cluster_fat32_lem d laws works fs_at disk fs some_fs table j 268435455 zeroed.1
            words shows0 (omega (arith, lt, space.in_table)) (omega arith) in
        rw (cleared, worked)
          (if_elim (Taken words i j file) (i == 0)
            (λ first. (
              refl,
              refl,
              refl,
              ground (arith, first),
              reseen words1 after marked.1 (λ k. ground (arith, first)) shows1,
            ))
            (λ later.
              let p = put_block file.blocklist i j (i - 1) in
              let at : p ≡ file.blocklist (i - 1) = ground (arith, later) in
              let (linked, shows2) =
                set_next_cluster_fat32_lem d laws works fs_at disk fs some_fs table p j marked.1
                  words1 shows1 (omega (arith, at, before (ground (arith, later))))
                  (omega (arith, lt, space.in_table, table.few_clusters)) in
              (
                linked,
                refl,
                refl,
                ground (arith, later),
                reseen (λ k. if k == p then j else words1 k) after
                    (set_next_cluster_fat32 d fs_at disk fs p j marked.1).1
                    (λ k. ground (arith, later, at)) shows2,
              )))
