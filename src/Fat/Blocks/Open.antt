-- ===== src/Fat/Blocks/Open.antt =====
-- `fat32_file_open_by_dir_entry` of kernel/fat32.c follows the chain of a file.
use native.Mathlib.Decide.{dec_lt, ℕ_discrete}
use native.Mathlib.Nat.{mod-eq_of_lt}
use test_os.Base.{
  ℕ, zero, suc, ◌+◌, ◌-◌, ◌*◌, ◌%◌, ◌≤◌, ◌<◌, ◌≡◌, ◌⊎◌, inl, inr, refl, sym, ◌∙◌, ap, subst, arith,
  true, false, leb, ◌==◌, if◌then◌else◌, if_elim,
}
use test_os.Fat.{Device, IsLawful, Works, FatFs, FatFile, DirEntry, fat_word}
use test_os.Fat.Transfer.{cluster_size}
use test_os.Fat.Table.{Cache, get_next_cluster_fat32}
use test_os.Fat.Table.View.{IsTable}
use test_os.Fat.Table.Entries.{marked, Shows, get_next_cluster_fat32_lem}
use test_os.Fat.Blocks.{
  num_clusters, put_block, Followed, ended, Opened, opened, follow, opened_file,
  fat32_file_open_by_dir_entry,
}
use test_os.Fat.Blocks.Chain.{IsChain, next_block}

-- The list grows when it is full.
abbrev grown_size : (size i : ℕ) → ℕ
grown_size size i = if leb size i then size * 2 % fat_word else size

room_grown :
    (n i size : ℕ) → i < n → n * 2 < fat_word → 0 < i → i ≤ size → i + 1 ≤ grown_size size i
room_grown n i size within few positive room = elim (dec_lt i size) [
  | yes less ↦ ground (arith, less)
  | no full ↦
      let at : size ≡ i = omega (arith, full, room) in
      ground (
        arith,
        at,
        few,
        within,
        mod-eq_of_lt {n = size * 2} {m = fat_word} (omega (arith, at, few, within)),
      )
]

same_grown : (n i size : ℕ) → i < n → n ≤ size → grown_size size i ≡ size
same_grown n i size within fits = ground arith

kept_grown : (n i size : ℕ) → i < n → n ≤ size → n ≤ grown_size size i
kept_grown n i size within fits = ground arith

put_same :
    (l b : ℕ → ℕ) (i v k : ℕ)
    → ((k : ℕ) → k < i → l k ≡ b k)
    → v ≡ b i
    → k < i + 1
    → put_block l i v k ≡ b k
put_same l b i v k same at lt = elim (ℕ_discrete k i) [
  | yes e ↦ ground (arith, e, at, ap b e)
  | no ne ↦ ground (arith, ne, same k (omega (arith, ne, lt)))
]

module _ (d : Device) (laws : IsLawful d) (works : Works d) (fs_at : ℕ → FatFs) (disk fs : ℕ)
    (some_fs : (fs == 0) ≡ false) (table : IsTable (fs_at fs)) where
  abbrev pub limit : ℕ
  limit = (fs_at fs).fat_sectors * 128

  -- The loop has ended with the whole chain in a list that has room for it, and that is not larger
  -- than need be.
  abbrev Ended : (words : ℕ → ℕ) (n : ℕ) (b : ℕ → ℕ) (size : ℕ) → Followed × Cache d.State → Type 0
  Ended words n b size r =
      (s : ℕ) × (l : ℕ → ℕ) × (r.0 ≡ ended n s l)
      × (n ≤ s)
      × (n ≤ size → s ≡ size)
      × ((k : ℕ) → k < n → l k ≡ b k)
      × Shows d laws works fs_at disk fs some_fs table r.1 words

  follow-Ended :
      (words : ℕ → ℕ) (n : ℕ) (b : ℕ → ℕ)
      → IsChain words limit n b
      → n * 2 < fat_word
      → (fuel i size : ℕ) (l : ℕ → ℕ) (c : Cache d.State)
      → Shows d laws works fs_at disk fs some_fs table c words
      → 0 < i
      → i ≤ n
      → i ≤ size
      → n < fuel + i
      → ((k : ℕ) → k < i → l k ≡ b k)
      → Ended words n b size (follow d fs_at disk fs fuel i size l c)
  unfolding follow
  follow-Ended words n b chain few zero i size l c shows positive low room enough same =
      absurd (omega (arith, low, enough))
  follow-Ended words n b chain few (suc fuel) i size l c shows positive low room enough same =
      let r = get_next_cluster_fat32 d fs_at disk fs (l (i - 1)) c in
      let (value, shows') =
        get_next_cluster_fat32_lem d laws works fs_at disk fs some_fs table (l (i - 1)) c words
          shows
          (subst (λ t. t < limit) (sym (same (i - 1) (omega (arith, positive))))
            (chain.in_table (i - 1) (omega (arith, positive, low)))) in
      let at : r.0 ≡ marked (words (b (i - 1))) =
        value ∙ ap (λ t. marked (words t)) (same (i - 1) (omega (arith, positive))) in
      let grown = if leb size i then size * 2 % fat_word else size in
      let rest = follow d fs_at disk fs fuel (i + 1) grown (put_block l i r.0) r.1 in
      elim (dec_lt i n) [
        | yes within ↦
            let value' : r.0 ≡ b i =
              at
              ∙ next_block words limit n b chain (i - 1) (omega (arith, positive, within))
              ∙ ap b {x = i - 1 + 1} {y = i} (omega (arith, positive)) in
            if_elim (Ended words n b size) (r.0 == 0)
              (λ none_there. absurd (ground (arith, none_there, value', chain.in_data i within)))
              (λ there.
                if_elim (Ended words n b size) (leb 4294967288 r.0)
                  (λ end. absurd (ground (arith, end, value', chain.unmarked i within)))
                  (λ next.
                    let (s, l', e, large, kept, same', shows'') =
                      follow-Ended words n b chain few fuel (i + 1) grown (put_block l i r.0) r.1
                        shows' (omega arith) (omega (arith, within))
                        (room_grown n i size within few positive room) (omega (arith, enough))
                        (λ k lt. put_same l b i r.0 k same value' lt) in
                    (
                      s,
                      l',
                      e,
                      large,
                      λ fits.
                          kept (kept_grown n i size within fits) ∙ same_grown n i size within fits,
                      same',
                      shows'',
                    )))
        | no over ↦
            let whole : i ≡ n = omega (arith, over, low) in
            let end' : leb 4294967288 r.0 ≡ true =
              ap (leb 4294967288) (at ∙ ap (λ t. marked (words (b (t - 1)))) whole) ∙ chain.ends in
            if_elim (Ended words n b size) (r.0 == 0)
              (λ none_there. absurd (ground (arith, none_there, end')))
              (λ there.
                if_elim (Ended words n b size) (leb 4294967288 r.0)
                  (λ end. (
                    size,
                    l,
                    ap (λ t. ended t size l) whole,
                    omega (arith, whole, room),
                    λ fits. refl,
                    λ k lt. same k (omega (arith, lt, whole)),
                    shows',
                  ))
                  (λ next. absurd (cc (next, end'))))
      ]

  -- What a directory entry says of the chain: its first cluster, and its size or 0 for an unknown one.
  pub record IsEntryOf (entry : DirEntry) (n : ℕ) (b : ℕ → ℕ) : Type 0 where
    pub first : b 0 ≡ entry.first_cluster
    pub fits :
        (entry.size ≡ 0)
        ⊎ ((0 < entry.size) × (num_clusters entry.size (cluster_size (fs_at fs)) ≡ n))

  -- The file has the clusters of the chain, and no word of the table has changed. A file of known size
  -- has a list without free places.
  abbrev pub OpenedAs :
      (words : ℕ → ℕ) → DirEntry → (n : ℕ) (b : ℕ → ℕ) → Opened × Cache d.State → Type 0
  OpenedAs words entry n b r =
      (file : FatFile) × (r.0 ≡ opened file)
      × (file.dir_entry ≡ entry)
      × (file.size
          ≡ (if entry.size == 0 then n * cluster_size (fs_at fs) % fat_word else entry.size))
      × (n ≤ file.blocklist_size)
      × (0 < entry.size → file.blocklist_size ≡ n)
      × ((k : ℕ) → k < n → file.blocklist k ≡ b k)
      × Shows d laws works fs_at disk fs some_fs table r.1 words

  -- Opening a file whose chain of `n` clusters has an end, by a directory entry that agrees with it,
  -- takes as many rounds of the loop on a device that works, and finds them all in their order. No word
  -- of the table changes.
  pub fat32_file_open_by_dir_entry-IsChain :
      (words : ℕ → ℕ) (entry : DirEntry) (n fuel : ℕ) (b : ℕ → ℕ) (c : Cache d.State)
      → IsChain words limit n b
      → IsEntryOf entry n b
      → n * 2 < fat_word
      → n ≤ fuel
      → Shows d laws works fs_at disk fs some_fs table c words
      → OpenedAs words entry n b (fat32_file_open_by_dir_entry d fs_at disk fs fuel entry c)
  unfolding fat32_file_open_by_dir_entry
  fat32_file_open_by_dir_entry-IsChain words entry n fuel b c chain of few enough shows =
      let size = if entry.size == 0 then 1 else num_clusters entry.size (cluster_size (fs_at fs)) in
      let known_size : 0 < entry.size → size ≡ n = λ known. elim of.fits [
        | inl unknown ↦ absurd (omega (arith, known, unknown))
        | inr (positive, e) ↦ ground (arith, positive, e)
      ] in
      let room : 1 ≤ size = elim of.fits [
        | inl unknown ↦ ground (arith, unknown)
        | inr (positive, e) ↦ ground (arith, positive, e, chain.has_one)
      ] in
      let r = follow d fs_at disk fs fuel 1 size (λ k. entry.first_cluster) c in
      let (s, l, e, large, kept, same, shows') =
        follow-Ended words n b chain few fuel 1 size (λ k. entry.first_cluster) c shows
          (omega arith) (chain.has_one) (room) (omega (arith, enough))
          (λ k lt. sym of.first ∙ ap b {x = 0} {y = k} (omega (arith, lt))) in
      if_elim (OpenedAs words entry n b) (entry.first_cluster == 0)
        (λ empty. absurd (ground (arith, empty, of.first, chain.in_data 0 chain.has_one)))
        (λ there. (
          record {
            size = if entry.size == 0 then n * cluster_size (fs_at fs) % fat_word else entry.size;
            blocklist_size = s;
            blocklist = l;
            dir_entry = entry;
          },
          ap (opened_file d fs_at disk fs entry) e,
          refl,
          refl,
          large,
          λ known. kept (omega (arith, known_size known)) ∙ known_size known,
          same,
          shows',
        ))
