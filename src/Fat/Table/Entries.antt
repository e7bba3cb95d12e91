-- ===== src/Fat/Table/Entries.antt =====
-- The words of the file allocation table of kernel/fat32.c: reading and setting one.
use native.Mathlib.Nat.{mod-eq_of_lt, div-add-mod'}
use native.Mathlib.Decide.{ℕ_discrete}
use test_os.Base.{
  ℕ, ◌+◌, ◌-◌, ◌*◌, ◌%◌, ◌≤◌, ◌<◌, ◌≡◌, refl, ◌∙◌, ap, arith, Bool, true, false, ◌&&◌, ltb, bit_or,
  ◌==◌, if◌then◌else◌,
}
use test_os.Base.Memory.{Memory, load32, store32, within, load32_frame, load32-store32, store32_ne}
use test_os.Fat.{Device, IsLawful, Works, FatFs, fat_word, sector_size}
use test_os.Fat.Table.{
  Cache, get_fat32_buffer, get_next_cluster_fat32, set_next_cluster_fat32, fat32_sector,
  fat32_offset,
}
use test_os.Fat.Table.View.{IsTable, IsCached, in_fat, view}
use test_os.Fat.Table.Fetch.{get_fat32_buffer-Loaded}
use test_os.Fat.Table.Total.{get_fat32_buffer-true}

-- The mark of a word that ends a chain.
abbrev pub marked : ℕ → ℕ
marked value = if ltb 268435445 value then bit_or value 4026531840 else value

load32_shift :
    (m m' : Memory) (p q : ℕ)
    → ((i : ℕ) → i < 4 → m' (q + i) ≡ m (p + i))
    → load32 m' q ≡ load32 m p
load32_shift m m' p q same = omega (
  arith,
  same 0 (omega arith),
  same 1 (omega arith),
  same 2 (omega arith),
  same 3 (omega arith),
  ap m' {x = q + 0} {y = q} (omega arith),
  ap m {x = p + 0} {y = p} (omega arith),
)

stored :
    (b : Bool) (start off next p : ℕ) (buf bytes : Memory) (a : ℕ)
    → b ≡ true
    → start + off ≡ p
    → off + 4 ≤ 512
    → (if b && within start 1024 a then store32 buf off next (a - start) else bytes a)
      ≡ store32 (λ x. if b && within start 1024 x then buf (x - start) else bytes x) p next a
stored b start off next p buf bytes a own at fits = ground (arith, own, at)

module _ (d : Device) (laws : IsLawful d) (works : Works d) (fs_at : ℕ → FatFs) (disk fs : ℕ)
    (some_fs : (fs == 0) ≡ false) (table : IsTable (fs_at fs)) where
  abbrev pub entry_addr : ℕ → ℕ
  entry_addr cluster = (fs_at fs).reserved_sectors * sector_size + cluster * 4

  -- The word of a cluster.
  abbrev pub fat_entry : Cache d.State → ℕ → ℕ
  fat_entry c cluster = load32 (view d laws fs_at disk fs c) (entry_addr cluster)

  -- The clusters that have a word.
  abbrev pub HasEntry : ℕ → Type 0
  HasEntry cluster = cluster < (fs_at fs).fat_sectors * 128

  -- The state is sound, and its words are `words`.
  abbrev pub Shows : Cache d.State → (ℕ → ℕ) → Type 0
  Shows c words =
      IsCached d laws fs_at disk fs c
      × ((cluster : ℕ) → HasEntry cluster → fat_entry c cluster ≡ words cluster)

  -- The sector with a cluster's word, and the word in it.
  place :
      (cluster : ℕ)
      → HasEntry cluster
      → (fat32_sector cluster < (fs_at fs).fat_sectors)
        × ((fat32_sector cluster + (fs_at fs).reserved_sectors) * sector_size + fat32_offset cluster
            ≡ entry_addr cluster)
        × (fat32_offset cluster + 4 ≤ 512)
  place cluster lt =
      let whole : cluster * 4 % fat_word ≡ cluster * 4 =
        mod-eq_of_lt (omega (arith, table.few_clusters)) in
      let split = div-add-mod' (cluster * 4 % fat_word) 512 in
      let quarter : cluster * 4 % fat_word % 512 % 4 ≡ 0 = omega (arith, whole) in
      (omega (arith, whole, split), omega (arith, whole, split), omega (arith, quarter))

  in_table :
      (cluster i : ℕ) → HasEntry cluster → i < 4 → in_fat (fs_at fs) (entry_addr cluster + i) ≡ true
  in_table cluster i lt small = ground arith

  in_buffer :
      (c : Cache d.State) (i a : ℕ)
      → (c.fat32_buf_fs == fs) ≡ true
      → c.fat32_buf_sector * sector_size + i ≡ a
      → i < 1024
      → c.fat32_buf i ≡ view d laws fs_at disk fs c a
  in_buffer c i a own at small = ground (
    arith,
    own,
    at,
    ap c.fat32_buf {x = i} {y = a - c.fat32_buf_sector * sector_size} (omega (arith, at)),
  )

  -- The sector with a cluster's word has been fetched.
  fetched :
      (cluster : ℕ) (c : Cache d.State) (words : ℕ → ℕ)
      → Shows c words
      → HasEntry cluster
      → let r = get_fat32_buffer d fs_at disk fs (fat32_sector cluster) c in
        Shows r.1 words
        × ((r.1.fat32_buf_fs == fs) ≡ true)
        × ((i : ℕ)
            → r.1.fat32_buf_sector * sector_size + (fat32_offset cluster + i)
              ≡ entry_addr cluster + i)
  fetched cluster c words (cached, same) lt =
      let r = get_fat32_buffer d fs_at disk fs (fat32_sector cluster) c in
      let (low, at, fits) = place cluster lt in
      let (cached', own, sector, seen) =
        get_fat32_buffer-Loaded d laws fs_at disk fs some_fs table (fat32_sector cluster) c cached
          low (get_fat32_buffer-true d works fs_at disk fs (fat32_sector cluster) c) in
      (
        (
          cached',
          λ k lt'.
              load32_shift (view d laws fs_at disk fs c) (view d laws fs_at disk fs r.1)
                (entry_addr k) (entry_addr k)
                (λ i small. seen (entry_addr k + i) (in_table k i lt' small))
              ∙ same k lt',
        ),
        own,
        λ i. omega (arith, sector, at),
      )

  -- On a device that works, reading the word of a cluster gives it, a high one with its top bits set,
  -- and no reader sees a change.
  pub get_next_cluster_fat32_lem :
      (cluster : ℕ) (c : Cache d.State) (words : ℕ → ℕ)
      → Shows c words
      → HasEntry cluster
      → ((get_next_cluster_fat32 d fs_at disk fs cluster c).0 ≡ marked (words cluster))
        × Shows (get_next_cluster_fat32 d fs_at disk fs cluster c).1 words
  unfolding get_next_cluster_fat32
  get_next_cluster_fat32_lem cluster c words (cached, same) lt =
      let r = get_fat32_buffer d fs_at disk fs (fat32_sector cluster) c in
      let (shows, own, at) = fetched cluster c words (cached, same) lt in
      let fits = (place cluster lt).2 in
      let value : load32 r.1.fat32_buf (fat32_offset cluster) ≡ words cluster =
        load32_shift (view d laws fs_at disk fs r.1) r.1.fat32_buf (entry_addr cluster)
          (fat32_offset cluster)
          (λ i small.
            in_buffer r.1 (fat32_offset cluster + i) (entry_addr cluster + i) own (at i)
              (omega (arith, fits)))
        ∙ shows.1 cluster lt in
      rw (get_fat32_buffer-true d works fs_at disk fs (fat32_sector cluster) c)
        (ap marked value, shows)

  changed_Shows :
      (cluster next : ℕ) (c : Cache d.State) (words : ℕ → ℕ)
      → Shows c words
      → HasEntry cluster
      → next < fat_word
      → (c.fat32_buf_fs == fs) ≡ true
      → ((i : ℕ)
          → c.fat32_buf_sector * sector_size + (fat32_offset cluster + i) ≡ entry_addr cluster + i)
      → Shows
          (record c {
            fat32_buf = store32 c.fat32_buf (fat32_offset cluster) next;
            fat32_buf_changed = true;
          })
          (λ k. if k == cluster then next else words k)
  changed_Shows cluster next c words (cached, same) lt small own at =
      let c' = record c {
        fat32_buf = store32 c.fat32_buf (fat32_offset cluster) next;
        fat32_buf_changed = true;
      } in
      let seen : (a : ℕ)
          → view d laws fs_at disk fs c' a
            ≡ store32 (view d laws fs_at disk fs c) (entry_addr cluster) next a =
        λ a.
          stored (c.fat32_buf_fs == fs) (c.fat32_buf_sector * sector_size) (fat32_offset cluster)
            next (entry_addr cluster) c.fat32_buf (laws.bytes c.device disk) a own
            (omega (arith, at 0)) (place cluster lt).2 in
      (
        record {
          other = λ foreign. absurd (cc);
          low = cached.low;
          high = cached.high;
          clean = λ own' kept. absurd (cc);
        },
        λ k lt'. elim (ℕ_discrete k cluster) [
          | yes e ↦
              load32_frame (store32 (view d laws fs_at disk fs c) (entry_addr cluster) next)
                (view d laws fs_at disk fs c') (entry_addr k) (λ a low high. seen a)
              ∙ ap
                  (λ t.
                    load32 (store32 (view d laws fs_at disk fs c) (entry_addr cluster) next)
                      (entry_addr t))
                  e
              ∙ load32-store32 (view d laws fs_at disk fs c) (entry_addr cluster) next small
              ∙ ground (arith, e)
          | no ne ↦
              load32_frame (view d laws fs_at disk fs c) (view d laws fs_at disk fs c')
                (entry_addr k)
                (λ a low high.
                  seen a
                  ∙ store32_ne (view d laws fs_at disk fs c) (entry_addr cluster) next a
                      (ground (arith, ne)))
              ∙ same k lt'
              ∙ ground (arith, ne)
        ],
      )

  -- On a device that works, setting the word of a cluster sets it, for every reader, and no other word,
  -- also where the buffer has to be written and read again.
  pub set_next_cluster_fat32_lem :
      (cluster next : ℕ) (c : Cache d.State) (words : ℕ → ℕ)
      → Shows c words
      → HasEntry cluster
      → next < fat_word
      → ((set_next_cluster_fat32 d fs_at disk fs cluster next c).0 ≡ true)
        × Shows
            (set_next_cluster_fat32 d fs_at disk fs cluster next c).1
            (λ k. if k == cluster then next else words k)
  unfolding set_next_cluster_fat32
  set_next_cluster_fat32_lem cluster next c words (cached, same) lt small =
      let r = get_fat32_buffer d fs_at disk fs (fat32_sector cluster) c in
      let (shows, own, at) = fetched cluster c words (cached, same) lt in
      rw (get_fat32_buffer-true d works fs_at disk fs (fat32_sector cluster) c)
        (refl, changed_Shows cluster next r.1 words shows lt small own at)
