-- ===== src/Fat/Blocks/Truncate.antt =====
-- Shrinking the list of a file's clusters, `truncate_blocks`, of kernel/fat32.c.
use test_os.Base.{
  ℕ, zero, suc, ◌-◌, ◌*◌, ◌≤◌, ◌<◌, ◌≡◌, ◌≢◌, refl, sym, ◌∙◌, ap, subst, arith, Bool, true, false,
  ltb, leb, ◌==◌, if◌then◌else◌,
}
use test_os.Fat.{Device, IsLawful, Works, FatFs, FatFile}
use test_os.Fat.Table.{Cache, set_next_cluster_fat32}
use test_os.Fat.Table.View.{IsTable}
use test_os.Fat.Table.Entries.{marked, set_next_cluster_fat32_lem}
use test_os.Fat.Blocks.{free_blocks, truncate_blocks}
use test_os.Fat.Blocks.Chain.{IsChain, IsChain-distinct}
use test_os.Fat.Blocks.Free.{Seen, free_blocks_lem}
use test_os.Fat.Blocks.Commit.{IsSaved, commit_fat32_buffer-IsSaved}
use test_os.Fat.Blocks.Extend.{HasChain}
use test_os.Fat.Table.Total.{commit-true}

-- The words when the chain ends at `p`.
abbrev cut_words : (p : ℕ) → (ℕ → ℕ) → ℕ → ℕ
cut_words p words k = if k == p then 268435455 else words k

cut_ne : (p x : ℕ) (words : ℕ → ℕ) → x ≢ p → cut_words p words x ≡ words x
cut_ne p x words ne = ground (arith, ne)

-- The first clusters of a chain are a chain when the last of them is marked.
IsChain-cut :
    (words words' b : ℕ → ℕ) (limit size n : ℕ)
    → IsChain words limit size b
    → suc n < size
    → ((x : ℕ) → ((k : ℕ) → suc n ≤ k → k < size → b k ≢ x) → words' x ≡ words x)
    → IsChain (cut_words (b n) words') limit (suc n) b
IsChain-cut words words' b limit size n chain lt frame = record {
  has_one = omega arith;
  in_table = λ k lt'. chain.in_table k (omega (arith, lt, lt'));
  in_data = λ k lt'. chain.in_data k (omega (arith, lt, lt'));
  unmarked = λ k lt'. chain.unmarked k (omega (arith, lt, lt'));
  linked = λ k lt'.
      let apart : (m : ℕ) → m < size → b m ≡ b k → m ≡ k = λ m small e.
        IsChain-distinct words limit size b chain m k small (omega (arith, lt, lt')) e in
      ground (
        arith,
        λ (e : b n ≡ b k). apart n (omega (arith, lt)) e,
        frame (b k) (λ m low high e. absurd (omega (arith, apart m high e, low, lt'))),
        chain.linked k (omega (arith, lt, lt')),
        lt',
      );
  ends =
      ap (λ t. leb 4294967288 (marked t)) {x = cut_words (b n) words' (b (suc n - 1))}
        {y = 268435455} (ground (arith, ap b {x = suc n - 1} {y = n} (omega arith)));
}

module _ (d : Device) (laws : IsLawful d) (works : Works d) (fs_at : ℕ → FatFs) (disk fs : ℕ)
    (some_fs : (fs == 0) ≡ false) (table : IsTable (fs_at fs)) where
  -- The table is on the disk and a chain of `n` clusters is left; the clusters behind them are free, and
  -- the words of other files are as before.
  abbrev pub Truncated : (words : ℕ → ℕ) (n : ℕ) → FatFile → Bool × FatFile × Cache d.State → Type 0
  Truncated words n file r =
      (r.0 ≡ true)
      × (r.1.blocklist_size ≡ n)
      × (words' : ℕ → ℕ) × Seen d laws works fs_at disk fs some_fs table r.2 words'
      × IsSaved d laws works fs_at disk fs some_fs table r.2
      × HasChain d laws works fs_at disk fs some_fs table words' n r.1
      × ((k : ℕ) → k < n → r.1.blocklist k ≡ file.blocklist k)
      × ((k : ℕ) → n ≤ k → k < file.blocklist_size → words' (file.blocklist k) ≡ 0)
      × ((x : ℕ) → ((k : ℕ) → k < file.blocklist_size → file.blocklist k ≢ x) → words' x ≡ words x)

  -- Shrinking the list of a file to `n` clusters, on a device that works.
  pub truncate_blocks-Truncated :
      (n : ℕ) (words : ℕ → ℕ) (file : FatFile) (c : Cache d.State)
      → Seen d laws works fs_at disk fs some_fs table c words
      → HasChain d laws works fs_at disk fs some_fs table words file.blocklist_size file
      → n < file.blocklist_size
      → Truncated words n file (truncate_blocks d fs_at disk fs n file c)
  unfolding truncate_blocks
  truncate_blocks-Truncated zero words file c shows has lt =
      let chain = has.chain lt in
      let some_blocks : (file.blocklist_size == 0) ≡ false = ground (arith, lt) in
      let all = free_blocks d fs_at disk fs file.blocklist_size 0 file.blocklist c in
      let (worked, words', shows', zeros, kept, rest) =
        free_blocks_lem d laws works fs_at disk fs some_fs table file.blocklist_size 0
          file.blocklist words c shows (λ k low high. chain.in_table k (omega (arith, high)))
          (λ k low high. chain.in_data k (omega (arith, high))) in
      let (shows'', saved) =
        commit_fat32_buffer-IsSaved d laws works fs_at disk fs some_fs table words' all.1 shows' in
      rw (some_blocks, worked)
        (
          commit-true d works fs_at disk fs all.1,
          refl,
          words',
          shows'',
          saved,
          record {
            chain = λ less. absurd (omega (arith, less));
            first = λ less. absurd (omega (arith, less));
          },
          λ k less. absurd (omega (arith, less)),
          λ k low high. zeros k low (omega (arith, high)),
          λ x away. rest x (λ k low high. away k (omega (arith, high))),
        )
  truncate_blocks-Truncated (suc n) words file c shows has lt =
      let chain = has.chain (omega (arith, lt)) in
      let size = file.blocklist_size in
      let b = file.blocklist in
      let some_blocks : (size == 0) ≡ false = ground (arith, lt) in
      let some_new : (suc n == 0) ≡ false = ground arith in
      let fewer : ltb (suc n) size ≡ true = ground (arith, lt) in
      let tail = free_blocks d fs_at disk fs (size - suc n) (suc n) b c in
      let (worked, words', shows', zeros, kept, rest) =
        free_blocks_lem d laws works fs_at disk fs some_fs table (size - suc n) (suc n) b words c
          shows (λ k low high. chain.in_table k (omega (arith, high, lt)))
          (λ k low high. chain.in_data k (omega (arith, high, lt))) in
      let last : b (suc n - 1) ≡ b n = ap b (omega arith) in
      let marked = set_next_cluster_fat32 d fs_at disk fs (b (suc n - 1)) 268435455 tail.1 in
      let (done, shows1) =
        set_next_cluster_fat32_lem d laws works fs_at disk fs some_fs table (b (suc n - 1))
          268435455 tail.1 words' shows' (chain.in_table (suc n - 1) (omega (arith, lt)))
          (omega arith) in
      let (shows'', saved) =
        commit_fat32_buffer-IsSaved d laws works fs_at disk fs some_fs table
          (cut_words (b (suc n - 1)) words') marked.1 shows1 in
      rw (some_blocks, some_new, fewer, worked, done)
        (
          commit-true d works fs_at disk fs marked.1,
          refl,
          cut_words (b (suc n - 1)) words',
          shows'',
          saved,
          record {
            chain = λ more.
                subst (λ p. IsChain (cut_words p words') ((fs_at fs).fat_sectors * 128) (suc n) b)
                  (sym last)
                  (IsChain-cut words words' b ((fs_at fs).fat_sectors * 128) size n chain lt
                    (λ x away. rest x (λ k low high. away k low (omega (arith, high, lt)))));
            first = λ more. has.first (omega (arith, lt));
          },
          λ k less. refl,
          λ k low high.
              cut_ne (b (suc n - 1)) (b k) words' (λ e. absurd (
                omega (
                  arith,
                  low,
                  IsChain-distinct words ((fs_at fs).fat_sectors * 128) size b chain k (suc n - 1)
                      high (omega (arith, lt)) e,
                )))
              ∙ zeros k low (omega (arith, high)),
          λ x away.
              cut_ne (b (suc n - 1)) x words' (λ e. away (suc n - 1) (omega (arith, lt)) (sym e))
              ∙ rest x (λ k low high. away k (omega (arith, high, lt))),
        )
