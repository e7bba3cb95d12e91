-- ===== src/Fat/Blocks/Free.antt =====
-- Clusters that are free, in kernel/fat32.c: searching for one, and giving some back.
use native.Mathlib.Decide.{dec_lt, ℕ_discrete}
use test_os.Base.{
  ℕ, zero, suc, ◌+◌, ◌*◌, ◌≤◌, ◌<◌, ◌≡◌, ◌≢◌, refl, ◌∙◌, ap, arith, true, false, ltb, leb, bit_or,
  ◌==◌, if◌then◌else◌, if_elim,
}
use test_os.Base.Bits.{bit, bit-bit_or, bit-of-zero}
use test_os.Fat.{Device, IsLawful, Works, FatFs}
use test_os.Fat.Table.{Cache, get_next_cluster_fat32, set_next_cluster_fat32}
use test_os.Fat.Table.View.{IsTable}
use test_os.Fat.Table.Entries.{
  marked, Shows, get_next_cluster_fat32_lem, set_next_cluster_fat32_lem,
}
use test_os.Fat.Blocks.{free_blocks, find_free}

high_bit : bit 4026531840 31 ≡ 1
high_bit = refl

-- Only a word of 0 is free.
pub marked_zero : (v : ℕ) → (marked v == 0) ≡ (v == 0)
marked_zero v = elim (dec_lt 268435445 v) [
  | no small ↦ ground (arith, small)
  | yes large ↦
      let top : bit (bit_or v 4026531840) 31 ≢ 0 =
        λ e. absurd (omega (arith, e, bit-bit_or 31 v 4026531840, high_bit)) in
      elim (ℕ_discrete (bit_or v 4026531840) 0) [
        | yes e ↦ absurd (top (ap (λ t. bit t 31) e ∙ bit-of-zero 31))
        | no ne ↦ ground (arith, large, ne)
      ]
]

module _ (d : Device) (laws : IsLawful d) (works : Works d) (fs_at : ℕ → FatFs) (disk fs : ℕ)
    (some_fs : (fs == 0) ≡ false) (table : IsTable (fs_at fs)) where
  abbrev pub Seen : Cache d.State → (ℕ → ℕ) → Type 0
  Seen c words = Shows d laws works fs_at disk fs some_fs table c words

  -- The first free cluster from `j` on, or the end of the `n` clusters.
  abbrev pub Found : (words : ℕ → ℕ) (n j : ℕ) → ℕ × Cache d.State → Type 0
  Found words n j r =
      Seen r.1 words
      × (j ≤ r.0)
      × (r.0 ≤ j + n)
      × ((k : ℕ) → j ≤ k → k < r.0 → words k ≢ 0)
      × (r.0 < j + n → words r.0 ≡ 0)

  pub find_free-Found :
      (words : ℕ → ℕ) (n j : ℕ) (c : Cache d.State)
      → Seen c words
      → 2 ≤ j
      → j + n ≤ (fs_at fs).fat_sectors * 128
      → Found words n j (find_free d fs_at disk fs n j c)
  unfolding find_free
  find_free-Found words zero j c shows low high = (
    shows,
    omega arith,
    omega arith,
    λ k le lt. absurd (omega (arith, le, lt)),
    λ lt. absurd (omega (arith, lt)),
  )
  find_free-Found words (suc n) j c shows low high =
      let r = get_next_cluster_fat32 d fs_at disk fs j c in
      let (value, shows') =
        get_next_cluster_fat32_lem d laws works fs_at disk fs some_fs table j c words shows
          (omega (arith, high)) in
      if_elim (Found words (suc n) j) (ltb j 2) (λ reserved. absurd (ground (arith, reserved, low)))
        (λ usable.
          if_elim (Found words (suc n) j) (r.0 == 0)
            (λ free. (
              shows',
              omega arith,
              omega arith,
              λ k le lt. absurd (omega (arith, le, lt)),
              λ lt. ground (arith, free, ap (λ t. t == 0) value, marked_zero (words j)),
            ))
            (λ used.
              let (shows'', low', high', all, free) =
                find_free-Found words n (j + 1) r.1 shows' (omega (arith, low))
                  (omega (arith, high)) in
              (
                shows'',
                omega (arith, low'),
                omega (arith, high'),
                λ k le lt. elim (ℕ_discrete k j) [
                  | yes e ↦ λ z. absurd (
                      ground
                        (arith, used, ap (λ t. t == 0) value, marked_zero (words j), ap words e, z))
                  | no ne ↦ all k (omega (arith, ne, le)) lt
                ],
                λ lt. free (omega (arith, lt)),
              )))

  -- The clusters of a piece of the list become free. The rest of the table stays.
  pub free_blocks_lem :
      (n i : ℕ) (blocklist words : ℕ → ℕ) (c : Cache d.State)
      → Seen c words
      → ((k : ℕ) → i ≤ k → k < i + n → blocklist k < (fs_at fs).fat_sectors * 128)
      → ((k : ℕ) → i ≤ k → k < i + n → 2 ≤ blocklist k)
      → let r = free_blocks d fs_at disk fs n i blocklist c in
        (r.0 ≡ true)
        × (words' : ℕ → ℕ) × Seen r.1 words'
        × ((k : ℕ) → i ≤ k → k < i + n → words' (blocklist k) ≡ 0)
        × ((x : ℕ) → words x ≡ 0 → words' x ≡ 0)
        × ((x : ℕ) → ((k : ℕ) → i ≤ k → k < i + n → blocklist k ≢ x) → words' x ≡ words x)
  unfolding free_blocks
  free_blocks_lem zero i blocklist words c shows in_table in_data =
      (refl, words, shows, λ k le lt. absurd (omega (arith, le, lt)), λ x z. z, λ x away. refl)
  free_blocks_lem (suc n) i blocklist words c shows in_table in_data =
      let x = blocklist i in
      let w = set_next_cluster_fat32 d fs_at disk fs x 0 c in
      let words1 : ℕ → ℕ = λ k. if k == x then 0 else words k in
      let (worked, shows1) =
        set_next_cluster_fat32_lem d laws works fs_at disk fs some_fs table x 0 c words shows
          (in_table i (omega arith) (omega arith)) (omega arith) in
      let (done, words', shows', zeros, kept, rest) =
        free_blocks_lem n (i + 1) blocklist words1 w.1 shows1
          (λ k le lt. in_table k (omega (arith, le)) (omega (arith, lt)))
          (λ k le lt. in_data k (omega (arith, le)) (omega (arith, lt))) in
      let there : leb 2 x ≡ true = ground (arith, in_data i (omega arith) (omega arith)) in
      rw (there, worked)
        (
          done,
          words',
          shows',
          λ k le lt. elim (ℕ_discrete k i) [
            | yes e ↦ kept (blocklist k) (ground (arith, ap blocklist e))
            | no ne ↦ zeros k (omega (arith, ne, le)) (omega (arith, lt))
          ],
          λ y z. kept y (ground (arith, z)),
          λ y away.
              rest y (λ k le lt. away k (omega (arith, le)) (omega (arith, lt)))
              ∙ ground (arith, away i (omega arith) (omega arith)),
        )
