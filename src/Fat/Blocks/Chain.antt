-- ===== src/Fat/Blocks/Chain.antt =====
-- A chain of clusters in the file allocation table of kernel/fat32.c.
use native.Mathlib.Decide.{dec_lt, ℕ_discrete}
use test_os.Base.{ℕ, zero, suc, ◌+◌, ◌-◌, ◌≤◌, ◌<◌, ◌≡◌, ◌≢◌, sym, ◌∙◌, ap, arith, true, false, leb}
use test_os.Fat.Table.Entries.{marked}

-- The clusters `b 0` to `b (n - 1)`: each has a word below `limit`, which holds the next one or, for
-- the last one, the mark of an end.
pub record IsChain (words : ℕ → ℕ) (limit n : ℕ) (b : ℕ → ℕ) : Type 0 where
  pub has_one : 0 < n
  pub in_table : (i : ℕ) → i < n → b i < limit
  pub in_data : (i : ℕ) → i < n → 2 ≤ b i
  pub unmarked : (i : ℕ) → i < n → b i ≤ 268435445
  pub linked : (i : ℕ) → i + 1 < n → words (b i) ≡ b (i + 1)
  pub ends : leb 4294967288 (marked (words (b (n - 1)))) ≡ true

marked_small : (v : ℕ) → v ≤ 268435445 → marked v ≡ v
marked_small v le = ground arith

module _ (words : ℕ → ℕ) (limit n : ℕ) (b : ℕ → ℕ) (chain : IsChain words limit n b) where
  pub next_block : (i : ℕ) → i + 1 < n → marked (words (b i)) ≡ b (i + 1)
  next_block i lt =
      ap marked (chain.linked i lt) ∙ marked_small (b (i + 1)) (chain.unmarked (i + 1) lt)

  pub not_last : (i : ℕ) → i + 1 < n → leb 4294967288 (marked (words (b i))) ≡ false
  not_last i lt = ground (arith, next_block i lt, chain.unmarked (i + 1) lt)

  -- Equal clusters have equal rests.
  no_return : (t i j : ℕ) → i < j → j + t + 1 ≡ n → b i ≢ b j
  no_return zero i j lt last e = absurd (
      cc (
        not_last i (omega arith),
        chain.ends,
        ap (λ k. marked (words (b k))) {x = j} {y = n - 1} (omega arith),
        e,
      ))
  no_return (suc t) i j lt last e =
      no_return t (i + 1) (j + 1) (omega arith) (omega arith)
        (sym (chain.linked i (omega arith)) ∙ ap words e ∙ chain.linked j (omega arith))

  -- A chain that ends has no cluster twice.
  pub IsChain-distinct : (i j : ℕ) → i < n → j < n → b i ≡ b j → i ≡ j
  IsChain-distinct i j lt lt' e = elim (ℕ_discrete i j) [
    | yes same ↦ same
    | no ne ↦ absurd (elim (dec_lt i j) [
      | yes less ↦ no_return (n - 1 - j) i j less (omega arith) e
      | no more ↦ no_return (n - 1 - i) j i (omega (arith, ne)) (omega arith) (sym e)
    ])
  ]
