-- ===== src/Fat/Blocks/Grow.antt =====
-- A chain of kernel/fat32.c and the words of its table when a free cluster is taken.
use native.Mathlib.Decide.{dec_lt, ℕ_discrete}
use test_os.Base.{ℕ, suc, ◌+◌, ◌-◌, ◌≤◌, ◌<◌, ◌≡◌, ◌≢◌, ◌∙◌, ap, arith, leb, ◌==◌, if◌then◌else◌}
use test_os.Fat.Table.Entries.{marked}
use test_os.Fat.Blocks.{put_block}
use test_os.Fat.Blocks.Chain.{IsChain, IsChain-distinct}
use test_os.Fat.Blocks.Take.{taken_words}

used_block :
    (words b : ℕ → ℕ) (limit i j : ℕ)
    → IsChain words limit (suc i) b
    → words j ≡ 0
    → (k : ℕ) → k < suc i
    → b k ≢ j
used_block words b limit i j chain free k lt e = elim (dec_lt k i) [
  | yes less ↦ absurd (
      omega (
        arith,
        chain.linked k (omega (arith, less)),
        chain.in_data (k + 1) (omega (arith, less)),
        ap words e,
        free,
      ))
  | no last ↦
      let at : words (b (suc i - 1)) ≡ 0 =
        ap (λ t. words (b t)) {x = suc i - 1} {y = k} (omega (arith, lt, last))
        ∙ ap words e
        ∙ free in
      absurd (cc (chain.ends, ap (λ t. leb 4294967288 (marked t)) at))
]

pub put_before : (b : ℕ → ℕ) (i j k : ℕ) → k < i → b k ≡ put_block b i j k
put_before b i j k lt = ground arith

pub put_at : (b : ℕ → ℕ) (i j : ℕ) → put_block b i j i ≡ j
put_at b i j = ground arith

pub later_first : (i j v : ℕ) → (if suc i == 0 then j else v) ≡ v
later_first i j v = ground arith

pub taken_frame :
    (i p j x : ℕ) (words : ℕ → ℕ)
    → words j ≡ 0
    → words x ≢ 0
    → (0 < i → x ≢ p)
    → taken_words i p j words x ≡ words x
taken_frame i p j x words free occupied away =
    let other : x ≢ j = λ e. occupied (ap words e ∙ free) in
    elim (dec_lt 0 i) [
      | yes later ↦ ground (arith, other, away later)
      | no first ↦ ground (arith, other, first)
    ]

pub taken_zero : (i p j x : ℕ) (words : ℕ → ℕ) → 2 ≤ j → taken_words i p j words x ≡ 0 → words x ≡ 0
taken_zero i p j x words two e = ground (arith, two, e)

pub taken_used :
    (i p j x : ℕ) (words : ℕ → ℕ) → 2 ≤ j → (x ≢ j → words x ≢ 0) → taken_words i p j words x ≢ 0
taken_used i p j x words two used e = elim (ℕ_discrete x j) [
  | yes at ↦ ground (arith, two, e, at)
  | no ne ↦ used ne (taken_zero i p j x words two e)
]

-- A free cluster behind the end of a chain makes it longer.
pub IsChain-grow :
    (words b : ℕ → ℕ) (limit i j : ℕ)
    → IsChain words limit (suc i) b
    → words j ≡ 0
    → j < limit
    → 2 ≤ j
    → j ≤ 268435445
    → IsChain (taken_words (suc i) (b i) j words) limit (suc i + 1) (put_block b (suc i) j)
IsChain-grow words b limit i j chain free lt two small =
    let not_free : (k : ℕ) → k < suc i → b k ≢ j =
      λ k lt' e. used_block words b limit i j chain free k lt' e in
    record {
      has_one = omega arith;
      in_table = λ k lt'. elim (ℕ_discrete k (suc i)) [
        | yes e ↦ ground (arith, e, lt)
        | no ne ↦ ground (arith, ne, chain.in_table k (omega (arith, ne, lt')))
      ];
      in_data = λ k lt'. elim (ℕ_discrete k (suc i)) [
        | yes e ↦ ground (arith, e, two)
        | no ne ↦ ground (arith, ne, chain.in_data k (omega (arith, ne, lt')))
      ];
      unmarked = λ k lt'. elim (ℕ_discrete k (suc i)) [
        | yes e ↦ ground (arith, e, small)
        | no ne ↦ ground (arith, ne, chain.unmarked k (omega (arith, ne, lt')))
      ];
      linked = λ k lt'. elim (ℕ_discrete k i) [
        | yes e ↦ ground (arith, e, ap b e)
        | no ne ↦
            let below : k < i = omega (arith, ne, lt') in
            ground (
              arith,
              chain.linked k (omega (arith, below)),
              not_free k (omega (arith, below)),
              λ (e : b k ≡ b i). ne (
                  IsChain-distinct words limit (suc i) b chain k i (omega (arith, below))
                    (omega arith) e),
              below,
            )
      ];
      ends =
          ap (λ t. leb 4294967288 (marked t))
            {x = taken_words (suc i) (b i) j words (put_block b (suc i) j (suc i + 1 - 1))}
            {y = 268435455}
            (ground (
              arith,
              not_free i (omega arith),
              ap (put_block b (suc i) j) {x = suc i + 1 - 1} {y = suc i} (omega arith),
            ));
    }

-- A free cluster is a chain.
pub IsChain-one :
    (words b : ℕ → ℕ) (limit p j : ℕ)
    → j < limit
    → 2 ≤ j
    → j ≤ 268435445
    → IsChain (taken_words 0 p j words) limit 1 (put_block b 0 j)
IsChain-one words b limit p j lt two small = record {
  has_one = omega arith;
  in_table = λ k lt'. ground (arith, lt);
  in_data = λ k lt'. ground (arith, two);
  unmarked = λ k lt'. ground (arith, small);
  linked = λ k lt'. absurd (omega (arith, lt'));
  ends = ground arith;
}
