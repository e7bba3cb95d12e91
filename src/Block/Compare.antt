-- ===== src/Block/Compare.antt =====
-- What `memcmp` and `memchr` of libraries/string.c answer.
use test_os.Base.{ℕ, zero, suc, ◌+◌, ◌<◌, ◌≡◌, ◌≢◌, ◌⊎◌, inl, inr, refl, arith, ◌==◌, Bool-cases}
use test_os.Base.Memory.{Memory}
use test_os.Block.{memcmp, memchr, promote}

all_suc : (P : ℕ → Type 0) (n : ℕ) → P 0 → ((i : ℕ) → i < n → P (i + 1)) → (i : ℕ) → i < suc n → P i
all_suc P n first rest zero lt = first
all_suc P n first rest (suc i) lt =
    let e : i + 1 ≡ suc i = omega arith in rw e at (rest i (omega arith))

-- `memcmp` returns 0 if the two blocks hold the same bytes, and 1 if they differ in some byte.
pub memcmp_lem :
    (size : ℕ) (m : Memory) (a b : ℕ)
    → ((memcmp m a b size ≡ 0) × ((i : ℕ) → i < size → m (a + i) ≡ m (b + i)))
      ⊎ ((memcmp m a b size ≡ 1) × ((i : ℕ) × (i < size) × (m (a + i) ≢ m (b + i))))
unfolding memcmp
memcmp_lem zero m a b = inl (refl, λ i h. absurd (omega arith))
memcmp_lem (suc size) m a b = elim (Bool-cases (m a == m b)) [
  | inl same ↦ rw same (elim (memcmp_lem size m (a + 1) (b + 1)) [
    | inl (z, all) ↦ inl (
      z,
      all_suc (λ i. m (a + i) ≡ m (b + i)) size (ground arith) (λ i lt. ground (arith, all i lt)),
    )
    | inr (o, (i, lt, ne)) ↦ inr (o, (i + 1, omega arith, λ e. ne (ground (arith, e))))
  ])
  | inr other ↦ rw other (inr (refl, (0, omega arith, λ e. ground (arith, e))))
]

-- `memchr` returns the first address of the block whose byte, as a signed `char`, is `c`, and `NULL`
-- if there is none.
pub memchr_lem :
    (size : ℕ) (m : Memory) (p c : ℕ)
    → ((memchr m p c size ≡ 0) × ((i : ℕ) → i < size → promote (m (p + i)) ≢ c))
      ⊎ ((i : ℕ) × (i < size)
          × (memchr m p c size ≡ p + i)
          × (promote (m (p + i)) ≡ c)
          × ((j : ℕ) → j < i → promote (m (p + j)) ≢ c))
unfolding memchr
memchr_lem zero m p c = inl (refl, λ i h. absurd (omega arith))
memchr_lem (suc size) m p c = elim (Bool-cases (promote (m p) == c)) [
  | inl hit ↦ rw hit (inr (0, omega arith, omega arith, ground arith, λ j h. absurd (omega arith)))
  | inr miss ↦ rw miss (elim (memchr_lem size m (p + 1) c) [
    | inl (z, all) ↦ inl (
      z,
      all_suc (λ i. promote (m (p + i)) ≢ c) size (λ e. ground (arith, e))
          (λ i lt e. all i lt (ground (arith, e))),
    )
    | inr (i, lt, at, is, before) ↦ inr (
      i + 1,
      omega arith,
      omega (arith, at),
      ground (arith, is),
      λ j h.
          all_suc (λ j. promote (m (p + j)) ≢ c) i (λ e. ground (arith, e))
            (λ j lt e. before j lt (ground (arith, e))) j (omega arith),
    )
  ])
]
