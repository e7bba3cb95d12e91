-- ===== src/Text/Digits.antt =====
-- The digit loop of libraries/text.c against a reader of digits.
use test_os.Base.{
  ℕ, zero, suc, ◌+◌, ◌*◌, ◌/◌, ◌%◌, ◌^◌, ◌≤◌, ◌<◌, ◌≡◌, refl, List, [], ◌∷◌, ◌++◌, reverse, arith,
  ltb, length, reverse-cons, All, Bool-cases, inl, inr,
}
use native.Mathlib.Nat.{pow-suc, pow-zero, div-le_self, div-lt_iff_lt-mul, div-lt_self, mod-lt}
use native.Mathlib.Decide.{dec_lt}
use test_os.Text.{fill_tmp}

-- The number that digits spell in a base, first digit first, behind `acc`.
unfoldable pub read_digits : ℕ → (ℕ → ℕ) → ℕ → List ℕ → ℕ
read_digits base value acc [] = acc
read_digits base value acc (c ∷ cs) = read_digits base value (acc * base + value c) cs

-- `value` reads the digits that `digit` writes.
abbrev pub IsDigitCode : ℕ → (ℕ → ℕ) → (ℕ → ℕ) → Type 0
IsDigitCode base digit value = (d : ℕ) → d < base → value (digit d) ≡ d

quotient_le : {base fuel number : ℕ} → 1 < base → number ≤ suc fuel → number / base ≤ fuel
quotient_le {base} {fuel} {number} b h = elim (dec_lt 0 number) [
  | yes p ↦ omega (arith, div-lt_self {n = number} {k = base} p b)
  | no p ↦ omega (arith, div-le_self number base)
]

quotient_lt :
    {base number : ℕ} (k : ℕ) → 0 < base → number < base ^ suc k → number / base < base ^ k
quotient_lt {base} {number} k b h = (div-lt_iff_lt-mul b).1 (rw pow-suc at h)

module _ (base : ℕ) (digit value : ℕ → ℕ) where
  read_digits-append :
      (acc : ℕ) (xs : List ℕ) (c : ℕ)
      → read_digits base value acc (xs ++ (c ∷ [])) ≡ read_digits base value acc xs * base + value c
  unfolding read_digits
  read_digits-append acc [] c = refl
  read_digits-append acc (x ∷ xs) c = read_digits-append (acc * base + value x) xs c

  -- Reading the digits of `tmp` backwards gives the number, whenever the fuel is not below it.
  pub read-fill_tmp :
      1 < base
      → IsDigitCode base digit value
      → (fuel number : ℕ) → number ≤ fuel
      → read_digits base value 0 (reverse (fill_tmp base digit fuel number)) ≡ number
  unfolding fill_tmp read_digits
  read-fill_tmp b code zero number h = omega arith
  read-fill_tmp b code (suc fuel) number h = elim (Bool-cases (ltb 0 number)) [
    | inl pos ↦
        rw
          (
            pos,
            reverse-cons,
            read_digits-append,
            read-fill_tmp b code fuel (number / base) (quotient_le b h),
            code (number % base) (mod-lt number (omega arith)),
          )
          (omega arith)
    | inr z ↦ rw z (ground arith)
  ]

  -- A number below `base ^ k` has at most `k` digits.
  pub length-fill_tmp :
      (k fuel number : ℕ)
      → 0 < base
      → number < base ^ k
      → length (fill_tmp base digit fuel number) ≤ k
  unfolding fill_tmp
  length-fill_tmp k zero number b h = omega arith
  length-fill_tmp zero (suc fuel) number b h = ground (arith, pow-zero base)
  length-fill_tmp (suc k) (suc fuel) number b h =
      ground (arith, length-fill_tmp k fuel (number / base) b (quotient_lt k b h))

  -- Every byte that the loop stores is a digit of the base.
  pub fill_tmp-All {κ} :
      (P : ℕ → Type κ)
      → 0 < base
      → ((d : ℕ) → d < base → P (digit d))
      → (fuel number : ℕ) → All P (fill_tmp base digit fuel number)
  unfolding fill_tmp
  fill_tmp-All P b each zero number = tt
  fill_tmp-All P b each (suc fuel) number = elim (Bool-cases (ltb 0 number)) [
    | inl pos ↦
        rw pos (each (number % base) (mod-lt number b), fill_tmp-All P b each fuel (number / base))
    | inr z ↦ rw z tt
  ]

  -- A positive number gets at least one digit.
  pub fill_tmp-pos :
      (fuel number : ℕ) → 0 < number → number ≤ fuel → 0 < length (fill_tmp base digit fuel number)
  unfolding fill_tmp
  fill_tmp-pos zero number p h = absurd (omega arith)
  fill_tmp-pos (suc fuel) number p h = ground arith
