-- ===== src/Base/Bits.antt =====
-- Bits of machine words: bit `k` of `x` is `x / 2 ^ k % 2`, and the C operators act bit by bit.
use Prim.Native.Nat.{
  ℕ, zero, suc, ◌+◌, ◌-◌, ◌*◌, ◌/◌, ◌%◌, ◌^◌, ◌≤◌, ◌<◌, min, max, bit_and, bit_or, digits, bitwise,
  bit_and-bitwise, bit_or-bitwise,
}
use mathlib.Core.Path.{◌≡◌, refl, sym, ap, ap₂, ◌∙◌}
use mathlib.Core.Logic.{◌≢◌}
use mathlib.Core.Bool.{Bool, true, ◌&&◌}
use native.Mathlib.Nat.{pow-suc, one-le-pow, div-div-eq-div-mul, mul_comm}
use native.Mathlib.Omega.{arith}
use native.Mathlib.Decide.{dec_le, ℕ_discrete}
use test_os.Base.Tests.{◌==◌, if◌then◌else◌}

-- The library's operations recurse on binary digits, on fuel. A number is fuel enough for itself, so
-- that each of them satisfies one equation in the lowest digits.
module _ (rest : ℕ → ℕ) (digit : ℕ → ℕ → ℕ) where
  more_fuel : (n x y : ℕ) → x ≤ n → digits rest digit (suc n) x y ≡ digits rest digit n x y
  more_fuel zero zero y le = refl
  more_fuel zero (suc x) y le = absurd (omega arith)
  more_fuel (suc n) zero y le = refl
  more_fuel (suc n) (suc x) y le = rw (more_fuel n (suc x / 2) (y / 2) (omega arith))

  own_fuel : (n x y : ℕ) → x ≤ n → digits rest digit n x y ≡ digits rest digit x x y
  own_fuel zero x y le = ap (λ t. digits rest digit t x y) {x = 0} {y = x} (omega arith)
  own_fuel (suc n) x y le = elim (dec_le x n) [
    | yes less ↦ more_fuel n x y less ∙ own_fuel n x y less
    | no same ↦ ap (λ t. digits rest digit t x y) {x = suc n} {y = x} (omega arith)
  ]

  low_digit :
      (x y : ℕ)
      → ((t : ℕ) → rest t ≡ rest (t / 2) * 2 + digit 0 (t % 2))
      → bitwise rest digit x y ≡ bitwise rest digit (x / 2) (y / 2) * 2 + digit (x % 2) (y % 2)
  low_digit zero y law = law y
  low_digit (suc x) y law = omega (arith, own_fuel x (suc x / 2) (y / 2) (omega arith))

pub bit_or_step : (x y : ℕ) → bit_or x y ≡ bit_or (x / 2) (y / 2) * 2 + max (x % 2) (y % 2)
bit_or_step x y = simp bit_or-bitwise (low_digit (λ t. t) max x y (λ t. omega arith))

pub bit_and_step : (x y : ℕ) → bit_and x y ≡ bit_and (x / 2) (y / 2) * 2 + min (x % 2) (y % 2)
bit_and_step x y = simp bit_and-bitwise (low_digit (λ t. 0) min x y (λ t. omega arith))

-- Bit `k` of `x`, as C reads it: `(x >> k) & 1`.
abbrev pub bit : ℕ → ℕ → ℕ
bit x k = x / 2 ^ k % 2

pub bit-zero : (x : ℕ) → bit x 0 ≡ x % 2
bit-zero x = omega arith

pub bit-suc : (x k : ℕ) → bit x (suc k) ≡ bit (x / 2) k
bit-suc x k =
    ap (λ t. x / t % 2) (pow-suc 2 k ∙ mul_comm (2 ^ k) 2)
    ∙ ap (λ t. t % 2) (sym (div-div-eq-div-mul x 2 (2 ^ k)))

pub bit-lt : (x k : ℕ) → bit x k < 2
bit-lt x k = omega arith

pub bit-of-zero : (k : ℕ) → bit 0 k ≡ 0
bit-of-zero zero = refl
bit-of-zero (suc k) = bit-suc 0 k ∙ bit-of-zero k

pub bit-bit_or : (k a b : ℕ) → bit (bit_or a b) k ≡ max (bit a k) (bit b k)
bit-bit_or zero a b = omega (arith, bit_or_step a b)
bit-bit_or (suc k) a b =
    bit-suc (bit_or a b) k
    ∙ ap (λ t. bit t k) (omega (arith, bit_or_step a b))
    ∙ bit-bit_or k (a / 2) (b / 2)
    ∙ ap₂ max (sym (bit-suc a k)) (sym (bit-suc b k))

pub bit-bit_and : (k a b : ℕ) → bit (bit_and a b) k ≡ min (bit a k) (bit b k)
bit-bit_and zero a b = omega (arith, bit_and_step a b)
bit-bit_and (suc k) a b =
    bit-suc (bit_and a b) k
    ∙ ap (λ t. bit t k) (omega (arith, bit_and_step a b))
    ∙ bit-bit_and k (a / 2) (b / 2)
    ∙ ap₂ min (sym (bit-suc a k)) (sym (bit-suc b k))

two-pow-suc : (k : ℕ) → 2 ^ suc k ≡ 2 ^ k + 2 ^ k
two-pow-suc k = omega (arith, pow-suc 2 k)

pub bit-two-pow_self : (k : ℕ) → bit (2 ^ k) k ≡ 1
bit-two-pow_self zero = refl
bit-two-pow_self (suc k) =
    bit-suc (2 ^ suc k) k ∙ ap (λ t. bit t k) (omega (arith, two-pow-suc k)) ∙ bit-two-pow_self k

pub bit-two-pow_ne : (j k : ℕ) → j ≢ k → bit (2 ^ j) k ≡ 0
bit-two-pow_ne zero zero h = absurd (h refl)
bit-two-pow_ne zero (suc k) h = bit-suc 1 k ∙ bit-of-zero k
bit-two-pow_ne (suc j) zero h = omega (arith, two-pow-suc j)
bit-two-pow_ne (suc j) (suc k) h =
    bit-suc (2 ^ suc j) k
    ∙ ap (λ t. bit t k) (omega (arith, two-pow-suc j))
    ∙ bit-two-pow_ne j k (λ e. h (ap suc e))

pub bit-two-pow : (j k : ℕ) → bit (2 ^ j) k ≡ (if k == j then 1 else 0)
bit-two-pow j k = elim (ℕ_discrete j k) [
  | yes e ↦ ground (arith, bit-two-pow_self k, ap (λ (t : ℕ). bit (2 ^ t) k) e)
  | no ne ↦ ground (arith, bit-two-pow_ne j k ne)
]

-- `~x` in a word of `w` bits.
pub bit_not : ℕ → ℕ → ℕ
bit_not w x = 2 ^ w - 1 - x

pub bit-bit_not : (w k x : ℕ) → k < w → x < 2 ^ w → bit (bit_not w x) k ≡ 1 - bit x k
unfolding bit_not
bit-bit_not zero k x h lt = absurd (omega arith)
bit-bit_not (suc w) zero x h lt = omega (arith, two-pow-suc w, one-le-pow w 2)
bit-bit_not (suc w) (suc k) x h lt =
    bit-suc (2 ^ suc w - 1 - x) k
    ∙ ap (λ t. bit t k) (omega (arith, two-pow-suc w))
    ∙ bit-bit_not w k (x / 2) (omega arith) (omega (arith, two-pow-suc w))
    ∙ ap (λ t. 1 - t) (sym (bit-suc x k))

-- Two words of `w` bits with the same bits are equal.
pub bits_ext : (w x y : ℕ) → x < 2 ^ w → y < 2 ^ w → ((k : ℕ) → k < w → bit x k ≡ bit y k) → x ≡ y
bits_ext zero x y hx hy h = omega arith
bits_ext (suc w) x y hx hy h = omega (
  arith,
  h 0 (omega arith),
  bits_ext w (x / 2) (y / 2) (omega (arith, two-pow-suc w)) (omega (arith, two-pow-suc w))
      (λ k lt. sym (bit-suc x k) ∙ h (suc k) (omega arith) ∙ bit-suc y k),
)

bit_and-zero : (bound x : ℕ) → x ≤ bound → bit_and x 0 ≡ 0
bit_and-zero zero x le = ap (λ t. bit_and t 0) {x = x} {y = 0} (omega arith)
bit_and-zero (suc bound) x le = elim (dec_le x bound) [
  | yes less ↦ bit_and-zero bound x less
  | no same ↦ omega (arith, bit_and_step x 0, bit_and-zero bound (x / 2) (omega arith))
]

bit_and_low : (k a q r : ℕ) → a ≡ q * 2 ^ k + r → r < 2 ^ k → bit_and a (2 ^ k - 1) ≡ r
bit_and_low zero a q r e h = omega (arith, bit_and-zero a a (omega arith))
bit_and_low (suc k) a q r e h = ground (
  arith,
  bit_and_step a (2 ^ suc k - 1),
  two-pow-suc k,
  ap (λ (t : ℕ). q * t) (two-pow-suc k),
  one-le-pow k 2,
  bit_and_low k (a / 2) q (r / 2) (omega (arith, ap (λ (t : ℕ). q * t) (two-pow-suc k)))
      (omega (arith, two-pow-suc k)),
)

-- A mask of `k` low bits is the remainder by `2 ^ k`.
pub bit_and-mask : (k a : ℕ) → bit_and a (2 ^ k - 1) ≡ a % 2 ^ k
bit_and-mask k a =
    bit_and_low k a (a / 2 ^ k) (a % 2 ^ k) (omega arith) (omega (arith, one-le-pow k 2))

-- Over a small range a test is decided by evaluation.
unfoldable pub table_holds : (ℕ → Bool) → ℕ → Bool
table_holds test zero = true
table_holds test (suc size) = table_holds test size && test size

pub table_holds_lem :
    (test : ℕ → Bool) (size x : ℕ) → table_holds test size ≡ true → x < size → test x ≡ true
unfolding table_holds
table_holds_lem test zero x run below = absurd (omega arith)
table_holds_lem test (suc size) x run below = ground (arith, table_holds_lem test size x)
