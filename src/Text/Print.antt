-- ===== src/Text/Print.antt =====
-- What the conversions of libraries/text.c store and return.
use test_os.Base.{
  ℕ, zero, suc, ◌+◌, ◌-◌, ◌^◌, ◌≤◌, ◌<◌, ◌≡◌, ◌⊎◌, inl, inr, refl, List, [], ◌∷◌, ◌++◌, reverse,
  arith, leb, if◌then◌else◌, length, length-reverse, reverse-cons, All, All-append, ◌&&◌, ◌||◌,
  true, false,
}
use test_os.Text.{
  fill_tmp, digits_of, decimal_digit, hex_digit, binary_digit, is_negative, base10_string,
  base8_string, base16_string, base2_string,
}
use test_os.Text.Digits.{
  IsDigitCode, read_digits, read-fill_tmp, length-fill_tmp, fill_tmp-All, fill_tmp-pos,
}

abbrev pub decimal_value : ℕ → ℕ
decimal_value c = c - b'0'

abbrev pub hex_value : ℕ → ℕ
hex_value c = if leb c b'9' then c - b'0' else c - b'a' + 10

-- `text` spells `number` in a base, with digits that satisfy `IsDigit`, and is at least `low` and at
-- most `high` bytes long.
pub record Spells (base : ℕ) (value : ℕ → ℕ) (IsDigit : ℕ → Type 0) (low high : ℕ) (text : List ℕ)
    (number : ℕ) : Type 0 where
  pub exact : read_digits base value 0 text ≡ number
  pub digits : All IsDigit text
  pub at_least : low ≤ length text
  pub at_most : length text ≤ high

abbrev pub IsDecimal : ℕ → Type 0
IsDecimal c = (b'0' ≤ c) × (c ≤ b'9')

abbrev pub IsOctal : ℕ → Type 0
IsOctal c = (b'0' ≤ c) × (c ≤ b'7')

abbrev pub IsBinary : ℕ → Type 0
IsBinary c = (b'0' ≤ c) × (c ≤ b'1')

abbrev pub IsHex : ℕ → Type 0
IsHex c = leb b'0' c && leb c b'9' || leb b'a' c && leb c b'f' ≡ true

All-reverse : (P : ℕ → Type 0) (xs : List ℕ) → All P xs → All P (reverse xs)
All-reverse P [] _ = tt
All-reverse P (x ∷ xs) (p, ps) =
    rw reverse-cons (All-append P (reverse xs) (x ∷ []) (All-reverse P xs ps) (p, tt))

module _ (base : ℕ) (digit value : ℕ → ℕ) (IsDigit : ℕ → Type 0) where
  digits_of-Spells :
      (k number : ℕ)
      → 1 < base
      → IsDigitCode base digit value
      → ((d : ℕ) → d < base → IsDigit (digit d))
      → 0 < number
      → number < base ^ k
      → Spells base value IsDigit 1 k (digits_of base digit number) number
  digits_of-Spells k number b code each p h = record {
    exact = read-fill_tmp base digit value b code number number (omega arith);
    digits =
        All-reverse IsDigit (fill_tmp base digit number number)
          (fill_tmp-All base digit value IsDigit (omega arith) each number number);
    at_least = omega (arith, len, fill_tmp-pos base digit value number number p (omega arith));
    at_most = omega (arith, len, length-fill_tmp base digit value k number number (omega arith) h);
  }
    where
      len : length (digits_of base digit number) ≡ length (fill_tmp base digit number number)
      len = length-reverse (fill_tmp base digit number number)

IsDecimal-Spells :
    (number : ℕ)
    → 0 < number
    → number < 2 ^ 32
    → Spells 10 decimal_value IsDecimal 1 10 (digits_of 10 decimal_digit number) number
IsDecimal-Spells number p h =
    digits_of-Spells 10 decimal_digit decimal_value IsDecimal 10 number (omega arith)
      (λ d lt. omega arith) (λ d lt. (omega arith, omega arith)) p (omega arith)

no_minus : (number sign : ℕ) → (sign ≡ 0) ⊎ (number < 2 ^ 31) → is_negative number sign ≡ false
no_minus number sign (inl e) = ground (arith, e)
no_minus number sign (inr small) = ground (arith, small)

-- Where no sign is wanted, for every number of 32 bits, and with a sign below 2 ^ 31, `base10_string`
-- stores the decimal numeral of the number and a terminator, and returns the numeral's length, which is
-- from 1 to 10.
pub base10_string-unsigned :
    (number sign : ℕ)
    → number < 2 ^ 32
    → (sign ≡ 0) ⊎ (number < 2 ^ 31)
    → (text : List ℕ) × ((base10_string number sign).stored ≡ text ++ (0 ∷ []))
      × ((base10_string number sign).count ≡ length text)
      × Spells 10 decimal_value IsDecimal 1 10 text number
unfolding base10_string fill_tmp read_digits
base10_string-unsigned zero sign h unsigned = (
  b'0' ∷ [],
  ground arith,
  ground arith,
  record { exact = refl; digits = omega arith; at_least = omega arith; at_most = omega arith },
)
base10_string-unsigned (suc n) sign h unsigned =
    let plain = no_minus (suc n) sign unsigned in
    let spelled = IsDecimal-Spells (suc n) (omega arith) h in
    (
      digits_of 10 decimal_digit (suc n),
      ground (arith, spelled.at_least),
      ground (arith, spelled.at_least),
      spelled,
    )

IsHex-Spells :
    (number : ℕ)
    → 0 < number
    → number < 2 ^ 32
    → Spells 16 hex_value IsHex 1 8 (digits_of 16 hex_digit number) number
IsHex-Spells number p h =
    digits_of-Spells 16 hex_digit hex_value IsHex 8 number (omega arith) (λ d lt. ground arith)
      (λ d lt. ground arith) p (omega arith)

IsOctal-Spells :
    (number : ℕ)
    → 0 < number
    → number < 2 ^ 32
    → Spells 8 decimal_value IsOctal 1 11 (digits_of 8 decimal_digit number) number
IsOctal-Spells number p h =
    digits_of-Spells 8 decimal_digit decimal_value IsOctal 11 number (omega arith)
      (λ d lt. omega arith) (λ d lt. (omega arith, omega arith)) p (omega arith)

IsBinary-Spells :
    (number : ℕ)
    → 0 < number
    → number < 2 ^ 32
    → Spells 2 decimal_value IsBinary 1 32 (digits_of 2 binary_digit number) number
IsBinary-Spells number p h =
    digits_of-Spells 2 binary_digit decimal_value IsBinary 32 number (omega arith)
      (λ d lt. ground arith) (λ d lt. ground arith) p (omega arith)

-- Without a sign `base16_string` stores the lower-case hexadecimal numeral of the number and a
-- terminator, and returns the numeral's length, which is from 1 to 8.
pub base16_string-unsigned :
    (number sign : ℕ)
    → number < 2 ^ 32
    → is_negative number sign ≡ false
    → (text : List ℕ) × ((base16_string number sign).stored ≡ text ++ (0 ∷ []))
      × ((base16_string number sign).count ≡ length text)
      × Spells 16 hex_value IsHex 1 8 text number
unfolding base16_string read_digits
base16_string-unsigned zero sign h plain = (
  b'0' ∷ [],
  ground arith,
  ground arith,
  record { exact = refl; digits = (refl, tt); at_least = omega arith; at_most = omega arith },
)
base16_string-unsigned (suc n) sign h plain =
    let spelled = IsHex-Spells (suc n) (omega arith) h in
    (digits_of 16 hex_digit (suc n), ground arith, ground arith, spelled)

-- Without a sign, for a positive number, `base2_string` and `base8_string` store its binary and octal
-- numerals, of at most 32 digits (the size of `tmp`) and 11 digits, and return their lengths. Base 2
-- stores a terminator behind the numeral, base 8 stores none. For 0 neither stores a digit, and both
-- return 0.
pub base2_string-base8_string :
    (number sign : ℕ)
    → number < 2 ^ 32
    → is_negative number sign ≡ false
    → (bits octals : List ℕ) × (base2_string number sign
        ≡ record { stored = bits ++ (0 ∷ []); count = length bits })
      × (base8_string number sign ≡ record { stored = octals; count = length octals })
      × ((0 < number
          → Spells 2 decimal_value IsBinary 1 32 bits number
            × Spells 8 decimal_value IsOctal 1 11 octals number))
      × (number ≡ 0 → (bits ≡ []) × (octals ≡ []))
unfolding base2_string base8_string fill_tmp
base2_string-base8_string zero sign h plain =
    ([], [], ground arith, ground arith, (λ p. absurd (omega arith)), λ _. (refl, refl))
base2_string-base8_string (suc n) sign h plain = (
  digits_of 2 binary_digit (suc n),
  digits_of 8 decimal_digit (suc n),
  ground arith,
  ground arith,
  (λ p. (IsBinary-Spells (suc n) p h, IsOctal-Spells (suc n) p h)),
  λ e. absurd (omega arith),
)
