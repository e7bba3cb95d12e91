-- ===== src/Text.antt =====
-- libraries/text.c: the conversions of a 32-bit number to text in base 10, 8, 16 and 2, which
-- `printk` calls. `dst` is written from its first byte on, so a call is modelled by the bytes that it
-- stores there, in order, and by the `i` that it returns.
pub mod Digits
pub mod Print
mod Examples
use test_os.Base.{
  ℕ, zero, suc, ◌+◌, ◌-◌, ◌/◌, ◌%◌, ◌^◌, Bool, true, false, not, ◌&&◌, List, [], ◌∷◌, ◌++◌, reverse,
  bit_and, leb, ltb, ◌==◌, if◌then◌else◌, length,
}

pub record Printed : Type 0 where
  pub stored : List ℕ
  pub count : ℕ

-- `while (number > 0) { tmp[j++] = digit(number % base); number /= base; }`: what the loop stores in
-- `tmp`, from `tmp[0]` on. A shift by k is a division by 2 ^ k. The fuel is the number itself.
pub fill_tmp : ℕ → (ℕ → ℕ) → ℕ → ℕ → List ℕ
fill_tmp base digit zero number = []
fill_tmp base digit (suc fuel) number =
    let rest = digit (number % base) ∷ fill_tmp base digit fuel (number / base) in
    if ltb 0 number then rest else []

-- `for (--j; j >= 0; dst[i++] = tmp[j--]) {}` reverses `tmp`.
abbrev pub digits_of : ℕ → (ℕ → ℕ) → ℕ → List ℕ
digits_of base digit number = reverse (fill_tmp base digit number number)

-- `sign && (int)number < 0`
abbrev pub is_negative : ℕ → ℕ → Bool
is_negative number sign = not (sign == 0) && leb (2 ^ 31) number

-- `number` after the sign test, and what the test stores.
abbrev pub magnitude : ℕ → ℕ → ℕ
magnitude number sign = if is_negative number sign then bit_and number 0x7fffffff else number

abbrev pub sign_text : ℕ → ℕ → List ℕ
sign_text number sign = if is_negative number sign then b'-' ∷ [] else []

abbrev pub decimal_digit : ℕ → ℕ
decimal_digit d = b'0' + d

-- `hex_char`
abbrev pub hex_digit : ℕ → ℕ
hex_digit d = if ltb d 10 then b'0' + d else b'a' + (d - 10)

abbrev pub binary_digit : ℕ → ℕ
binary_digit d = if d == 0 then b'0' else b'1'

pub base10_string : ℕ → ℕ → Printed
base10_string number sign =
    let out = sign_text number sign ++ digits_of 10 decimal_digit (magnitude number sign) in
    let text = if length out == 0 then b'0' ∷ [] else out in
    record { stored = text ++ 0 ∷ []; count = length text }

-- Base 8 stores no terminator.
pub base8_string : ℕ → ℕ → Printed
base8_string number sign =
    let out = sign_text number sign ++ digits_of 8 decimal_digit (magnitude number sign) in
    record { stored = out; count = length out }

pub base16_string : ℕ → ℕ → Printed
base16_string number sign =
    let number' = magnitude number sign in
    let body = if number' == 0 then b'0' ∷ [] else digits_of 16 hex_digit number' in
    let out = sign_text number sign ++ body in record { stored = out ++ 0 ∷ []; count = length out }

pub base2_string : ℕ → ℕ → Printed
base2_string number sign =
    let out = sign_text number sign ++ digits_of 2 binary_digit (magnitude number sign) in
    record { stored = out ++ 0 ∷ []; count = length out }
