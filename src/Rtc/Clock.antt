-- ===== src/Rtc/Clock.antt =====
-- `read_rtc` of kernel/rtc.c: when its loop ends, and what it makes of the registers.
use test_os.Base.{
  ℕ, zero, suc, ◌+◌, ◌*◌, ◌/◌, ◌%◌, ◌^◌, ◌≤◌, ◌<◌, ◌≡◌, ◌≢◌, inl, inr, refl, ◌∙◌, ap, sym, subst,
  arith, Bool, true, false, leb, ◌==◌, ==_iff, if◌then◌else◌, Option, some, Bool-cases,
}
use test_os.Base.Bits.{bit_and-mask, bit_and_step, table_holds, table_holds_lem}
use native.Mathlib.Decide.{dec_le, ℕ_discrete}
use test_os.Rtc.{
  Registers, RtcTime, unchanged, read_again, from_bcd, decode_hour, is_bcd, is_day24, decode,
  then_decode, read_rtc,
}

-- How a clock shows the number `x`, with two decimal digits of four bits each or as it is.
unfoldable pub show : Bool → ℕ → ℕ
show bcd x = if bcd then x / 10 * 16 + x % 10 else x

-- How a clock of 24 or of 12 hours shows the hour: 12 at midnight and at noon, bit 7 from noon on.
unfoldable pub show_hour : (bcd day24 : Bool) → ℕ → ℕ
unfolding show
show_hour bcd day24 hour =
    let half = if hour % 12 == 0 then 12 else hour % 12 in
    if day24 then show bcd hour else if leb 12 hour then show bcd half + 128 else show bcd half

-- The modes of a clock: bit 2 of register B is for binary numbers, bit 1 for 24 hours.
abbrev pub counts_digits : ℕ → Bool
counts_digits register_b = register_b / 4 % 2 == 0

abbrev pub counts_day : ℕ → Bool
counts_day register_b = register_b / 2 % 2 == 1

-- The code's tests of register B are for these bits.
is_bcd_lem : (register_b : ℕ) → is_bcd register_b ≡ counts_digits register_b
is_bcd_lem b = ground (arith, bit_and_step b 4, bit_and_step (b / 2) 2, bit_and-mask 1 (b / 2 / 2))

is_day24_lem : (register_b : ℕ) → is_day24 register_b ≡ counts_day register_b
is_day24_lem b = ground (arith, bit_and_step b 2, bit_and-mask 1 (b / 2))

-- The registers of a clock at the time `t`, on its register B.
unfoldable pub show_time : ℕ → RtcTime → Registers
unfolding show show_hour
show_time register_b t = record {
  second = show (counts_digits register_b) t.second;
  minute = show (counts_digits register_b) t.minute;
  hour = show_hour (counts_digits register_b) (counts_day register_b) t.hour;
  day = show (counts_digits register_b) t.day;
  month = show (counts_digits register_b) t.month;
  year = show (counts_digits register_b) (t.year % 100);
  century = show (counts_digits register_b) (t.year / 100);
}

-- The hour that is read: on a clock of 12 hours midnight and noon are exchanged.
unfoldable pub read_hour : Bool → ℕ → ℕ
read_hour day24 hour =
    if day24 then hour else if hour == 0 then 12 else if hour == 12 then 0 else hour

number_lem :
    (bcd : Bool) (x : ℕ) → x < 100 → (if bcd then from_bcd (show bcd x) else show bcd x) ≡ x
unfolding show from_bcd
number_lem false x lt = refl
number_lem true x lt = omega (arith, bit_and-mask 4 (x / 10 * 16 + x % 10))

hour_table :
    (bcd day24 : Bool)
    → table_holds (λ h. decode_hour bcd day24 (show_hour bcd day24 h) == read_hour day24 h) 24
      ≡ true
unfolding table_holds decode_hour show_hour read_hour
hour_table true true = refl
hour_table true false = refl
hour_table false true = refl
hour_table false false = refl

decode-hour :
    (bcd day24 : Bool) (h : ℕ)
    → h < 24
    → decode_hour bcd day24 (show_hour bcd day24 h) ≡ read_hour day24 h
decode-hour bcd day24 h lt =
    (==_iff (decode_hour bcd day24 (show_hour bcd day24 h)) (read_hour day24 h)).0 (
      table_holds_lem (λ k. decode_hour bcd day24 (show_hour bcd day24 k) == read_hour day24 k) 24 h
        (hour_table bcd day24) lt)

-- Whatever the modes of register B, from the registers of a clock that shows a time up to the year
-- 9999 that time is read back, but for the hour: it is read back on a clock of 24 hours, while on one of
-- 12 hours midnight is read as noon and noon as midnight.
pub decode-show_time :
    (register_b : ℕ) (t : RtcTime)
    → t.second < 60
    → t.minute < 60
    → t.hour < 24
    → t.day < 32
    → t.month < 13
    → t.year < 10000
    → decode register_b (show_time register_b t)
      ≡ record t { hour = read_hour (counts_day register_b) t.hour }
unfolding decode show_time
decode-show_time register_b t hs hm hh hd hmo hy =
    let year : (t.year % 100 + t.year / 100 * 100) % 2 ^ 32 ≡ t.year = omega arith in
    let digits = counts_digits register_b in
    let day = counts_day register_b in
    rw
      (
        is_bcd_lem register_b,
        is_day24_lem register_b,
        number_lem digits t.second (omega arith),
        number_lem digits t.minute (omega arith),
        decode-hour digits day t.hour hh,
        number_lem digits t.day (omega arith),
        number_lem digits t.month (omega arith),
        number_lem digits (t.year % 100) (omega arith),
        number_lem digits (t.year / 100) (omega arith),
        year,
      )
      refl

unchanged_refl : (r : Registers) → unchanged r r ≡ true
unfolding unchanged
unchanged_refl r = ground arith

-- What the loop tests is the equality of all registers.
unchanged-same : (r now : Registers) → unchanged r now ≡ true → r ≡ now
unfolding unchanged
unchanged-same r now e =
    let second : r.second ≡ now.second = ground (arith, e) in
    let minute : r.minute ≡ now.minute = ground (arith, e) in
    let hour : r.hour ≡ now.hour = ground (arith, e) in
    let day : r.day ≡ now.day = ground (arith, e) in
    let month : r.month ≡ now.month = ground (arith, e) in
    let year : r.year ≡ now.year = ground (arith, e) in
    let century : r.century ≡ now.century = ground (arith, e) in
    λ i. record {
      second = second i;
      minute = minute i;
      hour = hour i;
      day = day i;
      month = month i;
      year = year i;
      century = century i;
    }

-- From the reading `k` on, the loop ends at the first two equal readings in a row.
Settled : (ℕ → Registers) → (k last : ℕ) → Option Registers → Type 0
Settled readings k last found =
    (n : ℕ) × (n ≤ last)
    × (readings n ≡ readings (n + 1))
    × ((i : ℕ) → k ≤ i → i < n → readings i ≢ readings (i + 1))
    × (found ≡ some (readings (n + 1)))

read_again-Settled :
    (fuel : ℕ) (readings : ℕ → Registers) (k n : ℕ)
    → k ≤ n
    → n < k + fuel
    → readings n ≡ readings (n + 1)
    → Settled readings k n (read_again fuel readings (k + 1) (readings k))
unfolding read_again Settled
read_again-Settled zero readings k n le lt e = absurd (omega arith)
read_again-Settled (suc fuel) readings k n le lt e =
    elim (Bool-cases (unchanged (readings k) (readings (k + 1)))) [
      | inl same ↦ rw same (
        k,
        le,
        unchanged-same (readings k) (readings (k + 1)) same,
        λ i low high. absurd (omega (arith, low, high)),
        refl,
      )
      | inr other ↦
          let (m, le', at, first, found) =
            read_again-Settled fuel readings (k + 1) n (later other) (omega arith) e in
          rw other (
            m,
            le',
            at,
            λ i low high. elim (ℕ_discrete i k) [
              | yes here ↦
                  λ equal. differs other (subst (λ t. readings t ≡ readings (t + 1)) here equal)
              | no ne ↦ first i (omega (arith, ne, low)) high
            ],
            found,
          )
    ]
  where
    differs : unchanged (readings k) (readings (k + 1)) ≡ false → readings k ≢ readings (k + 1)
    differs other equal =
        let same : unchanged (readings k) (readings (k + 1)) ≡ true =
          ap (unchanged (readings k)) (sym equal) ∙ unchanged_refl (readings k) in
        absurd (ground (arith, other, same))

    later : unchanged (readings k) (readings (k + 1)) ≡ false → k + 1 ≤ n
    later other = elim (dec_le (k + 1) n) [
      | yes more ↦ more
      | no last ↦
          let here : k ≡ n = omega arith in
          absurd (differs other (subst (λ i. readings i ≡ readings (i + 1)) (sym here) e))
    ]

-- If two readings in a row are equal, the `n`-th and the next, and the fuel is above `n`, `read_rtc`
-- ends: it decodes the second of two equal readings in a row, of all registers, the first such pair, at
-- the latest that.
pub read_rtc-settles :
    (fuel : ℕ) (readings : ℕ → Registers) (register_b n : ℕ)
    → n < fuel
    → readings n ≡ readings (n + 1)
    → (k : ℕ) × (k ≤ n)
      × (readings k ≡ readings (k + 1))
      × ((i : ℕ) → i < k → readings i ≢ readings (i + 1))
      × (read_rtc fuel readings register_b ≡ some (decode register_b (readings (k + 1))))
unfolding read_rtc Settled
read_rtc-settles fuel readings register_b n lt e =
    let (k, le, same, first, found) =
      read_again-Settled fuel readings 0 n (omega arith) (omega arith) e in
    let ended : read_again fuel readings 1 (readings 0) ≡ some (readings (k + 1)) = found in
    (k, le, same, λ i less. first i (omega arith) less, ap (then_decode register_b) ended)
