-- ===== src/Rtc.antt =====
-- kernel/rtc.c: reading the real-time clock, and the time stamp of a date. The clock is a sequence of
-- readings of its registers, a parameter; waiting for its update flag is left out. `uint32_t` and
-- `unsigned long` have 32 bits.
pub mod Clock
pub mod Stamp
mod Examples
use test_os.Base.{
  ℕ, zero, suc, ◌+◌, ◌-◌, ◌*◌, ◌/◌, ◌%◌, ◌^◌, Bool, true, false, ◌&&◌, not, Option, none, some,
  bit_and, bit_or, ltb, leb, ◌==◌, if◌then◌else◌,
}

abbrev word : ℕ
word = 2 ^ 32

-- One reading of the seven registers.
pub record Registers : Type 0 where
  pub second : ℕ
  pub minute : ℕ
  pub hour : ℕ
  pub day : ℕ
  pub month : ℕ
  pub year : ℕ
  pub century : ℕ

pub record RtcTime : Type 0 where
  pub second : ℕ
  pub minute : ℕ
  pub hour : ℕ
  pub day : ℕ
  pub month : ℕ
  pub year : ℕ

-- The condition of the `do … while` loop, negated.
unfoldable pub unchanged : Registers → Registers → Bool
unchanged last now =
    (last.second == now.second)
    && ((last.minute == now.minute)
        && ((last.hour == now.hour)
            && ((last.day == now.day)
                && ((last.month == now.month)
                    && ((last.year == now.year) && (last.century == now.century))))))

-- The loop behind the first reading, on fuel; `k` readings have been made.
unfoldable pub read_again : ℕ → (ℕ → Registers) → ℕ → Registers → Option Registers
unfolding unchanged
read_again zero readings k last = none
read_again (suc fuel) readings k last =
    let now = readings k in
    let rest = read_again fuel readings (k + 1) now in if unchanged last now then some now else rest

unfoldable pub from_bcd : ℕ → ℕ
from_bcd x = bit_and x 0x0f + x / 16 * 10

-- The two conversions of the hour, on the two tests of `registerB`.
unfoldable pub decode_hour : (bcd day24 : Bool) → ℕ → ℕ
decode_hour bcd day24 hour =
    let digits = bit_or (bit_and hour 0x0f + bit_and hour 0x70 / 16 * 10) (bit_and hour 0x80) in
    let hour' = if bcd then digits else hour in
    if not day24 && not (bit_and hour' 0x80 == 0) then (bit_and hour' 0x7f + 12) % 24 else hour'

-- `!(registerB & 0x04)` and `registerB & 0x02`.
abbrev pub is_bcd : ℕ → Bool
is_bcd register_b = bit_and register_b 0x04 == 0

abbrev pub is_day24 : ℕ → Bool
is_day24 register_b = not (bit_and register_b 0x02 == 0)

-- `read_rtc` behind its loop.
unfoldable pub decode : ℕ → Registers → RtcTime
unfolding from_bcd decode_hour
decode register_b r =
    let number = (λ (x : ℕ). if is_bcd register_b then from_bcd x else x) in
    record {
      second = number r.second;
      minute = number r.minute;
      hour = decode_hour (is_bcd register_b) (is_day24 register_b) r.hour;
      day = number r.day;
      month = number r.month;
      year = (number r.year + number r.century * 100) % word;
    }

abbrev pub then_decode : ℕ → Option Registers → Option RtcTime
then_decode register_b none = none
then_decode register_b (some r) = some (decode register_b r)

unfoldable pub read_rtc : ℕ → (ℕ → Registers) → ℕ → Option RtcTime
read_rtc fuel readings register_b = then_decode register_b (read_again fuel readings 1 (readings 0))

-- The formula of `to_timestamp`, behind its `if`.
unfoldable pub stamp : (year month day hour minute second : ℕ) → ℕ
stamp year month day hour minute second =
    let leaps = year / 4 + word - year / 100 + year / 400 in
    let days = (leaps + 367 * month % word / 12 + day + year * 365 + word - 719499) % word in
    (((days * 24 + hour) * 60 + minute) * 60 + second) % word

unfoldable pub to_timestamp : (year month day hour minute second : ℕ) → ℕ
to_timestamp year month day hour minute second =
    let month' = (month + word - 2) % word in
    let early = stamp ((year + word - 1) % word) ((month' + 12) % word) day hour minute second in
    if leb (2 ^ 31) month'
    then early
    else if month' == 0
    then early
    else stamp year month' day hour minute second
