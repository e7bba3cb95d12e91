-- ===== src/Rtc/Examples.antt =====
-- Runs of the clock, and the theorems about it at concrete times.
use test_os.Base.{
  ℕ, ◌+◌, ◌-◌, ◌*◌, ◌≤◌, ◌≡◌, ◌≢◌, ◌<◌, refl, arith, false, some, if◌then◌else◌, ltb,
}
use test_os.Rtc.{Registers, RtcTime, decode, read_rtc, stamp, to_timestamp}
use test_os.Rtc.Clock.{show_time, read_hour, decode-show_time, read_rtc-settles}
use test_os.Rtc.Stamp.{is_leap, days_of_years, days_of_months, to_timestamp-days}

abbrev noon : RtcTime
noon = record { second = 30; minute = 15; hour = 12; day = 29; month = 2; year = 2024 }

-- Register B in BCD with 12 hours, and in BCD with 24.
noon_12_hours : (decode 0 (show_time 0 noon)).hour ≡ 0
unfolding decode show_time
noon_12_hours = refl

noon_24_hours : decode 2 (show_time 2 noon) ≡ noon
unfolding decode show_time
noon_24_hours = refl

-- The first of January 2000.
millennium : to_timestamp 2000 1 1 0 0 0 ≡ 946684800
unfolding to_timestamp stamp
millennium = refl

to_timestamp-days_example :
    to_timestamp (1970 + 54) 2 29 12 15 30
    ≡ (((days_of_years 54 + days_of_months (is_leap (1970 + 54)) (2 - 1) + (29 - 1)) * 24 + 12) * 60
          + 15)
        * 60
      + 30
to_timestamp-days_example =
    to_timestamp-days 54 2 29 12 15 30 (omega arith) (omega arith) (omega arith) (omega arith)
      (omega arith) (omega arith) (omega arith) (omega arith)

decode-show_time_example : decode 0 (show_time 0 noon) ≡ record noon { hour = read_hour false 12 }
decode-show_time_example =
    decode-show_time 0 noon (omega arith) (omega arith) (omega arith) (omega arith) (omega arith)
      (omega arith)

-- The seconds change between the first two readings.
abbrev readings : ℕ → Registers
readings k = record {
  second = if ltb k 1 then 0x59 else 0;
  minute = 0x15;
  hour = 0x12;
  day = 0x29;
  month = 2;
  year = 0x24;
  century = 0x20;
}

read_rtc-settles_example :
    (k : ℕ) × (k ≤ 1)
    × (readings k ≡ readings (k + 1))
    × ((i : ℕ) → i < k → readings i ≢ readings (i + 1))
    × (read_rtc 5 readings 2 ≡ some (decode 2 (readings (k + 1))))
read_rtc-settles_example = read_rtc-settles 5 readings 2 1 (omega arith) refl
