-- ===== src/Rtc/Stamp.antt =====
-- `to_timestamp` of kernel/rtc.c counts the seconds since 1970.
use test_os.Base.{
  ℕ, zero, suc, ◌+◌, ◌-◌, ◌*◌, ◌/◌, ◌%◌, ◌^◌, ◌≤◌, ◌<◌, ◌≡◌, refl, ◌∙◌, ap, sym, subst, arith,
  ==_iff, Bool, true, false, ◌==◌, if◌then◌else◌,
}
use test_os.Base.Bits.{table_holds, table_holds_lem}
use native.Mathlib.Decide.{dec_le}
use test_os.Rtc.{stamp, to_timestamp}

-- The Gregorian rule.
abbrev pub is_leap : ℕ → Bool
is_leap year = if year % 400 == 0 then true else if year % 100 == 0 then false else year % 4 == 0

-- The days from 1 January 1970 to 1 January `n` years later.
unfoldable pub days_of_years : ℕ → ℕ
days_of_years zero = 0
days_of_years (suc n) = days_of_years n + (if is_leap (1970 + n) then 366 else 365)

abbrev pub month_days : Bool → ℕ → ℕ
month_days leap month =
    if month == 2
    then (if leap then 29 else 28)
    else if (month == 4)
    then 30
    else if month == 6
    then 30
    else if month == 9
    then 30
    else if month == 11
    then 30
    else 31

-- The days of the first `n` months of a year.
unfoldable pub days_of_months : Bool → ℕ → ℕ
days_of_months leap zero = 0
days_of_months leap (suc n) = days_of_months leap n + month_days leap (suc n)

days_of_years_lem :
    (n : ℕ) → days_of_years n + 477 + (n + 1969) / 100 ≡ 365 * n + (n + 1969) / 4 + (n + 1969) / 400
unfolding days_of_years
days_of_years_lem zero = refl
days_of_years_lem (suc n) = ground (arith, days_of_years_lem n)

-- The formula without its wraps.
stamp_lem :
    (days y m day hour minute second : ℕ)
    → days + 719499 + y / 100 ≡ y / 4 + y / 400 + 367 * m / 12 + day + y * 365
    → m ≤ 12
    → y < 4000
    → day < 32
    → days < 49700
    → hour < 24
    → minute < 60
    → second < 60
    → stamp y m day hour minute second ≡ ((days * 24 + hour) * 60 + minute) * 60 + second
unfolding stamp
stamp_lem days y m day hour minute second e hm hy hd hdays hh hmi hs =
    let wrapped : (y / 4
            + 2 ^ 32
            - y / 100
            + y / 400
            + 367 * m % 2 ^ 32 / 12
            + day
            + y * 365
            + 2 ^ 32
            - 719499)
          % 2 ^ 32
        ≡ days =
      omega arith in
    rw wrapped (omega arith)

months_table :
    (leap : Bool)
    → table_holds
        (λ k. days_of_months leap (k + 2) == (367 * (k + 1) / 12 + (if leap then 30 else 29)))
        10
      ≡ true
unfolding table_holds days_of_months
months_table true = refl
months_table false = refl

late_months :
    (leap : Bool) (month : ℕ)
    → 3 ≤ month
    → month ≤ 12
    → days_of_months leap (month - 1) ≡ 367 * (month - 2) / 12 + (if leap then 30 else 29)
late_months leap month lo hi =
    let at : (month - 3) + 2 ≡ month - 1 = omega arith in
    let from : (month - 3) + 1 ≡ month - 2 = omega arith in
    let held =
      (==_iff (days_of_months leap (month - 3 + 2))
          (367 * (month - 3 + 1) / 12 + (if leap then 30 else 29))).0
        (table_holds_lem
          (λ k. days_of_months leap (k + 2) == (367 * (k + 1) / 12 + (if leap then 30 else 29))) 10
          (month - 3) (months_table leap) (omega arith)) in
    ap (days_of_months leap) (sym at)
    ∙ held
    ∙ ap (λ (t : ℕ). 367 * t / 12 + (if leap then 30 else 29)) from

early_months :
    (leap : Bool) (month : ℕ)
    → 1 ≤ month
    → month ≤ 2
    → days_of_months leap (month - 1) + 336 ≡ 367 * (month + 10) / 12
unfolding days_of_months
early_months leap month lo hi = elim (dec_le month 1) [
  | yes one ↦
      let e : month ≡ 1 = omega arith in
      subst (λ t. days_of_months leap (t - 1) + 336 ≡ 367 * (t + 10) / 12) (sym e) refl
  | no two ↦
      let e : month ≡ 2 = omega arith in
      subst (λ t. days_of_months leap (t - 1) + 336 ≡ 367 * (t + 10) / 12) (sym e) refl
]

-- January and February count as the eleventh and twelfth month of the year before.
to_timestamp-early :
    (year month day hour minute second : ℕ)
    → 1 ≤ month
    → month ≤ 2
    → 1 ≤ year
    → year < 2 ^ 32
    → to_timestamp year month day hour minute second
      ≡ stamp (year - 1) (month + 10) day hour minute second
unfolding to_timestamp
to_timestamp-early year month day hour minute second lo hi some_year bound =
    let year' : (year + 2 ^ 32 - 1) % 2 ^ 32 ≡ year - 1 = omega arith in
    let month' : ((month + 2 ^ 32 - 2) % 2 ^ 32 + 12) % 2 ^ 32 ≡ month + 10 = omega arith in
    rw (year', month') (ground arith)

to_timestamp-late :
    (year month day hour minute second : ℕ)
    → 3 ≤ month
    → month ≤ 12
    → to_timestamp year month day hour minute second ≡ stamp year (month - 2) day hour minute second
unfolding to_timestamp
to_timestamp-late year month day hour minute second lo hi =
    let month' : (month + 2 ^ 32 - 2) % 2 ^ 32 ≡ month - 2 = omega arith in rw month' (ground arith)

-- From 1970 to 2105, `to_timestamp` is the number of seconds since 1970 for every date: of the days of
-- the years, the months and the month before it, and of its hours, minutes and seconds.
pub to_timestamp-days :
    (n month day hour minute second : ℕ)
    → n < 136
    → 1 ≤ month
    → month ≤ 12
    → 1 ≤ day
    → day ≤ 31
    → hour < 24
    → minute < 60
    → second < 60
    → to_timestamp (1970 + n) month day hour minute second
      ≡ (((days_of_years n + days_of_months (is_leap (1970 + n)) (month - 1) + (day - 1)) * 24
                + hour)
              * 60
            + minute)
          * 60
        + second
unfolding to_timestamp
to_timestamp-days n month day hour minute second hn lo hi dlo dhi hh hm hs = elim (dec_le month 2) [
  | yes early ↦
      to_timestamp-early (1970 + n) month day hour minute second lo early (omega arith)
        (omega arith)
      ∙ stamp_lem (days_of_years n + days_of_months (is_leap (1970 + n)) (month - 1) + (day - 1))
          (1970 + n - 1) (month + 10) day hour minute second
          (omega (arith, days_of_years_lem n, early_months (is_leap (1970 + n)) month lo early))
          (omega arith) (omega arith) (omega arith)
          (omega (arith, days_of_years_lem n, early_months (is_leap (1970 + n)) month lo early)) hh
          hm hs
  | no late ↦
      to_timestamp-late (1970 + n) month day hour minute second (omega arith) hi
      ∙ stamp_lem (days_of_years n + days_of_months (is_leap (1970 + n)) (month - 1) + (day - 1))
          (1970 + n) (month - 2) day hour minute second
          (ground
            (arith, days_of_years_lem n, late_months (is_leap (1970 + n)) month (omega arith) hi))
          (omega arith) (omega arith) (omega arith)
          (ground
            (arith, days_of_years_lem n, late_months (is_leap (1970 + n)) month (omega arith) hi))
          hh hm hs
]
