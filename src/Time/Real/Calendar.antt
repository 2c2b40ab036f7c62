-- ===== src/Time/Real/Calendar.antt =====
-- The day number of kernel/time/real.cpp against the calendar, and its hours against the clock face.
use reaveros_iteration.Common.{
  ℕ, zero, suc, ◌+◌, ◌-◌, ◌*◌, ◌/◌, ◌%◌, ◌^◌, ◌≤◌, ◌<◌, ◌≡◌, refl, subst, Bool, true, false, not,
  ◌&&◌, ◌||◌, ◌==◌, ltb, if◌then◌else◌, arith,
}
use reaveros_iteration.Time.Real.{
  after_month, days_before_month, days_of, Registers, to_24_hours, has_flag,
}

-- the calendar: leap years, the lengths of years and months
abbrev pub is_leap : ℕ → Bool
is_leap year = (year % 4 == 0 && not (year % 100 == 0)) || year % 400 == 0

abbrev pub month_length : (leap : Bool) → ℕ → ℕ
month_length leap m =
    if m == 2
    then (if leap then 29 else 28)
    else if m == 4 || (m == 6 || (m == 9 || m == 11))
    then 30
    else 31

-- the days of the first so many years from 2001 on, and of the months before one
unfoldable pub days_of_years : ℕ → ℕ
days_of_years zero = 0
days_of_years (suc n) = days_of_years n + (if is_leap (2001 + n) then 366 else 365)

unfoldable pub days_of_months : (leap : Bool) → ℕ → ℕ
days_of_months leap zero = 0
days_of_months leap (suc n) = days_of_months leap n + month_length leap (suc n)

-- the number of a date, the first of January 2001 being 1
abbrev pub day_number : (year month day : ℕ) → ℕ
day_number year month day =
    days_of_years (year - 2001) + days_of_months (is_leap year) (month - 1) + day

days_of_years_lem : (n : ℕ) → days_of_years n + n / 100 ≡ n * 365 + n / 4 + n / 400
unfolding days_of_years
days_of_years_lem zero = refl
days_of_years_lem (suc n) = ground (arith, days_of_years_lem n)

-- the months of the code are those of a year that is not leap
days_of_months_common : (n : ℕ) → n < 12 → days_of_months false n ≡ days_before_month (n + 1)
unfolding days_of_months days_before_month
days_of_months_common zero h = refl
days_of_months_common (suc zero) h = refl
days_of_months_common (suc (suc zero)) h = refl
days_of_months_common (suc (suc (suc zero))) h = refl
days_of_months_common (suc (suc (suc (suc zero)))) h = refl
days_of_months_common (suc (suc (suc (suc (suc zero))))) h = refl
days_of_months_common (suc (suc (suc (suc (suc (suc zero)))))) h = refl
days_of_months_common (suc (suc (suc (suc (suc (suc (suc zero))))))) h = refl
days_of_months_common (suc (suc (suc (suc (suc (suc (suc (suc zero)))))))) h = refl
days_of_months_common (suc (suc (suc (suc (suc (suc (suc (suc (suc zero))))))))) h = refl
days_of_months_common (suc (suc (suc (suc (suc (suc (suc (suc (suc (suc zero)))))))))) h = refl
days_of_months_common (suc (suc (suc (suc (suc (suc (suc (suc (suc (suc (suc zero))))))))))) h =
    refl
days_of_months_common (suc (suc (suc (suc (suc (suc (suc (suc (suc (suc (suc (suc n)))))))))))) h =
    absurd (omega arith)

days_of_months_leap :
    (n : ℕ) → days_of_months true n ≡ days_of_months false n + (if ltb 1 n then 1 else 0)
unfolding days_of_months
days_of_months_leap zero = refl
days_of_months_leap (suc n) = let before = days_of_months_leap n in ground (arith, before)

days_of_months_lem :
    (leap : Bool) (n : ℕ)
    → n < 12
    → days_of_months leap n ≡ days_before_month (n + 1) + (if leap && ltb 2 (n + 1) then 1 else 0)
days_of_months_lem true n h = ground (arith, days_of_months_leap n, days_of_months_common n h)
days_of_months_lem false n h = ground (arith, days_of_months_common n h)

after_month-le : (month m length : ℕ) → after_month month m length ≤ length
after_month-le month m length = ground arith

days_before_month-le : (month : ℕ) → days_before_month month ≤ 334
unfolding days_before_month
days_before_month-le month =
    let l = after_month-le month in
    omega (
      arith,
      l 1 31,
      l 2 28,
      l 3 31,
      l 4 30,
      l 5 31,
      l 6 30,
      l 7 31,
      l 8 31,
      l 9 30,
      l 10 31,
      l 11 30,
    )

-- no sum of the code wraps around
days_of-sum :
    (n month day : ℕ)
    → n < 2 ^ 32
    → day < 32
    → days_of (2001 + n) month day + n / 100
      ≡ n * 365 + n / 4 + n / 400 + days_before_month month + day
unfolding days_of
days_of-sum n month day small low = let before = days_before_month-le month in omega (arith, before)

-- For a date from 2001 to 2^32, with a month from 1 to 12 and a day below 32, the calendar's number
-- of the date is what real::initialize counts, or one more from March on in a leap year, whose own
-- leap day is not counted.
pub days_of-day_number :
    (year month day : ℕ)
    → 2001 ≤ year
    → year < 2 ^ 32
    → 1 ≤ month
    → month ≤ 12
    → day < 32
    → day_number year month day
      ≡ days_of year month day + (if is_leap year && ltb 2 month then 1 else 0)
days_of-day_number year month day from until first last small =
    let n = year - 2001 in
    let years = days_of_years_lem n in
    let year_back : 2001 + n ≡ year = omega arith in
    let month_back : month - 1 + 1 ≡ month = omega arith in
    let months : days_of_months (is_leap year) (month - 1)
        ≡ days_before_month month + (if is_leap year && ltb 2 month then 1 else 0) =
      subst
        (λ m.
          days_of_months (is_leap year) (month - 1)
          ≡ days_before_month m + (if is_leap year && ltb 2 m then 1 else 0))
        month_back (days_of_months_lem (is_leap year) (month - 1) (omega arith)) in
    let code : days_of year month day + n / 100
        ≡ n * 365 + n / 4 + n / 400 + days_before_month month + day =
      subst
        (λ y.
          days_of y month day + n / 100 ≡ n * 365 + n / 4 + n / 400 + days_before_month month + day)
        year_back (days_of-sum n month day (omega arith) small) in
    omega (arith, years, months, code)

-- the hour of the day that a clock face shows, in the morning or in the afternoon
abbrev pub hour_of_face : (afternoon : Bool) → ℕ → ℕ
hour_of_face afternoon hour = hour % 12 + (if afternoon then 12 else 0)

-- For the registers of a clock of twelve hours that holds an hour from 1 to 12 in binary,
-- real::initialize finds the hour of the day, but takes noon for 0 and midnight for 12.
pub to_24_hours-hour_of_face :
    (r : Registers) (afternoon : Bool) (hour : ℕ)
    → has_flag 2 r.regb ≡ false
    → 1 ≤ hour
    → hour ≤ 12
    → r.hour ≡ hour + (if afternoon then 128 else 0)
    → to_24_hours r
      ≡ (if hour == 12 then (if afternoon then 0 else 12) else hour_of_face afternoon hour)
unfolding to_24_hours
to_24_hours-hour_of_face r afternoon hour twelve from until face = ground (arith, face)
