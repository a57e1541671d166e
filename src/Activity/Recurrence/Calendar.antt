-- ===== src/Activity/Recurrence/Calendar.antt =====
-- What recurrence.go uses of Go's time package, in UTC: the calendar and the normalisation of dates. A
-- month is counted from January of the year 0, `12 * year + month - 1`, and an instant in nanoseconds
-- from the start of that month.
use rekreativko_api.Base.{
  ℕ, zero, suc, ◌+◌, ◌-◌, ◌*◌, ◌/◌, ◌%◌, ◌≤◌, ◌<◌, Bool, ◌&&◌, ◌||◌, not, ◌==◌, leb, if◌then◌else◌,
  arith, inl, inr, Bool-cases,
}

abbrev pub day_ns : ℕ
day_ns = 86_400_000_000_000

-- A `time.Time` in UTC: its year and month, its day from 1, and the nanoseconds since midnight.
pub record Time : Type 0 where
  pub month : ℕ
  pub day : ℕ
  pub clock : ℕ

abbrev is_leap : (year : ℕ) → Bool
is_leap year = year % 4 == 0 && (not (year % 100 == 0) || year % 400 == 0)

-- February and the four months of 30 days, counted from 0.
unfoldable pub days_in : (month : ℕ) → ℕ
days_in month =
    let m = month % 12 in
    if m == 1
    then (if is_leap (month / 12) then 29 else 28)
    else if m == 3 || (m == 5 || (m == 8 || m == 10))
    then 30
    else 31

-- The days before the month.
unfoldable pub month_start : (month : ℕ) → ℕ
unfolding days_in
month_start zero = 0
month_start (suc month) = month_start month + days_in month

-- `time.Date` of a day of the month, which may lie beyond its end.
unfoldable pub date : (month day clock : ℕ) → ℕ
unfolding month_start
date month day clock = (month_start month + (day - 1)) * day_ns + clock

-- `Day()` of that, for a day of at most 31.
unfoldable pub day_of : (month day : ℕ) → ℕ
unfolding days_in
day_of month day = if leb day (days_in month) then day else day - days_in month

unfoldable pub instant : Time → ℕ
unfolding date
instant t = date t.month t.day t.clock

-- `Weekday()`, 0 for Sunday, by the days since the first of January of the year 0, a Saturday.
unfoldable pub weekday : (days : ℕ) → ℕ
weekday days = (days + 6) % 7

pub record IsTime (t : Time) : Type 0 where
  pub from_one : 1 ≤ t.day
  pub in_month : t.day ≤ days_in t.month
  pub in_day : t.clock < day_ns

pub days_in-ge : (month : ℕ) → 28 ≤ days_in month
unfolding days_in
days_in-ge month = ground arith

-- A later month starts after the end of an earlier one.
pub month_start-later :
    (later month : ℕ) → month < later → month_start month + days_in month ≤ month_start later
unfolding month_start
month_start-later zero month h = omega arith
month_start-later (suc later) month h = elim (Bool-cases (month == later)) [
  | inl e ↦ ground arith
  | inr n ↦ ground (arith, month_start-later later month)
]
