-- ===== src/Activity/Recurrence/Next.antt =====
-- The occurrence that follows a time, for the rules that `NewRecurrenceRule` of recurrence.go lets
-- through.
use rekreativko_api.Base.{
  ℕ, ◌+◌, ◌-◌, ◌*◌, ◌≤◌, ◌<◌, ℤ, pos, negsuc, Bool, true, false, ◌&&◌, ltb, leb, Option, none, some,
  ◌≡◌, arith, ok,
}
use rekreativko_api.Activity.Recurrence.Calendar.{day_ns, days_in, month_start, weekday}
use rekreativko_api.Activity.Recurrence.Rule.{
  RecurrenceFrequency, daily, weekly, monthly, unknown, TimeOfDay, RecurrenceRule, new_time_of_day,
  new_recurrence_rule, clock_of, is_valid_frequency,
}

-- The day of the month exists in some month, and the days since the year 0 are those of it.
abbrev IsMonthDay : (target_day days : ℕ) → Type 0
IsMonthDay target_day days =
    (month : ℕ) × (target_day ≤ days_in month) × (days ≡ month_start month + (target_day - 1))

-- An instant at the rule's time of a day that has the property, later than another one.
abbrev IsAt : (clock : ℕ) → (ℕ → Type 0) → (after n : ℕ) → Type 0
IsAt clock IsDay after n = (days : ℕ) × (n ≡ days * day_ns + clock) × IsDay days × (after < n)

-- A rule that `NewRecurrenceRule` lets through, with a time of day that `NewTimeOfDay` does.
abbrev pub is_day_between : (low high : ℕ) → Option ℕ → Bool
is_day_between low high none = false
is_day_between low high (some d) = leb low d && leb d high

pub between-le : (low high d : ℕ) → leb low d && leb d high ≡ true → low ≤ d
between-le low high d h = ground arith

pub record IsRule (r : RecurrenceRule) : Type 0 where
  pub early : clock_of r.time_of_day < day_ns
  pub often : 1 ≤ r.interval
  pub week : r.frequency ≡ weekly → is_day_between 0 6 r.day_of_week ≡ true
  pub month : r.frequency ≡ monthly → is_day_between 1 31 r.day_of_month ≡ true
  pub known : is_valid_frequency r.frequency ≡ true

pub new_time_of_day-early :
    (hour minute : ℤ) (t : TimeOfDay) → new_time_of_day hour minute ≡ ok t → clock_of t < day_ns
unfolding new_time_of_day
new_time_of_day-early (pos hour) (pos minute) t h = ground arith
new_time_of_day-early (pos hour) (negsuc minute) t h = ground arith
new_time_of_day-early (negsuc hour) minute t h = ground arith

module _ (now : ℕ) (t : TimeOfDay) (interval : ℤ) (week month : Option ℤ) (ends : Option ℕ)
    (early : clock_of t < day_ns) where
  pub new_recurrence_rule-IsRule :
      (f : RecurrenceFrequency) (r : RecurrenceRule)
      → new_recurrence_rule now f t interval week month ends ≡ ok r
      → IsRule r
  unfolding new_recurrence_rule
  new_recurrence_rule-IsRule daily r h = record {
    early = ground arith;
    often = ground arith;
    week = λ q. ground arith;
    month = λ q. ground arith;
    known = ground arith;
  }
  new_recurrence_rule-IsRule weekly r h = record {
    early = ground arith;
    often = ground arith;
    week = λ q. ground arith;
    month = λ q. ground arith;
    known = ground arith;
  }
  new_recurrence_rule-IsRule monthly r h = record {
    early = ground arith;
    often = ground arith;
    week = λ q. ground arith;
    month = λ q. ground arith;
    known = ground arith;
  }
  new_recurrence_rule-IsRule (unknown s) r h = ground arith

-- The day is one of the rule's: the weekday, or the day of the month in a month that has it.
abbrev pub IsOn : RecurrenceFrequency → (day_of_week day_of_month : Option ℕ) → (days : ℕ) → Type 0
IsOn daily day_of_week day_of_month days = Unit {0}
IsOn weekly day_of_week day_of_month days = day_of_week ≡ some (weekday days)
IsOn monthly day_of_week day_of_month days =
    (target_day : ℕ) × (day_of_month ≡ some target_day) × IsMonthDay target_day days
IsOn (unknown s) day_of_week day_of_month days = false ≡ true

abbrev pub is_later : Option ℕ → ℕ → Bool
is_later none n = false
is_later (some t) n = ltb t n
