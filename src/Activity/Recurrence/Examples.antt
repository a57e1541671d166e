-- ===== src/Activity/Recurrence/Examples.antt =====
-- Rules on concrete dates, and the theorems at them.
use rekreativko_api.Base.{ℕ, ◌+◌, ◌*◌, pos, none, some, ◌≡◌, refl, ok}
use rekreativko_api.Activity.Recurrence.Calendar.{
  Time, day_ns, instant, weekday, month_start, days_in,
}
use rekreativko_api.Activity.Recurrence.Rule.{
  monthly, TimeOfDay, RecurrenceRule, new_time_of_day, new_recurrence_rule, clock_of,
  next_occurrence_after, next_monthly,
}
use rekreativko_api.Activity.Recurrence.Always.{next_occurrence_after-some}

-- The ninth of March 2026 is a Monday.
weekday-march : weekday (month_start (12 * 2_026 + 2) + 8) ≡ 1
unfolding weekday month_start days_in
weekday-march = refl

abbrev evening : TimeOfDay
evening = record { hour = 18; minute = 30 }

-- On the 31st of every month, at half past six in the evening.
abbrev last_day : RecurrenceRule
last_day = record {
  frequency = monthly;
  interval = 1;
  day_of_week = none;
  time_of_day = evening;
  day_of_month = some 31;
  ends_at = none;
}

evening-valid : new_time_of_day (pos 18) (pos 30) ≡ ok evening
unfolding new_time_of_day
evening-valid = refl

last_day-valid :
    new_recurrence_rule 0 monthly evening (pos 1) none (some (pos 31)) none ≡ ok last_day
unfolding new_recurrence_rule
last_day-valid = refl

-- The fifth of February of the year 0.
abbrev in_february : Time
in_february = record { month = 1; day = 5; clock = 0 }

abbrev end_of_march : ℕ
end_of_march = 90 * day_ns + clock_of evening

-- Every twelve months from February there is no 31st.
no_day : next_monthly (record last_day { interval = 12 }) 31 in_february ≡ none
unfolding next_monthly instant
no_day = refl

next_occurrence_after-some_example :
    (n : ℕ) × (next_occurrence_after last_day in_february ≡ ok (some n))
next_occurrence_after-some_example =
    next_occurrence_after-some 0 (pos 18) (pos 30) (pos 1) none (some (pos 31)) monthly evening
      last_day in_february evening-valid last_day-valid (λ _. refl)
