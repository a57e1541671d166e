-- ===== src/Activity/Recurrence/Rule.antt =====
-- recurrence.go: the rule, and the occurrence that follows a time. A rule comes from
-- `NewRecurrenceRule`, so its interval is a natural number, as are the days.
use rekreativko_api.Base.{
  ℕ, zero, suc, ◌+◌, ◌-◌, ◌*◌, ◌%◌, ℤ, pos, negsuc, String, Bool, true, false, ◌&&◌, not, ◌==◌, ltb,
  leb, if◌then◌else◌, Option, none, some, Result, ok, err, ◌>>=◌, ◌>>◌, guard, to_nat, le_ℤ,
}
use rekreativko_api.Activity.Errors.{
  Error, nil_dereference, invalid_recurrence_rule, recurrence_rule_missing_interval,
  recurrence_rule_missing_time_of_day, recurrence_rule_invalid_day_of_week,
  recurrence_rule_missing_day_of_month, recurrence_rule_invalid_day_of_month,
  recurrence_end_date_in_past, invalid_time_of_day_hour, invalid_time_of_day_minute,
}
use rekreativko_api.Activity.Recurrence.Calendar.{
  Time, day_ns, date, day_of, instant, weekday, month_start,
}

-- `unknown` is any other string.
pub data RecurrenceFrequency : Type 0 where
  daily weekly monthly : RecurrenceFrequency
  unknown : String → RecurrenceFrequency

abbrev pub is_valid_frequency : RecurrenceFrequency → Bool
is_valid_frequency (unknown s) = false
is_valid_frequency _ = true

pub record TimeOfDay : Type 0 where
  pub hour : ℕ
  pub minute : ℕ

-- `low <= z && z <= high`
abbrev is_between : (low high : ℕ) → ℤ → Bool
is_between low high (pos n) = leb low n && leb n high
is_between low high (negsuc n) = false

unfoldable pub new_time_of_day : (hour minute : ℤ) → Result Error TimeOfDay
new_time_of_day hour minute = do
  guard (is_between 0 23 hour) invalid_time_of_day_hour
  guard (is_between 0 59 minute) invalid_time_of_day_minute
  ok (record { hour = to_nat hour; minute = to_nat minute })

pub record RecurrenceRule : Type 0 where
  pub frequency : RecurrenceFrequency
  pub interval : ℕ
  pub day_of_week : Option ℕ
  pub time_of_day : TimeOfDay
  pub day_of_month : Option ℕ
  pub ends_at : Option ℕ

-- The checks of the days, by the frequency.
abbrev check_week : Option ℤ → Result Error (Unit {0})
check_week none = err recurrence_rule_missing_time_of_day
check_week (some d) = guard (is_between 0 6 d) recurrence_rule_invalid_day_of_week

abbrev check_month : Option ℤ → Result Error (Unit {0})
check_month none = err recurrence_rule_missing_day_of_month
check_month (some d) = guard (is_between 1 31 d) recurrence_rule_invalid_day_of_month

abbrev check_days :
    RecurrenceFrequency → (day_of_week day_of_month : Option ℤ) → Result Error (Unit {0})
check_days weekly day_of_week day_of_month = check_week day_of_week
check_days monthly day_of_week day_of_month = check_month day_of_month
check_days _ day_of_week day_of_month = ok tt

abbrev pub has_passed : (now : ℕ) → Option ℕ → Bool
has_passed now none = false
has_passed now (some t) = ltb t now

abbrev map_to_nat : Option ℤ → Option ℕ
map_to_nat none = none
map_to_nat (some z) = some (to_nat z)

-- The days of the other frequencies are kept as they are; those below 0, which nothing reads, as 0.
unfoldable pub new_recurrence_rule :
    (now : ℕ)
    → RecurrenceFrequency
    → TimeOfDay
    → (interval : ℤ) → (day_of_week day_of_month : Option ℤ) → (ends_at : Option ℕ)
    → Result Error RecurrenceRule
new_recurrence_rule now frequency time_of_day interval day_of_week day_of_month ends_at = do
  guard (is_valid_frequency frequency) invalid_recurrence_rule
  guard (not (le_ℤ interval 0)) recurrence_rule_missing_interval
  check_days frequency day_of_week day_of_month
  guard (not (has_passed now ends_at)) recurrence_end_date_in_past
  ok (record {
    frequency = frequency;
    interval = to_nat interval;
    day_of_week = map_to_nat day_of_week;
    time_of_day = time_of_day;
    day_of_month = map_to_nat day_of_month;
    ends_at = ends_at;
  })

abbrev pub clock_of : TimeOfDay → ℕ
clock_of t = (t.hour * 60 + t.minute) * 60_000_000_000

unfoldable pub next_daily : RecurrenceRule → Time → ℕ
unfolding date instant
next_daily r after =
    let candidate = date after.month after.day (clock_of r.time_of_day) in
    if ltb (instant after) candidate then candidate else candidate + r.interval * day_ns

unfoldable pub next_weekly : RecurrenceRule → (target_day : ℕ) → Time → ℕ
unfolding date instant weekday month_start
next_weekly r target_day after =
    let today = weekday (month_start after.month + (after.day - 1)) in
    let days_until = (target_day + 7 - today) % 7 in
    let candidate = date after.month after.day (clock_of r.time_of_day) + days_until * day_ns in
    if ltb (instant after) candidate then candidate else candidate + 7 * r.interval * day_ns

-- The loop of `nextValidMonth`, with the searches that are left.
unfoldable pub next_valid_month :
    (searches : ℕ) → RecurrenceRule → (month target_day : ℕ) → Option ℕ
unfolding date day_of
next_valid_month zero r month target_day = none
next_valid_month (suc searches) r month target_day =
    let rest = next_valid_month searches r (month + r.interval) target_day in
    if day_of month target_day == target_day
    then some (date month target_day (clock_of r.time_of_day))
    else rest

abbrev pub max_month_searches : ℕ
max_month_searches = 100

unfoldable pub next_monthly : RecurrenceRule → (target_day : ℕ) → Time → Option ℕ
unfolding date instant day_of next_valid_month
next_monthly r target_day after =
    let candidate = date after.month target_day (clock_of r.time_of_day) in
    if ltb (instant after) candidate && day_of after.month target_day == target_day
    then some candidate
    else next_valid_month max_month_searches r (after.month + r.interval) target_day

-- `*p`
abbrev deref : Option ℕ → Result Error ℕ
deref none = err nil_dereference
deref (some n) = ok n

abbrev pub until_end : (ends_at : Option ℕ) → Option ℕ → Option ℕ
until_end ends_at none = none
until_end none (some t) = some t
until_end (some end_time) (some t) = if ltb end_time t then none else some t

-- The zero time is the first of January of the year 1.
unfoldable pub zero_time : ℕ
unfolding date
zero_time = date 12 1 0

-- The switch of `NextOccurrenceAfter`.
unfoldable pub occurrence : RecurrenceRule → RecurrenceFrequency → Time → Result Error (Option ℕ)
unfolding next_daily next_weekly next_monthly zero_time
occurrence r daily after = ok (some (next_daily r after))
occurrence r weekly after = do
  target_day ← deref r.day_of_week
  ok (some (next_weekly r target_day after))
occurrence r monthly after = do
  target_day ← deref r.day_of_month
  ok (next_monthly r target_day after)
occurrence r (unknown s) after = ok (some zero_time)

unfoldable pub next_occurrence_after : RecurrenceRule → Time → Result Error (Option ℕ)
unfolding occurrence
next_occurrence_after r after = do
  next ← occurrence r r.frequency after
  ok (until_end r.ends_at next)

-- `HasEnded`, which does not look at the time that it is given.
unfoldable pub has_ended : (now t : ℕ) → RecurrenceRule → Bool
has_ended now t r = has_passed now r.ends_at
