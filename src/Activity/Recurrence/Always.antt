-- ===== src/Activity/Recurrence/Always.antt =====
-- Rules of recurrence.go that never run out of occurrences.
use rekreativko_api.Base.{
  ℕ, suc, ◌+◌, ◌≤◌, ℤ, pos, to_nat, Bool, true, false, ◌&&◌, ◌==◌, ltb, leb, if◌then◌else◌, Option,
  none, some, is_some, ◌≡◌, ◌⊎◌, refl, sym, ap, ◌∙◌, arith, ok, inl, inr, Option-cases,
}
use rekreativko_api.Activity.Recurrence.Calendar.{Time, days_in, date, day_of, instant}
use rekreativko_api.Activity.Recurrence.Rule.{
  RecurrenceFrequency, daily, weekly, monthly, unknown, TimeOfDay, RecurrenceRule, new_time_of_day,
  new_recurrence_rule, clock_of, next_daily, next_weekly, next_valid_month, next_monthly,
  occurrence, next_occurrence_after, is_valid_frequency,
}
use rekreativko_api.Activity.Recurrence.Next.{
  is_day_between, new_recurrence_rule-IsRule, new_time_of_day-early,
}

-- Of two months that follow one another, one has 31 days.
long_month : (month : ℕ) → (days_in month ≡ 31) ⊎ (days_in (month + 1) ≡ 31)
unfolding days_in
long_month month = ground arith

day_of-eq : (month d : ℕ) → d ≤ days_in month → (day_of month d == d) ≡ true
unfolding day_of
day_of-eq month d h = ground arith

some_if :
    (b : Bool) (x : ℕ) (y : Option ℕ)
    → (b ≡ true) ⊎ (is_some y ≡ true)
    → is_some (if b then some x else y) ≡ true
some_if true x y h = refl
some_if false x y h = ground arith

next_valid_month-some :
    (searches : ℕ) (r : RecurrenceRule) (month d : ℕ)
    → r.interval ≡ 1
    → d ≤ 31
    → is_some (next_valid_month (suc (suc searches)) r month d) ≡ true
unfolding next_valid_month
next_valid_month-some searches r month d one small =
    some_if (day_of month d == d) _ _ (elim (long_month month) [
      | inl l ↦ inl (day_of-eq month d (omega (arith, l)))
      | inr l ↦ inr (
          some_if (day_of (month + r.interval) d == d) _ _
            (inl (day_of-eq (month + r.interval) d (rw one (omega (arith, l))))))
    ])

next_monthly-some :
    (r : RecurrenceRule) (d : ℕ) (after : Time)
    → r.interval ≡ 1
    → d ≤ 31
    → is_some (next_monthly r d after) ≡ true
unfolding next_monthly
next_monthly-some r d after one small =
    some_if
      (ltb (instant after) (date after.month d (clock_of r.time_of_day))
        && day_of after.month d == d)
      _ _ (inr (next_valid_month-some 98 r (after.month + r.interval) d one small))

found : (o : Option ℕ) → is_some o ≡ true → (n : ℕ) × (o ≡ some n)
found none h = ground arith
found (some n) h = (n, refl)

between-ge : (low high d : ℕ) → leb low d && leb d high ≡ true → d ≤ high
between-ge low high d h = ground arith

occurrence_monthly :
    (r : RecurrenceRule) (after : Time) (d n : ℕ)
    → r.day_of_month ≡ some d
    → next_monthly r d after ≡ some n
    → occurrence r monthly after ≡ ok (some n)
unfolding occurrence
occurrence_monthly r after d n z e = rw z (ap ok e)

occurrence-some :
    (r : RecurrenceRule) (after : Time) (f : RecurrenceFrequency)
    → is_valid_frequency f ≡ true
    → (f ≡ weekly → is_day_between 0 6 r.day_of_week ≡ true)
    → (f ≡ monthly → is_day_between 1 31 r.day_of_month ≡ true)
    → (f ≡ monthly → r.interval ≡ 1)
    → (n : ℕ) × (occurrence r f after ≡ ok (some n))
unfolding occurrence
occurrence-some r after daily k w m one = (next_daily r after, refl)
occurrence-some r after weekly k w m one = elim (Option-cases r.day_of_week) [
  | inl z ↦ ground (arith, w refl)
  | inr (d, z) ↦ (next_weekly r d after, rw z refl)
]
occurrence-some r after monthly k w m one = elim (Option-cases r.day_of_month) [
  | inl z ↦ ground (arith, m refl)
  | inr (d, z) ↦
      let (n, e) =
        found (next_monthly r d after)
          (next_monthly-some r d after (one refl) (between-ge 1 31 d (rw z at (m refl)))) in
      (n, occurrence_monthly r after d n z e)
]
occurrence-some r after (unknown s) k w m one = ground arith

new_recurrence_rule_fields :
    (now : ℕ) (t : TimeOfDay) (interval : ℤ) (week month : Option ℤ) (ends : Option ℕ)
    (f : RecurrenceFrequency) (r : RecurrenceRule)
    → new_recurrence_rule now f t interval week month ends ≡ ok r
    → (r.frequency ≡ f) × (r.interval ≡ to_nat interval) × (r.ends_at ≡ ends)
unfolding new_recurrence_rule
new_recurrence_rule_fields now t interval week month ends daily r h = ground arith
new_recurrence_rule_fields now t interval week month ends weekly r h = ground arith
new_recurrence_rule_fields now t interval week month ends monthly r h = ground arith
new_recurrence_rule_fields now t interval week month ends (unknown s) r h = ground arith

-- A rule that has passed the checks and has no end always has a next occurrence, if it is daily or
-- weekly, or monthly at interval 1: the search through the months finds one with the rule's day.
pub next_occurrence_after-some :
    (now : ℕ) (hour minute interval : ℤ) (week month : Option ℤ) (f : RecurrenceFrequency)
    (t : TimeOfDay) (r : RecurrenceRule) (after : Time)
    → new_time_of_day hour minute ≡ ok t
    → new_recurrence_rule now f t interval week month none ≡ ok r
    → (f ≡ monthly → interval ≡ pos 1)
    → (n : ℕ) × (next_occurrence_after r after ≡ ok (some n))
unfolding next_occurrence_after
next_occurrence_after-some now hour minute interval week month f t r after h k one =
    let rule =
      new_recurrence_rule-IsRule now t interval week month none
        (new_time_of_day-early hour minute t h) f r k in
    let (same, often, endless) = new_recurrence_rule_fields now t interval week month none f r k in
    let (n, e) =
      occurrence-some r after r.frequency rule.known rule.week rule.month
        (λ q. often ∙ ap to_nat (one (sym same ∙ q))) in
    (n, rw (e, endless) refl)
