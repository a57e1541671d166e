-- ===== src/Activity/Session/Attendance.antt =====
-- The attendees that a new session starts with.
use rekreativko_api.Activity.Team.{map_to_nat}
use rekreativko_api.Base.{
  Option, ap, Bool-cases, inl, inr, ℕ, suc, zero, ◌+◌, true, false, some, none, List, [], ◌∷◌, map,
  ◌≡◌, refl, ok, arith, >>=-eq-ok, guard->>-eq-ok,
}
use rekreativko_api.Activity.Attendee.{
  Attendee, AttendeeStatus, going, pending, new_auto_confirmed_attendee, new_auto_pending_attendee,
}
use rekreativko_api.Activity.Session.State.{Session, has_capacity, add_event}
use rekreativko_api.Activity.Session.Creation.{
  SessionInput, new_session, process_auto_attendees, auto_attendee, created, check_visibility,
  capacity_is_positive,
}

-- The first `n` of a list are going, the others wait.
abbrev pub first_going : (n : ℕ) → List ℕ → List AttendeeStatus
first_going n [] = []
first_going zero (u ∷ us) = pending ∷ first_going zero us
first_going (suc n) (u ∷ us) = going ∷ first_going n us

process_auto_attendees_users :
    (ids : ℕ → ℕ) (now i n : ℕ) (s : Session) (us : List ℕ)
    → map (λ a. a.user_id) (process_auto_attendees ids now i n s us).1 ≡ us
unfolding process_auto_attendees auto_attendee new_auto_confirmed_attendee new_auto_pending_attendee
process_auto_attendees_users ids now i n s [] = refl
process_auto_attendees_users ids now i n s (u ∷ us) = elim (Bool-cases (has_capacity s n)) [
  | inl t ↦ rw t (ap (◌∷◌ u) (process_auto_attendees_users ids now (suc i) (suc n) _ us))
  | inr f ↦ rw f (ap (◌∷◌ u) (process_auto_attendees_users ids now (suc i) n _ us))
]

process_auto_attendees_statuses :
    (ids : ℕ → ℕ) (now i n k : ℕ) (us : List ℕ) (s : Session)
    → s.capacity ≡ some (n + k)
    → map (λ a. a.status) (process_auto_attendees ids now i n s us).1 ≡ first_going k us
unfolding process_auto_attendees auto_attendee new_auto_confirmed_attendee new_auto_pending_attendee
    has_capacity add_event
process_auto_attendees_statuses ids now i n k [] s h = refl
process_auto_attendees_statuses ids now i n zero (u ∷ us) s h =
    let full : has_capacity s n ≡ false = ground arith in
    rw full (ap (◌∷◌ pending) (process_auto_attendees_statuses ids now (suc i) n zero us _ h))
process_auto_attendees_statuses ids now i n (suc k) (u ∷ us) s h =
    let free : has_capacity s n ≡ true = ground arith in
    rw free (
      ap (◌∷◌ going)
        (process_auto_attendees_statuses ids now (suc i) (suc n) k us _ (ground arith)))

process_auto_attendees_unlimited :
    (ids : ℕ → ℕ) (now i n : ℕ) (us : List ℕ) (s : Session)
    → s.capacity ≡ none
    → map (λ a. a.status) (process_auto_attendees ids now i n s us).1 ≡ map (λ u. going) us
unfolding process_auto_attendees auto_attendee new_auto_confirmed_attendee new_auto_pending_attendee
    has_capacity add_event
process_auto_attendees_unlimited ids now i n [] s h = refl
process_auto_attendees_unlimited ids now i n (u ∷ us) s h =
    let free : has_capacity s n ≡ true = ground arith in
    rw free (
      ap (◌∷◌ going) (process_auto_attendees_unlimited ids now (suc i) (suc n) us _ (ground arith)))

abbrev pub statuses_for : Option ℕ → List ℕ → List AttendeeStatus
statuses_for none us = map (λ u. going) us
statuses_for (some n) us = first_going n us

process_auto_attendees_for :
    (ids : ℕ → ℕ) (now : ℕ) (us : List ℕ) (s : Session) (cap : Option ℕ)
    → s.capacity ≡ cap
    → map (λ a. a.status) (process_auto_attendees ids now 0 0 s us).1 ≡ statuses_for cap us
process_auto_attendees_for ids now us s none h =
    process_auto_attendees_unlimited ids now 0 0 us s (ground arith)
process_auto_attendees_for ids now us s (some n) h =
    process_auto_attendees_statuses ids now 0 0 n us s (ground arith)

-- A new session starts with one attendee for each person to add, in their order. All are going where
-- the session has no capacity; where it has one, as many as it says are going, the first, and the
-- others are pending.
pub new_session-attendees :
    (ids : ℕ → ℕ) (id now : ℕ) (input : SessionInput) (s : Session) (people : List Attendee)
    → new_session ids id now input ≡ ok (s, people)
    → (map (λ a. a.user_id) people ≡ input.auto_attendee_ids)
      × (map (λ a. a.status) people
          ≡ statuses_for (map_to_nat input.capacity) input.auto_attendee_ids)
unfolding new_session
new_session-attendees ids id now input s people h =
    let (good, h₁) = guard->>-eq-ok (capacity_is_positive input.capacity) _ _ h in
    let (v, e, h₂) = >>=-eq-ok (check_visibility input.visibility) _ h₁ in
    let us = input.auto_attendee_ids in
    let users = process_auto_attendees_users ids now 0 0 (created id now input v) us in
    let statuses =
      process_auto_attendees_for ids now us (created id now input v) (map_to_nat input.capacity)
        refl in
    (ground (arith, users, h₂), ground (arith, statuses, h₂))
