-- ===== src/Activity/Session/Examples.antt =====
-- Sessions on concrete inputs, and the theorems at them.
use rekreativko_api.Base.{some, [], ◌∷◌, map, ◌≡◌}
use rekreativko_api.Activity.Samples.{
  football_session, football_input, football_new, football_people, football_made,
}
use rekreativko_api.Activity.Member.{MemberRole}
use rekreativko_api.Activity.Session.State.{Session, canceled, scheduled, session_started, started}
use rekreativko_api.Activity.Session.Attendance.{statuses_for, new_session-attendees}
use rekreativko_api.Activity.Session.Lifecycle.{apply, after, ◌⟶◌, apply-⟶, starts}

new_session-attendees_example :
    (map (λ a. a.user_id) football_people ≡ 1 ∷ 2 ∷ 3 ∷ [])
    × (map (λ a. a.status) football_people ≡ statuses_for (some 2) (1 ∷ 2 ∷ 3 ∷ []))
new_session-attendees_example =
    new_session-attendees (λ i. i) 500 10 football_input football_new football_people football_made

apply-⟶_example :
    scheduled
    ⟶ (after football_session (apply 20 (starts 100 MemberRole.member) football_session)).status
apply-⟶_example = apply-⟶ 20 (starts 100 MemberRole.member) football_session

abbrev football_canceled : Session
football_canceled = record football_session { status = canceled }

abbrev football_started : Session
football_started = record football_session {
  status = started;
  updated_at = 20;
  started_at = some 20;
  events = session_started 500 (some 40) 100 ∷ [];
}
