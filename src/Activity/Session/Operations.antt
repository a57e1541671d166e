-- ===== src/Activity/Session/Operations.antt =====
-- The operations of session.go. Those that fail do so before they write, so an error leaves the
-- session as it was.
use rekreativko_api.Base.{
  ℕ, ℤ, String, Bool, true, ◌||◌, not, ltb, ◌==◌, if◌then◌else◌, Option, none, some, List, Result,
  ok, ◌>>◌, guard,
}
use rekreativko_api.Activity.Errors.{
  Error, unauthorized, session_not_scheduled, session_not_started, session_canceled,
  session_completed, session_not_expired_yet, invalid_session_capacity, invalid_session_visibility,
  session_not_open,
}
use rekreativko_api.Activity.Member.{MemberRole}
use rekreativko_api.Activity.Team.{map_to_nat}
use rekreativko_api.Activity.Session.State.{
  Session, SessionVisibility, SessionSchedule, SessionLocation, started, canceled, completed,
  public_session, session_updated, visibility_changed, session_cancelled, session_started,
  session_completed_by, session_expired, is_valid_visibility, same_visibility, effective_end_time,
  add_event, can_manage_session, require_schedule, is_canceled, is_completed, is_started,
  is_scheduled,
}
use rekreativko_api.Activity.Session.Creation.{capacity_is_positive}

-- `is_related` is the answer of the caller's look-up.
unfoldable pub is_visible_to : Session → (user_id : ℕ) → (is_related : Bool) → Bool
is_visible_to s user_id is_related =
    if same_visibility s.visibility public_session
    then true
    else if s.created_by_id == user_id
    then true
    else is_related

pub record SessionUpdateInput : Type 0 where
  pub requester_id : ℕ
  pub requester_role : MemberRole
  pub location : SessionLocation
  pub schedule : SessionSchedule
  pub capacity : Option ℤ
  pub note : String

unfoldable pub update : (now : ℕ) → SessionUpdateInput → Session → Result Error Session
unfolding require_schedule can_manage_session add_event
update now input s = do
  require_schedule s
  guard (can_manage_session s input.requester_id input.requester_role) unauthorized
  guard (capacity_is_positive input.capacity) invalid_session_capacity
  ok (
      add_event (session_updated s.id s.activity_group_id input.requester_id) (record s {
        location = input.location;
        schedule = input.schedule;
        capacity = map_to_nat input.capacity;
        note = input.note;
        updated_at = now;
      }))

unfoldable pub set_visibility :
    (now requester_id : ℕ) → MemberRole → SessionVisibility → Session → Result Error Session
unfolding can_manage_session add_event
set_visibility now requester_id requester_role visibility s = do
  guard (can_manage_session s requester_id requester_role) unauthorized
  guard (is_valid_visibility visibility) invalid_session_visibility
  ok (
      if same_visibility visibility s.visibility
      then s
      else add_event
          (visibility_changed s.id s.activity_group_id requester_id s.visibility visibility)
          (record s { visibility = visibility; updated_at = now }))

-- What `Cancel` and `CancelFromGroup` share: the two status checks and the write.
cancel_by :
    (now by : ℕ) → (reason : String) → (attendee_user_ids : List ℕ) → Session → Result Error Session
unfolding add_event
cancel_by now by reason attendee_user_ids s = do
  guard (not (is_completed s.status)) session_completed
  guard (not (is_canceled s.status)) session_canceled
  ok (
      add_event (session_cancelled s.id s.activity_group_id by reason attendee_user_ids)
        (record s { status = canceled; cancelled_at = some now }))

unfoldable pub cancel :
    (now requester_id : ℕ)
    → MemberRole
    → (reason : String) → (attendee_user_ids : List ℕ) → Session
    → Result Error Session
unfolding can_manage_session cancel_by
cancel now requester_id requester_role reason attendee_user_ids s = do
  guard (can_manage_session s requester_id requester_role) unauthorized
  cancel_by now requester_id reason attendee_user_ids s

unfoldable pub cancel_from_group :
    (now : ℕ) → (reason : String) → (attendee_user_ids : List ℕ) → Session → Result Error Session
unfolding cancel_by
cancel_from_group now reason attendee_user_ids s = cancel_by now 0 reason attendee_user_ids s

unfoldable pub start : (now requester_id : ℕ) → MemberRole → Session → Result Error Session
unfolding require_schedule can_manage_session add_event
start now requester_id requester_role s = do
  require_schedule s
  guard (can_manage_session s requester_id requester_role) unauthorized
  ok (
      add_event (session_started s.id s.activity_group_id requester_id)
        (record s { status = started; updated_at = now; started_at = some now }))

unfoldable pub complete : (now requester_id : ℕ) → MemberRole → Session → Result Error Session
unfolding can_manage_session add_event
complete now requester_id requester_role s = do
  guard (is_started s.status) session_not_started
  guard (can_manage_session s requester_id requester_role) unauthorized
  ok (
      add_event (session_completed_by s.id s.activity_group_id requester_id s.is_recurring)
        (record s { status = completed; updated_at = now }))

-- A session that is over already is left alone, without an error.
unfoldable pub expire_schedule : (now : ℕ) → Session → Result Error Session
unfolding add_event
expire_schedule now s = do
  guard (ltb (effective_end_time s.schedule) now) session_not_expired_yet
  ok (
      if is_scheduled s.status || is_started s.status
      then add_event (session_expired s.id s.activity_group_id s.is_recurring)
          (record s { status = completed; completed_at = some now; updated_at = now })
      else s)

abbrev is_open : (now : ℕ) → Option ℕ → Bool
is_open now none = true
is_open now (some t) = not (ltb now t)

unfoldable pub can_rsvp :
    (now : ℕ) → (is_priority_member : Bool) → Session → Result Error (Unit {0})
can_rsvp now is_priority_member s = do
  guard (is_scheduled s.status) session_not_scheduled
  if is_priority_member then ok tt else guard (is_open now s.open_at) session_not_open
