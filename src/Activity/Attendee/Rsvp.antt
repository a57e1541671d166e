-- ===== src/Activity/Attendee/Rsvp.antt =====
-- attendee.go: answering, approving, promoting and removing an attendee, and the team of one. The
-- operations that fail do so before they write, so an error leaves the attendee as they were.
use rekreativko_api.Base.{
  ℕ, Bool, true, false, ◌&&◌, not, ◌==◌, if◌then◌else◌, Option, none, some, List, [], Result, ok,
  err, ◌>>=◌, ◌>>◌, guard,
}
use rekreativko_api.Activity.Errors.{
  Error, unauthorized, cannot_remove_creator, attendee_not_going, invalid_attendee_transition,
  invalid_attendee_status, attendee_not_awaiting_approval,
}
use rekreativko_api.Activity.Member.{MemberRole}
use rekreativko_api.Activity.Session.{Session, has_capacity, can_manage_session}
use rekreativko_api.Activity.Attendee.{
  same_status, Attendee, AttendeeStatus, AttendeeSource, TeamUnassignReason, going, pending,
  not_going, maybe, promoted, rsvp_manual, requested, invited, is_valid_status, hold_spot,
  is_confirmed, add_event, rsvp_auto_pending, rsvp_going, rsvp_not_going, rsvp_maybe,
  attendee_promoted, join_requested, join_approved, join_rejected, attendee_removed,
  team_unassigned,
}

abbrev pub is_requested : AttendeeSource → Bool
is_requested requested = true
is_requested _ = false

-- `releaseTeam`, by the team.
release_from : (now : ℕ) → TeamUnassignReason → (by : ℕ) → Attendee → Option ℕ → Attendee
unfolding add_event
release_from now reason by a none = a
release_from now reason by a (some team_id) =
    add_event (team_unassigned a.id a.activity_id a.session_id a.user_id team_id reason by)
      (record a { team_id = none; updated_at = now })

unfoldable pub release_team : (now : ℕ) → TeamUnassignReason → (by : ℕ) → Attendee → Attendee
unfolding release_from
release_team now reason by a = release_from now reason by a a.team_id

-- The attendee that `NewRSVPManualAttendee` starts from.
abbrev manual_attendee :
    (id now : ℕ)
    → Session
    → (activity_id : Option ℕ) → (user_id : ℕ) → AttendeeStatus
    → AttendeeSource
    → Attendee
manual_attendee id now session activity_id user_id status source = record {
  id = id;
  activity_id = activity_id;
  session_id = session.id;
  user_id = user_id;
  status = status;
  source = source;
  team_id = none;
  created_at = now;
  updated_at = now;
  events = [];
}

-- The switch of `NewRSVPManualAttendee` over the status.
first_answer : (cap : Bool) → Session → AttendeeStatus → Attendee → Attendee
unfolding add_event
first_answer true session going a =
    add_event (rsvp_going a.id session.activity_group_id a.user_id session.id) a
first_answer false session going a =
    add_event (rsvp_auto_pending 0 session.activity_group_id a.user_id session.id)
      (record a { status = pending })
first_answer cap session not_going a =
    add_event
      (rsvp_not_going a.id session.activity_group_id a.user_id session.id (hold_spot a.status)) a
first_answer cap session maybe a =
    add_event (rsvp_maybe a.id session.activity_group_id a.user_id session.id (hold_spot a.status))
      a
first_answer cap session _ a = a

unfoldable pub new_rsvp_manual_attendee :
    (id now : ℕ)
    → Session
    → (activity_id : Option ℕ) → (user_id : ℕ) → AttendeeStatus
    → (current_confirmed_count : ℕ) → Result Error Attendee
unfolding first_answer is_valid_status has_capacity
new_rsvp_manual_attendee id now session activity_id user_id status current_confirmed_count = do
  guard (is_valid_status status) invalid_attendee_status
  ok (
      first_answer (has_capacity session current_confirmed_count) session status
        (manual_attendee id now session activity_id user_id status rsvp_manual))

-- Going is a valid status, so `NewRSVPManualAttendee` has no error here.
unfoldable pub new_invited_attendee :
    (id now : ℕ) → Session → (user_id current_confirmed_count : ℕ) → Result Error Attendee
unfolding new_rsvp_manual_attendee
new_invited_attendee id now session user_id current_confirmed_count = do
  a ←
      new_rsvp_manual_attendee id now session session.activity_group_id user_id going
        current_confirmed_count
  ok (record a { source = invited })

unfoldable pub new_requested_attendee :
    (id now : ℕ)
    → Session
    → (activity_id : Option ℕ) → (user_id : ℕ) → (manager_user_ids : List ℕ) → Attendee
unfolding add_event
new_requested_attendee id now session activity_id user_id manager_user_ids =
    add_event (join_requested id session.activity_group_id session.id user_id manager_user_ids)
      (manual_attendee id now session activity_id user_id pending requested)

-- `validateRSVPTransition` for a valid new status.
abbrev transition : (status new_status : AttendeeStatus) → Result Error (Unit {0})
transition not_going going = err invalid_attendee_transition
transition maybe pending = err invalid_attendee_transition
transition going pending = err invalid_attendee_transition
transition promoted pending = err invalid_attendee_transition
transition pending going = err invalid_attendee_transition
transition _ _ = ok tt

unfoldable pub validate_rsvp_transition :
    (status new_status : AttendeeStatus) → Result Error (Unit {0})
unfolding is_valid_status
validate_rsvp_transition status new_status = do
  guard (is_valid_status new_status) invalid_attendee_status
  transition status new_status

-- The switch of `UpdateRSVP` over the new status. A new status of pending or promoted, which may
-- get this far, changes nothing.
answer : (now : ℕ) → (cap : Bool) → Session → AttendeeStatus → Attendee → Attendee
unfolding add_event release_team
answer now true session going a =
    add_event (rsvp_going a.id session.activity_group_id a.user_id session.id)
      (record a { status = going; updated_at = now })
answer now false session going a =
    add_event (rsvp_auto_pending 0 session.activity_group_id a.user_id session.id)
      (record a { status = pending; updated_at = now })
answer now cap session not_going a = release_team now TeamUnassignReason.left 0 (
    add_event
      (rsvp_not_going a.id session.activity_group_id a.user_id session.id (hold_spot a.status))
      (record a { status = not_going; updated_at = now }))
answer now cap session maybe a = release_team now TeamUnassignReason.left 0 (
    add_event (rsvp_maybe a.id session.activity_group_id a.user_id session.id (hold_spot a.status))
      (record a { status = maybe; updated_at = now }))
answer now cap session _ a = a

unfoldable pub update_rsvp :
    (now : ℕ)
    → AttendeeStatus
    → Session
    → (current_confirmed_count : ℕ) → Attendee
    → Result Error Attendee
unfolding validate_rsvp_transition answer has_capacity
update_rsvp now new_status session current_confirmed_count a =
    if same_status new_status a.status then ok a else (do
      validate_rsvp_transition a.status new_status
      ok (answer now (has_capacity session current_confirmed_count) session new_status a))

unfoldable pub promote : (now : ℕ) → Attendee → Result Error Attendee
unfolding add_event
promote now a = do
  guard (same_status a.status pending) invalid_attendee_status
  ok (
      add_event (attendee_promoted a.id a.session_id a.user_id)
        (record a { status = promoted; updated_at = now }))

abbrev awaits_approval : Attendee → Bool
awaits_approval a = same_status a.status pending && is_requested a.source

unfoldable pub approve :
    (now : ℕ) → Session → (approver_id : ℕ) → MemberRole → Attendee → Result Error Attendee
unfolding add_event can_manage_session
approve now session approver_id approver_role a = do
  guard (can_manage_session session approver_id approver_role) unauthorized
  guard (awaits_approval a) attendee_not_awaiting_approval
  ok (
      add_event (join_approved a.id session.activity_group_id session.id a.user_id approver_id)
        (record a { status = going; updated_at = now }))

unfoldable pub reject :
    (now : ℕ) → Session → (rejector_id : ℕ) → MemberRole → Attendee → Result Error Attendee
unfolding add_event can_manage_session
reject now session rejector_id rejector_role a = do
  guard (can_manage_session session rejector_id rejector_role) unauthorized
  guard (awaits_approval a) attendee_not_awaiting_approval
  ok (
      add_event (join_rejected a.id session.activity_group_id session.id a.user_id rejector_id)
        (record a { status = not_going; updated_at = now }))

unfoldable pub remove :
    (now : ℕ) → Session → (remover_id : ℕ) → MemberRole → Attendee → Result Error Attendee
unfolding add_event can_manage_session is_confirmed release_team
remove now session remover_id remover_role a = do
  guard (can_manage_session session remover_id remover_role) unauthorized
  guard (not (a.user_id == session.created_by_id)) cannot_remove_creator
  guard (is_confirmed a.status) attendee_not_going
  ok (
      release_team now TeamUnassignReason.removed remover_id (
        add_event (attendee_removed a.id session.activity_group_id session.id a.user_id remover_id)
          a))
