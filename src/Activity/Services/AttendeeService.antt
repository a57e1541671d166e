-- ===== src/Activity/Services/AttendeeService.antt =====
-- activity/internal/application/attendee_service.go: the commands on the attendees of a session, each
-- a transaction. An account's string is a status or a role once it is parsed, and an error that is
-- formatted on the spot stands as the nearest error of the domain.
use rekreativko_api.Base.{
  ℕ, Bool, true, false, ◌&&◌, not, ◌==◌, contains, if◌then◌else◌, is_some, Option, none, some, List,
  [], ◌∷◌, Result, ok, err, ◌>>=◌, ◌>>◌, guard, value_or,
}
use text.Mathlib.Text.{◌==◌ as str_eq}
use rekreativko_api.Activity.Errors.{
  Error, invalid_member_role, invalid_attendee_status, attendee_not_group_member,
  attendee_already_attending, session_full, account_deleted,
}
use rekreativko_api.Activity.Member
use rekreativko_api.Activity.Member.{Member, MemberRole, other, can_manage_members}
use rekreativko_api.Activity.Session.{
  Session, public_session, roster_changed, same_visibility, has_capacity, can_rsvp,
  require_teams_changeable,
}
use rekreativko_api.Activity.Attendee.{
  Attendee, AttendeeStatus, going, same_status, is_valid_status, hold_spot,
}
use rekreativko_api.Activity.Attendee.Rsvp.{
  new_requested_attendee, new_rsvp_manual_attendee, update_rsvp, promote, approve, reject, remove,
}
use rekreativko_api.Activity.Attendee.Placement.{assign_to_team, unassign_from_team, leave_team}
use rekreativko_api.Activity.Attendee.Roster.{spots}
use rekreativko_api.Activity.Services.Store.{
  Store, get_session, find_attendee, get_attendee, create_attendee, insert_events, update_attendee,
  delete_attendee, first_pending,
}
use rekreativko_api.Activity.Services.TeamFormation.{require_no_active_draft, reset_team_formation}

-- The empty role is that of somebody who is no member.
unfoldable pub parse_member_role : MemberRole → Result Error MemberRole
parse_member_role (other s) = do guard (str_eq s "") invalid_member_role; ok (other s)
parse_member_role role = ok role

abbrev same_group : Option ℕ → ℕ → Bool
same_group none g = false
same_group (some h) g = h == g

-- `GetMemberByGroupAndUser` for the session's group; nobody, if the session has none.
unfoldable pub group_member : Option ℕ → (user_id : ℕ) → List Member → Option Member
group_member group user_id [] = none
group_member group user_id (m ∷ ms) =
    let rest = group_member group user_id ms in
    if same_group group m.activity_group_id && m.user_id == user_id then some m else rest

-- The switch of `CreateRSVP` over the member: whether they have priority.
unfoldable pub admit : Session → Option Member → Result Error Bool
admit s none = do
  guard (same_visibility s.visibility public_session) attendee_not_group_member
  ok false
admit s (some m) = if Member.is_confirmed m.status then ok m.is_priority else (do
  guard (same_visibility s.visibility public_session) attendee_not_group_member
  ok false)

managing_members : Option ℕ → List Member → List ℕ
unfolding can_manage_members
managing_members group [] = []
managing_members group (m ∷ ms) =
    let rest = managing_members group ms in
    if same_group group m.activity_group_id
      && (Member.is_confirmed m.status && can_manage_members m.role)
    then m.user_id ∷ rest
    else rest

unfoldable pub resolve_session_managers : Session → List Member → List ℕ
unfolding managing_members
resolve_session_managers s ms =
    if is_some s.activity_group_id
    then managing_members s.activity_group_id ms
    else s.created_by_id ∷ []

-- The attendee that `CreateRSVP` stores.
unfoldable pub new_rsvp :
    (id now user_id : ℕ) → AttendeeStatus → Session → Store → Result Error Attendee
unfolding has_capacity new_requested_attendee new_rsvp_manual_attendee resolve_session_managers
new_rsvp id now user_id status s w =
    if same_status status going && s.requires_approval
    then (do
      guard (has_capacity s (spots w.attendees)) session_full
      ok (
          new_requested_attendee id now s s.activity_group_id user_id
            (resolve_session_managers s w.members)))
    else new_rsvp_manual_attendee id now s s.activity_group_id user_id status (spots w.attendees)

unfoldable pub create_rsvp : (id now user_id : ℕ) → AttendeeStatus → Store → Result Error Store
unfolding is_valid_status get_session group_member admit can_rsvp find_attendee new_rsvp
    create_attendee
create_rsvp id now user_id status w = do
  guard (is_valid_status status) invalid_attendee_status
  s ← get_session w
  is_priority ← admit s (group_member s.activity_group_id user_id w.members)
  can_rsvp now is_priority s
  guard (not (is_some (find_attendee user_id w.attendees))) attendee_already_attending
  a ← new_rsvp id now user_id status s w
  create_attendee a w

unfoldable pub approve_attendee :
    (now user_id requester_id : ℕ) → MemberRole → Store → Result Error Store
unfolding parse_member_role get_session get_attendee has_capacity approve update_attendee
approve_attendee now user_id requester_id requester_role w = do
  role ← parse_member_role requester_role
  guard (not (contains w.inactive user_id)) account_deleted
  s ← get_session w
  a ← get_attendee user_id w
  guard (has_capacity s (spots w.attendees)) session_full
  b ← approve now s requester_id role a
  ok (update_attendee b w)

unfoldable pub reject_attendee :
    (now user_id requester_id : ℕ) → MemberRole → Store → Result Error Store
unfolding parse_member_role get_session get_attendee reject update_attendee
reject_attendee now user_id requester_id requester_role w = do
  role ← parse_member_role requester_role
  s ← get_session w
  a ← get_attendee user_id w
  b ← reject now s requester_id role a
  ok (update_attendee b w)

-- The promotion of `promoteNextPending`. The caller logs an error and goes on.
unfoldable pub promote_pending : (now : ℕ) → Option Attendee → Store → Result Error Store
unfolding promote update_attendee
promote_pending now none w = ok w
promote_pending now (some a) w = do b ← promote now a; ok (update_attendee b w)

unfoldable pub promote_next_pending : (now : ℕ) → Store → Result Error Store
unfolding promote_pending first_pending
promote_next_pending now w = promote_pending now (first_pending w.attendees) w

-- `TeamsLocked`.
unfoldable pub teams_locked : Session → Bool
unfolding require_teams_changeable
teams_locked s = elim (require_teams_changeable s) [ ok _ ↦ false | err _ ↦ true ]

unfoldable pub reset_team_formation_after_leaving : (now user_id : ℕ) → Store → Result Error Store
unfolding get_session teams_locked reset_team_formation
reset_team_formation_after_leaving now user_id w = do
  s ← get_session w
  if teams_locked s then ok w else (do
    (v, events) ← reset_team_formation now user_id roster_changed s w
    ok (insert_events events v))

-- What follows once somebody who held a spot no longer does.
unfoldable pub spot_released : (now user_id : ℕ) → (held : Bool) → Store → Result Error Store
unfolding promote_next_pending reset_team_formation_after_leaving
spot_released now user_id false w = ok w
spot_released now user_id true w =
    reset_team_formation_after_leaving now user_id (value_or (promote_next_pending now w) w)

unfoldable pub remove_attendee :
    (now user_id requester_id : ℕ) → MemberRole → Store → Result Error Store
unfolding parse_member_role get_session get_attendee remove delete_attendee hold_spot spot_released
remove_attendee now user_id requester_id requester_role w = do
  role ← parse_member_role requester_role
  s ← get_session w
  a ← get_attendee user_id w
  b ← remove now s requester_id role a
  spot_released now user_id (hold_spot a.status) (delete_attendee b w)

unfoldable pub assign_attendee_team :
    (now user_id team_id requester_id : ℕ) → MemberRole → Store → Result Error Store
unfolding parse_member_role get_session require_no_active_draft get_attendee assign_to_team
    update_attendee
assign_attendee_team now user_id team_id requester_id requester_role w = do
  role ← parse_member_role requester_role
  s ← get_session w
  require_no_active_draft w
  a ← get_attendee user_id w
  b ← assign_to_team now s team_id requester_id role a
  ok (update_attendee b w)

unfoldable pub unassign_attendee_team :
    (now user_id requester_id : ℕ) → MemberRole → Store → Result Error Store
unfolding parse_member_role get_session require_no_active_draft get_attendee unassign_from_team
    update_attendee
unassign_attendee_team now user_id requester_id requester_role w = do
  role ← parse_member_role requester_role
  s ← get_session w
  require_no_active_draft w
  a ← get_attendee user_id w
  b ← unassign_from_team now s requester_id role a
  ok (update_attendee b w)

unfoldable pub update_rsvp_of : (now user_id : ℕ) → AttendeeStatus → Store → Result Error Store
unfolding is_valid_status get_attendee get_session update_rsvp update_attendee hold_spot
    spot_released
update_rsvp_of now user_id new_status w = do
  guard (is_valid_status new_status) invalid_attendee_status
  a ← get_attendee user_id w
  s ← get_session w
  b ← update_rsvp now new_status s (spots w.attendees) a
  spot_released now user_id (hold_spot a.status && not (hold_spot b.status)) (update_attendee b w)

unfoldable pub cancel_rsvp : (now user_id : ℕ) → Store → Result Error Store
unfolding get_attendee leave_team delete_attendee hold_spot spot_released
cancel_rsvp now user_id w = do
  a ← get_attendee user_id w
  spot_released now user_id (hold_spot a.status) (delete_attendee (leave_team now a) w)
