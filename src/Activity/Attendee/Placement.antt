-- ===== src/Activity/Attendee/Placement.antt =====
-- attendee.go: the team of an attendee.
use rekreativko_api.Base.{
  ℕ, Bool, true, false, ◌==◌, if◌then◌else◌, Option, none, some, List, [], ◌∷◌, Result, ok, ◌>>◌,
  guard,
}
use rekreativko_api.Activity.Errors.{Error, unauthorized, attendee_not_going, team_not_found}
use rekreativko_api.Activity.Member.{MemberRole}
use rekreativko_api.Activity.Team.{Team}
use rekreativko_api.Activity.Session.{Session, can_manage_session, require_teams_editable}
use rekreativko_api.Activity.Attendee.{
  Attendee, TeamUnassignReason, is_confirmed, add_event, team_assigned, team_changed,
}
use rekreativko_api.Activity.Attendee.Rsvp.{release_team}

-- `Session.Team`, of which only the presence matters here.
unfoldable pub has_team : ℕ → List Team → Bool
has_team team_id [] = false
has_team team_id (t ∷ ts) = if t.id == team_id then true else has_team team_id ts

-- The write of `AssignToTeam`, by the team before.
assign : (now team_id requester_id : ℕ) → Attendee → Option ℕ → Attendee
unfolding add_event
assign now team_id requester_id a none =
    add_event (team_assigned a.id a.activity_id a.session_id a.user_id team_id requester_id)
      (record a { team_id = some team_id; updated_at = now })
assign now team_id requester_id a (some previous) =
    if previous == team_id
    then a
    else add_event
        (team_changed a.id a.activity_id a.session_id a.user_id team_id previous requester_id)
        (record a { team_id = some team_id; updated_at = now })

unfoldable pub assign_to_team :
    (now : ℕ) → Session → (team_id requester_id : ℕ) → MemberRole → Attendee → Result Error Attendee
unfolding can_manage_session require_teams_editable has_team is_confirmed assign
assign_to_team now session team_id requester_id requester_role a = do
  guard (can_manage_session session requester_id requester_role) unauthorized
  require_teams_editable session
  guard (has_team team_id session.teams) team_not_found
  guard (is_confirmed a.status) attendee_not_going
  ok (assign now team_id requester_id a a.team_id)

unfoldable pub unassign_from_team :
    (now : ℕ) → Session → (requester_id : ℕ) → MemberRole → Attendee → Result Error Attendee
unfolding can_manage_session require_teams_editable release_team
unassign_from_team now session requester_id requester_role a = do
  guard (can_manage_session session requester_id requester_role) unauthorized
  require_teams_editable session
  ok (release_team now TeamUnassignReason.manual requester_id a)

unfoldable pub assign_to_formed_team : (now team_id assigned_by : ℕ) → Attendee → Attendee
unfolding add_event
assign_to_formed_team now team_id assigned_by a =
    add_event (team_assigned a.id a.activity_id a.session_id a.user_id team_id assigned_by)
      (record a { team_id = some team_id; updated_at = now })

unfoldable pub unassign_for_replaced_teams : (now replaced_by : ℕ) → Attendee → Attendee
unfolding release_team
unassign_for_replaced_teams now replaced_by a =
    release_team now TeamUnassignReason.teams_replaced replaced_by a

unfoldable pub leave_team : (now : ℕ) → Attendee → Attendee
unfolding release_team
leave_team now a = release_team now TeamUnassignReason.left 0 a
