-- ===== src/Activity/Session/Formation.antt =====
-- session.go: the operations that make, replace and remove a session's teams.
use rekreativko_api.Base.{ℕ, Bool, none, some, List, [], map, Result, ok, ◌>>=◌, ◌>>◌, guard}
use rekreativko_api.Activity.Errors.{Error, unauthorized}
use rekreativko_api.Activity.Member.{MemberRole}
use rekreativko_api.Activity.Team.{TeamConfig, new_teams, ensure_supported_by}
use rekreativko_api.Activity.Session.State.{
  Session, SessionEvent, TeamsResetReason, TeamsSource, no_source, manual, teams_created,
  teams_reset, add_event, can_manage_session, require_teams_changeable, has_teams,
}

-- `NewSessionTeamsCreatedEvent`.
unfoldable pub new_session_teams_created_event :
    Session → TeamConfig → (created_by : ℕ) → (replaced : Bool) → SessionEvent
new_session_teams_created_event s config created_by replaced =
    teams_created s.id s.activity_group_id
      (map (λ t. record { team_id = t.id; name = t.name; color = t.color; position = t.position })
        s.teams)
      config.min_players_per_team replaced created_by

-- The part that `CreateTeams`, `ApplyDraftTeams` and `ApplyProposalTeams` share: new teams, their
-- source, and the event.
unfoldable pub put_teams :
    (ids : ℕ → ℕ) (now created_by : ℕ) → TeamConfig → TeamsSource → Session → Result Error Session
unfolding add_event new_session_teams_created_event
put_teams ids now created_by config source s = do
  teams ← new_teams ids s.id now config
  let t = record s {
    team_config = some config;
    teams = teams;
    teams_source = source;
    updated_at = now;
  }
  ok (add_event (new_session_teams_created_event t config created_by (has_teams s)) t)

unfoldable pub create_teams :
    (ids : ℕ → ℕ) (now requester_id : ℕ) → MemberRole → TeamConfig → Session → Result Error Session
unfolding can_manage_session require_teams_changeable ensure_supported_by put_teams
create_teams ids now requester_id requester_role config s = do
  guard (can_manage_session s requester_id requester_role) unauthorized
  require_teams_changeable s
  ensure_supported_by s.activity_type
  put_teams ids now requester_id config manual s

unfoldable pub authorize_teams_reset :
    (requester_id : ℕ) → MemberRole → Session → Result Error (Unit {0})
unfolding can_manage_session require_teams_changeable
authorize_teams_reset requester_id requester_role s = do
  guard (can_manage_session s requester_id requester_role) unauthorized
  require_teams_changeable s

unfoldable pub reset_teams :
    (now reset_by : ℕ) → TeamsResetReason → (participants : List ℕ) → Session → Result Error Session
unfolding require_teams_changeable add_event
reset_teams now reset_by reason participants s = do
  require_teams_changeable s
  ok (
      add_event (teams_reset s.id s.activity_group_id reason reset_by participants)
        (record s { team_config = none; teams = []; teams_source = no_source; updated_at = now }))
