-- ===== src/Activity/Formation.antt =====
-- session.go: the teams of a completed draft, and of a proposal that has won a vote. The application
-- service assigns the players afterwards.
use rekreativko_api.Base.{
  ℕ, Bool, true, false, ◌&&◌, not, Option, none, some, List, [], length, ◌≡◌, Result, ok, ◌>>◌,
  guard, arith, >>=-eq-ok, guard->>-eq-ok,
}
use rekreativko_api.Activity.Errors.{Error, draft_not_active, voting_not_open}
use rekreativko_api.Activity.Team.{TeamConfig, Text, reconstruct_team_config}
use rekreativko_api.Activity.Session.{
  Session, TeamsSource, draft, vote, require_teams_changeable, put_teams,
}
use rekreativko_api.Activity.Session.Teams.{HasFittingTeams, put_teams-HasFittingTeams}
use rekreativko_api.Activity.Draft.{TeamDraft, DraftStatus}
use rekreativko_api.Activity.Voting.{TeamVotingRound, is_closed}

abbrev is_completed : DraftStatus → Bool
is_completed DraftStatus.completed = true
is_completed _ = false

abbrev colors_of : Option TeamConfig → List Text
colors_of none = []
colors_of (some c) = c.colors

unfoldable pub apply_draft_teams :
    (ids : ℕ → ℕ) (now : ℕ) → TeamDraft → Session → Result Error Session
unfolding require_teams_changeable put_teams
apply_draft_teams ids now d s = do
  guard (is_completed d.status) draft_not_active
  require_teams_changeable s
  put_teams ids now d.started_by d.team_config draft s

-- The minimum is the round's, the colours are the session's.
unfoldable pub apply_proposal_teams :
    (ids : ℕ → ℕ) (now : ℕ) → TeamVotingRound → (closed_by : ℕ) → Session → Result Error Session
unfolding require_teams_changeable put_teams reconstruct_team_config
apply_proposal_teams ids now r closed_by s = do
  guard (is_closed r.status && not r.kept_current) voting_not_open
  require_teams_changeable s
  put_teams ids now closed_by
      (reconstruct_team_config r.team_count r.min_players_per_team (colors_of s.team_config)) vote s

put_teams-config :
    (ids : ℕ → ℕ) (now by : ℕ) (config : TeamConfig) (from : TeamsSource) (s t : Session)
    → put_teams ids now by config from s ≡ ok t
    → (t.team_config ≡ some config) × (t.teams_source ≡ from) × (t.status ≡ s.status)
unfolding put_teams
put_teams-config ids now by config from s t h = ground arith

-- The teams of a closed vote fit the new setup of the session, which has the team count and the
-- minimum of the round and the session's colours, and there are as many as that count.
pub apply_proposal_teams-HasFittingTeams :
    (ids : ℕ → ℕ) (now : ℕ) (r : TeamVotingRound) (by : ℕ) (s t : Session)
    → apply_proposal_teams ids now r by s ≡ ok t
    → HasFittingTeams t
      × (length t.teams ≡ r.team_count)
      × (t.team_config
          ≡ some (
              reconstruct_team_config r.team_count r.min_players_per_team
                (colors_of s.team_config)))
unfolding apply_proposal_teams reconstruct_team_config
apply_proposal_teams-HasFittingTeams ids now r by s t h =
    let config =
      reconstruct_team_config r.team_count r.min_players_per_team (colors_of s.team_config) in
    let (c, h₁) = guard->>-eq-ok (is_closed r.status && not r.kept_current) _ _ h in
    let (_, _, h₂) = >>=-eq-ok (require_teams_changeable s) _ h₁ in
    let (same, _, _) = put_teams-config ids now by config vote s t h₂ in
    let fits = put_teams-HasFittingTeams ids now by config vote s t h₂ in
    (fits, fits.with_config config same, same)
