-- ===== src/Activity/Session/Teams.antt =====
-- The teams of a session and its team setup, through the operations of session.go.
use rekreativko_api.Base.{ℕ, none, some, [], ◌≡◌, ok, arith, >>=-eq-ok, length}
use rekreativko_api.Activity.Team.{TeamConfig, new_teams}
use rekreativko_api.Activity.Session.State.{Session, TeamsSource, no_source}
use rekreativko_api.Activity.Session.Formation.{put_teams}
use rekreativko_api.Activity.Team.Formed.{length-new_teams}
use rekreativko_api.Activity.Attendee.{Attendee}

-- A session with a setup has as many teams as it says, and one without has none and no source.
pub record HasFittingTeams (s : Session) : Type 0 where
  pub with_config : (c : TeamConfig) → s.team_config ≡ some c → length s.teams ≡ c.team_count
  pub without_teams : s.team_config ≡ none → s.teams ≡ []
  pub without_source : s.team_config ≡ none → s.teams_source ≡ no_source

pub put_teams-HasFittingTeams :
    (ids : ℕ → ℕ) (now by : ℕ) (config : TeamConfig) (from : TeamsSource) (s t : Session)
    → put_teams ids now by config from s ≡ ok t
    → HasFittingTeams t
unfolding put_teams
put_teams-HasFittingTeams ids now by config from s t h =
    let (teams, e, k) = >>=-eq-ok (new_teams ids s.id now config) _ h in
    record {
      with_config = λ c q. ground (arith, length-new_teams ids s.id now config teams e);
      without_teams = λ q. ground arith;
      without_source = λ q. ground arith;
    }

abbrev SameTeams : Session → Session → Type 0
SameTeams s t =
    (t.team_config ≡ s.team_config) × (t.teams ≡ s.teams) × (t.teams_source ≡ s.teams_source)
