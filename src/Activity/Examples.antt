-- ===== src/Activity/Examples.antt =====
-- Members, team setups and sessions on concrete inputs, and the theorems at them.
use rekreativko_api.Base.{value_or, some, none, ok, pos, false, [], ◌∷◌, length, ◌≡◌, refl, arith}
use rekreativko_api.Activity.Member.{
  Member, MemberRole, MemberStatus, member_role_changed, new_creator_member,
}
use rekreativko_api.Activity.Member.Lifecycle.{
  IsWellFormed, run, run-IsWellFormed, run_over_member, run_creator, approves, promotes, leaves,
  removes,
}
use rekreativko_api.Activity.Team.{
  TeamConfig, new_team_config, new_teams, normalize_colors, reconstruct_team_config,
}
use rekreativko_api.Activity.Team.Config.{IsValid, new_team_config-IsValid, new_team_config_again}
use rekreativko_api.Activity.Team.Formed.{new_teams-ok, teams_at, team_at}
use rekreativko_api.Activity.Samples.{football_session, draft_input}
use rekreativko_api.Activity.Session.{Session}
use rekreativko_api.Activity.Session.Teams.{HasFittingTeams}
use rekreativko_api.Activity.Draft.{TeamDraft, DraftStatus, opened_draft}
use rekreativko_api.Activity.Voting.{TeamVotingRound, opened, voting_closed}
use rekreativko_api.Activity.Formation.{
  apply_draft_teams, apply_proposal_teams, apply_proposal_teams-HasFittingTeams,
}

-- Person 7 asks to join group 3.
abbrev request : Member
request = record {
  id = 1;
  activity_group_id = 3;
  user_id = 7;
  role = MemberRole.member;
  status = MemberStatus.pending;
  is_priority = false;
  joined_at = 50;
  decided_at = none;
  left_at = none;
  events = [];
}

request-IsWellFormed : IsWellFormed request
request-IsWellFormed = record {
  creator_confirmed = λ h. ground arith;
  pending_plain = λ h. refl;
  rejected_plain = λ h. refl;
}

run-IsWellFormed_example :
    IsWellFormed
      (run request ((60, approves 5 MemberRole.admin) ∷ (70, promotes 2 MemberRole.creator) ∷ []))
run-IsWellFormed_example =
    run-IsWellFormed request
      ((60, approves 5 MemberRole.admin) ∷ (70, promotes 2 MemberRole.creator) ∷ [])
      request-IsWellFormed

abbrev gone : Member
gone = record request { status = MemberStatus.left }

run_over_member_example : run gone ((60, approves 5 MemberRole.admin) ∷ (70, leaves) ∷ []) ≡ gone
run_over_member_example =
    run_over_member gone ((60, approves 5 MemberRole.admin) ∷ (70, leaves) ∷ []) refl

run_creator_example :
    let m =
      run (new_creator_member 1 50 3 2) ((60, leaves) ∷ (70, removes 5 MemberRole.admin) ∷ []) in
    (m.role ≡ MemberRole.creator) × (m.status ≡ MemberStatus.confirmed)
run_creator_example = run_creator 1 50 3 2 ((60, leaves) ∷ (70, removes 5 MemberRole.admin) ∷ [])

abbrev plain : Member
plain = record request { status = MemberStatus.confirmed }

abbrev promoted_plain : Member
promoted_plain = record plain {
  role = MemberRole.admin;
  events = member_role_changed 3 7 2 MemberRole.creator MemberRole.member ∷ [];
}

abbrev three_teams : TeamConfig
three_teams = record { team_count = 3; min_players_per_team = some 2; colors = [] }

three_teams_accepted : new_team_config (some (pos 3)) (some (pos 2)) [] ≡ ok three_teams
unfolding new_team_config normalize_colors
three_teams_accepted = refl

new_team_config-IsValid_example : IsValid three_teams
new_team_config-IsValid_example =
    new_team_config-IsValid (some (pos 3)) (some (pos 2)) [] three_teams three_teams_accepted

new_team_config_again_example : new_team_config (some (pos 3)) (some (pos 2)) [] ≡ ok three_teams
new_team_config_again_example =
    new_team_config_again (some (pos 3)) (some (pos 2)) [] three_teams three_teams_accepted

new_teams-ok_example :
    (new_teams (λ i. i) 500 10 three_teams ≡ ok (teams_at (team_at (λ i. i) 500 10 []) 3 0))
    × (length (teams_at (team_at (λ i. i) 500 10 []) 3 0) ≡ 3)
new_teams-ok_example = new_teams-ok (λ i. i) 500 10 three_teams new_team_config-IsValid_example

-- A completed draft and a closed vote of the football session.
abbrev two_teams : TeamConfig
two_teams = record { team_count = 2; min_players_per_team = some 2; colors = [] }

drafted : TeamDraft
unfolding opened_draft
drafted = record (opened_draft 9 7 draft_input two_teams) { status = DraftStatus.completed }

after_draft : Session
unfolding apply_draft_teams drafted
after_draft = value_or (apply_draft_teams (λ i. i) 40 drafted football_session) football_session

abbrev voted : TeamVotingRound
voted = record (opened 60 20 football_session 3 none false) { status = voting_closed }

after_vote : Session
unfolding apply_proposal_teams
after_vote = value_or (apply_proposal_teams (λ i. i) 40 voted 100 football_session) football_session

vote-applied : apply_proposal_teams (λ i. i) 40 voted 100 football_session ≡ ok after_vote
unfolding after_vote new_teams
vote-applied = refl

apply_proposal_teams-HasFittingTeams_example :
    HasFittingTeams after_vote
    × (length after_vote.teams ≡ 3)
    × (after_vote.team_config ≡ some (reconstruct_team_config 3 none []))
apply_proposal_teams-HasFittingTeams_example =
    apply_proposal_teams-HasFittingTeams (λ i. i) 40 voted 100 football_session after_vote
      vote-applied
