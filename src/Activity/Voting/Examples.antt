-- ===== src/Activity/Voting/Examples.antt =====
-- Rounds on concrete inputs, and the theorems at them.
use rekreativko_api.Base.{
  ℕ, true, false, some, none, Option, List, [], ◌∷◌, contains, if◌then◌else◌, ◌==◌, ◌≡◌, ◌↔◌, ◌⊎◌,
  refl, ok, value_or, ◌++◌,
}
use rekreativko_api.Activity.Voting.Key.{sort_by}
use rekreativko_api.Activity.Voting.Canonical.{SameDivision}
use rekreativko_api.Activity.Voting.Proposing.{IsNew, propose-IsNew}
use rekreativko_api.Activity.Voting.Operations.{
  propose, proposal_with_division, opened, validate_division, open_team_voting, vote,
}
use rekreativko_api.Activity.Samples.{football_session}
use rekreativko_api.Activity.Member.{member}
use rekreativko_api.Activity.Session.{can_manage_session}
use rekreativko_api.Activity.Voting.State.{
  TeamVotingRound, TeamProposal, voting_closed, is_open, most_voted_options, find_proposal,
  keep_current_teams,
}
use rekreativko_api.Activity.Voting.Endings.{close}
use rekreativko_api.Activity.Voting.Division.{IsDivision, validate_division_iff}
use rekreativko_api.Activity.Voting.Winner.{IsMostVoted, most_voted_options_iff, close-IsMostVoted}
use rekreativko_api.Activity.Voting.Rounds.{IsSound, run, votes_for, withdraws}
use rekreativko_api.Activity.Voting.Lifecycle.{run-IsSound}

abbrev people : List ℕ
people = 1 ∷ 2 ∷ 3 ∷ 4 ∷ []

abbrev division : List (List ℕ)
division = (1 ∷ 2 ∷ []) ∷ (4 ∷ 3 ∷ []) ∷ []

abbrev two_teams : TeamVotingRound
two_teams = opened 60 20 football_session 2 none false

validate_division_iff_example :
    (validate_division two_teams division people ≡ ok tt) ↔ IsDivision two_teams people division
validate_division_iff_example = validate_division_iff two_teams division people

-- Person 1 proposes the division.
first_proposal : TeamProposal
first_proposal = record { id = 61; author_id = 1; created_at = 20; teams = division }

first_round : TeamVotingRound
unfolding open_team_voting
first_round =
    (value_or (open_team_voting 60 61 20 football_session 1 division people)
      (two_teams, first_proposal)).0

first-opened :
    open_team_voting 60 61 20 football_session 1 division people ≡ ok (first_round, first_proposal)
unfolding open_team_voting first_round first_proposal
first-opened = refl

-- Person 2 votes for it.
voted_round : TeamVotingRound
unfolding first_round vote
voted_round = value_or (vote 2 61 people first_round) first_round

most_voted_options_iff_example :
    (contains (most_voted_options voted_round) 61 ≡ true) ↔ IsMostVoted voted_round 61
most_voted_options_iff_example = most_voted_options_iff voted_round 61

closed_round : TeamVotingRound
unfolding voted_round close
closed_round =
    (value_or (close 30 football_session 100 member none people voted_round) (voted_round, none)).0

voted-closed :
    close 30 football_session 100 member none people voted_round
    ≡ ok (closed_round, some first_proposal)
unfolding closed_round first_proposal
voted-closed = refl

abbrev no_winner : Option ℕ
no_winner = none

close-IsMostVoted_example :
    (can_manage_session football_session 100 member ≡ true)
    × (is_open voted_round.status ≡ true)
    × (closed_round.status ≡ voting_closed)
    × (closed_round.proposals ≡ [])
    × (closed_round.votes ≡ [])
    × ((choice : ℕ) × IsMostVoted voted_round choice
        × ((no_winner ≡ some choice)
            ⊎ ((no_winner ≡ none) × (most_voted_options voted_round ≡ choice ∷ [])))
        × (some first_proposal ≡ (
            if choice == keep_current_teams
            then none
            else find_proposal choice voted_round.proposals)))
close-IsMostVoted_example =
    close-IsMostVoted 30 football_session 100 member no_winner people voted_round closed_round
      (some first_proposal) voted-closed

run-IsSound_example :
    IsSound (run first_round ((25, votes_for 2 61 people) ∷ (26, withdraws 1 61) ∷ []))
run-IsSound_example =
    run-IsSound 60 61 20 football_session 1 division people first_round first_proposal
      ((25, votes_for 2 61 people) ∷ (26, withdraws 1 61) ∷ []) first-opened

-- Person 3 proposes another division.
abbrev other_division : List (List ℕ)
other_division = (1 ∷ 3 ∷ []) ∷ (2 ∷ 4 ∷ []) ∷ []

second_proposal : TeamProposal
second_proposal = record { id = 62; author_id = 3; created_at = 22; teams = other_division }

second_round : TeamVotingRound
unfolding propose first_round second_proposal
second_round =
    (value_or (propose 62 22 football_session 3 other_division people first_round)
      (first_round, second_proposal)).0

second-proposed :
    propose 62 22 football_session 3 other_division people first_round
    ≡ ok (second_round, second_proposal)
unfolding second_round validate_division proposal_with_division sort_by
second-proposed = refl

propose-IsNew_example :
    ((second_round ≡ first_round)
      × (second_proposal.author_id ≡ 3)
      × SameDivision second_proposal.teams other_division)
    ⊎ ((second_proposal.teams ≡ other_division)
        × (second_round.proposals ≡ first_round.proposals ++ second_proposal ∷ [])
        × IsNew other_division first_round.proposals)
propose-IsNew_example =
    propose-IsNew 62 22 football_session 3 other_division people first_round second_round
      second_proposal second-proposed
