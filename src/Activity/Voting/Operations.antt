-- ===== src/Activity/Voting/Operations.antt =====
-- team_voting.go: the operations of a round. Those that fail do so before they write, so an error
-- leaves the round as it was.
use rekreativko_api.Base.{
  ℕ, suc, le_ℤ, leb, ltb, Bool, true, false, ◌&&◌, ◌||◌, not, ◌==◌, if◌then◌else◌, Option, none,
  some, is_some, List, [], ◌∷◌, ◌++◌, length, contains, Result, ok, err, ◌>>=◌, ◌>>◌, guard,
}
use rekreativko_api.Activity.Errors.{
  Error, teams_not_supported, attendee_not_going, not_enough_players, voting_not_open,
  proposal_not_found, keep_current_not_available, invalid_division, duplicate_proposal,
  wrong_team_count, player_not_going, duplicate_player, missing_players, team_below_minimum,
}
use rekreativko_api.Activity.Catalog.{is_team_sport}
use rekreativko_api.Activity.Team.{TeamConfig, max_team_count}
use rekreativko_api.Activity.Session.{Session, require_teams_changeable, require_proposals_allowed}
use rekreativko_api.Activity.Voting.Key.{division_key, same_key}
use rekreativko_api.Activity.Voting.State.{
  TeamVotingRound, TeamProposal, voting_open, keep_current_teams, voting_opened, proposal_created,
  vote_cast, vote_retracted, event_base, add_event, is_open, min_per_team, players_needed,
  find_proposal, vote_of, set_vote, delete_vote,
}

-- The loop over the players of one team: those seen so far, this team's included.
unfoldable pub check_team : (confirmed seen team : List ℕ) → Result Error (List ℕ)
check_team confirmed seen [] = ok seen
check_team confirmed seen (user_id ∷ team) = do
  guard (contains confirmed user_id) (invalid_division player_not_going (user_id ∷ []))
  guard (not (contains seen user_id)) (invalid_division duplicate_player (user_id ∷ []))
  check_team confirmed (user_id ∷ seen) team

unfoldable pub check_teams : (confirmed seen : List ℕ) → List (List ℕ) → Result Error (List ℕ)
unfolding check_team
check_teams confirmed seen [] = ok seen
check_teams confirmed seen (team ∷ teams) = do
  seen' ← check_team confirmed seen team
  check_teams confirmed seen' teams

unfoldable pub missing_from : (seen confirmed : List ℕ) → List ℕ
missing_from seen [] = []
missing_from seen (user_id ∷ confirmed) =
    let rest = missing_from seen confirmed in if contains seen user_id then rest else user_id ∷ rest

abbrev pub is_nil : List ℕ → Bool
is_nil [] = true
is_nil (x ∷ xs) = false

unfoldable pub all_at_least : ℕ → List (List ℕ) → Bool
all_at_least n [] = true
all_at_least n (team ∷ teams) = leb n (length team) && all_at_least n teams

unfoldable pub validate_division :
    TeamVotingRound → List (List ℕ) → (confirmed : List ℕ) → Result Error (Unit {0})
unfolding check_teams missing_from all_at_least min_per_team
validate_division r teams confirmed = do
  guard (length teams == r.team_count) (invalid_division wrong_team_count [])
  seen ← check_teams confirmed [] teams
  guard (is_nil (missing_from seen confirmed))
      (invalid_division missing_players (missing_from seen confirmed))
  guard (all_at_least (min_per_team r) teams) (invalid_division team_below_minimum [])

unfoldable pub new_proposal :
    (id now author_id : ℕ)
    → List (List ℕ)
    → (confirmed : List ℕ) → TeamVotingRound
    → Result Error TeamProposal
unfolding validate_division
new_proposal id now author_id teams confirmed r = do
  validate_division r teams confirmed
  ok (record { id = id; author_id = author_id; created_at = now; teams = teams })

-- The round before its team setup is known.
abbrev pub opened : (id now : ℕ) → Session → (team_count : ℕ) → Option ℕ → Bool → TeamVotingRound
opened id now session team_count min_players_per_team keep_current_allowed = record {
  id = id;
  session_id = session.id;
  activity_group_id = session.activity_group_id;
  status = voting_open;
  cancel_reason = none;
  team_count = team_count;
  min_players_per_team = min_players_per_team;
  keep_current_allowed = keep_current_allowed;
  proposals = [];
  votes = [];
  winner_proposal_id = none;
  kept_current = false;
  version = 1;
  started_at = now;
  ended_at = none;
  events = [];
}

-- The team setup of the round: the session's, or the first proposal's count and no minimum.
unfoldable pub set_up :
    (id now : ℕ) → Session → List (List ℕ) → Option TeamConfig → Result Error TeamVotingRound
set_up id now session teams (some config) =
    ok (opened id now session config.team_count config.min_players_per_team true)
set_up id now session teams none = do
  guard (not (ltb (length teams) 2 || ltb max_team_count (length teams)))
      (invalid_division wrong_team_count [])
  ok (opened id now session (length teams) none false)

unfoldable pub open_team_voting :
    (id proposal_id now : ℕ)
    → Session
    → (author_id : ℕ) → List (List ℕ)
    → (confirmed : List ℕ) → Result Error (TeamVotingRound × TeamProposal)
unfolding require_teams_changeable require_proposals_allowed is_team_sport set_up players_needed
    new_proposal add_event
open_team_voting id proposal_id now session author_id teams confirmed = do
  require_teams_changeable session
  require_proposals_allowed session
  guard (is_team_sport session.activity_type) teams_not_supported
  guard (contains confirmed author_id) attendee_not_going
  r ← set_up id now session teams session.team_config
  guard (le_ℤ (players_needed r) (length confirmed)) not_enough_players
  p ← new_proposal proposal_id now author_id teams confirmed r
  let q = record r { proposals = p ∷ [] }
  ok (add_event (voting_opened (event_base q) p.id p.author_id q.team_count confirmed) q, p)

-- `proposalWithDivision`.
unfoldable pub proposal_with_division : List (List ℕ) → List TeamProposal → Option TeamProposal
unfolding same_key division_key
proposal_with_division teams [] = none
proposal_with_division teams (p ∷ ps) =
    if same_key (division_key p.teams) (division_key teams)
    then some p
    else proposal_with_division teams ps

-- `Propose` from the look-up of an equal division on.
unfoldable pub add_proposal :
    (author_id : ℕ)
    → TeamProposal
    → TeamVotingRound
    → Option TeamProposal
    → Result Error (TeamVotingRound × TeamProposal)
unfolding add_event
add_proposal author_id p r (some existing) =
    if existing.author_id == author_id
    then ok (r, existing)
    else err (duplicate_proposal existing.id)
add_proposal author_id p r none =
    let q = record r { proposals = r.proposals ++ p ∷ []; version = suc r.version } in
    ok (add_event (proposal_created (event_base q) p.id p.author_id) q, p)

unfoldable pub propose :
    (proposal_id now : ℕ)
    → Session
    → (author_id : ℕ) → List (List ℕ)
    → (confirmed : List ℕ) → TeamVotingRound
    → Result Error (TeamVotingRound × TeamProposal)
unfolding require_teams_changeable require_proposals_allowed new_proposal proposal_with_division
    add_proposal
propose proposal_id now session author_id teams confirmed r = do
  guard (is_open r.status) voting_not_open
  require_teams_changeable session
  require_proposals_allowed session
  guard (contains confirmed author_id) attendee_not_going
  p ← new_proposal proposal_id now author_id teams confirmed r
  add_proposal author_id p r (proposal_with_division p.teams r.proposals)

-- A choice in an event: a proposal, or none for the current teams.
abbrev as_proposal : ℕ → Option ℕ
as_proposal choice = if choice == keep_current_teams then none else some choice

unfoldable pub check_choice : ℕ → TeamVotingRound → Result Error (Unit {0})
unfolding find_proposal
check_choice choice r =
    if choice == keep_current_teams
    then guard r.keep_current_allowed keep_current_not_available
    else guard (is_some (find_proposal choice r.proposals)) proposal_not_found

abbrev is_vote : ℕ → Option ℕ → Bool
is_vote choice none = false
is_vote choice (some previous) = previous == choice

unfoldable pub vote :
    (voter_id choice : ℕ) → (confirmed : List ℕ) → TeamVotingRound → Result Error TeamVotingRound
unfolding check_choice vote_of set_vote add_event
vote voter_id choice confirmed r = do
  guard (is_open r.status) voting_not_open
  guard (contains confirmed voter_id) attendee_not_going
  check_choice choice r
  let previous = vote_of voter_id r.votes
  let q = record r { votes = set_vote voter_id choice r.votes; version = suc r.version }
  ok (
      if is_vote choice previous
      then r
      else add_event (vote_cast (event_base q) voter_id (as_proposal choice) (is_some previous)) q)

-- `RetractVote` from the look-up of the vote on.
unfoldable pub take_back : (voter_id : ℕ) → TeamVotingRound → Option ℕ → TeamVotingRound
unfolding delete_vote add_event
take_back voter_id r none = r
take_back voter_id r (some previous) =
    let q = record r { votes = delete_vote voter_id r.votes; version = suc r.version } in
    add_event (vote_retracted (event_base q) voter_id (as_proposal previous)) q

unfoldable pub retract_vote :
    (voter_id : ℕ) → (confirmed : List ℕ) → TeamVotingRound → Result Error TeamVotingRound
unfolding take_back vote_of
retract_vote voter_id confirmed r = do
  guard (is_open r.status) voting_not_open
  guard (contains confirmed voter_id) attendee_not_going
  ok (take_back voter_id r (vote_of voter_id r.votes))
