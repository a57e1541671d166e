-- ===== src/Activity/Voting/State.antt =====
-- team_voting.go: a round of team proposals and votes, its events (events.go) and its look-ups.
use rekreativko_api.Base.{
  ℕ, suc, ◌*◌, ℤ, int64, Bool, true, false, ◌==◌, ltb, if◌then◌else◌, Option, none, some, List, [],
  ◌∷◌, ◌++◌, contains,
}

pub data VotingStatus : Type 0 where
  voting_open voting_closed voting_cancelled : VotingStatus

pub data VotingCancelReason : Type 0 where
  not_enough_players teams_replaced session_ended no_proposals roster_changed teams_reset :
      VotingCancelReason

-- The choice to keep the current teams, `uuid.Nil`.
abbrev pub keep_current_teams : ℕ
keep_current_teams = 0

pub record TeamProposal : Type 0 where
  pub id : ℕ
  pub author_id : ℕ
  pub created_at : ℕ
  pub teams : List (List ℕ)

-- An entry of the map of votes.
pub record Ballot : Type 0 where
  pub voter_id : ℕ
  pub choice : ℕ

pub record VotingEventBase : Type 0 where
  pub activity_id : Option ℕ
  pub session_id : ℕ
  pub round_id : ℕ
  pub version : ℕ

-- The aggregate of each event is the round. A choice to keep the current teams is none.
pub data VotingEvent : Type 0 where
  voting_opened :
      VotingEventBase
      → (proposal_id author_id team_count : ℕ) → (participants : List ℕ) → VotingEvent
  proposal_created : VotingEventBase → (proposal_id author_id : ℕ) → VotingEvent
  vote_cast :
      VotingEventBase → (voter_id : ℕ) → (proposal_id : Option ℕ) → (changed : Bool) → VotingEvent
  vote_retracted : VotingEventBase → (voter_id : ℕ) → (proposal_id : Option ℕ) → VotingEvent
  proposal_withdrawn :
      VotingEventBase → (proposal_id author_id : ℕ) → (dropped_voters : List ℕ) → VotingEvent
  player_removed : VotingEventBase → (user_id : ℕ) → VotingEvent
  round_closed :
      VotingEventBase
      → (winner_proposal_id : Option ℕ) → (kept_current : Bool) → (closed_by : ℕ)
      → (participants : List ℕ) → VotingEvent
  round_cancelled :
      VotingEventBase → Option VotingCancelReason → (participants : List ℕ) → VotingEvent

pub record TeamVotingRound : Type 0 where
  pub id : ℕ
  pub session_id : ℕ
  pub activity_group_id : Option ℕ
  pub status : VotingStatus
  pub cancel_reason : Option VotingCancelReason
  pub team_count : ℕ
  pub min_players_per_team : Option ℕ
  pub keep_current_allowed : Bool
  pub proposals : List TeamProposal
  pub votes : List Ballot
  pub winner_proposal_id : Option ℕ
  pub kept_current : Bool
  pub version : ℕ
  pub started_at : ℕ
  pub ended_at : Option ℕ
  pub events : List VotingEvent

abbrev pub event_base : TeamVotingRound → VotingEventBase
event_base r = record {
  activity_id = r.activity_group_id;
  session_id = r.session_id;
  round_id = r.id;
  version = r.version;
}

unfoldable pub add_event : VotingEvent → TeamVotingRound → TeamVotingRound
add_event e r = record r { events = r.events ++ e ∷ [] }

abbrev pub is_open : VotingStatus → Bool
is_open voting_open = true
is_open _ = false

abbrev pub is_closed : VotingStatus → Bool
is_closed voting_closed = true
is_closed _ = false

abbrev per_team : Option ℕ → ℕ
per_team none = 1
per_team (some n) = n

unfoldable pub min_per_team : TeamVotingRound → ℕ
min_per_team r = per_team r.min_players_per_team

-- A product of `int`s, so it wraps at 64 bits.
unfoldable pub players_needed : TeamVotingRound → ℤ
unfolding int64 min_per_team
players_needed r = int64 (r.team_count * min_per_team r)

unfoldable pub find_proposal : ℕ → List TeamProposal → Option TeamProposal
find_proposal id [] = none
find_proposal id (p ∷ ps) = if p.id == id then some p else find_proposal id ps

-- `slices.DeleteFunc` on the proposals.
unfoldable pub delete_proposal : ℕ → List TeamProposal → List TeamProposal
delete_proposal id [] = []
delete_proposal id (p ∷ ps) =
    let rest = delete_proposal id ps in if p.id == id then rest else p ∷ rest

unfoldable pub vote_count : ℕ → List Ballot → ℕ
vote_count choice [] = 0
vote_count choice (b ∷ bs) = let n = vote_count choice bs in if b.choice == choice then suc n else n

unfoldable pub vote_of : ℕ → List Ballot → Option ℕ
vote_of voter [] = none
vote_of voter (b ∷ bs) = if b.voter_id == voter then some b.choice else vote_of voter bs

-- `r.votes[voterID] = choice`.
unfoldable pub set_vote : (voter choice : ℕ) → List Ballot → List Ballot
set_vote voter choice [] = record { voter_id = voter; choice = choice } ∷ []
set_vote voter choice (b ∷ bs) =
    let rest = set_vote voter choice bs in
    if b.voter_id == voter then record { voter_id = voter; choice = choice } ∷ bs else b ∷ rest

-- `delete(r.votes, voterID)`.
unfoldable pub delete_vote : ℕ → List Ballot → List Ballot
delete_vote voter [] = []
delete_vote voter (b ∷ bs) =
    let rest = delete_vote voter bs in if b.voter_id == voter then rest else b ∷ rest

-- The loop of `WithdrawProposal` over the votes: the voters of a choice, and the other votes.
unfoldable pub voters_of : ℕ → List Ballot → List ℕ
voters_of choice [] = []
voters_of choice (b ∷ bs) =
    let rest = voters_of choice bs in if b.choice == choice then b.voter_id ∷ rest else rest

unfoldable pub drop_choice : ℕ → List Ballot → List Ballot
drop_choice choice [] = []
drop_choice choice (b ∷ bs) =
    let rest = drop_choice choice bs in if b.choice == choice then rest else b ∷ rest

-- `TeamProposal.remove`: the first occurrence in the first team that has one.
unfoldable pub delete_first : ℕ → List ℕ → List ℕ
delete_first u [] = []
delete_first u (v ∷ vs) = let rest = delete_first u vs in if v == u then vs else v ∷ rest

unfoldable pub remove_from_teams : ℕ → List (List ℕ) → List (List ℕ)
unfolding delete_first
remove_from_teams u [] = []
remove_from_teams u (team ∷ teams) =
    let rest = remove_from_teams u teams in
    if contains team u then delete_first u team ∷ teams else team ∷ rest

unfoldable pub remove_player : ℕ → TeamProposal → TeamProposal
unfolding remove_from_teams
remove_player u p = record p { teams = remove_from_teams u p.teams }

unfoldable pub proposal_options : List TeamProposal → (keep_current_allowed : Bool) → List ℕ
proposal_options [] false = []
proposal_options [] true = keep_current_teams ∷ []
proposal_options (p ∷ ps) keep = p.id ∷ proposal_options ps keep

-- One round of the loop of `mostVotedOptions`, on the best count so far and the options that have
-- it; `none` is the start value -1.
unfoldable pub next_best : (count option : ℕ) → Option ℕ × List ℕ → Option ℕ × List ℕ
next_best count option (none, most_voted) = (some count, option ∷ [])
next_best count option (some best, most_voted) =
    if ltb best count
    then (some count, option ∷ [])
    else if count == best
    then (some best, most_voted ++ option ∷ [])
    else (some best, most_voted)

unfoldable pub best_options : (count_of : ℕ → ℕ) → Option ℕ × List ℕ → List ℕ → Option ℕ × List ℕ
unfolding next_best
best_options count_of found [] = found
best_options count_of found (option ∷ options) =
    best_options count_of (next_best (count_of option) option found) options

unfoldable pub most_voted_options : TeamVotingRound → List ℕ
unfolding vote_count proposal_options best_options
most_voted_options r =
    (best_options (λ o. vote_count o r.votes) (none, [])
      (proposal_options r.proposals r.keep_current_allowed)).1
