-- ===== src/Activity/Voting/Rounds.antt =====
-- The life of a round: its operations as steps, and what is to hold of it throughout.
use rekreativko_api.Base.{
  ℕ, ◌<◌, Bool, true, false, Option, List, [], ◌∷◌, contains, ◌≡◌, Result, ok, err,
}
use rekreativko_api.Activity.Errors.{Error}
use rekreativko_api.Activity.Member.{MemberRole}
use rekreativko_api.Activity.Session.{Session}
use rekreativko_api.Activity.Voting.State.{
  TeamVotingRound, TeamProposal, VotingCancelReason, is_open, vote_count,
}
use rekreativko_api.Activity.Voting.Operations.{propose, vote, retract_vote}
use rekreativko_api.Activity.Voting.Endings.{
  withdraw_proposal, close, attendee_left, replace_teams, reset, end_with_session,
}
use rekreativko_api.Activity.Voting.Winner.{options_of}

pub data VotingOp : Type 0 where
  proposes :
      (proposal_id : ℕ)
      → Session
      → (author_id : ℕ) → List (List ℕ)
      → (confirmed : List ℕ) → VotingOp
  votes_for : (voter_id choice : ℕ) → (confirmed : List ℕ) → VotingOp
  retracts : (voter_id : ℕ) → (confirmed : List ℕ) → VotingOp
  withdraws : (requester_id proposal_id : ℕ) → VotingOp
  closes : Session → (by : ℕ) → MemberRole → (winner : Option ℕ) → (confirmed : List ℕ) → VotingOp
  leaves : (user_id : ℕ) → (confirmed : List ℕ) → VotingOp
  has_teams_replaced has_session_ended : VotingOp
  resets : VotingCancelReason → VotingOp

-- The round of a result with a proposal.
abbrev pub round_of :
    {A : Type 0} → Result Error (TeamVotingRound × A) → Result Error TeamVotingRound
round_of (ok p) = ok p.0
round_of (err e) = err e

unfoldable pub apply : ℕ → VotingOp → TeamVotingRound → Result Error TeamVotingRound
apply now (proposes id session author_id teams confirmed) r =
    round_of (propose id now session author_id teams confirmed r)
apply now (votes_for voter_id choice confirmed) r = vote voter_id choice confirmed r
apply now (retracts voter_id confirmed) r = retract_vote voter_id confirmed r
apply now (withdraws requester_id id) r = withdraw_proposal now requester_id id r
apply now (closes session by role winner confirmed) r =
    round_of (close now session by role winner confirmed r)
apply now (leaves user_id confirmed) r = ok (attendee_left now user_id confirmed r)
apply now has_teams_replaced r = ok (replace_teams now r)
apply now has_session_ended r = ok (end_with_session now r)
apply now (resets reason) r = ok (reset now reason r)

-- An error leaves the round as it was.
abbrev pub after : TeamVotingRound → Result Error TeamVotingRound → TeamVotingRound
after r (ok q) = q
after r (err e) = r

unfoldable pub run : TeamVotingRound → List (ℕ × VotingOp) → TeamVotingRound
run r [] = r
run r ((now, op) ∷ ops) = run (after r (apply now op r)) ops

abbrev pub has_none : List TeamProposal → Bool
has_none [] = true
has_none (p ∷ ps) = false

-- An open round has a proposal, one that is over has neither proposals nor votes, and every vote is
-- for an option of the round.
pub record IsSound (r : TeamVotingRound) : Type 0 where
  pub has_proposal : is_open r.status ≡ true → has_none r.proposals ≡ false
  pub no_proposals : is_open r.status ≡ false → r.proposals ≡ []
  pub no_votes : is_open r.status ≡ false → r.votes ≡ []
  pub for_options : (c : ℕ) → 0 < vote_count c r.votes → contains (options_of r) c ≡ true
