-- ===== src/Activity/Voting/Keeping.antt =====
-- A sound round under proposals, votes and cancellation.
use rekreativko_api.Base.{
  ℕ, ◌<◌, true, false, ◌==◌, List, [], ◌∷◌, ◌++◌, contains, Bool-cases, ◌≡◌, ◌⊎◌, inl, inr, refl,
  ok, arith,
}
use rekreativko_api.Activity.Session.{Session}
use rekreativko_api.Activity.Voting.State.{
  TeamVotingRound, TeamProposal, VotingCancelReason, is_open, vote_count, keep_current_teams,
  set_vote, delete_vote,
}
use rekreativko_api.Activity.Voting.Operations.{
  propose, vote, retract_vote, check_choice, add_proposal, take_back,
}
use rekreativko_api.Activity.Voting.Endings.{cancel_if_open, cancel_round}
use rekreativko_api.Activity.Voting.Winner.{options_of}
use rekreativko_api.Activity.Voting.Ballots.{
  vote_count-set_vote, vote_count-delete_vote, find_proposal-option, keep-option, options-append,
}
use rekreativko_api.Activity.Voting.Rounds.{IsSound, has_none}

-- A round that is over is sound as soon as it is cleared.
pub cleared-IsSound :
    (r : TeamVotingRound) → is_open r.status ≡ false → r.proposals ≡ [] → r.votes ≡ [] → IsSound r
unfolding vote_count
cleared-IsSound r o p v = record {
  has_proposal = λ h. ground arith;
  no_proposals = λ h. p;
  no_votes = λ h. v;
  for_options = λ c h. ground arith;
}

pub cancel_if_open-IsSound :
    (now : ℕ) (reason : VotingCancelReason) (r : TeamVotingRound)
    → IsSound r
    → IsSound (cancel_if_open now reason r)
unfolding cancel_if_open cancel_round
cancel_if_open-IsSound now reason r s = elim (Bool-cases (is_open r.status)) [
  | inl t ↦ rw t (cleared-IsSound _ refl refl refl)
  | inr f ↦ rw f s
]

check_choice-option :
    (choice : ℕ) (r : TeamVotingRound)
    → check_choice choice r ≡ ok tt
    → contains (options_of r) choice ≡ true
unfolding check_choice
check_choice-option choice r h = elim (Bool-cases (choice == keep_current_teams)) [
  | inl t ↦ ground (arith, keep-option r.proposals)
  | inr f ↦ ground (arith, find_proposal-option choice r.proposals r.keep_current_allowed)
]

-- A round that goes on is sound if it has a proposal and its votes are for options.
pub open-IsSound :
    (r : TeamVotingRound)
    → is_open r.status ≡ true
    → has_none r.proposals ≡ false
    → ((c : ℕ) → 0 < vote_count c r.votes → contains (options_of r) c ≡ true)
    → IsSound r
open-IsSound r o p v = record {
  has_proposal = λ h. p;
  no_proposals = λ h. ground arith;
  no_votes = λ h. ground arith;
  for_options = v;
}

-- What a vote writes.
vote-ok :
    (voter_id choice : ℕ) (confirmed : List ℕ) (r q : TeamVotingRound)
    → vote voter_id choice confirmed r ≡ ok q
    → (is_open r.status ≡ true)
      × (check_choice choice r ≡ ok tt)
      × (q.status ≡ r.status)
      × (q.proposals ≡ r.proposals)
      × (q.keep_current_allowed ≡ r.keep_current_allowed)
      × ((q.votes ≡ r.votes) ⊎ (q.votes ≡ set_vote voter_id choice r.votes))
unfolding vote
vote-ok voter_id choice confirmed r q h = ground arith

pub vote-IsSound :
    (voter_id choice : ℕ) (confirmed : List ℕ) (r q : TeamVotingRound)
    → vote voter_id choice confirmed r ≡ ok q
    → IsSound r
    → IsSound q
vote-IsSound voter_id choice confirmed r q h s =
    let (o, c, status, same, keep, votes) = vote-ok voter_id choice confirmed r q h in
    open-IsSound q (ground arith) (ground (arith, s.has_proposal o)) λ d p. ground (
      arith,
      s.for_options d,
      check_choice-option choice r c,
      same,
      keep,
      vote_count-set_vote d voter_id choice r.votes,
    )

retract_vote-ok :
    (voter_id : ℕ) (confirmed : List ℕ) (r q : TeamVotingRound)
    → retract_vote voter_id confirmed r ≡ ok q
    → (is_open r.status ≡ true)
      × (q.status ≡ r.status)
      × (q.proposals ≡ r.proposals)
      × (q.keep_current_allowed ≡ r.keep_current_allowed)
      × ((q.votes ≡ r.votes) ⊎ (q.votes ≡ delete_vote voter_id r.votes))
unfolding retract_vote take_back
retract_vote-ok voter_id confirmed r q h = ground arith

pub retract_vote-IsSound :
    (voter_id : ℕ) (confirmed : List ℕ) (r q : TeamVotingRound)
    → retract_vote voter_id confirmed r ≡ ok q
    → IsSound r
    → IsSound q
retract_vote-IsSound voter_id confirmed r q h s =
    let (o, status, same, keep, votes) = retract_vote-ok voter_id confirmed r q h in
    open-IsSound q (ground arith) (ground (arith, s.has_proposal o))
      λ d p. ground (arith, s.for_options d, same, keep, vote_count-delete_vote d voter_id r.votes)

propose-ok :
    (id now : ℕ) (session : Session) (author_id : ℕ) (teams : List (List ℕ)) (confirmed : List ℕ)
    (r q : TeamVotingRound) (p : TeamProposal)
    → propose id now session author_id teams confirmed r ≡ ok (q, p)
    → (is_open r.status ≡ true)
      × (q.status ≡ r.status)
      × (q.votes ≡ r.votes)
      × (q.keep_current_allowed ≡ r.keep_current_allowed)
      × ((q.proposals ≡ r.proposals) ⊎ (q.proposals ≡ r.proposals ++ p ∷ []))
unfolding propose add_proposal
propose-ok id now session author_id teams confirmed r q p h = ground arith

has_none-append : (ps : List TeamProposal) (p : TeamProposal) → has_none (ps ++ p ∷ []) ≡ false
has_none-append [] p = refl
has_none-append (x ∷ ps) p = refl

pub propose-IsSound :
    (id now : ℕ) (session : Session) (author_id : ℕ) (teams : List (List ℕ)) (confirmed : List ℕ)
    (r q : TeamVotingRound) (p : TeamProposal)
    → propose id now session author_id teams confirmed r ≡ ok (q, p)
    → IsSound r
    → IsSound q
propose-IsSound id now session author_id teams confirmed r q p h s =
    let (o, status, votes, keep, proposals) =
      propose-ok id now session author_id teams confirmed r q p h in
    open-IsSound q (ground arith) (ground (arith, s.has_proposal o, has_none-append r.proposals p))
      λ d v. ground (
        arith,
        s.for_options d,
        votes,
        keep,
        options-append d r.proposals (p ∷ []) r.keep_current_allowed,
      )
