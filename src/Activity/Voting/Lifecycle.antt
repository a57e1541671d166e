-- ===== src/Activity/Voting/Lifecycle.antt =====
-- A round from its opening to its end.
use rekreativko_api.Activity.Catalog.{is_team_sport}
use rekreativko_api.Activity.Session.{require_proposals_allowed, Session, require_teams_changeable}
use rekreativko_api.Activity.Voting.State.{
  players_needed, TeamVotingRound, TeamProposal, is_open, vote_count,
}
use rekreativko_api.Base.{
  le_ℤ, length, ℕ, true, Option, none, some, List, [], ◌∷◌, contains, ◌≡◌, refl, Result, ok, err,
  arith, >>=-eq-ok, guard->>-eq-ok,
}
use rekreativko_api.Activity.Errors.{Error}
use rekreativko_api.Activity.Team.{TeamConfig}
use rekreativko_api.Activity.Voting.Operations.{new_proposal, open_team_voting, set_up}
use rekreativko_api.Activity.Voting.Endings.{replace_teams, reset, end_with_session}
use rekreativko_api.Activity.Voting.Winner.{close-IsMostVoted}
use rekreativko_api.Activity.Voting.Rounds.{
  VotingOp, proposes, votes_for, retracts, withdraws, closes, leaves, has_teams_replaced,
  has_session_ended, resets, round_of, apply, after, run, IsSound,
}
use rekreativko_api.Activity.Voting.Keeping.{
  cancel_if_open-IsSound, vote-IsSound, retract_vote-IsSound, propose-IsSound, cleared-IsSound,
  open-IsSound,
}
use rekreativko_api.Activity.Voting.Departing.{attendee_left-IsSound, withdraw_proposal-IsSound}

after_ind :
    (P : TeamVotingRound → Type 0) (r : TeamVotingRound) (result : Result Error TeamVotingRound)
    → P r
    → ((q : TeamVotingRound) → result ≡ ok q → P q)
    → P (after r result)
after_ind P r (ok q) p f = f q refl
after_ind P r (err e) p f = p

round_of_ind :
    (P : TeamVotingRound → Type 0) (r : TeamVotingRound) {A : Type 0}
    (result : Result Error (TeamVotingRound × A))
    → P r
    → ((q : TeamVotingRound) (a : A) → result ≡ ok (q, a) → P q)
    → P (after r (round_of result))
round_of_ind P r (ok (q, a)) p f = f q a refl
round_of_ind P r (err e) p f = p

apply-IsSound :
    (now : ℕ) (op : VotingOp) (r : TeamVotingRound) → IsSound r → IsSound (after r (apply now op r))
unfolding apply replace_teams reset end_with_session
apply-IsSound now (proposes id session author_id teams confirmed) r s =
    round_of_ind IsSound r _ s
      λ q p h. propose-IsSound id now session author_id teams confirmed r q p h s
apply-IsSound now (votes_for voter_id choice confirmed) r s =
    after_ind IsSound r _ s λ q h. vote-IsSound voter_id choice confirmed r q h s
apply-IsSound now (retracts voter_id confirmed) r s =
    after_ind IsSound r _ s λ q h. retract_vote-IsSound voter_id confirmed r q h s
apply-IsSound now (withdraws requester_id id) r s =
    after_ind IsSound r _ s λ q h. withdraw_proposal-IsSound now requester_id id r q h s
apply-IsSound now (closes session by role winner confirmed) r s =
    round_of_ind IsSound r _ s λ q w h.
      let (_, _, status, proposals, votes, _) =
        close-IsMostVoted now session by role winner confirmed r q w h in
      cleared-IsSound q (ground arith) proposals votes
apply-IsSound now (leaves user_id confirmed) r s = attendee_left-IsSound now user_id confirmed r s
apply-IsSound now has_teams_replaced r s = cancel_if_open-IsSound now _ r s
apply-IsSound now has_session_ended r s = cancel_if_open-IsSound now _ r s
apply-IsSound now (resets reason) r s = cancel_if_open-IsSound now reason r s

set_up-ok :
    (id now : ℕ) (session : Session) (teams : List (List ℕ)) (config : Option TeamConfig)
    (r : TeamVotingRound)
    → set_up id now session teams config ≡ ok r
    → (is_open r.status ≡ true) × (r.votes ≡ [])
unfolding set_up
set_up-ok id now session teams (some c) r h = ground arith
set_up-ok id now session teams none r h = ground arith

open_team_voting-IsSound :
    (id proposal_id now : ℕ) (session : Session) (author_id : ℕ) (teams : List (List ℕ))
    (confirmed : List ℕ) (r : TeamVotingRound) (p : TeamProposal)
    → open_team_voting id proposal_id now session author_id teams confirmed ≡ ok (r, p)
    → IsSound r
unfolding open_team_voting vote_count
open_team_voting-IsSound id proposal_id now session author_id teams confirmed r p h =
    let (_, _, h₁) = >>=-eq-ok (require_teams_changeable session) _ h in
    let (_, _, h₂) = >>=-eq-ok (require_proposals_allowed session) _ h₁ in
    let (_, h₃) = guard->>-eq-ok (is_team_sport session.activity_type) _ _ h₂ in
    let (_, h₄) = guard->>-eq-ok (contains confirmed author_id) _ _ h₃ in
    let (u, e, h₅) = >>=-eq-ok (set_up id now session teams session.team_config) _ h₄ in
    let (_, h₆) = guard->>-eq-ok (le_ℤ (players_needed u) (length confirmed)) _ _ h₅ in
    let (x, _, h₇) = >>=-eq-ok (new_proposal proposal_id now author_id teams confirmed u) _ h₆ in
    let (o, v) = set_up-ok id now session teams session.team_config u e in
    open-IsSound r (ground (arith, h₇, o)) (ground (arith, h₇)) λ c k. ground (arith, h₇, v)

run_keeps : (r : TeamVotingRound) (ops : List (ℕ × VotingOp)) → IsSound r → IsSound (run r ops)
unfolding run
run_keeps r [] s = s
run_keeps r ((now, op) ∷ ops) s =
    run_keeps (after r (apply now op r)) ops (apply-IsSound now op r s)

-- Whatever is called on a round that was opened, it has a proposal while it is open, has neither
-- proposals nor votes once it is over, and every vote is for one of its options.
pub run-IsSound :
    (id proposal_id now : ℕ) (session : Session) (author_id : ℕ) (teams : List (List ℕ))
    (confirmed : List ℕ) (r : TeamVotingRound) (p : TeamProposal) (ops : List (ℕ × VotingOp))
    → open_team_voting id proposal_id now session author_id teams confirmed ≡ ok (r, p)
    → IsSound (run r ops)
run-IsSound id proposal_id now session author_id teams confirmed r p ops h =
    run_keeps r ops
      (open_team_voting-IsSound id proposal_id now session author_id teams confirmed r p h)
