-- ===== src/Activity/Voting/Endings.antt =====
-- team_voting.go: withdrawing a proposal, closing and cancelling a round, and somebody leaving it.
use rekreativko_api.Base.{
  ℕ, suc, le_ℤ, leb, true, ◌==◌, if◌then◌else◌, Option, none, some, List, [], ◌∷◌, map, length,
  contains, Result, ok, err, ◌>>=◌, ◌>>◌, guard,
}
use rekreativko_api.Activity.Errors.{
  Error, unauthorized, index_out_of_range, nil_dereference, voting_not_open, proposal_not_found,
  invalid_winner, not_proposal_author, tie_requires_winner,
}
use rekreativko_api.Activity.Member.{MemberRole}
use rekreativko_api.Activity.Session.{Session, require_teams_changeable, can_manage_session}
use rekreativko_api.Activity.Voting.Key.{sort_by}
use rekreativko_api.Activity.Voting.State.{
  TeamVotingRound, TeamProposal, VotingCancelReason, voting_closed, voting_cancelled,
  not_enough_players, teams_replaced, session_ended, no_proposals, keep_current_teams,
  proposal_withdrawn, player_removed, round_closed, round_cancelled, event_base, add_event, is_open,
  players_needed, find_proposal, delete_proposal, delete_vote, voters_of, drop_choice,
  remove_player, most_voted_options,
}

abbrev pub clear : TeamVotingRound → TeamVotingRound
clear r = record r { proposals = []; votes = [] }

-- `cancel`.
unfoldable pub cancel_round :
    (now : ℕ) → VotingCancelReason → (participants : List ℕ) → TeamVotingRound → TeamVotingRound
unfolding add_event
cancel_round now reason participants r =
    let q = record r {
      status = voting_cancelled;
      cancel_reason = some reason;
      ended_at = some now;
    } in
    clear (add_event (round_cancelled (event_base q) q.cancel_reason participants) q)

abbrev pub or_fail {ℓ} : {A : Type ℓ} → Option A → Error → Result Error A
or_fail none e = err e
or_fail (some a) e = ok a

-- A round that has lost its last proposal ends.
unfoldable pub end_if_empty : (now : ℕ) → List TeamProposal → TeamVotingRound → TeamVotingRound
unfolding cancel_round
end_if_empty now [] r = cancel_round now no_proposals [] (record r { version = suc r.version })
end_if_empty now (p ∷ ps) r = r

unfoldable pub withdraw_proposal :
    (now requester_id proposal_id : ℕ) → TeamVotingRound → Result Error TeamVotingRound
unfolding find_proposal voters_of drop_choice sort_by delete_proposal add_event end_if_empty
withdraw_proposal now requester_id proposal_id r = do
  guard (is_open r.status) voting_not_open
  p ← or_fail (find_proposal proposal_id r.proposals) proposal_not_found
  guard (p.author_id == requester_id) not_proposal_author
  let dropped = sort_by leb (voters_of proposal_id r.votes)
  let q = record r {
    votes = drop_choice proposal_id r.votes;
    proposals = delete_proposal proposal_id r.proposals;
    version = suc r.version;
  }
  ok (
      end_if_empty now q.proposals
        (add_event (proposal_withdrawn (event_base q) p.id p.author_id dropped) q))

-- The fields of a `TieError`.
unfoldable pub tied_proposals : List ℕ → List ℕ
tied_proposals [] = []
tied_proposals (o ∷ os) =
    let rest = tied_proposals os in if o == keep_current_teams then rest else o ∷ rest

-- The switch of `Close` over the winner and the options with the most votes.
unfoldable pub choose : (winner : Option ℕ) → (most_voted : List ℕ) → Result Error ℕ
unfolding tied_proposals
choose (some w) most_voted = do guard (contains most_voted w) invalid_winner; ok w
choose none [] = err index_out_of_range
choose none (o ∷ []) = ok o
choose none (o ∷ p ∷ os) =
    err
      (tie_requires_winner (tied_proposals (o ∷ p ∷ os)) (contains (o ∷ p ∷ os) keep_current_teams))

-- The result of the choice: the round that knows it, and the winning proposal if there is one.
unfoldable pub with_result :
    (choice : ℕ) → TeamVotingRound → Result Error (TeamVotingRound × Option TeamProposal)
unfolding find_proposal
with_result choice r =
    if choice == keep_current_teams then ok (record r { kept_current = true }, none) else (do
      p ← or_fail (find_proposal choice r.proposals) nil_dereference
      ok (record r { winner_proposal_id = some p.id }, some p))

unfoldable pub end_closed :
    (now closed_by : ℕ)
    → (confirmed : List ℕ) → TeamVotingRound × Option TeamProposal
    → TeamVotingRound × Option TeamProposal
unfolding add_event
end_closed now closed_by confirmed (r, winning) =
    let q = record r { status = voting_closed; ended_at = some now; version = suc r.version } in
    (
      clear (
          add_event
            (round_closed (event_base q) q.winner_proposal_id q.kept_current closed_by confirmed)
            q),
      winning,
    )

unfoldable pub close :
    (now : ℕ)
    → Session
    → (requester_id : ℕ) → MemberRole
    → (winner : Option ℕ) → (confirmed : List ℕ) → TeamVotingRound
    → Result Error (TeamVotingRound × Option TeamProposal)
unfolding can_manage_session require_teams_changeable choose most_voted_options with_result
    end_closed
close now session requester_id requester_role winner confirmed r = do
  guard (can_manage_session session requester_id requester_role) unauthorized
  guard (is_open r.status) voting_not_open
  require_teams_changeable session
  choice ← choose winner (most_voted_options r)
  result ← with_result choice r
  ok (end_closed now requester_id confirmed result)

unfoldable pub attendee_left :
    (now user_id : ℕ) → (confirmed : List ℕ) → TeamVotingRound → TeamVotingRound
unfolding players_needed cancel_round remove_player delete_vote add_event
attendee_left now user_id confirmed r =
    let q = record r { version = suc r.version } in
    let s = record q {
      proposals = map (remove_player user_id) q.proposals;
      votes = delete_vote user_id q.votes;
    } in
    if is_open r.status
    then (if le_ℤ (players_needed q) (length confirmed)
        then add_event (player_removed (event_base s) user_id) s
        else cancel_round now not_enough_players confirmed q)
    else r

-- What `TeamsReplaced`, `Reset` and `SessionEnded` share.
unfoldable pub cancel_if_open : (now : ℕ) → VotingCancelReason → TeamVotingRound → TeamVotingRound
unfolding cancel_round
cancel_if_open now reason r =
    if is_open r.status
    then cancel_round now reason [] (record r { version = suc r.version })
    else r

unfoldable pub replace_teams : (now : ℕ) → TeamVotingRound → TeamVotingRound
unfolding cancel_if_open
replace_teams now r = cancel_if_open now teams_replaced r

unfoldable pub reset : (now : ℕ) → VotingCancelReason → TeamVotingRound → TeamVotingRound
unfolding cancel_if_open
reset now reason r = cancel_if_open now reason r

unfoldable pub end_with_session : (now : ℕ) → TeamVotingRound → TeamVotingRound
unfolding cancel_if_open
end_with_session now r = cancel_if_open now session_ended r
