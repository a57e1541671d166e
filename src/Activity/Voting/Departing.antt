-- ===== src/Activity/Voting/Departing.antt =====
-- A sound round when somebody leaves it or withdraws a proposal.
use rekreativko_api.Base.{
  ℕ, true, false, ◌==◌, List, [], ◌∷◌, map, ◌≡◌, ◌⊎◌, inl, inr, refl, ok, arith, >>=-eq-ok,
  guard->>-eq-ok,
}
use rekreativko_api.Activity.Voting.State.{
  TeamVotingRound, TeamProposal, is_open, find_proposal, delete_proposal, drop_choice,
  remove_player, delete_vote,
}
use rekreativko_api.Activity.Voting.Endings.{
  withdraw_proposal, attendee_left, cancel_round, or_fail, end_if_empty,
}
use rekreativko_api.Activity.Voting.Ballots.{
  vote_count-delete_vote, vote_count-drop_choice, options-delete, options-remove_player,
}
use rekreativko_api.Activity.Voting.Rounds.{IsSound, has_none}
use rekreativko_api.Activity.Voting.Keeping.{cleared-IsSound, open-IsSound}

-- A round that has ended.
abbrev pub IsEnded : TeamVotingRound → Type 0
IsEnded r = (is_open r.status ≡ false) × (r.proposals ≡ []) × (r.votes ≡ [])

attendee_left-cases :
    (now user_id : ℕ) (confirmed : List ℕ) (r : TeamVotingRound)
    → let q = attendee_left now user_id confirmed r in
      ((is_open r.status ≡ false) × (q ≡ r))
      ⊎ (IsEnded q
          ⊎ ((is_open r.status ≡ true)
              × (q.status ≡ r.status)
              × (q.proposals ≡ map (remove_player user_id) r.proposals)
              × (q.votes ≡ delete_vote user_id r.votes)
              × (q.keep_current_allowed ≡ r.keep_current_allowed)))
unfolding attendee_left cancel_round
attendee_left-cases now user_id confirmed r = ground arith

has_none-map : (u : ℕ) (ps : List TeamProposal) → has_none (map (remove_player u) ps) ≡ has_none ps
has_none-map u [] = refl
has_none-map u (p ∷ ps) = refl

pub attendee_left-IsSound :
    (now user_id : ℕ) (confirmed : List ℕ) (r : TeamVotingRound)
    → IsSound r
    → IsSound (attendee_left now user_id confirmed r)
attendee_left-IsSound now user_id confirmed r s =
    elim (attendee_left-cases now user_id confirmed r) [
      | inl (o, same) ↦ rw same s
      | inr (inl (o, p, v)) ↦ cleared-IsSound _ o p v
      | inr (inr (o, status, proposals, votes, keep)) ↦
          open-IsSound _ (ground arith)
            (ground (arith, s.has_proposal o, has_none-map user_id r.proposals))
            λ c h. ground (
              arith,
              s.for_options c,
              proposals,
              votes,
              keep,
              vote_count-delete_vote c user_id r.votes,
              options-remove_player user_id r.proposals r.keep_current_allowed,
            )
    ]

end_if_empty-cases :
    (now : ℕ) (ps : List TeamProposal) (r : TeamVotingRound)
    → (has_none ps ≡ false × (end_if_empty now ps r ≡ r)) ⊎ IsEnded (end_if_empty now ps r)
unfolding end_if_empty cancel_round
end_if_empty-cases now [] r = inr (refl, refl, refl)
end_if_empty-cases now (p ∷ ps) r = inl (refl, refl)

withdraw_proposal-ok :
    (now requester_id id : ℕ) (r q : TeamVotingRound)
    → withdraw_proposal now requester_id id r ≡ ok q
    → (is_open r.status ≡ true)
      × (IsEnded q
          ⊎ ((q.status ≡ r.status)
              × (has_none q.proposals ≡ false)
              × (q.proposals ≡ delete_proposal id r.proposals)
              × (q.votes ≡ drop_choice id r.votes)
              × (q.keep_current_allowed ≡ r.keep_current_allowed)))
unfolding withdraw_proposal
withdraw_proposal-ok now requester_id id r q h =
    let (o, h₁) = guard->>-eq-ok (is_open r.status) _ _ h in
    let (p, f, h₂) = >>=-eq-ok (or_fail (find_proposal id r.proposals) _) _ h₁ in
    let (a, h₃) = guard->>-eq-ok (p.author_id == requester_id) _ _ h₂ in
    (o, ground (arith, h₃, end_if_empty-cases now (delete_proposal id r.proposals)))

pub withdraw_proposal-IsSound :
    (now requester_id id : ℕ) (r q : TeamVotingRound)
    → withdraw_proposal now requester_id id r ≡ ok q
    → IsSound r
    → IsSound q
withdraw_proposal-IsSound now requester_id id r q h s =
    let (o, result) = withdraw_proposal-ok now requester_id id r q h in
    elim result [
      | inl (e, p, v) ↦ cleared-IsSound q e p v
      | inr (status, some_left, proposals, votes, keep) ↦
          open-IsSound q (ground arith) some_left λ c v. ground (
            arith,
            s.for_options c,
            proposals,
            votes,
            keep,
            vote_count-drop_choice c id r.votes,
            options-delete c id r.proposals r.keep_current_allowed,
          )
    ]
