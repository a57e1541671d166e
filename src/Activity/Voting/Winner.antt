-- ===== src/Activity/Voting/Winner.antt =====
-- Which option a round closes with.
use rekreativko_api.Base.{
  ℕ, ◌≤◌, Bool, true, false, ltb, ◌||◌, ◌==◌, if◌then◌else◌, Option, none, some, List, [], ◌∷◌,
  ◌++◌, contains, Bool-cases, ==_self, ◌≡◌, ◌↔◌, ◌⊎◌, inl, inr, refl, ok, arith, >>=-eq-ok,
  guard->>-eq-ok,
}
use rekreativko_api.Activity.Member.{MemberRole}
use rekreativko_api.Activity.Session.{Session, can_manage_session, require_teams_changeable}
use rekreativko_api.Activity.Voting.State.{
  TeamVotingRound, TeamProposal, voting_closed, is_open, vote_count, proposal_options, next_best,
  best_options, most_voted_options, find_proposal, keep_current_teams,
}
use rekreativko_api.Activity.Voting.Endings.{choose, with_result, close, end_closed}

contains-append : (xs : List ℕ) (o u : ℕ) → contains (xs ++ o ∷ []) u ≡ (contains xs u || o == u)
contains-append [] o u = ground arith
contains-append (x ∷ xs) o u = ground (arith, contains-append xs o u)

-- What is found among the options seen so far: none yet, or the best count and all that have it.
abbrev pub IsBest : (count_of : ℕ → ℕ) → (seen : ℕ → Bool) → Option ℕ × List ℕ → Type 0
IsBest count_of seen (none, most_voted) =
    (u : ℕ) → (seen u ≡ false) × (contains most_voted u ≡ false)
IsBest count_of seen (some best, most_voted) =
    ((u : ℕ) × (seen u ≡ true) × (count_of u ≡ best))
    × ((u : ℕ)
        → (seen u ≡ true → count_of u ≤ best)
          × (contains most_voted u ≡ true → (seen u ≡ true) × (count_of u ≡ best))
          × (seen u ≡ true → count_of u ≡ best → contains most_voted u ≡ true))

next_best-IsBest :
    (f : ℕ → ℕ) (seen : ℕ → Bool) (o : ℕ) (found : Option ℕ × List ℕ)
    → IsBest f seen found
    → IsBest f (λ u. o == u || seen u) (next_best (f o) o found)
unfolding next_best
next_best-IsBest f seen o (none, acc) h = (
  (o, ground (arith, ==_self o), refl),
  λ u. ((λ s. ground (arith, h u)), (λ c. ground arith), λ s e. ground (arith, h u)),
)
next_best-IsBest f seen o (some best, acc) ((w, q, r), h) = elim (Bool-cases (ltb best (f o))) [
  | inl t ↦ rw t (
    (o, ground (arith, ==_self o), refl),
    λ u. ((λ s. ground (arith, h u)), (λ c. ground arith), λ s e. ground (arith, h u)),
  )
  | inr n ↦ rw n (elim (Bool-cases (f o == best)) [
    | inl t ↦ rw t (
      (w, ground arith, r),
      λ u. (
        (λ s. ground (arith, h u)),
        (λ c. ground (arith, h u, contains-append acc o u)),
        λ s e. ground (arith, h u, contains-append acc o u),
      ),
    )
    | inr k ↦ rw k (
      (w, ground arith, r),
      λ u. ((λ s. ground (arith, h u)), (λ c. ground (arith, h u)), λ s e. ground (arith, h u)),
    )
  ])
]

IsBest-same :
    (f : ℕ → ℕ) (s t : ℕ → Bool) (found : Option ℕ × List ℕ)
    → ((u : ℕ) → s u ≡ t u)
    → IsBest f s found
    → IsBest f t found
IsBest-same f s t (none, acc) e h = λ u. (ground (arith, e u, h u), (h u).1)
IsBest-same f s t (some best, acc) e ((w, q, r), h) = (
  (w, ground (arith, e w), r),
  λ u. (
    (λ x. ground (arith, e u, h u)),
    (λ c. ground (arith, e u, h u)),
    λ x q. ground (arith, e u, h u),
  ),
)

pub best_options-IsBest :
    (f : ℕ → ℕ) (options : List ℕ) (seen : ℕ → Bool) (found : Option ℕ × List ℕ)
    → IsBest f seen found
    → IsBest f (λ u. contains options u || seen u) (best_options f found options)
unfolding best_options
best_options-IsBest f [] seen found h = h
best_options-IsBest f (o ∷ os) seen found h =
    IsBest-same f (λ u. contains os u || (o == u || seen u)) _ _ (λ u. ground arith)
      (best_options-IsBest f os (λ u. o == u || seen u) (next_best (f o) o found)
        (next_best-IsBest f seen o found h))

abbrev pub options_of : TeamVotingRound → List ℕ
options_of r = proposal_options r.proposals r.keep_current_allowed

-- An option of the round that no other has more votes than.
pub record IsMostVoted (r : TeamVotingRound) (choice : ℕ) : Type 0 where
  pub an_option : contains (options_of r) choice ≡ true
  pub unbeaten :
      (o : ℕ) → contains (options_of r) o ≡ true → vote_count o r.votes ≤ vote_count choice r.votes

IsBest-most_voted :
    (f : ℕ → ℕ) (options : List ℕ) (found : Option ℕ × List ℕ) (u : ℕ)
    → IsBest f (λ u. contains options u || false) found
    → (contains found.1 u ≡ true)
      ↔ ((contains options u ≡ true) × ((o : ℕ) → contains options o ≡ true → f o ≤ f u))
IsBest-most_voted f options (none, acc) u h =
    ((λ c. ground (arith, h u)), λ p. ground (arith, h u, p.0))
IsBest-most_voted f options (some best, acc) u ((w, q, r), h) = (
  (λ c. (ground (arith, h u), λ o q. ground (arith, h u, h o))),
  λ p. ground (arith, h u, p.1 w (ground arith), p.0),
)

-- The options with the most votes are exactly those that no other option beats.
pub most_voted_options_iff :
    (r : TeamVotingRound) (choice : ℕ)
    → (contains (most_voted_options r) choice ≡ true) ↔ IsMostVoted r choice
unfolding most_voted_options
most_voted_options_iff r choice =
    let f : ℕ → ℕ = λ o. vote_count o r.votes in
    let best = best_options-IsBest f (options_of r) (λ u. false) (none, []) (λ u. (refl, refl)) in
    let (there, back) = IsBest-most_voted f (options_of r) _ choice best in
    (
      (λ c. record { an_option = (there c).0; unbeaten = (there c).1 }),
      λ m. back (m.an_option, m.unbeaten),
    )

choose-contains :
    (winner : Option ℕ) (most_voted : List ℕ) (choice : ℕ)
    → choose winner most_voted ≡ ok choice
    → (contains most_voted choice ≡ true)
      × ((winner ≡ some choice) ⊎ ((winner ≡ none) × (most_voted ≡ choice ∷ [])))
unfolding choose
choose-contains (some w) most_voted choice h = ground arith
choose-contains none [] choice h = cc
choose-contains none (o ∷ []) choice h = ground (arith, ==_self o)
choose-contains none (o ∷ p ∷ os) choice h = cc

with_result-ok :
    (choice : ℕ) (r : TeamVotingRound) (q : TeamVotingRound) (w : Option TeamProposal)
    → with_result choice r ≡ ok (q, w)
    → w ≡ (if choice == keep_current_teams then none else find_proposal choice r.proposals)
unfolding with_result
with_result-ok choice r q w h = ground arith

-- If a round closes, somebody who manages the session closed it while it was open, and it closed
-- with an option that no other has more votes than: the one that the closer named, or, if they named
-- none, the only one with the most votes. The result is the chosen proposal, and none for the current teams.
-- The round is then closed and has neither proposals nor votes.
pub close-IsMostVoted :
    (now : ℕ) (session : Session) (by : ℕ) (role : MemberRole) (winner : Option ℕ)
    (confirmed : List ℕ) (r q : TeamVotingRound) (w : Option TeamProposal)
    → close now session by role winner confirmed r ≡ ok (q, w)
    → (can_manage_session session by role ≡ true)
      × (is_open r.status ≡ true)
      × (q.status ≡ voting_closed)
      × (q.proposals ≡ [])
      × (q.votes ≡ [])
      × ((choice : ℕ) × IsMostVoted r choice
          × ((winner ≡ some choice) ⊎ ((winner ≡ none) × (most_voted_options r ≡ choice ∷ [])))
          × (w ≡ (if choice == keep_current_teams then none else find_proposal choice r.proposals)))
unfolding close end_closed
close-IsMostVoted now session by role winner confirmed r q w h =
    let (manages, h₁) = guard->>-eq-ok (can_manage_session session by role) _ _ h in
    let (is, h₂) = guard->>-eq-ok (is_open r.status) _ _ h₁ in
    let (_, _, h₃) = >>=-eq-ok (require_teams_changeable session) _ h₂ in
    let (choice, c, h₄) = >>=-eq-ok (choose winner (most_voted_options r)) _ h₃ in
    let ((s, v), k, h₅) = >>=-eq-ok (with_result choice r) _ h₄ in
    let (best, named) = choose-contains winner (most_voted_options r) choice c in
    (
      manages,
      is,
      ground arith,
      ground arith,
      ground arith,
      (
        choice,
        (most_voted_options_iff r choice).0 best,
        named,
        ground (arith, with_result-ok choice r s v k),
      ),
    )
