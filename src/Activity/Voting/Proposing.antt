-- ===== src/Activity/Voting/Proposing.antt =====
-- What a call of `Propose` does.
use rekreativko_api.Base.{
  subst, ap, ℕ, true, Option, none, some, List, [], ◌∷◌, ◌++◌, Bool-cases, ◌≡◌, ◌⊎◌, inl, inr, ◌∙◌,
  ok, arith, >>=-eq-ok, guard->>-eq-ok, contains,
}
use rekreativko_api.Activity.Session.{Session, require_teams_changeable, require_proposals_allowed}
use rekreativko_api.Activity.Voting.State.{TeamVotingRound, TeamProposal, is_open}
use rekreativko_api.Activity.Voting.Key.{division_key, same_key}
use rekreativko_api.Activity.Voting.Operations.{
  validate_division, new_proposal, proposal_with_division, add_proposal, propose,
}
use rekreativko_api.Activity.Voting.Canonical.{SameDivision, division_key_iff, same_key-eq}

-- No proposal has the division.
abbrev pub IsNew : List (List ℕ) → List TeamProposal → Type 0
IsNew teams [] = Unit {0}
IsNew teams (p ∷ ps) = (¬ SameDivision p.teams teams) × IsNew teams ps

same_key-SameDivision :
    (ts us : List (List ℕ))
    → same_key (division_key ts) (division_key us) ≡ true
    → SameDivision ts us
same_key-SameDivision ts us h =
    (division_key_iff ts us).0 ((same_key-eq (division_key ts) (division_key us)).0 h)

SameDivision-same_key :
    (ts us : List (List ℕ))
    → SameDivision ts us
    → same_key (division_key ts) (division_key us) ≡ true
SameDivision-same_key ts us s =
    (same_key-eq (division_key ts) (division_key us)).1 ((division_key_iff ts us).1 s)

proposal_with_division-none :
    (teams : List (List ℕ)) (ps : List TeamProposal)
    → proposal_with_division teams ps ≡ none
    → IsNew teams ps
unfolding proposal_with_division
proposal_with_division-none teams [] h = tt
proposal_with_division-none teams (p ∷ ps) h =
    elim (Bool-cases (same_key (division_key p.teams) (division_key teams))) [
      | inl t ↦ ground (arith, t, h)
      | inr f ↦ (
        (λ s. ground (arith, f, SameDivision-same_key p.teams teams s)),
        proposal_with_division-none teams ps (ground (arith, f, h)),
      )
    ]

proposal_with_division-some :
    (teams : List (List ℕ)) (ps : List TeamProposal) (q : TeamProposal)
    → proposal_with_division teams ps ≡ some q
    → SameDivision q.teams teams
unfolding proposal_with_division
proposal_with_division-some teams [] q h = cc
proposal_with_division-some teams (p ∷ ps) q h =
    elim (Bool-cases (same_key (division_key p.teams) (division_key teams))) [
      | inl t ↦
          let found : p ≡ q = ground (arith, t, h) in
          subst (λ (x : TeamProposal). SameDivision x.teams teams) found
            (same_key-SameDivision p.teams teams t)
      | inr f ↦ proposal_with_division-some teams ps q (ground (arith, f, h))
    ]

new_proposal-teams :
    (id now author_id : ℕ) (teams : List (List ℕ)) (confirmed : List ℕ) (r : TeamVotingRound)
    (p : TeamProposal)
    → new_proposal id now author_id teams confirmed r ≡ ok p
    → p.teams ≡ teams
unfolding new_proposal
new_proposal-teams id now author_id teams confirmed r p h =
    let (_, _, h₁) = >>=-eq-ok (validate_division r teams confirmed) _ h in ground arith

add_proposal-ok :
    (author_id : ℕ) (p : TeamProposal) (r q : TeamVotingRound) (found : Option TeamProposal)
    (w : TeamProposal)
    → add_proposal author_id p r found ≡ ok (q, w)
    → ((found ≡ some w) × (q ≡ r) × (w.author_id ≡ author_id))
      ⊎ ((found ≡ none) × (w ≡ p) × (q.proposals ≡ r.proposals ++ p ∷ []))
unfolding add_proposal
add_proposal-ok author_id p r q (some x) w h = ground arith
add_proposal-ok author_id p r q none w h = ground arith

-- A successful proposal of a division either finds the same division among the proposals, by the
-- same author, and changes nothing, or adds a proposal with that division at the end, where no
-- proposal had it. The same division is one with the same players together.
pub propose-IsNew :
    (id now : ℕ) (session : Session) (author_id : ℕ) (teams : List (List ℕ)) (confirmed : List ℕ)
    (r q : TeamVotingRound) (p : TeamProposal)
    → propose id now session author_id teams confirmed r ≡ ok (q, p)
    → ((q ≡ r) × (p.author_id ≡ author_id) × SameDivision p.teams teams)
      ⊎ ((p.teams ≡ teams) × (q.proposals ≡ r.proposals ++ p ∷ []) × IsNew teams r.proposals)
unfolding propose
propose-IsNew id now session author_id teams confirmed r q p h =
    let (_, h₁) = guard->>-eq-ok (is_open r.status) _ _ h in
    let (_, _, h₂) = >>=-eq-ok (require_teams_changeable session) _ h₁ in
    let (_, _, h₃) = >>=-eq-ok (require_proposals_allowed session) _ h₂ in
    let (_, h₄) = guard->>-eq-ok (contains confirmed author_id) _ _ h₃ in
    let (new, made, h₅) = >>=-eq-ok (new_proposal id now author_id teams confirmed r) _ h₄ in
    let same = new_proposal-teams id now author_id teams confirmed r new made in
    elim (add_proposal-ok author_id new r q _ p h₅) [
      | inl (found, unchanged, author) ↦ inl (
        unchanged,
        author,
        subst (SameDivision p.teams) same
            (proposal_with_division-some new.teams r.proposals p found),
      )
      | inr (nothing, added, proposals) ↦ inr (
        ap (λ (x : TeamProposal). x.teams) added ∙ same,
        ground (arith, added, proposals),
        subst (λ x. IsNew x r.proposals) same
            (proposal_with_division-none new.teams r.proposals nothing),
      )
    ]
