-- ===== src/Activity/Voting/Division.antt =====
-- Which divisions a round accepts.
use rekreativko_api.Base.{
  ℕ, ◌+◌, ◌≤◌, ◌<◌, true, false, not, ◌==◌, List, [], ◌∷◌, length, count, contains, contains-count,
  count-contains, not-contains-count, Bool-cases, ==_self, subst, ◌≡◌, ◌↔◌, inl, inr, refl, ok,
  arith, >>=-eq-ok, guard->>-eq-ok,
}
use rekreativko_api.Activity.Voting.State.{TeamVotingRound, min_per_team}
use rekreativko_api.Activity.Voting.Operations.{
  check_team, check_teams, missing_from, is_nil, all_at_least, validate_division,
}

-- How often somebody stands in the teams.
abbrev pub count_in : ℕ → List (List ℕ) → ℕ
count_in u [] = 0
count_in u (team ∷ teams) = count u team + count_in u teams

abbrev pub AllAtLeast : ℕ → List (List ℕ) → Type 0
AllAtLeast n [] = Unit {0}
AllAtLeast n (team ∷ teams) = (n ≤ length team) × AllAtLeast n teams

-- As many teams as the round has, each person going on exactly one of them, nobody else on any, and
-- no team below the minimum.
pub record IsDivision (r : TeamVotingRound) (confirmed : List ℕ) (teams : List (List ℕ))
    : Type 0 where
  pub team_number : length teams ≡ r.team_count
  pub each_once : (u : ℕ) → contains confirmed u ≡ true → count_in u teams ≡ 1
  pub nobody_else : (u : ℕ) → contains confirmed u ≡ false → count_in u teams ≡ 0
  pub large_enough : AllAtLeast (min_per_team r) teams

-- Nobody is seen twice, and whoever is seen is going.
abbrev Seen : List ℕ → List ℕ → Type 0
Seen confirmed seen =
    (u : ℕ) → (count u seen ≤ 1) × (0 < count u seen → contains confirmed u ≡ true)

Seen-extend :
    (confirmed seen : List ℕ) (v : ℕ)
    → contains confirmed v ≡ true
    → contains seen v ≡ false
    → Seen confirmed seen
    → Seen confirmed (v ∷ seen)
Seen-extend confirmed seen v c n s u =
    (ground (arith, s u, not-contains-count v seen n), λ h. ground (arith, s u))

check_team-Seen :
    (confirmed seen team seen' : List ℕ)
    → check_team confirmed seen team ≡ ok seen'
    → Seen confirmed seen
    → Seen confirmed seen' × ((u : ℕ) → count u seen' ≡ count u seen + count u team)
unfolding check_team
check_team-Seen confirmed seen [] seen' h s =
    let same : seen ≡ seen' = ground arith in
    subst (λ x. Seen confirmed x × ((u : ℕ) → count u x ≡ count u seen + 0)) same
      (s, λ u. omega arith)
check_team-Seen confirmed seen (v ∷ vs) seen' h s =
    let (c, h₁) = guard->>-eq-ok (contains confirmed v) _ _ h in
    let (n, h₂) = guard->>-eq-ok (not (contains seen v)) _ _ h₁ in
    let (t, sum) =
      check_team-Seen confirmed (v ∷ seen) vs seen' h₂
        (Seen-extend confirmed seen v c (ground arith) s) in
    (t, λ u. ground (arith, sum u))

check_teams-Seen :
    (confirmed seen seen' : List ℕ) (teams : List (List ℕ))
    → check_teams confirmed seen teams ≡ ok seen'
    → Seen confirmed seen
    → Seen confirmed seen' × ((u : ℕ) → count u seen' ≡ count u seen + count_in u teams)
unfolding check_teams
check_teams-Seen confirmed seen seen' [] h s = check_team-Seen confirmed seen [] seen' h s
check_teams-Seen confirmed seen seen' (team ∷ teams) h s =
    let (mid, h₁, h₂) = >>=-eq-ok (check_team confirmed seen team) _ h in
    let (s₁, sum₁) = check_team-Seen confirmed seen team mid h₁ s in
    let (s₂, sum₂) = check_teams-Seen confirmed mid seen' teams h₂ s₁ in
    (s₂, λ u. omega (arith, sum₁ u, sum₂ u))

-- The players of a team that are all going and not seen before pass.
check_team-ok :
    (confirmed seen team : List ℕ)
    → ((u : ℕ) → count u seen + count u team ≤ 1)
    → ((u : ℕ) → 0 < count u team → contains confirmed u ≡ true)
    → (seen' : List ℕ) × (check_team confirmed seen team ≡ ok seen')
      × ((u : ℕ) → count u seen' ≡ count u seen + count u team)
unfolding check_team
check_team-ok confirmed seen [] o c = (seen, refl, λ u. omega arith)
check_team-ok confirmed seen (v ∷ vs) o c =
    let going : contains confirmed v ≡ true = c v (ground arith) in
    let new : contains seen v ≡ false = elim (Bool-cases (contains seen v)) [
      | inl t ↦ ground (arith, o v, contains-count v seen t)
      | inr f ↦ f
    ] in
    let (seen', e, sum) =
      check_team-ok confirmed (v ∷ seen) vs (λ u. ground (arith, o u))
        (λ u h. c u (ground arith)) in
    (seen', rw (going, new) e, λ u. ground (arith, sum u))

check_teams-ok :
    (confirmed seen : List ℕ) (teams : List (List ℕ))
    → ((u : ℕ) → count u seen + count_in u teams ≤ 1)
    → ((u : ℕ) → 0 < count_in u teams → contains confirmed u ≡ true)
    → (seen' : List ℕ) × (check_teams confirmed seen teams ≡ ok seen')
      × ((u : ℕ) → count u seen' ≡ count u seen + count_in u teams)
unfolding check_teams
check_teams-ok confirmed seen [] o c = (seen, refl, λ u. omega arith)
check_teams-ok confirmed seen (team ∷ teams) o c =
    let (mid, e₁, sum₁) =
      check_team-ok confirmed seen team (λ u. omega (arith, o u)) (λ u h. c u (omega arith)) in
    let (seen', e₂, sum₂) =
      check_teams-ok confirmed mid teams (λ u. omega (arith, o u, sum₁ u))
        (λ u h. c u (omega arith)) in
    (seen', rw e₁ e₂, λ u. omega (arith, sum₁ u, sum₂ u))

missing_from-nil :
    (seen confirmed : List ℕ)
    → is_nil (missing_from seen confirmed) ≡ true
    → (u : ℕ) → contains confirmed u ≡ true
    → contains seen u ≡ true
unfolding missing_from
missing_from-nil seen [] h u c = cc
missing_from-nil seen (v ∷ vs) h u c = elim (Bool-cases (contains seen v)) [
  | inl t ↦ ground (arith, missing_from-nil seen vs (ground arith) u)
  | inr f ↦ ground arith
]

missing_from-all :
    (seen confirmed : List ℕ)
    → ((u : ℕ) → contains confirmed u ≡ true → contains seen u ≡ true)
    → is_nil (missing_from seen confirmed) ≡ true
unfolding missing_from
missing_from-all seen [] h = refl
missing_from-all seen (v ∷ vs) h =
    let found : contains seen v ≡ true = h v (ground (arith, ==_self v)) in
    rw found (missing_from-all seen vs (λ u c. h u (ground arith)))

all_at_least-AllAtLeast :
    (n : ℕ) (teams : List (List ℕ)) → (all_at_least n teams ≡ true) ↔ AllAtLeast n teams
unfolding all_at_least
all_at_least-AllAtLeast n [] = ((λ h. tt), λ h. refl)
all_at_least-AllAtLeast n (team ∷ teams) =
    let (there, back) = all_at_least-AllAtLeast n teams in
    ((λ h. (ground arith, there (ground arith))), λ h. ground (arith, back h.1))

validate_division-IsDivision :
    (r : TeamVotingRound) (teams : List (List ℕ)) (confirmed : List ℕ)
    → validate_division r teams confirmed ≡ ok tt
    → IsDivision r confirmed teams
unfolding validate_division
validate_division-IsDivision r teams confirmed h =
    let (n, h₁) = guard->>-eq-ok (length teams == r.team_count) _ _ h in
    let (seen, e, h₂) = >>=-eq-ok (check_teams confirmed [] teams) _ h₁ in
    let (m, h₃) = guard->>-eq-ok (is_nil (missing_from seen confirmed)) _ _ h₂ in
    let (s, sum) =
      check_teams-Seen confirmed [] seen teams e (λ u. (omega arith, λ p. ground arith)) in
    record {
      team_number = ground arith;
      each_once = λ u c.
          ground (arith, s u, sum u, contains-count u seen (missing_from-nil seen confirmed m u c));
      nobody_else = λ u c. ground (arith, s u, sum u);
      large_enough = (all_at_least-AllAtLeast (min_per_team r) teams).0 (ground arith);
    }

IsDivision-validate_division :
    (r : TeamVotingRound) (teams : List (List ℕ)) (confirmed : List ℕ)
    → IsDivision r confirmed teams
    → validate_division r teams confirmed ≡ ok tt
unfolding validate_division
IsDivision-validate_division r teams confirmed d =
    let (seen, e, sum) =
      check_teams-ok confirmed [] teams
        (λ u. elim (Bool-cases (contains confirmed u)) [
          | inl t ↦ omega (arith, d.each_once u t)
          | inr f ↦ omega (arith, d.nobody_else u f)
        ])
        (λ u p. elim (Bool-cases (contains confirmed u)) [
          | inl t ↦ t
          | inr f ↦ ground (arith, d.nobody_else u f)
        ]) in
    let all =
      missing_from-all seen confirmed
        (λ u c. count-contains u seen (omega (arith, sum u, d.each_once u c))) in
    let big = (all_at_least-AllAtLeast (min_per_team r) teams).1 d.large_enough in
    let number : (length teams == r.team_count) ≡ true = ground (arith, d.team_number) in
    rw (number, e, all, big) refl

-- A division is valid exactly if it has as many teams as the round, everybody going is on exactly
-- one team and once, nobody else is on any, and each team has the minimum of players.
pub validate_division_iff :
    (r : TeamVotingRound) (teams : List (List ℕ)) (confirmed : List ℕ)
    → (validate_division r teams confirmed ≡ ok tt) ↔ IsDivision r confirmed teams
validate_division_iff r teams confirmed =
    (validate_division-IsDivision r teams confirmed, IsDivision-validate_division r teams confirmed)
