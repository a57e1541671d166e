-- ===== src/Activity/Voting/Key.antt =====
-- team_voting.go: sorting identifiers, and the canonical form of a division. Identifiers are
-- compared as the numbers they are, which orders them as their fixed-width hexadecimal text does.
use rekreativko_api.Base.{
  ℕ, Bool, true, false, leb, ltb, ◌==◌, ◌&&◌, if◌then◌else◌, List, [], ◌∷◌, map,
}

module _ {ℓ} {A : Type ℓ} (le : A → A → Bool) where
  unfoldable pub insert_by : A → List A → List A
  insert_by a [] = a ∷ []
  insert_by a (b ∷ bs) = let rest = insert_by a bs in if le a b then a ∷ b ∷ bs else b ∷ rest

  -- `slices.Sort`.
  unfoldable pub sort_by : List A → List A
  unfolding insert_by
  sort_by [] = []
  sort_by (a ∷ as₀) = insert_by a (sort_by as₀)

-- The order of the joined texts of two sorted teams.
unfoldable pub team_leb : List ℕ → List ℕ → Bool
team_leb [] vs = true
team_leb (u ∷ us) [] = false
team_leb (u ∷ us) (v ∷ vs) =
    let rest = team_leb us vs in if ltb u v then true else if u == v then rest else false

-- `divisionKey`, without the separators: the divisions of a round have all the same number of
-- teams, which is not zero, and for those the text with separators says the same.
unfoldable pub division_key : List (List ℕ) → List (List ℕ)
unfolding sort_by team_leb
division_key teams = sort_by team_leb (map (sort_by leb) teams)

unfoldable pub same_team : List ℕ → List ℕ → Bool
same_team [] [] = true
same_team [] (v ∷ vs) = false
same_team (u ∷ us) [] = false
same_team (u ∷ us) (v ∷ vs) = u == v && same_team us vs

unfoldable pub same_key : List (List ℕ) → List (List ℕ) → Bool
unfolding same_team
same_key [] [] = true
same_key [] (t ∷ ts) = false
same_key (s ∷ ss) [] = false
same_key (s ∷ ss) (t ∷ ts) = same_team s t && same_key ss ts
