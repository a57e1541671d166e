-- ===== src/Activity/Team/Formed.antt =====
-- The teams that `newTeams` makes of a valid setup.
use rekreativko_api.Base.{
  ℕ, zero, suc, ◌+◌, ◌≤◌, ◌<◌, some, List, [], ◌∷◌, length, get_elem?, get_or, ◌≡◌, ◌⊎◌, refl, ok,
  >>=-eq-ok, arith,
}
use rekreativko_api.Activity.Team.{
  TeamConfig, Team, Text, new_teams, new_teams_from, team_color, default_team_name,
}
use rekreativko_api.Activity.Team.Config.{IsValid}

abbrev pub color_at : List Text → ℕ → Text
color_at [] i = []
color_at (c ∷ cs) i = get_or (c ∷ cs) i []

-- The team that stands at a position.
abbrev pub team_at : (ids : ℕ → ℕ) (session_id now : ℕ) → List Text → ℕ → Team
team_at ids session_id now colors i = record {
  id = ids i;
  session_id = session_id;
  name = default_team_name i;
  color = color_at colors i;
  position = i;
  created_at = now;
}

-- `n` teams, at the positions from `i` on.
abbrev pub teams_at : (position : ℕ → Team) (n i : ℕ) → List Team
teams_at at zero i = []
teams_at at (suc n) i = at i ∷ teams_at at n (suc i)

pub length-teams_at : (at : ℕ → Team) (n i : ℕ) → length (teams_at at n i) ≡ n
length-teams_at at zero i = refl
length-teams_at at (suc n) i = omega (arith, length-teams_at at n (suc i))

get_elem?-some {ℓ} :
    {A : Type ℓ} (xs : List A) (i : ℕ) (d : A)
    → i < length xs
    → get_elem? xs i ≡ some (get_or xs i d)
get_elem?-some [] i d h = elim h [ ]
get_elem?-some (x ∷ xs) zero d h = refl
get_elem?-some (x ∷ xs) (suc i) d h = get_elem?-some xs i d (omega arith)

HasColors : List Text → ℕ → Type 0
HasColors colors n = (colors ≡ []) ⊎ (n ≤ length colors)

team_color-ok :
    (colors : List Text) (i : ℕ)
    → HasColors colors (suc i)
    → team_color colors i ≡ ok (color_at colors i)
unfolding HasColors team_color
team_color-ok [] i h = refl
team_color-ok (c ∷ cs) i h = ground (arith, get_elem?-some (c ∷ cs) i [])

new_teams_from-ok :
    (ids : ℕ → ℕ) (session_id now : ℕ) (colors : List Text) (n i : ℕ)
    → HasColors colors (i + n)
    → new_teams_from ids session_id now colors n i
      ≡ ok (teams_at (team_at ids session_id now colors) n i)
unfolding new_teams_from HasColors
new_teams_from-ok ids session_id now colors zero i h = refl
new_teams_from-ok ids session_id now colors (suc n) i h = rw (
  team_color-ok colors i (ground arith),
  new_teams_from-ok ids session_id now colors n (suc i) (ground arith),
)

-- A valid setup always gives its teams: as many as it says, at the positions from 0 on, each with
-- its own fresh identifier, the name and the colour of its position. In particular no colour is
-- read out of range.
pub new_teams-ok :
    (ids : ℕ → ℕ) (session_id now : ℕ) (c : TeamConfig)
    → IsValid c
    → (new_teams ids session_id now c
        ≡ ok (teams_at (team_at ids session_id now c.colors) c.team_count 0))
      × (length (teams_at (team_at ids session_id now c.colors) c.team_count 0) ≡ c.team_count)
unfolding new_teams HasColors
new_teams-ok ids session_id now c v = (
  new_teams_from-ok ids session_id now c.colors c.team_count 0 (ground arith),
  length-teams_at _ c.team_count 0,
)

length-new_teams_from :
    (ids : ℕ → ℕ) (session_id now : ℕ) (colors : List Text) (n i : ℕ) (ts : List Team)
    → new_teams_from ids session_id now colors n i ≡ ok ts
    → length ts ≡ n
unfolding new_teams_from
length-new_teams_from ids session_id now colors zero i ts h = ground arith
length-new_teams_from ids session_id now colors (suc n) i ts h =
    let (c, _, h₁) = >>=-eq-ok (team_color colors i) _ h in
    let (rest, e, h₂) = >>=-eq-ok (new_teams_from ids session_id now colors n (suc i)) _ h₁ in
    ground (arith, length-new_teams_from ids session_id now colors n (suc i) rest e)

-- Whatever the setup, if teams come of it there are as many as it says.
pub length-new_teams :
    (ids : ℕ → ℕ) (session_id now : ℕ) (c : TeamConfig) (ts : List Team)
    → new_teams ids session_id now c ≡ ok ts
    → length ts ≡ c.team_count
unfolding new_teams
length-new_teams ids session_id now c ts h =
    length-new_teams_from ids session_id now c.colors c.team_count 0 ts h
