-- ===== src/Activity/Team/Config.antt =====
-- What team.go accepts as a team setup, and the teams that are made from it.
use rekreativko_api.Base.{
  ℕ, ◌≤◌, ◌<◌, ℤ, pos, true, ◌==◌, ◌||◌, to_nat, Option, none, some, List, [], ◌∷◌, map, length,
  ◌≡◌, ◌⊎◌, refl, ok, arith, >>=-eq-ok, guard->>-eq-ok,
}
use mathlib.Core.Option
use rekreativko_api.Activity.Team.{
  TeamConfig, Text, to_upper, count_in_range, or_default, min_is_positive, map_to_nat,
  matches_team_color, normalize_colors, new_team_config,
}

abbrev pub AllMatch : List Text → Type 0
AllMatch [] = Unit {0}
AllMatch (c ∷ cs) = (matches_team_color c ≡ true) × AllMatch cs

abbrev pub MinIsPositive : Option ℕ → Type 0
MinIsPositive none = Unit {0}
MinIsPositive (some n) = 0 < n

pub record IsValid (c : TeamConfig) : Type 0 where
  pub count_low : 2 ≤ c.team_count
  pub count_high : c.team_count ≤ 8
  pub min_positive : MinIsPositive c.min_players_per_team
  pub one_color_each : (c.colors ≡ []) ⊎ (length c.colors ≡ c.team_count)
  pub colors_match : AllMatch c.colors

to_upper_twice : (c : Text) → map to_upper (map to_upper c) ≡ map to_upper c
unfolding to_upper
to_upper_twice [] = refl
to_upper_twice (c ∷ cs) = ground (arith, to_upper_twice cs)

normalize_colors-ok :
    (cs ds : List Text)
    → normalize_colors cs ≡ ok ds
    → AllMatch ds × (length ds ≡ length cs) × (normalize_colors ds ≡ ok ds)
unfolding normalize_colors
normalize_colors-ok [] ds h = ground arith
normalize_colors-ok (c ∷ cs) ds h =
    let (good, h') = guard->>-eq-ok (matches_team_color (map to_upper c)) _ _ h in
    let (rest, h'', e) = >>=-eq-ok (normalize_colors cs) _ h' in
    let (match, same, again) = normalize_colors-ok cs rest h'' in
    ground (arith, to_upper_twice c, e, good, match, same, again)

-- What an accepted setup tells of its parts.
accepted :
    (count min : Option ℤ) (colors : List Text) (c : TeamConfig)
    → new_team_config count min colors ≡ ok c
    → (count_in_range (or_default count) ≡ true)
      × (min_is_positive min ≡ true)
      × ((length colors == 0 || length colors == to_nat (or_default count)) ≡ true)
      × (normalize_colors colors ≡ ok c.colors)
      × (c.team_count ≡ to_nat (or_default count))
      × (c.min_players_per_team ≡ map_to_nat min)
unfolding new_team_config
accepted count min colors c h =
    let (a, h₁) = guard->>-eq-ok _ _ _ h in
    let (b, h₂) = guard->>-eq-ok _ _ _ h₁ in
    let (d, h₃) = guard->>-eq-ok _ _ _ h₂ in
    let (norm, e, h₄) = >>=-eq-ok (normalize_colors colors) _ h₃ in
    (a, b, d, ground arith, ground arith, ground arith)

-- A setup that is accepted is valid: two to eight teams, a minimum of at least one player if there
-- is one, and no colours or one for each team, each written as # and six digits or capitals A to F.
pub new_team_config-IsValid :
    (count min : Option ℤ) (colors : List Text) (c : TeamConfig)
    → new_team_config count min colors ≡ ok c
    → IsValid c
new_team_config-IsValid count min colors c h =
    let (a, b, d, e, n, m) = accepted count min colors c h in
    let (all, same, again) = normalize_colors-ok colors c.colors e in
    record {
      count_low = ground arith;
      count_high = ground arith;
      min_positive = ground arith;
      one_color_each = ground arith;
      colors_match = all;
    }

-- Sending an accepted setup again is accepted, and gives the same setup.
pub new_team_config_again :
    (count min : Option ℤ) (colors : List Text) (c : TeamConfig)
    → new_team_config count min colors ≡ ok c
    → new_team_config (some (pos c.team_count)) (Option.map pos c.min_players_per_team) c.colors
      ≡ ok c
unfolding new_team_config
new_team_config_again count min colors c h =
    let (a, b, d, e, n, m) = accepted count min colors c h in
    let (all, same, again) = normalize_colors-ok colors c.colors e in ground arith
