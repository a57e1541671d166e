-- ===== src/Activity/Team.antt =====
-- activity/internal/domain/team.go: the team setup of a session, and the teams made from it.
-- Text is a list of code points. `ids` gives the identifiers that `uuid.New()` returns.
pub mod Config
pub mod Formed
use rekreativko_api.Base.{
  ℕ, zero, suc, ◌+◌, ◌-◌, ◌*◌, ℤ, pos, negsuc, lt_ℤ, le_ℤ, to_nat, int64, Bool, true, false, ◌&&◌,
  ◌||◌, not, leb, ltb, ◌==◌, if◌then◌else◌, Option, none, some, List, [], ◌∷◌, ◌++◌, map, length,
  get_elem?, Result, ok, err, ◌>>=◌, ◌>>◌, guard,
}
use rekreativko_api.Activity.Errors.{
  Error, index_out_of_range, teams_not_supported, invalid_team_count, invalid_min_players_per_team,
  invalid_team_colors,
}
use rekreativko_api.Activity.Catalog.{ActivityType, is_team_sport}

abbrev pub default_team_count : ℕ
default_team_count = 2

abbrev pub max_team_count : ℕ
max_team_count = 8

abbrev pub Text : Type 0
Text = List ℕ

pub record TeamConfig : Type 0 where
  pub team_count : ℕ
  pub min_players_per_team : Option ℕ
  pub colors : List Text

-- `strings.ToUpper`, on the code points that the pattern can accept; it leaves out the upper case
-- of the others, which is never a digit or a letter from A to F.
unfoldable pub to_upper : ℕ → ℕ
to_upper c = if leb b'a' c && leb c b'z' then c - 32 else c

is_hex_upper : ℕ → Bool
is_hex_upper c = (leb b'0' c && leb c b'9') || (leb b'A' c && leb c b'F')

abbrev all_hex : Text → Bool
unfolding is_hex_upper
all_hex [] = true
all_hex (c ∷ cs) = is_hex_upper c && all_hex cs

-- `^#[0-9A-F]{6}$`
unfoldable pub matches_team_color : Text → Bool
unfolding is_hex_upper
matches_team_color [] = false
matches_team_color (c ∷ cs) = c == b'#' && (length cs == 6 && all_hex cs)

-- The loop over the colours, which stops at the first bad one.
unfoldable pub normalize_colors : List Text → Result Error (List Text)
unfolding matches_team_color to_upper
normalize_colors [] = ok []
normalize_colors (color ∷ colors) = do
  let upper = map to_upper color
  guard (matches_team_color upper) invalid_team_colors
  normalized ← normalize_colors colors
  ok (upper ∷ normalized)

abbrev count_in_range : ℤ → Bool
count_in_range (pos n) = not (ltb n 2 || ltb max_team_count n)
count_in_range (negsuc n) = false

abbrev or_default : Option ℤ → ℤ
or_default none = pos default_team_count
or_default (some n) = n

abbrev min_is_positive : Option ℤ → Bool
min_is_positive none = true
min_is_positive (some n) = not (le_ℤ n 0)

abbrev pub map_to_nat : Option ℤ → Option ℕ
map_to_nat none = none
map_to_nat (some n) = some (to_nat n)

unfoldable pub new_team_config :
    (team_count min_players_per_team : Option ℤ) → List Text → Result Error TeamConfig
unfolding normalize_colors
new_team_config team_count min_players_per_team colors = do
  let count = or_default team_count
  guard (count_in_range count) invalid_team_count
  guard (min_is_positive min_players_per_team) invalid_min_players_per_team
  guard (length colors == 0 || length colors == to_nat count) invalid_team_colors
  normalized ← normalize_colors colors
  ok (record {
    team_count = to_nat count;
    min_players_per_team = map_to_nat min_players_per_team;
    colors = normalized;
  })

unfoldable pub reconstruct_team_config : (team_count : ℕ) → Option ℕ → List Text → TeamConfig
reconstruct_team_config team_count min_players_per_team colors = record {
  team_count = team_count;
  min_players_per_team = min_players_per_team;
  colors = colors;
}

-- `perTeam` of `PlayersNeeded`: one where there is no minimum.
abbrev pub per_team : Option ℕ → ℕ
per_team none = 1
per_team (some n) = n

-- A product of `int`s, so it wraps at 64 bits.
unfoldable pub players_needed : TeamConfig → ℤ
unfolding int64
players_needed c = int64 (c.team_count * per_team c.min_players_per_team)

unfoldable pub has_enough_players : TeamConfig → ℕ → Bool
unfolding players_needed
has_enough_players c going = le_ℤ (players_needed c) going

unfoldable pub ensure_supported_by : ActivityType → Result Error (Unit {0})
unfolding is_team_sport
ensure_supported_by activity_type = guard (is_team_sport activity_type) teams_not_supported

pub record Team : Type 0 where
  pub id : ℕ
  pub session_id : ℕ
  pub name : Text
  pub color : Text
  pub position : ℕ
  pub created_at : ℕ

-- "Team A", "Team B", ...
unfoldable pub default_team_name : ℕ → Text
default_team_name position = b'T' ∷ b'e' ∷ b'a' ∷ b'm' ∷ b' ' ∷ (b'A' + position) ∷ []

-- `colors[i]` if there are colours at all; out of range it panics.
team_color : List Text → ℕ → Result Error Text
team_color [] i = ok []
team_color (c ∷ cs) i = elim (get_elem? (c ∷ cs) i) [
  | none ↦ err index_out_of_range
  | some t ↦ ok t
]

-- The rounds of `newTeams` from position `i` on; `n` are left.
new_teams_from :
    (ids : ℕ → ℕ) (session_id now : ℕ) → List Text → (n i : ℕ) → Result Error (List Team)
unfolding team_color default_team_name
new_teams_from ids session_id now colors zero i = ok []
new_teams_from ids session_id now colors (suc n) i = do
  color ← team_color colors i
  rest ← new_teams_from ids session_id now colors n (suc i)
  ok (
      record {
        id = ids i;
        session_id = session_id;
        name = default_team_name i;
        color = color;
        position = i;
        created_at = now;
      }
      ∷ rest)

unfoldable pub new_teams :
    (ids : ℕ → ℕ) (session_id now : ℕ) → TeamConfig → Result Error (List Team)
unfolding new_teams_from
new_teams ids session_id now config =
    new_teams_from ids session_id now config.colors config.team_count 0
