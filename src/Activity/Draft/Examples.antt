-- ===== src/Activity/Draft/Examples.antt =====
-- Runs of a draft, and the theorems at them.
use rekreativko_api.Base.{
  ℕ, suc, ◌+◌, ◌≤◌, some, List, [], ◌∷◌, ◌++◌, count, length, ◌≡◌, refl, arith, ok, value_or, true,
  if◌then◌else◌,
}
use rekreativko_api.Activity.Samples.{football_session, draft_input}
use rekreativko_api.Activity.Team.{TeamConfig, new_team_config, has_enough_players}
use rekreativko_api.Activity.Draft.State.{
  TeamDraft, active, completed, snake, side_a, side_b, roster, available, turn_order, side_for_turn,
  is_running, find_pick, captain_side, total_picks,
}
use rekreativko_api.Activity.Draft.Operations.{new_team_draft, opened_draft, settle, pick}
use rekreativko_api.Activity.Draft.Turns.{
  IsFair, count_side, turn_order-IsFair, side_for_turn_rounds,
}
use rekreativko_api.Activity.Draft.World.{here, next, picks}
use rekreativko_api.Activity.Draft.Outcome.{new_team_draft-Done, new_team_draft_splits}
use rekreativko_api.Activity.Session.{require_teams_changeable}
use rekreativko_api.Activity.Draft.Settling.{is_nil}
use rekreativko_api.Activity.Draft.Soundness.{IsSound}
use rekreativko_api.Activity.Draft.Progress.{
  Picks, stop, pick_then, pick_effect, Picks-count, can_finish,
}

abbrev config : TeamConfig
config = record { team_count = 2; min_players_per_team = some 2; colors = [] }

-- The draft of the sample: 1 against 2, with 3 and 4 to pick.
first : TeamDraft
unfolding settle opened_draft
first = settle 7 (1 ∷ 2 ∷ 3 ∷ 4 ∷ []) true (opened_draft 9 7 draft_input config)

starts : new_team_draft 9 7 draft_input ≡ ok first
unfolding new_team_draft first new_team_config has_enough_players
starts = refl

people : List ℕ
people = 1 ∷ 2 ∷ 3 ∷ 4 ∷ []

-- Captain 1 picks 3, captain 2 picks 4.
second : TeamDraft
unfolding first pick settle
second = value_or (pick 8 football_session 1 3 people first) first

third : TeamDraft
unfolding second pick settle
third = value_or (pick 9 football_session 2 4 people second) second

second-pick : pick 8 football_session 1 3 people first ≡ ok second
unfolding second people find_pick
second-pick = refl

third-pick : pick 9 football_session 2 4 people second ≡ ok third
unfolding third people find_pick
third-pick = refl

third_completed : third.status ≡ completed
unfolding third people find_pick
third_completed = refl

turn_order-IsFair_example :
    IsFair (turn_order first 2)
    × (count_side side_a (turn_order first 2) + count_side side_b (turn_order first 2)
        ≡ total_picks first 2)
turn_order-IsFair_example = turn_order-IsFair first 2

side_for_turn_rounds_example : side_for_turn snake 6 ≡ side_b
side_for_turn_rounds_example = (side_for_turn_rounds 1).2

people_once : (u : ℕ) → count u people ≤ 1
unfolding people
people_once u = ground arith

new_team_draft_splits_example :
    count 4 (roster third side_a ++ roster third side_b) ≡ count 4 people
unfolding people second first is_running find_pick
new_team_draft_splits_example =
    new_team_draft_splits 9 7 draft_input first starts people_once refl
      (next here (picks 8 football_session 1 3 second second-pick))
      (picks 9 football_session 2 4 third third-pick) refl third_completed 4 (omega arith)

pick_effect_example :
    (suc (length (available third people)) ≡ length (available second people))
    × (third.turn ≡ suc second.turn)
    × (third.version ≡ suc second.version)
    × (third.status ≡ (if is_nil (available third people) then completed else active))
pick_effect_example =
    pick_effect 9 football_session 2 4 people second third third-pick (people_once 4)

Picks-count_example : 2 + length (available third people) ≡ length (available first people)
Picks-count_example = Picks-count people_once (
    pick_then 8 football_session 1 3 second-pick (pick_then 9 football_session 2 4 third-pick stop))

first-IsSound : IsSound first people
unfolding people
first-IsSound = (new_team_draft-Done 9 7 draft_input first starts).0

can_finish_example : (f : TeamDraft) × Picks people f 2 first × (f.status ≡ completed)
unfolding first people require_teams_changeable captain_side find_pick
can_finish_example =
    can_finish football_session people 1 first people_once refl first-IsSound refl refl
