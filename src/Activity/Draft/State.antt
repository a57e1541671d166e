-- ===== src/Activity/Draft/State.antt =====
-- The state of a draft, its events (events.go), and what can be read off it.
use rekreativko_api.Base.{
  ℕ, zero, suc, ◌+◌, ◌/◌, ◌%◌, ℤ, pos, negsuc, String, Bool, true, false, ◌&&◌, ◌||◌, ◌==◌,
  if◌then◌else◌, Option, none, some, List, [], ◌∷◌, ◌++◌, Result, ok, err,
}
use rekreativko_api.Activity.Errors.{Error, draft_not_active, draft_paused}
use rekreativko_api.Activity.Team.{TeamConfig}

-- `no_order` is the empty string, `unknown` any other.
pub data PickOrder : Type 0 where
  no_order snake alternate : PickOrder
  unknown : String → PickOrder

unfoldable pub is_valid_order : PickOrder → Bool
is_valid_order snake = true
is_valid_order alternate = true
is_valid_order _ = false

abbrev pub is_snake : PickOrder → Bool
is_snake snake = true
is_snake _ = false

-- 0 and 1 in the source.
pub data DraftSide : Type 0 where
  side_a side_b : DraftSide

-- A side as a request sends it; `none` where `IsValid` refuses it.
abbrev pub to_side : ℤ → Option DraftSide
to_side (pos zero) = some side_a
to_side (pos (suc zero)) = some side_b
to_side (pos (suc (suc n))) = none
to_side (negsuc n) = none

abbrev pub same_side : DraftSide → DraftSide → Bool
same_side side_a side_a = true
same_side side_b side_b = true
same_side _ _ = false

abbrev pub other_side : DraftSide → DraftSide
other_side side_a = side_b
other_side side_b = side_a

-- `DraftSide(turn % 2)`.
abbrev pub side_of_parity : ℕ → DraftSide
side_of_parity turn = if turn % 2 == 0 then side_a else side_b

unfoldable pub side_for_turn : PickOrder → ℕ → DraftSide
side_for_turn order turn =
    if is_snake order && turn / 2 % 2 == 1
    then other_side (side_of_parity turn)
    else side_of_parity turn

pub data DraftStatus : Type 0 where
  active paused completed cancelled : DraftStatus

pub data DraftPauseReason : Type 0 where
  captain_left : DraftPauseReason

pub data DraftCancelReason : Type 0 where
  by_organizer too_few_players session_ended roster_changed teams_reset : DraftCancelReason

pub record DraftPick : Type 0 where
  pub pick_number : ℕ
  pub side : DraftSide
  pub user_id : ℕ
  pub picked_at : ℕ

-- What every draft event carries.
pub record DraftEventBase : Type 0 where
  pub activity_id : Option ℕ
  pub session_id : ℕ
  pub draft_id : ℕ
  pub version : ℕ

pub data DraftEvent : Type 0 where
  draft_started :
      DraftEventBase
      → (captain_a captain_b : ℕ) → PickOrder
      → (min_players_per_team : Option ℕ) → (started_by : ℕ) → DraftEvent
  player_picked :
      DraftEventBase → (captain_id user_id : ℕ) → DraftSide → (pick_number : ℕ) → DraftEvent
  turn_changed : DraftEventBase → (captain_id : ℕ) → DraftSide → (pick_number : ℕ) → DraftEvent
  player_dropped : DraftEventBase → (user_id : ℕ) → DraftSide → DraftEvent
  draft_paused_event :
      DraftEventBase
      → Option DraftPauseReason
      → DraftSide
      → (captain_id started_by : ℕ) → DraftEvent
  captain_replaced :
      DraftEventBase → DraftSide → (captain_id replaced_by : ℕ) → (resumed : Bool) → DraftEvent
  draft_completed : DraftEventBase → (roster_a roster_b : List ℕ) → DraftEvent
  draft_cancelled :
      DraftEventBase
      → Option DraftCancelReason
      → (cancelled_by : ℕ) → (participant_user_ids : List ℕ) → DraftEvent

-- An empty reason is `none`. A captain that is vacant is 0.
pub record TeamDraft : Type 0 where
  pub id : ℕ
  pub session_id : ℕ
  pub activity_group_id : Option ℕ
  pub pick_order : PickOrder
  pub status : DraftStatus
  pub paused_reason : Option DraftPauseReason
  pub cancel_reason : Option DraftCancelReason
  pub captain_a : ℕ
  pub captain_b : ℕ
  pub team_config : TeamConfig
  pub turn : ℕ
  pub version : ℕ
  pub picks : List DraftPick
  pub started_by : ℕ
  pub started_at : ℕ
  pub ended_at : Option ℕ
  pub events : List DraftEvent

-- `captains[side]`.
abbrev pub captain : TeamDraft → DraftSide → ℕ
captain d side_a = d.captain_a
captain d side_b = d.captain_b

abbrev pub set_captain : TeamDraft → DraftSide → ℕ → TeamDraft
set_captain d side_a u = record d { captain_a = u }
set_captain d side_b u = record d { captain_b = u }

abbrev pub event_base : TeamDraft → DraftEventBase
event_base d = record {
  activity_id = d.activity_group_id;
  session_id = d.session_id;
  draft_id = d.id;
  version = d.version;
}

unfoldable pub add_event : DraftEvent → TeamDraft → TeamDraft
add_event e d = record d { events = d.events ++ e ∷ [] }

unfoldable pub is_running : TeamDraft → Bool
is_running d = elim d.status [
  | active ↦ true
  | paused ↦ true
  | completed ↦ false
  | cancelled ↦ false
]

unfoldable pub require_active : TeamDraft → Result Error (Unit {0})
require_active d = elim d.status [
  | active ↦ ok tt
  | paused ↦ err draft_paused
  | completed ↦ err draft_not_active
  | cancelled ↦ err draft_not_active
]

unfoldable pub captain_side : TeamDraft → ℕ → Option DraftSide
captain_side d user_id =
    if user_id == 0
    then none
    else if user_id == d.captain_a
    then some side_a
    else if user_id == d.captain_b
    then some side_b
    else none

-- `slices.IndexFunc` for the pick of a user, and the pick itself.
unfoldable pub find_pick : ℕ → List DraftPick → Option DraftPick
find_pick user_id [] = none
find_pick user_id (p ∷ ps) = if p.user_id == user_id then some p else find_pick user_id ps

-- `slices.Delete` at that index.
unfoldable pub delete_pick : ℕ → List DraftPick → List DraftPick
delete_pick user_id [] = []
delete_pick user_id (p ∷ ps) = if p.user_id == user_id then ps else p ∷ delete_pick user_id ps

abbrev pub is_captain : TeamDraft → ℕ → Bool
is_captain d user_id = elim (captain_side d user_id) [ none ↦ false | some s ↦ true ]

abbrev pub is_picked : TeamDraft → ℕ → Bool
is_picked d user_id = elim (find_pick user_id d.picks) [ none ↦ false | some p ↦ true ]

unfoldable pub available : TeamDraft → List ℕ → List ℕ
available d [] = []
available d (user_id ∷ rest) =
    let others = available d rest in
    if is_captain d user_id || is_picked d user_id then others else user_id ∷ others

-- The picks of one side, in order.
unfoldable pub side_picks : DraftSide → List DraftPick → List ℕ
side_picks side [] = []
side_picks side (p ∷ ps) =
    let others = side_picks side ps in if same_side p.side side then p.user_id ∷ others else others

unfoldable pub roster : TeamDraft → DraftSide → List ℕ
unfolding side_picks
roster d side =
    if captain d side == 0
    then side_picks side d.picks
    else captain d side ∷ side_picks side d.picks

unfoldable pub total_picks : TeamDraft → ℕ → ℕ
unfolding is_running
total_picks d available_count = if is_running d then d.turn + available_count else d.turn

-- The sides from turn `i` on, for `n` turns.
unfoldable pub turn_order_from : PickOrder → (n i : ℕ) → List DraftSide
unfolding side_for_turn
turn_order_from order zero i = []
turn_order_from order (suc n) i = side_for_turn order i ∷ turn_order_from order n (suc i)

unfoldable pub turn_order : TeamDraft → ℕ → List DraftSide
unfolding total_picks turn_order_from
turn_order d available_count = turn_order_from d.pick_order (total_picks d available_count) 0

unfoldable pub current_side : TeamDraft → DraftSide
unfolding side_for_turn
current_side d = side_for_turn d.pick_order d.turn

unfoldable pub current_captain_id : TeamDraft → Option ℕ
unfolding is_running current_side
current_captain_id d =
    if is_running d
    then if captain d (current_side d) == 0 then none else some (captain d (current_side d))
    else none
