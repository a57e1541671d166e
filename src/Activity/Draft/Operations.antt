-- ===== src/Activity/Draft/Operations.antt =====
-- The operations of a draft. Those that fail do so before they write. `confirmed` are the people
-- going, as the caller has read them under the session's lock.
use rekreativko_api.Base.{
  ℕ, suc, ℤ, pos, Bool, true, false, ◌&&◌, ◌||◌, not, ◌==◌, if◌then◌else◌, Option, none, some, List,
  [], ◌∷◌, ◌++◌, length, contains, Result, ok, err, ◌>>=◌, ◌>>◌, guard,
}
use rekreativko_api.Activity.Errors.{
  Error, unauthorized, invalid_pick_order, invalid_draft_captains, draft_captain_not_confirmed,
  not_enough_players, draft_not_active, draft_not_paused, not_draft_captain, not_your_turn,
  player_not_available,
}
use rekreativko_api.Activity.Member.{MemberRole}
use rekreativko_api.Activity.Team.{
  TeamConfig, Text, new_team_config, has_enough_players, ensure_supported_by,
}
use rekreativko_api.Activity.Session.{Session, can_manage_session, require_teams_changeable}
use rekreativko_api.Activity.Draft.State.{
  PickOrder, no_order, snake, DraftSide, side_a, side_b, DraftStatus, active, paused, completed,
  cancelled, DraftCancelReason, DraftPick, TeamDraft, draft_started, player_picked, turn_changed,
  captain_replaced, draft_completed, draft_cancelled, is_valid_order, to_side, same_side,
  other_side, captain, set_captain, event_base, add_event, require_active, captain_side, find_pick,
  delete_pick, available, roster, current_side,
}

pub record TeamDraftInput : Type 0 where
  pub session : Session
  pub requester_id : ℕ
  pub requester_role : MemberRole
  pub captain_a : ℕ
  pub captain_b : ℕ
  pub pick_order : PickOrder
  pub min_players_per_team : Option ℤ
  pub colors : List Text
  pub confirmed : List ℕ

abbrev pub is_active : DraftStatus → Bool
is_active active = true
is_active _ = false

-- `settle` of an active draft, by the people who are left to pick.
unfoldable pub settle_active :
    (now : ℕ) → (left : List ℕ) → (announce_turn : Bool) → TeamDraft → TeamDraft
unfolding add_event roster current_side
settle_active now [] announce_turn d =
    add_event (draft_completed (event_base d) (roster d side_a) (roster d side_b))
      (record d { status = completed; ended_at = some now })
settle_active now (user_id ∷ rest) announce_turn d =
    if announce_turn
    then add_event
        (turn_changed (event_base d) (captain d (current_side d)) (current_side d) d.turn) d
    else d

unfoldable pub settle :
    (now : ℕ) → (confirmed : List ℕ) → (announce_turn : Bool) → TeamDraft → TeamDraft
unfolding settle_active available
settle now confirmed announce_turn d =
    if is_active d.status then settle_active now (available d confirmed) announce_turn d else d

unfoldable pub cancel_draft :
    (now : ℕ) → DraftCancelReason → (by : ℕ) → (participants : List ℕ) → TeamDraft → TeamDraft
unfolding add_event
cancel_draft now reason by participants d =
    let e = record d {
      status = cancelled;
      cancel_reason = some reason;
      paused_reason = none;
      ended_at = some now;
    } in
    add_event (draft_cancelled (event_base e) e.cancel_reason by participants) e

abbrev pub or_snake : PickOrder → PickOrder
or_snake no_order = snake
or_snake order = order

-- The draft as `NewTeamDraft` builds it, before its first event.
abbrev pub started_draft : (id now : ℕ) → TeamDraftInput → TeamConfig → TeamDraft
started_draft id now input config = record {
  id = id;
  session_id = input.session.id;
  activity_group_id = input.session.activity_group_id;
  pick_order = or_snake input.pick_order;
  status = active;
  paused_reason = none;
  cancel_reason = none;
  captain_a = input.captain_a;
  captain_b = input.captain_b;
  team_config = config;
  turn = 0;
  version = 1;
  picks = [];
  started_by = input.requester_id;
  started_at = now;
  ended_at = none;
  events = [];
}

-- With its first event.
unfoldable pub opened_draft : (id now : ℕ) → TeamDraftInput → TeamConfig → TeamDraft
unfolding add_event
opened_draft id now input config =
    let d = started_draft id now input config in
    add_event
      (draft_started (event_base d) d.captain_a d.captain_b d.pick_order config.min_players_per_team
        d.started_by)
      d

-- `NewTeamDraft` once the team setup is there.
unfoldable pub start_with : (id now : ℕ) → TeamDraftInput → TeamConfig → Result Error TeamDraft
unfolding ensure_supported_by
start_with id now input config = do
  ensure_supported_by input.session.activity_type
  guard (not (input.captain_a == 0 || (input.captain_b == 0 || input.captain_a == input.captain_b)))
      invalid_draft_captains
  guard (contains input.confirmed input.captain_a && contains input.confirmed input.captain_b)
      draft_captain_not_confirmed
  guard (has_enough_players config (length input.confirmed)) not_enough_players
  ok (settle now input.confirmed true (opened_draft id now input config))

unfoldable pub new_team_draft : (id now : ℕ) → TeamDraftInput → Result Error TeamDraft
unfolding can_manage_session require_teams_changeable is_valid_order start_with
new_team_draft id now input = do
  guard (can_manage_session input.session input.requester_id input.requester_role) unauthorized
  require_teams_changeable input.session
  guard (is_valid_order (or_snake input.pick_order)) invalid_pick_order
  config ← new_team_config (some (pos 2)) input.min_players_per_team input.colors
  start_with id now input config

abbrev pub or_fail {ℓ} : {A : Type ℓ} → Option A → Error → Result Error A
or_fail none e = err e
or_fail (some a) e = ok a

-- The write of a pick: the pick, its event with the version before the next turn, the next turn.
unfoldable pub with_pick :
    (now : ℕ) → (side : DraftSide) → (captain_id user_id : ℕ) → TeamDraft → TeamDraft
unfolding add_event
with_pick now side captain_id user_id d =
    let p : DraftPick = record {
      pick_number = d.turn;
      side = side;
      user_id = user_id;
      picked_at = now;
    } in
    let e = record d { picks = d.picks ++ p ∷ []; version = suc d.version } in
    let f = add_event (player_picked (event_base e) captain_id p.user_id p.side p.pick_number) e in
    record f { turn = suc f.turn }

unfoldable pub pick :
    (now : ℕ)
    → Session
    → (captain_id user_id : ℕ) → (confirmed : List ℕ) → TeamDraft
    → Result Error TeamDraft
unfolding require_active require_teams_changeable captain_side current_side available with_pick
pick now session captain_id user_id confirmed d = do
  require_active d
  require_teams_changeable session
  side ← or_fail (captain_side d captain_id) not_draft_captain
  guard (same_side side (current_side d)) not_your_turn
  guard (contains (available d confirmed) user_id) player_not_available
  ok (settle now confirmed true (with_pick now side captain_id user_id d))

abbrev pub require_paused : DraftStatus → Result Error (Unit {0})
require_paused paused = ok tt
require_paused active = err draft_not_paused
require_paused _ = err draft_not_active

-- The picks after a promotion: a captain from the own side is no longer listed as a pick, and a
-- captain from the other side is refused, as is the other captain.
unfoldable pub promote :
    DraftSide
    → (user_id : ℕ) → (confirmed : List ℕ) → TeamDraft
    → Option DraftPick
    → Result Error (List DraftPick)
unfolding available delete_pick
promote side user_id confirmed d none = do
  guard (contains (available d confirmed) user_id) invalid_draft_captains
  ok d.picks
promote side user_id confirmed d (some p) = do
  guard (same_side p.side side) invalid_draft_captains
  ok (delete_pick user_id d.picks)

-- The write of a replacement, before a resumed draft is settled.
unfoldable pub with_captain : (side : DraftSide) → (user_id replaced_by : ℕ) → TeamDraft → TeamDraft
unfolding add_event
with_captain side user_id replaced_by d =
    let c = set_captain d side user_id in
    let e = record c { version = suc c.version } in
    if captain e (other_side side) == 0
    then add_event (captain_replaced (event_base e) side user_id replaced_by false) e
    else add_event (captain_replaced (event_base e) side user_id replaced_by true)
        (record e { status = active; paused_reason = none })

-- Only a draft that has resumed is settled.
unfoldable pub seat_captain :
    (now : ℕ) → DraftSide → (user_id replaced_by : ℕ) → (confirmed : List ℕ) → TeamDraft → TeamDraft
seat_captain now side user_id replaced_by confirmed d =
    let e = with_captain side user_id replaced_by d in
    if captain d (other_side side) == 0 then e else settle now confirmed true e

-- `ReplaceCaptain` from the check of the side on.
unfoldable pub replace_on :
    (now requester_id user_id : ℕ)
    → (confirmed : List ℕ) → TeamDraft
    → DraftSide
    → Result Error TeamDraft
unfolding promote find_pick
replace_on now requester_id user_id confirmed d side = do
  guard (captain d side == 0) invalid_draft_captains
  guard (contains confirmed user_id) draft_captain_not_confirmed
  picks ← promote side user_id confirmed d (find_pick user_id d.picks)
  ok (seat_captain now side user_id requester_id confirmed (record d { picks = picks }))

unfoldable pub replace_captain :
    (now : ℕ)
    → Session
    → (requester_id : ℕ) → MemberRole
    → (side : ℤ) → (user_id : ℕ) → (confirmed : List ℕ) → TeamDraft
    → Result Error TeamDraft
unfolding can_manage_session require_teams_changeable replace_on
replace_captain now session requester_id requester_role raw user_id confirmed d = do
  guard (can_manage_session session requester_id requester_role) unauthorized
  require_paused d.status
  require_teams_changeable session
  side ← or_fail (to_side raw) invalid_draft_captains
  replace_on now requester_id user_id confirmed d side
