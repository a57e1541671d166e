-- ===== src/Activity/Draft/Endings.antt =====
-- team_draft.go: somebody leaving a draft, and the ends of one other than its completion.
use rekreativko_api.Base.{
  ℕ, suc, false, if◌then◌else◌, Option, none, some, List, [], length, Result, ok, ◌>>◌, guard,
}
use rekreativko_api.Activity.Errors.{Error, unauthorized, draft_not_active}
use rekreativko_api.Activity.Member.{MemberRole}
use rekreativko_api.Activity.Team.{has_enough_players}
use rekreativko_api.Activity.Session.{Session, can_manage_session}
use rekreativko_api.Activity.Draft.State.{
  DraftSide, paused, captain_left, DraftCancelReason, by_organizer, too_few_players, session_ended,
  DraftPick, TeamDraft, player_dropped, draft_paused_event, set_captain, event_base, add_event,
  is_running, captain_side, find_pick, delete_pick,
}
use rekreativko_api.Activity.Draft.Operations.{cancel_draft, settle}

-- A picked player who leaves is dropped from their side.
unfoldable pub drop_picked : (user_id : ℕ) → TeamDraft → Option DraftPick → TeamDraft
unfolding add_event delete_pick
drop_picked user_id d none = d
drop_picked user_id d (some p) =
    let e = record d { picks = delete_pick user_id d.picks } in
    add_event (player_dropped (event_base e) p.user_id p.side) e

-- `AttendeeLeft` of a running draft with enough players, by the side whose captain has left.
unfoldable pub left_from :
    (now user_id : ℕ) → (confirmed : List ℕ) → TeamDraft → Option DraftSide → TeamDraft
unfolding add_event
left_from now user_id confirmed d (some side) =
    let c = set_captain d side 0 in
    let e = record c { status = paused; paused_reason = some captain_left } in
    add_event (draft_paused_event (event_base e) e.paused_reason side user_id e.started_by) e
left_from now user_id confirmed d none =
    settle now confirmed false (drop_picked user_id d (find_pick user_id d.picks))

unfoldable pub attendee_left : (now user_id : ℕ) → (confirmed : List ℕ) → TeamDraft → TeamDraft
attendee_left now user_id confirmed d =
    let e = record d { version = suc d.version } in
    if is_running d
    then if has_enough_players d.team_config (length confirmed)
      then left_from now user_id confirmed e (captain_side e user_id)
      else cancel_draft now too_few_players 0 confirmed e
    else d

unfoldable pub cancel :
    (now : ℕ)
    → Session
    → (requester_id : ℕ) → MemberRole
    → (confirmed : List ℕ) → TeamDraft
    → Result Error TeamDraft
unfolding can_manage_session is_running
cancel now session requester_id requester_role confirmed d = do
  guard (can_manage_session session requester_id requester_role) unauthorized
  guard (is_running d) draft_not_active
  ok (cancel_draft now by_organizer requester_id confirmed (record d { version = suc d.version }))

-- `Reset`, for the reason that the caller gives.
unfoldable pub reset : (now : ℕ) → DraftCancelReason → (by : ℕ) → TeamDraft → TeamDraft
reset now reason by d =
    if is_running d then cancel_draft now reason by [] (record d { version = suc d.version }) else d

unfoldable pub end_with_session : (now ended_by : ℕ) → TeamDraft → TeamDraft
end_with_session now ended_by d =
    if is_running d
    then cancel_draft now session_ended ended_by [] (record d { version = suc d.version })
    else d
