-- ===== src/Activity/Services/TeamFormation.antt =====
-- activity/internal/application/team_formation.go: a session's teams, draft and voting round when
-- people leave, when teams are made, and when the session ends.
use rekreativko_api.Base.{
  ℕ, Bool, ◌||◌, if◌then◌else◌, is_some, Option, none, some, List, [], ◌∷◌, ◌++◌, map, Result, ok,
  ◌>>=◌, guard, not, ◌==◌,
}
use rekreativko_api.Activity.Errors.{Error, draft_already_active, voting_open}
use rekreativko_api.Activity.Session.{
  Session, TeamsResetReason, roster_changed, organizer, has_teams, reset_teams,
}
use rekreativko_api.Activity.Draft
use rekreativko_api.Activity.Draft.{TeamDraft, DraftCancelReason}
use rekreativko_api.Activity.Voting
use rekreativko_api.Activity.Voting.{TeamVotingRound, VotingCancelReason}
use rekreativko_api.Activity.Services.Store.{
  Store, DomainEvent, of_session, of_draft, of_voting, going_ids, replace_teams, active_draft,
  open_round,
}

unfoldable pub require_no_active_draft : Store → Result Error (Unit {0})
unfolding active_draft
require_no_active_draft w = guard (not (is_some (active_draft w.drafts))) draft_already_active

unfoldable pub require_no_open_voting : Store → Result Error (Unit {0})
unfolding open_round
require_no_open_voting w = guard (not (is_some (open_round w.rounds))) voting_open

abbrev draft_reason : TeamsResetReason → DraftCancelReason
draft_reason roster_changed = DraftCancelReason.roster_changed
draft_reason organizer = DraftCancelReason.teams_reset

abbrev voting_reason : TeamsResetReason → VotingCancelReason
voting_reason roster_changed = VotingCancelReason.roster_changed
voting_reason organizer = VotingCancelReason.teams_reset

-- The events of `draft.Reset`, where there is a draft.
draft_reset_events : (now by : ℕ) → TeamsResetReason → Option TeamDraft → List DomainEvent
unfolding Draft.reset
draft_reset_events now by reason none = []
draft_reset_events now by reason (some d) =
    map of_draft (Draft.reset now (draft_reason reason) by d).events

round_reset_events : (now : ℕ) → TeamsResetReason → Option TeamVotingRound → List DomainEvent
unfolding Voting.reset
round_reset_events now reason none = []
round_reset_events now reason (some r) =
    map of_voting (Voting.reset now (voting_reason reason) r).events

-- Whether there is anything to reset.
abbrev pub has_formation : Session → Store → Bool
has_formation s w =
    has_teams s || (is_some (active_draft w.drafts) || is_some (open_round w.rounds))

-- `resetTeamFormation`, with the events to insert.
unfoldable pub reset_team_formation :
    (now by : ℕ) → TeamsResetReason → Session → Store → Result Error (Store × List DomainEvent)
unfolding active_draft open_round draft_reset_events round_reset_events going_ids reset_teams
    replace_teams
reset_team_formation now by reason s w =
    if has_formation s w
    then (do
      t ← reset_teams now by reason (going_ids w.attendees) s
      ok (
        record (replace_teams t w) { drafts = []; rounds = [] },
        draft_reset_events now by reason (active_draft w.drafts)
            ++ (round_reset_events now reason (open_round w.rounds) ++ map of_session t.events),
      ))
    else ok (w, [])

update_draft_row : TeamDraft → List TeamDraft → List TeamDraft
update_draft_row e [] = []
update_draft_row e (d ∷ ds) =
    let rest = update_draft_row e ds in
    if d.id == e.id then record e { events = [] } ∷ rest else d ∷ rest

update_round_row : TeamVotingRound → List TeamVotingRound → List TeamVotingRound
update_round_row e [] = []
update_round_row e (r ∷ rs) =
    let rest = update_round_row e rs in
    if r.id == e.id then record e { events = [] } ∷ rest else r ∷ rest

-- The draft of `sessionEnded`.
end_draft : (now ended_by : ℕ) → Option TeamDraft → Store → Store × List DomainEvent
unfolding Draft.end_with_session update_draft_row
end_draft now ended_by none w = (w, [])
end_draft now ended_by (some d) w =
    let e = Draft.end_with_session now ended_by d in
    (record w { drafts = update_draft_row e w.drafts }, map of_draft e.events)

end_round : (now : ℕ) → Option TeamVotingRound → Store → Store × List DomainEvent
unfolding Voting.end_with_session update_round_row
end_round now none w = (w, [])
end_round now (some r) w =
    let e = Voting.end_with_session now r in
    (record w { rounds = update_round_row e w.rounds }, map of_voting e.events)

unfoldable pub session_ended : (now ended_by : ℕ) → Store → Store × List DomainEvent
unfolding end_draft end_round active_draft open_round
session_ended now ended_by w =
    let (v, ds) = end_draft now ended_by (active_draft w.drafts) w in
    let (u, rs) = end_round now (open_round v.rounds) v in (u, ds ++ rs)

-- `teamsReplaced`, by the open round.
replace_round : (now : ℕ) → Option TeamVotingRound → Store → Store × List DomainEvent
unfolding Voting.replace_teams update_round_row
replace_round now none w = (w, [])
replace_round now (some r) w =
    let e = Voting.replace_teams now r in
    (record w { rounds = update_round_row e w.rounds }, map of_voting e.events)

unfoldable pub teams_replaced : (now : ℕ) → Store → Store × List DomainEvent
unfolding replace_round open_round
teams_replaced now w = replace_round now (open_round w.rounds) w
