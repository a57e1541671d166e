-- ===== src/Activity/Session/Lifecycle.antt =====
-- The life of a session: the operations of session.go as the steps of a state machine, the diagram
-- of its statuses, what stays as it is once it is over, and who may do what.
use rekreativko_api.Base.{ℕ, String, List, [], ◌∷◌, ◌≡◌, ◌≢◌, ◌⊎◌, inl, inr, Result, ok, err, arith}
use rekreativko_api.Activity.Errors.{Error, session_canceled, session_completed}
use rekreativko_api.Activity.Member.{MemberRole}
use rekreativko_api.Activity.Team.{TeamConfig}
use rekreativko_api.Activity.Session.State.{
  Session, SessionStatus, SessionVisibility, TeamsResetReason, collecting, scheduled, started,
  canceled, completed, private_session, require_teams_changeable,
}
use rekreativko_api.Activity.Session.Operations.{
  SessionUpdateInput, update, set_visibility, cancel, cancel_from_group, start, complete,
  expire_schedule,
}
use rekreativko_api.Activity.Session.Formation.{create_teams, reset_teams}

-- A call of a method, with the time at which it is made and the ids that it may draw.
pub data SessionOp : Type 0 where
  updates : SessionUpdateInput → SessionOp
  sets_visibility : (by : ℕ) → MemberRole → SessionVisibility → SessionOp
  cancels : (by : ℕ) → MemberRole → (reason : String) → List ℕ → SessionOp
  group_cancels : (reason : String) → List ℕ → SessionOp
  starts completes : (by : ℕ) → MemberRole → SessionOp
  expires : SessionOp
  creates_teams : (ids : ℕ → ℕ) → (by : ℕ) → MemberRole → TeamConfig → SessionOp
  resets_teams : (by : ℕ) → TeamsResetReason → List ℕ → SessionOp

unfoldable pub apply : ℕ → SessionOp → Session → Result Error Session
apply now (updates input) s = update now input s
apply now (sets_visibility by role v) s = set_visibility now by role v s
apply now (cancels by role reason us) s = cancel now by role reason us s
apply now (group_cancels reason us) s = cancel_from_group now reason us s
apply now (starts by role) s = start now by role s
apply now (completes by role) s = complete now by role s
apply now expires s = expire_schedule now s
apply now (creates_teams ids by role config) s = create_teams ids now by role config s
apply now (resets_teams by reason us) s = reset_teams now by reason us s

-- An error leaves the session as it was.
abbrev pub after : Session → Result Error Session → Session
after s (ok t) = t
after s (err e) = s

unfoldable pub run : Session → List (ℕ × SessionOp) → Session
run s [] = s
run s ((now, op) ∷ ops) = run (after s (apply now op s)) ops

infix 40 ◌⟶◌
pub data ◌⟶◌ : SessionStatus → SessionStatus → Type 0 where
  stay : {s : SessionStatus} → s ⟶ s
  begin : scheduled ⟶ started
  begin_collecting : collecting ⟶ started
  finish : started ⟶ completed
  lapse : scheduled ⟶ completed
  call_off : {s : SessionStatus} → s ≢ canceled → s ≢ completed → s ⟶ canceled

ruleset edges = (stay, begin, begin_collecting, finish, lapse, call_off)

update-status :
    (now : ℕ) (input : SessionUpdateInput) (s : Session)
    → (after s (update now input s)).status ≡ s.status
unfolding update
update-status now input s = ground arith

create_teams-status :
    (ids : ℕ → ℕ) (now by : ℕ) (role : MemberRole) (config : TeamConfig) (s : Session)
    → (after s (create_teams ids now by role config s)).status ≡ s.status
unfolding create_teams
create_teams-status ids now by role config s = ground arith

abbrev Edge : SessionStatus → Session → Type 0
Edge b t = b ⟶ t.status

-- Every call leaves the status, or moves it along an edge: to started from scheduled or collecting,
-- to completed from started or scheduled, and to canceled from whatever is neither canceled nor
-- completed.
pub apply-⟶ :
    (now : ℕ) (op : SessionOp) (s : Session) → s.status ⟶ (after s (apply now op s)).status
unfolding apply set_visibility cancel cancel_from_group start complete expire_schedule reset_teams
apply-⟶ now (updates input) s = rw (update-status now input s) stay
apply-⟶ now (sets_visibility by role v) s = grind (arith, edges)
apply-⟶ now (cancels by role reason us) s = grind (arith, edges)
apply-⟶ now (group_cancels reason us) s = grind (arith, edges)
apply-⟶ now (starts by role) s = grind (arith, edges)
apply-⟶ now (completes by role) s = grind (arith, edges)
apply-⟶ now expires s = grind (arith, edges)
apply-⟶ now (creates_teams ids by role config) s =
    rw (create_teams-status ids now by role config s) stay
apply-⟶ now (resets_teams by reason us) s = grind (arith, edges)

abbrev pub IsOver : SessionStatus → Type 0
IsOver s = (s ≡ canceled) ⊎ (s ≡ completed)

-- A session without what may still change when it is over.
abbrev pub settled_part : Session → Session
settled_part s = record s { visibility = private_session; updated_at = 0; events = [] }

put_teams_over :
    (s : Session) → IsOver s.status → (e : Error) × (require_teams_changeable s ≡ err e)
unfolding require_teams_changeable
put_teams_over s (inl h) = (session_canceled, ground arith)
put_teams_over s (inr h) = (session_completed, ground arith)
