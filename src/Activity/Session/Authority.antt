-- ===== src/Activity/Session/Authority.antt =====
-- Who may call the operations of session.go.
use rekreativko_api.Base.{ℕ, Option, none, some}
use rekreativko_api.Activity.Member.{MemberRole}
use rekreativko_api.Activity.Session.State.{Session}
use rekreativko_api.Activity.Session.Lifecycle.{
  SessionOp, updates, sets_visibility, cancels, starts, completes, creates_teams,
}

-- Who asks for a call, where the method checks it.
abbrev pub requester : SessionOp → Option (ℕ × MemberRole)
requester (updates input) = some (input.requester_id, input.requester_role)
requester (sets_visibility by role v) = some (by, role)
requester (cancels by role reason us) = some (by, role)
requester (starts by role) = some (by, role)
requester (completes by role) = some (by, role)
requester (creates_teams ids by role config) = some (by, role)
requester _ = none
