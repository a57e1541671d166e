-- ===== src/Activity/Attendee/Standing.antt =====
-- The operations of attendee.go as steps of one attendee, on their status and their team.
use rekreativko_api.Base.{ℕ, Bool, true, false, ◌&&◌, not, is_some, ◌≡◌, Result, ok, err}
use rekreativko_api.Activity.Errors.{Error}
use rekreativko_api.Activity.Member.{MemberRole}
use rekreativko_api.Activity.Session.{Session, has_capacity}
use rekreativko_api.Activity.Attendee.{
  Attendee, AttendeeStatus, going, promoted, is_confirmed, same_status,
}
use rekreativko_api.Activity.Attendee.Placement.{
  assign_to_team, unassign_from_team, unassign_for_replaced_teams, leave_team,
}
use rekreativko_api.Activity.Attendee.Rsvp.{update_rsvp, promote, approve, reject, remove}

-- A call of a method that changes the attendee.
pub data AttendeeOp : Type 0 where
  answers : AttendeeStatus → Session → (current_confirmed_count : ℕ) → AttendeeOp
  promotes : AttendeeOp
  approves rejects removes : Session → (by : ℕ) → MemberRole → AttendeeOp
  assigns : Session → (team_id by : ℕ) → MemberRole → AttendeeOp
  unassigns : Session → (by : ℕ) → MemberRole → AttendeeOp
  teams_replaced_by : (by : ℕ) → AttendeeOp
  leaves_team : AttendeeOp

unfoldable pub apply : ℕ → AttendeeOp → Attendee → Result Error Attendee
apply now (answers status session n) a = update_rsvp now status session n a
apply now promotes a = promote now a
apply now (approves session by role) a = approve now session by role a
apply now (rejects session by role) a = reject now session by role a
apply now (removes session by role) a = remove now session by role a
apply now (assigns session team_id by role) a = assign_to_team now session team_id by role a
apply now (unassigns session by role) a = unassign_from_team now session by role a
apply now (teams_replaced_by by) a = ok (unassign_for_replaced_teams now by a)
apply now leaves_team a = ok (leave_team now a)

-- An error leaves the attendee as they were.
abbrev pub after : Attendee → Result Error Attendee → Attendee
after a (ok b) = b
after a (err e) = a

-- Whoever is on a team is going or promoted.
abbrev pub IsPlaced : Attendee → Type 0
IsPlaced a = is_some a.team_id ≡ true → is_confirmed a.status ≡ true

-- A promoted attendee of a full session, on a team, answers that they are going.
abbrev pub strands : AttendeeOp → Attendee → Bool
strands (answers going session n) a =
    same_status a.status promoted && (is_some a.team_id && not (has_capacity session n))
strands _ a = false
