-- ===== src/Activity/Services/Commands.antt =====
-- The commands of activity/internal/application/attendee_service.go on one session, one after the
-- other, as the session's lock puts them. `RejectAttendee` does not take the lock; here nothing else
-- happens between its read and its write.
use rekreativko_api.Base.{ℕ, List, [], ◌∷◌, Result, value_or}
use rekreativko_api.Activity.Errors.{Error}
use rekreativko_api.Activity.Member.{MemberRole}
use rekreativko_api.Activity.Attendee.{AttendeeStatus}
use rekreativko_api.Activity.Services.Store.{Store}
use rekreativko_api.Activity.Services.AttendeeService.{
  create_rsvp, approve_attendee, reject_attendee, remove_attendee, assign_attendee_team,
  unassign_attendee_team, update_rsvp_of, cancel_rsvp,
}

pub data Command : Type 0 where
  creates : (id now user_id : ℕ) → AttendeeStatus → Command
  approves rejects removes : (now user_id by : ℕ) → MemberRole → Command
  assigns : (now user_id team_id by : ℕ) → MemberRole → Command
  unassigns : (now user_id by : ℕ) → MemberRole → Command
  updates : (now user_id : ℕ) → AttendeeStatus → Command
  cancels : (now user_id : ℕ) → Command

unfoldable pub exec : Command → Store → Result Error Store
exec (creates id now user_id status) w = create_rsvp id now user_id status w
exec (approves now user_id by role) w = approve_attendee now user_id by role w
exec (rejects now user_id by role) w = reject_attendee now user_id by role w
exec (removes now user_id by role) w = remove_attendee now user_id by role w
exec (assigns now user_id team_id by role) w = assign_attendee_team now user_id team_id by role w
exec (unassigns now user_id by role) w = unassign_attendee_team now user_id by role w
exec (updates now user_id status) w = update_rsvp_of now user_id status w
exec (cancels now user_id) w = cancel_rsvp now user_id w

-- A command that fails is rolled back.
unfoldable pub run : List Command → Store → Store
unfolding exec
run [] w = w
run (c ∷ cs) w = run cs (value_or (exec c w) w)
