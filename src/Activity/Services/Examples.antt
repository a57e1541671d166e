-- ===== src/Activity/Services/Examples.antt =====
-- Commands on a concrete store, and the theorems at them.
use rekreativko_api.Base.{ℕ, true, false, some, none, List, [], ◌∷◌, ◌≡◌, ◌≤◌, refl, ok, arith}
use rekreativko_api.Activity.Samples.{football_session, auto}
use rekreativko_api.Activity.Session.{Session, public_session}
use rekreativko_api.Activity.Attendee.{Attendee, AttendeeSource, going, pending, promoted, maybe}
use rekreativko_api.Activity.Services.Store.{Store, is_fresh, find_attendee, is_waiting}
use rekreativko_api.Activity.Services.AttendeeService.{
  promote_next_pending, teams_locked, cancel_rsvp, update_rsvp_of, create_rsvp,
}
use rekreativko_api.Activity.Services.Commands.{Command, creates, cancels, updates, exec, run}
use rekreativko_api.Activity.Services.Board.{taken, somebody_waits, set_status}
use rekreativko_api.Activity.Services.Rows.{places, is_keyed}
use rekreativko_api.Activity.Services.Refinement.{rules_of}
use rekreativko_api.Activity.Services.Implements.{Ends, run_refines}
use rekreativko_api.Activity.Services.Waitlist.{IsFair}
use rekreativko_api.Activity.Services.Fairness.{run-IsFair}
use rekreativko_api.Activity.Services.Promotion.{promote_next_pending-earliest}
use rekreativko_api.Activity.Services.Leaving.{IsReset, gives_up, held_before, exec-IsReset}

-- Two people going, and one in the waitlist.
abbrev store : Store
store = record {
  session = some football_session;
  attendees =
      auto 0 1 going AttendeeSource.auto_confirmed
      ∷ auto 1 2 going AttendeeSource.auto_confirmed
      ∷ auto 2 3 pending AttendeeSource.auto_pending
      ∷ [];
  members = [];
  drafts = [];
  rounds = [];
  inactive = [];
  outbox = [];
}

-- Person 1 cancels, person 2 answers that they may come, and person 1 cancels again.
abbrev commands : List Command
commands = cancels 20 1 ∷ updates 30 2 maybe ∷ cancels 40 1 ∷ []

store-keyed : is_keyed store.attendees ≡ true
unfolding is_keyed
store-keyed = refl

store-taken : taken (places store.attendees) ≤ 2
unfolding taken
store-taken = omega arith

store-full : somebody_waits (places store.attendees) ≡ true → 2 ≤ taken (places store.attendees)
unfolding taken
store-full h = omega arith

run_refines_example :
    Ends (rules_of football_session) commands (places store.attendees) (run commands store)
run_refines_example = run_refines commands store (rules_of football_session) store-keyed refl

run-IsFair_example : IsFair 2 (places (run commands store).attendees)
run-IsFair_example =
    run-IsFair 2 commands store football_session refl refl store-keyed refl store-taken store-full

promote_next_pending-earliest_example :
    (a : Attendee) × (v : Store) × (promote_next_pending 20 store ≡ ok v)
    × (find_attendee a.user_id store.attendees ≡ some a)
    × (is_waiting a ≡ true)
    × ((q : Attendee) (u : ℕ)
        → find_attendee u store.attendees ≡ some q
        → is_waiting q ≡ true
        → a.created_at ≤ q.created_at)
    × (places v.attendees ≡ set_status a.user_id promoted (places store.attendees))
promote_next_pending-earliest_example = promote_next_pending-earliest 20 store store-keyed refl

-- Who is there at the end: person 3 has moved up, and person 2 may come.
run-commands :
    places (run commands store).attendees
    ≡ record { user = 2; status = maybe; source = AttendeeSource.auto_confirmed; since = 10 }
      ∷ record { user = 3; status = promoted; source = AttendeeSource.auto_pending; since = 10 }
      ∷ []
unfolding run exec cancel_rsvp update_rsvp_of
run-commands = refl

-- A public session whose join requests need approval, with nobody in it.
abbrev gated_store : Store
gated_store = record store {
  session =
      some (record football_session { visibility = public_session; requires_approval = true });
  attendees = [];
}

-- Who asks to come waits for a manager.
run-request :
    places (run (creates 9 20 5 going ∷ []) gated_store).attendees
    ≡ record { user = 5; status = pending; source = AttendeeSource.requested; since = 20 } ∷ []
unfolding run exec create_rsvp is_fresh
run-request = refl

-- Who may come first, and then comes, does not.
run-bypass :
    places (run (creates 9 20 5 maybe ∷ updates 30 5 going ∷ []) gated_store).attendees
    ≡ record { user = 5; status = going; source = AttendeeSource.rsvp_manual; since = 20 } ∷ []
unfolding run exec create_rsvp is_fresh update_rsvp_of
run-bypass = refl

-- The same session with two teams, and person 2 on team 9.
abbrev formed_session : Session
formed_session = record football_session {
  team_config = some (record { team_count = 2; min_players_per_team = none; colors = [] });
  teams =
      record { id = 9; session_id = 500; name = []; color = []; position = 0; created_at = 10 }
      ∷ record { id = 8; session_id = 500; name = []; color = []; position = 1; created_at = 10 }
      ∷ [];
}

abbrev formed_store : Store
formed_store = record store {
  session = some formed_session;
  attendees =
      auto 0 1 going AttendeeSource.auto_confirmed
      ∷ record (auto 1 2 going AttendeeSource.auto_confirmed) { team_id = some 9 }
      ∷ auto 2 3 pending AttendeeSource.auto_pending
      ∷ [];
}

abbrev after_cancel : Store
after_cancel = run (cancels 20 1 ∷ []) formed_store

exec-cancel : exec (cancels 20 1) formed_store ≡ ok after_cancel
unfolding exec run cancel_rsvp
exec-cancel = refl

not-locked : teams_locked formed_session ≡ false
unfolding teams_locked
not-locked = refl

gives-up : gives_up (cancels 20 1) formed_store ≡ true
unfolding held_before find_attendee
gives-up = refl

exec-IsReset_example : IsReset formed_session formed_store after_cancel
exec-IsReset_example =
    exec-IsReset (cancels 20 1) formed_store after_cancel formed_session refl not-locked gives-up
      exec-cancel
