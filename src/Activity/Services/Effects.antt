-- ===== src/Activity/Services/Effects.antt =====
-- The operations of attendee.go that the commands apply, on what a place shows of an attendee.
use rekreativko_api.Base.{ℕ, true, some, List, [], ◌∷◌, ◌≡◌, arith, ok}
use rekreativko_api.Activity.Member.{MemberRole}
use rekreativko_api.Activity.Session.{Session, has_capacity}
use rekreativko_api.Activity.Attendee.{
  Attendee, AttendeeStatus, going, pending, not_going, maybe, promoted, unknown, hold_spot,
  is_confirmed,
}
use rekreativko_api.Activity.Attendee.Rsvp.{update_rsvp, approve, reject, remove}
use rekreativko_api.Activity.Attendee.Placement.{assign_to_team, unassign_from_team, leave_team}
use rekreativko_api.Activity.Services.Store.{Store, get_session, find_attendee, get_attendee}
use rekreativko_api.Activity.Services.Board.{Place, find, set_status, asks, answered, has_room}
use rekreativko_api.Activity.Services.Rows.{place}

pub get_session_ok : (w : Store) (s : Session) → get_session w ≡ ok s → w.session ≡ some s
unfolding get_session
get_session_ok w s h = ground arith

pub get_attendee_ok :
    (u : ℕ) (w : Store) (a : Attendee)
    → get_attendee u w ≡ ok a
    → find_attendee u w.attendees ≡ some a
unfolding get_attendee
get_attendee_ok u w a h = ground arith

pub approve_ok :
    (now : ℕ) (s : Session) (by : ℕ) (role : MemberRole) (a b : Attendee)
    → approve now s by role a ≡ ok b
    → (b.id ≡ a.id) × (b.status ≡ going) × (asks (place a) ≡ true)
unfolding approve
approve_ok now s by role a b h = ground arith

pub reject_ok :
    (now : ℕ) (s : Session) (by : ℕ) (role : MemberRole) (a b : Attendee)
    → reject now s by role a ≡ ok b
    → (b.id ≡ a.id) × (b.status ≡ not_going) × (asks (place a) ≡ true)
unfolding reject
reject_ok now s by role a b h = ground arith

pub remove_ok :
    (now : ℕ) (s : Session) (by : ℕ) (role : MemberRole) (a b : Attendee)
    → remove now s by role a ≡ ok b
    → (b.id ≡ a.id) × (hold_spot a.status ≡ true)
unfolding remove is_confirmed hold_spot
remove_ok now s by role a b h = ground arith

pub leave_team-id : (now : ℕ) (a : Attendee) → (leave_team now a).id ≡ a.id
unfolding leave_team
leave_team-id now a = ground arith

pub assign_to_team_ok :
    (now : ℕ) (s : Session) (team by : ℕ) (role : MemberRole) (a b : Attendee)
    → assign_to_team now s team by role a ≡ ok b
    → (b.id ≡ a.id) × (b.status ≡ a.status)
unfolding assign_to_team
assign_to_team_ok now s team by role a b h = ground arith

pub unassign_from_team_ok :
    (now : ℕ) (s : Session) (by : ℕ) (role : MemberRole) (a b : Attendee)
    → unassign_from_team now s by role a ≡ ok b
    → (b.id ≡ a.id) × (b.status ≡ a.status)
unfolding unassign_from_team
unassign_from_team_ok now s by role a b h = ground arith

pub update_rsvp_ok :
    (now : ℕ) (status : AttendeeStatus) (s : Session) (n : ℕ) (a b : Attendee)
    → update_rsvp now status s n a ≡ ok b
    → (b.id ≡ a.id) × (b.status ≡ answered (has_capacity s n) status a.status)
unfolding update_rsvp
update_rsvp_ok now going s n a b h = ground arith
update_rsvp_ok now pending s n a b h = ground arith
update_rsvp_ok now not_going s n a b h = ground arith
update_rsvp_ok now maybe s n a b h = ground arith
update_rsvp_ok now promoted s n a b h = ground arith
update_rsvp_ok now (unknown x) s n a b h = ground arith

pub has_capacity-has_room : (s : Session) (n : ℕ) → has_capacity s n ≡ has_room s.capacity n
unfolding has_capacity
has_capacity-has_room s n = ground arith

pub set_status_self :
    (u : ℕ) (ps : List Place) (p : Place) → find u ps ≡ some p → set_status u p.status ps ≡ ps
set_status_self u [] p h = cc
set_status_self u (q ∷ ps) p h = ground (arith, set_status_self u ps p)
