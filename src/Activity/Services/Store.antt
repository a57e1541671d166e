-- ===== src/Activity/Services/Store.antt =====
-- The rows of one session that the services work on, and the queries and writes of
-- activity/internal/infrastructure/persistence on them. A row that is read carries no events, and one
-- whose `deleted_at` is set is not here. A failure of the database itself ends the transaction with
-- nothing stored, and has no case of its own.
use rekreativko_api.Base.{
  ℕ, Bool, true, ◌&&◌, not, ◌==◌, leb, if◌then◌else◌, Option, none, some, List, [], ◌∷◌, ◌++◌, map,
  Result, ok, err, ◌>>◌, guard,
}
use rekreativko_api.Activity.Errors.{Error, attendee_not_found, session_not_found, duplicate_row}
use rekreativko_api.Activity.Member.{Member}
use rekreativko_api.Activity.Session.{Session, SessionEvent}
use rekreativko_api.Activity.Attendee.{Attendee, AttendeeEvent, pending, same_status, is_confirmed}
use rekreativko_api.Activity.Attendee.Rsvp.{is_requested}
use rekreativko_api.Activity.Draft.{TeamDraft, DraftEvent, is_running}
use rekreativko_api.Activity.Voting.{TeamVotingRound, VotingEvent, is_open}

-- A row of the outbox.
pub data DomainEvent : Type 0 where
  of_attendee : AttendeeEvent → DomainEvent
  of_session : SessionEvent → DomainEvent
  of_draft : DraftEvent → DomainEvent
  of_voting : VotingEvent → DomainEvent

-- The row of the session, if it exists, the attendees in the order in which they are created, the
-- members of the groups, the drafts and the voting rounds of the session, the accounts that are
-- deleted, and the outbox.
pub record Store : Type 0 where
  pub session : Option Session
  pub attendees : List Attendee
  pub members : List Member
  pub drafts : List TeamDraft
  pub rounds : List TeamVotingRound
  pub inactive : List ℕ
  pub outbox : List DomainEvent

-- `GetSessionByID`.
unfoldable pub get_session : Store → Result Error Session
get_session w = elim w.session [ none ↦ err session_not_found | some s ↦ ok s ]

unfoldable pub find_attendee : (user_id : ℕ) → List Attendee → Option Attendee
find_attendee user_id [] = none
find_attendee user_id (a ∷ as₀) =
    let rest = find_attendee user_id as₀ in if a.user_id == user_id then some a else rest

-- `GetAttendeeBySessionAndUser`.
unfoldable pub get_attendee : (user_id : ℕ) → Store → Result Error Attendee
unfolding find_attendee
get_attendee user_id w = elim (find_attendee user_id w.attendees) [
  | none ↦ err attendee_not_found
  | some a ↦ ok a
]

-- No row has this id, or belongs to this user.
unfoldable pub is_fresh : (id user_id : ℕ) → List Attendee → Bool
is_fresh id user_id [] = true
is_fresh id user_id (a ∷ as₀) =
    not (a.id == id) && (not (a.user_id == user_id) && is_fresh id user_id as₀)

abbrev pub stored : Attendee → Attendee
stored a = record a { events = [] }

-- `InsertEvents`.
abbrev pub insert_events : List DomainEvent → Store → Store
insert_events events w = record w { outbox = w.outbox ++ events }

-- `CreateAttendee`, under the primary key and the key `uq_active_attendees`, with the events.
unfoldable pub create_attendee : Attendee → Store → Result Error Store
unfolding is_fresh
create_attendee a w = do
  guard (is_fresh a.id a.user_id w.attendees) duplicate_row
  ok (
      insert_events (map of_attendee a.events)
        (record w { attendees = w.attendees ++ stored a ∷ [] }))

unfoldable pub update_row : Attendee → Attendee → Attendee
update_row b a =
    if a.id == b.id
    then record a { status = b.status; updated_at = b.updated_at; team_id = b.team_id }
    else a

unfoldable pub update_rows : Attendee → List Attendee → List Attendee
unfolding update_row
update_rows b [] = []
update_rows b (a ∷ as₀) = update_row b a ∷ update_rows b as₀

-- `UpdateAttendee`, with the events.
unfoldable pub update_attendee : Attendee → Store → Store
unfolding update_rows
update_attendee b w =
    insert_events (map of_attendee b.events) (record w { attendees = update_rows b w.attendees })

unfoldable pub delete_rows : (id : ℕ) → List Attendee → List Attendee
delete_rows id [] = []
delete_rows id (a ∷ as₀) = let rest = delete_rows id as₀ in if a.id == id then rest else a ∷ rest

-- `DeleteAttendee`, with the events.
unfoldable pub delete_attendee : Attendee → Store → Store
unfolding delete_rows
delete_attendee b w =
    insert_events (map of_attendee b.events) (record w { attendees = delete_rows b.id w.attendees })

-- Pending, and not for a manager to decide on.
abbrev pub is_waiting : Attendee → Bool
is_waiting a = same_status a.status pending && not (is_requested a.source)

abbrev pub earlier : Attendee → Option Attendee → Option Attendee
earlier a none = some a
earlier a (some b) = if leb a.created_at b.created_at then some a else some b

-- `GetFirstPendingAttendee`.
unfoldable pub first_pending : List Attendee → Option Attendee
first_pending [] = none
first_pending (a ∷ as₀) =
    let rest = first_pending as₀ in if is_waiting a then earlier a rest else rest

-- The user IDs of `confirmedAttendees`.
unfoldable pub going_ids : List Attendee → List ℕ
unfolding is_confirmed
going_ids [] = []
going_ids (a ∷ as₀) =
    let rest = going_ids as₀ in if is_confirmed a.status then a.user_id ∷ rest else rest

abbrev pub off_team : Attendee → Attendee
off_team a = record a { team_id = none }

-- `ReplaceTeams`, on the session as it is in memory.
unfoldable pub replace_teams : Session → Store → Store
replace_teams s w = record w {
  session = some (record s { events = [] });
  attendees = map off_team w.attendees;
}

-- `GetActiveDraft`.
unfoldable pub active_draft : List TeamDraft → Option TeamDraft
unfolding is_running
active_draft [] = none
active_draft (d ∷ ds) = let rest = active_draft ds in if is_running d then some d else rest

-- `GetOpenRound`.
unfoldable pub open_round : List TeamVotingRound → Option TeamVotingRound
open_round [] = none
open_round (r ∷ rs) = let rest = open_round rs in if is_open r.status then some r else rest
