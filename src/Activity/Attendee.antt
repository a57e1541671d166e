-- ===== src/Activity/Attendee.antt =====
-- activity/internal/domain/attendee.go: the record of one person at one session, and the events
-- about it (events.go). Event ids and time stamps are left out; `now` is what
-- `time.Now().UTC()` returns, `id` what `uuid.New()` returns, and `uuid.Nil` is 0.
pub mod Rsvp
pub mod Placement
pub mod Standing
pub mod Roster
pub mod Capacity
mod Examples
use rekreativko_api.Base.{ℕ, String, Bool, true, false, Option, none, List, [], ◌∷◌, ◌++◌}
use text.Mathlib.Text.{◌==◌}

-- `unknown` is any other string, as a request may send it.
pub data AttendeeStatus : Type 0 where
  going pending not_going maybe promoted : AttendeeStatus
  unknown : String → AttendeeStatus

abbrev pub same_status : AttendeeStatus → AttendeeStatus → Bool
same_status going going = true
same_status pending pending = true
same_status not_going not_going = true
same_status maybe maybe = true
same_status promoted promoted = true
same_status (unknown s) (unknown t) = s == t
same_status _ _ = false

unfoldable pub is_valid_status : AttendeeStatus → Bool
is_valid_status (unknown s) = false
is_valid_status _ = true

unfoldable pub hold_spot : AttendeeStatus → Bool
hold_spot going = true
hold_spot promoted = true
hold_spot _ = false

unfoldable pub is_confirmed : AttendeeStatus → Bool
is_confirmed going = true
is_confirmed promoted = true
is_confirmed _ = false

pub data AttendeeSource : Type 0 where
  auto_confirmed auto_pending rsvp_manual requested invited : AttendeeSource

pub data TeamUnassignReason : Type 0 where
  manual left removed teams_replaced : TeamUnassignReason

-- `activity_id` is null for a standalone session. The aggregate is the attendee, but where a
-- constructor shows another.
pub data AttendeeEvent : Type 0 where
  rsvp_auto_pending :
      (aggregate_id : ℕ) → (activity_id : Option ℕ) → (user_id session_id : ℕ) → AttendeeEvent
  rsvp_going :
      (aggregate_id : ℕ) → (activity_id : Option ℕ) → (user_id session_id : ℕ) → AttendeeEvent
  rsvp_not_going :
      (aggregate_id : ℕ)
      → (activity_id : Option ℕ) → (user_id session_id : ℕ) → (hold_spot : Bool) → AttendeeEvent
  rsvp_maybe :
      (aggregate_id : ℕ)
      → (activity_id : Option ℕ) → (user_id session_id : ℕ) → (hold_spot : Bool) → AttendeeEvent
  attendee_promoted : (aggregate_id session_id user_id : ℕ) → AttendeeEvent
  join_requested :
      (aggregate_id : ℕ)
      → (activity_id : Option ℕ) → (session_id user_id : ℕ) → (manager_user_ids : List ℕ)
      → AttendeeEvent
  join_approved :
      (aggregate_id : ℕ)
      → (activity_id : Option ℕ) → (session_id user_id approved_by : ℕ) → AttendeeEvent
  join_rejected :
      (aggregate_id : ℕ)
      → (activity_id : Option ℕ) → (session_id user_id rejected_by : ℕ) → AttendeeEvent
  attendee_removed :
      (aggregate_id : ℕ)
      → (activity_id : Option ℕ) → (session_id user_id removed_by : ℕ) → AttendeeEvent
  team_assigned :
      (aggregate_id : ℕ)
      → (activity_id : Option ℕ) → (session_id user_id team_id assigned_by : ℕ) → AttendeeEvent
  team_changed :
      (aggregate_id : ℕ)
      → (activity_id : Option ℕ) → (session_id user_id team_id previous_team_id changed_by : ℕ)
      → AttendeeEvent
  team_unassigned :
      (aggregate_id : ℕ)
      → (activity_id : Option ℕ) → (session_id user_id team_id : ℕ) → TeamUnassignReason
      → (unassigned_by : ℕ) → AttendeeEvent

pub record Attendee : Type 0 where
  pub id : ℕ
  pub activity_id : Option ℕ
  pub session_id : ℕ
  pub user_id : ℕ
  pub status : AttendeeStatus
  pub source : AttendeeSource
  pub team_id : Option ℕ
  pub created_at : ℕ
  pub updated_at : ℕ
  pub events : List AttendeeEvent

unfoldable pub add_event : AttendeeEvent → Attendee → Attendee
add_event e a = record a { events = a.events ++ e ∷ [] }

unfoldable pub new_auto_confirmed_attendee :
    (id now session_id : ℕ) → (activity_id : Option ℕ) → (user_id : ℕ) → Attendee
new_auto_confirmed_attendee id now session_id activity_id user_id = record {
  id = id;
  activity_id = activity_id;
  session_id = session_id;
  user_id = user_id;
  status = going;
  source = auto_confirmed;
  team_id = none;
  created_at = now;
  updated_at = now;
  events = [];
}

unfoldable pub new_auto_pending_attendee :
    (id now session_id : ℕ) → (activity_id : Option ℕ) → (user_id : ℕ) → Attendee
new_auto_pending_attendee id now session_id activity_id user_id = record {
  id = id;
  activity_id = activity_id;
  session_id = session_id;
  user_id = user_id;
  status = pending;
  source = auto_pending;
  team_id = none;
  created_at = now;
  updated_at = now;
  events = [];
}
