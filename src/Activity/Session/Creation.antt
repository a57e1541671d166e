-- ===== src/Activity/Session/Creation.antt =====
-- session.go: creating a session, with its automatic attendees.
use rekreativko_api.Base.{
  ℕ, suc, ℤ, le_ℤ, String, Bool, true, false, not, if◌then◌else◌, Option, none, some, List, [], ◌∷◌,
  Result, ok, ◌>>=◌, ◌>>◌, guard,
}
use rekreativko_api.Activity.Errors.{Error, invalid_session_capacity, invalid_session_visibility}
use rekreativko_api.Activity.Catalog.{ActivityType, ActivityLevel}
use rekreativko_api.Activity.Team.{map_to_nat}
use rekreativko_api.Activity.Attendee.{
  Attendee, new_auto_confirmed_attendee, new_auto_pending_attendee,
}
use rekreativko_api.Activity.Session.State.{
  Session, SessionVisibility, SessionSchedule, SessionLocation, SessionEvent, scheduled,
  private_session, no_source, session_created, attendee_auto_confirmed, attendee_auto_pending,
  is_valid_visibility, add_event, has_capacity,
}

pub record SessionInput : Type 0 where
  pub activity_group_id : Option ℕ
  pub created_by_id : ℕ
  pub template_id : Option ℕ
  pub title : String
  pub activity_type : ActivityType
  pub difficulty_level : ActivityLevel
  pub location : SessionLocation
  pub schedule : SessionSchedule
  pub capacity : Option ℤ
  pub note : String
  pub is_recurring : Bool
  pub visibility : Option SessionVisibility
  pub requires_approval : Bool
  pub open_at : Option ℕ
  pub auto_attendee_ids : List ℕ

-- One round of `processAutoAtendees`: the attendee and the event about it.
unfoldable pub auto_attendee :
    (cap : Bool) (id now session_id : ℕ)
    → (activity_id : Option ℕ) → (user_id : ℕ) → Attendee × SessionEvent
unfolding new_auto_confirmed_attendee new_auto_pending_attendee
auto_attendee true id now session_id activity_id user_id = (
  new_auto_confirmed_attendee id now session_id activity_id user_id,
  attendee_auto_confirmed session_id activity_id user_id,
)
auto_attendee false id now session_id activity_id user_id = (
  new_auto_pending_attendee id now session_id activity_id user_id,
  attendee_auto_pending session_id activity_id user_id,
)

-- The loop: the session with its events, and the attendees. The `i`-th attendee has the id `ids i`.
unfoldable pub process_auto_attendees :
    (ids : ℕ → ℕ) (now i confirmed_count : ℕ) → Session → List ℕ → Session × List Attendee
unfolding auto_attendee add_event has_capacity
process_auto_attendees ids now i confirmed_count s [] = (s, [])
process_auto_attendees ids now i confirmed_count s (user_id ∷ rest) =
    let cap = has_capacity s confirmed_count in
    let (attendee, e) = auto_attendee cap (ids i) now s.id s.activity_group_id user_id in
    let (s', attendees) =
      process_auto_attendees ids now (suc i) (if cap then suc confirmed_count else confirmed_count)
        (add_event e s) rest in
    (s', attendee ∷ attendees)

abbrev pub capacity_is_positive : Option ℤ → Bool
capacity_is_positive none = true
capacity_is_positive (some n) = not (le_ℤ n 0)

abbrev pub check_visibility : Option SessionVisibility → Result Error SessionVisibility
check_visibility none = ok private_session
check_visibility (some v) = do guard (is_valid_visibility v) invalid_session_visibility; ok v

abbrev pub created : (id now : ℕ) → SessionInput → SessionVisibility → Session
created id now input visibility = record {
  id = id;
  activity_group_id = input.activity_group_id;
  created_by_id = input.created_by_id;
  template_id = input.template_id;
  title = input.title;
  activity_type = input.activity_type;
  difficulty_level = input.difficulty_level;
  location = input.location;
  schedule = input.schedule;
  capacity = map_to_nat input.capacity;
  status = scheduled;
  visibility = visibility;
  requires_approval = input.requires_approval;
  is_recurring = input.is_recurring;
  note = input.note;
  open_at = input.open_at;
  team_config = none;
  teams = [];
  teams_source = no_source;
  created_at = now;
  updated_at = now;
  cancelled_at = none;
  started_at = none;
  completed_at = none;
  events = [];
}

unfoldable pub new_session :
    (ids : ℕ → ℕ) (id now : ℕ) → SessionInput → Result Error (Session × List Attendee)
unfolding process_auto_attendees add_event
new_session ids id now input = do
  guard (capacity_is_positive input.capacity) invalid_session_capacity
  visibility ← check_visibility input.visibility
  let (s, attendees) =
      process_auto_attendees ids now 0 0 (created id now input visibility) input.auto_attendee_ids
  ok (
    add_event
        (session_created s.id s.activity_group_id input.created_by_id s.schedule.start_time
          s.schedule.end_time s.is_recurring)
        s,
    attendees,
  )
