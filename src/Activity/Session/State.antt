-- ===== src/Activity/Session/State.antt =====
-- The state of session.go, its value objects, its events (events.go) and its guards.
use rekreativko_api.Base.{
  ℕ, suc, ◌+◌, ◌*◌, ℤ, pos, negsuc, String, Bool, true, false, not, ltb, leb, ◌==◌, if◌then◌else◌,
  Option, none, some, is_some, List, [], ◌∷◌, ◌++◌, Result, ok, err, ◌>>◌, guard,
}
use rekreativko_api.Activity.Errors.{
  Error, session_canceled, session_completed, session_already_started, invalid_schedule_time,
  session_start_time_in_past, session_location_city_required, session_location_country_required,
  session_location_latitude_invalid, session_location_longitude_invalid, teams_drafted,
  session_has_no_teams,
}
use rekreativko_api.Activity.Catalog.{ActivityType, ActivityLevel}
use rekreativko_api.Activity.Member.{MemberRole, can_manage_members}
use rekreativko_api.Activity.Team.{TeamConfig, Team, Text}

-- `collecting` is a transient status.
pub data SessionStatus : Type 0 where
  collecting scheduled started canceled completed : SessionStatus

-- `unknown` is any other string, as a request may send it.
pub data SessionVisibility : Type 0 where
  private_session public_session : SessionVisibility
  unknown : String → SessionVisibility

abbrev pub is_valid_visibility : SessionVisibility → Bool
is_valid_visibility (unknown s) = false
is_valid_visibility _ = true

abbrev pub same_visibility : SessionVisibility → SessionVisibility → Bool
same_visibility private_session private_session = true
same_visibility public_session public_session = true
same_visibility _ _ = false

-- `no_source` is the empty string of a session without teams.
pub data TeamsSource : Type 0 where
  no_source manual draft vote : TeamsSource

pub data TeamsResetReason : Type 0 where
  roster_changed organizer : TeamsResetReason

pub record SessionSchedule : Type 0 where
  pub start_time : ℕ
  pub end_time : Option ℕ

-- `!endTime.After(startTime)`, where there is an end.
abbrev ends_after : ℕ → Option ℕ → Bool
ends_after start none = true
ends_after start (some t) = ltb start t

unfoldable pub new_session_schedule : (now start_time : ℕ) → Option ℕ → Result Error SessionSchedule
new_session_schedule now start_time end_time = do
  guard (ends_after start_time end_time) invalid_schedule_time
  guard (not (ltb start_time now)) session_start_time_in_past
  ok (record { start_time = start_time; end_time = end_time })

unfoldable pub reconstruct_session_schedule :
    (start_time : ℕ) → Option ℕ → Result Error SessionSchedule
reconstruct_session_schedule start_time end_time = do
  guard (ends_after start_time end_time) invalid_schedule_time
  ok (record { start_time = start_time; end_time = end_time })

-- Three hours.
abbrev pub default_session_duration : ℕ
default_session_duration = 10_800_000_000_000

abbrev pub effective_end_time : SessionSchedule → ℕ
effective_end_time ss = elim ss.end_time [
  | none ↦ ss.start_time + default_session_duration
  | some t ↦ t
]

-- One team in a `SessionTeamsCreatedEvent`.
pub record SessionTeamInfo : Type 0 where
  pub team_id : ℕ
  pub name : Text
  pub color : Text
  pub position : ℕ

-- The aggregate of each event is the session, whose id comes first.
pub data SessionEvent : Type 0 where
  session_created :
      (session_id : ℕ)
      → (activity_id : Option ℕ) → (created_by start_time : ℕ) → (end_time : Option ℕ)
      → (is_recurring : Bool) → SessionEvent
  attendee_auto_confirmed :
      (session_id : ℕ) → (activity_id : Option ℕ) → (user_id : ℕ) → SessionEvent
  attendee_auto_pending : (session_id : ℕ) → (activity_id : Option ℕ) → (user_id : ℕ) → SessionEvent
  session_updated : (session_id : ℕ) → (activity_id : Option ℕ) → (updated_by : ℕ) → SessionEvent
  visibility_changed :
      (session_id : ℕ)
      → (activity_id : Option ℕ) → (changed_by : ℕ)
      → (old_visibility visibility : SessionVisibility) → SessionEvent
  session_cancelled :
      (session_id : ℕ)
      → (activity_id : Option ℕ) → (cancelled_by : ℕ) → (reason : String)
      → (attendee_user_ids : List ℕ) → SessionEvent
  session_started : (session_id : ℕ) → (activity_id : Option ℕ) → (started_by : ℕ) → SessionEvent
  session_completed_by :
      (session_id : ℕ)
      → (activity_id : Option ℕ) → (completed_by : ℕ) → (is_recurring : Bool) → SessionEvent
  session_expired :
      (session_id : ℕ) → (activity_id : Option ℕ) → (is_recurring : Bool) → SessionEvent
  teams_created :
      (session_id : ℕ)
      → (activity_id : Option ℕ) → List SessionTeamInfo
      → (min_players_per_team : Option ℕ) → (replaced : Bool) → (created_by : ℕ) → SessionEvent
  teams_reset :
      (session_id : ℕ)
      → (activity_id : Option ℕ) → TeamsResetReason
      → (reset_by : ℕ) → (participant_user_ids : List ℕ) → SessionEvent

-- The coordinates are degrees scaled by ten million; a NaN is not modelled.
pub record SessionLocation : Type 0 where
  pub city : String
  pub country : String
  pub street : String
  pub latitude : ℤ
  pub longitude : ℤ

abbrev is_empty : String → Bool
is_empty String.[] = true
is_empty _ = false

-- `-bound <= degrees && degrees <= bound`.
abbrev within_degrees : ℕ → ℤ → Bool
within_degrees bound (pos n) = leb n (bound * 10_000_000)
within_degrees bound (negsuc n) = leb (suc n) (bound * 10_000_000)

unfoldable pub new_session_location :
    (city country street : String) → (lat lng : ℤ) → Result Error SessionLocation
new_session_location city country street lat lng = do
  guard (not (is_empty city)) session_location_city_required
  guard (not (is_empty country)) session_location_country_required
  guard (within_degrees 90 lat) session_location_latitude_invalid
  guard (within_degrees 180 lng) session_location_longitude_invalid
  ok (record { city = city; country = country; street = street; latitude = lat; longitude = lng })

pub record Session : Type 0 where
  pub id : ℕ
  pub activity_group_id : Option ℕ
  pub created_by_id : ℕ
  pub template_id : Option ℕ
  pub title : String
  pub activity_type : ActivityType
  pub difficulty_level : ActivityLevel
  pub location : SessionLocation
  pub schedule : SessionSchedule
  pub capacity : Option ℕ
  pub status : SessionStatus
  pub visibility : SessionVisibility
  pub requires_approval : Bool
  pub is_recurring : Bool
  pub note : String
  pub open_at : Option ℕ
  pub team_config : Option TeamConfig
  pub teams : List Team
  pub teams_source : TeamsSource
  pub created_at : ℕ
  pub updated_at : ℕ
  pub cancelled_at : Option ℕ
  pub started_at : Option ℕ
  pub completed_at : Option ℕ
  pub events : List SessionEvent

unfoldable pub add_event : SessionEvent → Session → Session
add_event e s = record s { events = s.events ++ e ∷ [] }

unfoldable pub has_capacity : Session → ℕ → Bool
has_capacity s current_confirmed_count = elim s.capacity [
  | none ↦ true
  | some c ↦ ltb current_confirmed_count c
]

unfoldable pub can_manage_session : Session → (user_id : ℕ) → MemberRole → Bool
unfolding can_manage_members
can_manage_session s user_id user_role =
    if can_manage_members user_role then true else s.created_by_id == user_id

-- `requireTeamsChangeable`, by the status.
abbrev pub teams_changeable : SessionStatus → Result Error (Unit {0})
teams_changeable canceled = err session_canceled
teams_changeable completed = err session_completed
teams_changeable _ = ok tt

unfoldable pub require_teams_changeable : Session → Result Error (Unit {0})
require_teams_changeable s = teams_changeable s.status

abbrev pub has_teams : Session → Bool
has_teams s = is_some s.team_config

unfoldable pub require_teams_editable : Session → Result Error (Unit {0})
unfolding require_teams_changeable
require_teams_editable s = do guard (has_teams s) session_has_no_teams; require_teams_changeable s

abbrev pub not_drafted : TeamsSource → Bool
not_drafted draft = false
not_drafted _ = true

unfoldable pub require_proposals_allowed : Session → Result Error (Unit {0})
require_proposals_allowed s = guard (not_drafted s.teams_source) teams_drafted

-- `requireSchedule`, by the status.
abbrev pub schedule_open : SessionStatus → Result Error (Unit {0})
schedule_open canceled = err session_canceled
schedule_open completed = err session_completed
schedule_open started = err session_already_started
schedule_open _ = ok tt

unfoldable pub require_schedule : Session → Result Error (Unit {0})
require_schedule s = schedule_open s.status

abbrev pub is_canceled : SessionStatus → Bool
is_canceled canceled = true
is_canceled _ = false

abbrev pub is_completed : SessionStatus → Bool
is_completed completed = true
is_completed _ = false

abbrev pub is_started : SessionStatus → Bool
is_started started = true
is_started _ = false

abbrev pub is_scheduled : SessionStatus → Bool
is_scheduled scheduled = true
is_scheduled _ = false
