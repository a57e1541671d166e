-- ===== src/Activity/Samples.antt =====
-- Inputs on which the tests run.
use rekreativko_api.Base.{ℕ, List, ◌≡◌, refl, ok, some, none, [], ◌∷◌, false, pos}
use rekreativko_api.Activity.Catalog.{ActivityType, ActivityLevel}
use rekreativko_api.Activity.Session.{
  Session, scheduled, private_session, no_source, session_created, attendee_auto_confirmed,
  attendee_auto_pending, SessionInput, new_session,
}
use rekreativko_api.Activity.Attendee.{Attendee, AttendeeStatus, AttendeeSource}
use rekreativko_api.Activity.Draft.{TeamDraftInput, no_order}
use rekreativko_api.Activity.Member.{member}

abbrev pub football_session : Session
football_session = record {
  id = 500;
  activity_group_id = some 40;
  created_by_id = 100;
  template_id = none;
  title = "five a side";
  activity_type = ActivityType.football;
  difficulty_level = ActivityLevel.beginner;
  location = record {
    city = "Beograd";
    country = "Srbija";
    street = "";
    latitude = pos 448_000_000;
    longitude = pos 204_000_000;
  };
  schedule = record { start_time = 1_000; end_time = some 2_000 };
  capacity = some 2;
  status = scheduled;
  visibility = private_session;
  requires_approval = false;
  is_recurring = false;
  note = "";
  open_at = none;
  team_config = none;
  teams = [];
  teams_source = no_source;
  created_at = 10;
  updated_at = 10;
  cancelled_at = none;
  started_at = none;
  completed_at = none;
  events = [];
}

-- Captains 1 and 2, and two people to pick.
abbrev pub draft_input : TeamDraftInput
draft_input = record {
  session = football_session;
  requester_id = 100;
  requester_role = member;
  captain_a = 1;
  captain_b = 2;
  pick_order = no_order;
  min_players_per_team = some (pos 2);
  colors = [];
  confirmed = 1 ∷ 2 ∷ 3 ∷ 4 ∷ [];
}

abbrev pub football_input : SessionInput
football_input = record {
  activity_group_id = some 40;
  created_by_id = 100;
  template_id = none;
  title = "five a side";
  activity_type = football_session.activity_type;
  difficulty_level = football_session.difficulty_level;
  location = football_session.location;
  schedule = football_session.schedule;
  capacity = some (pos 2);
  note = "";
  is_recurring = false;
  visibility = none;
  requires_approval = false;
  open_at = none;
  auto_attendee_ids = 1 ∷ 2 ∷ 3 ∷ [];
}

abbrev pub auto : ℕ → ℕ → AttendeeStatus → AttendeeSource → Attendee
auto id user status source = record {
  id = id;
  activity_id = some 40;
  session_id = 500;
  user_id = user;
  status = status;
  source = source;
  team_id = none;
  created_at = 10;
  updated_at = 10;
  events = [];
}

abbrev pub football_people : List Attendee
football_people =
    auto 0 1 AttendeeStatus.going AttendeeSource.auto_confirmed
    ∷ auto 1 2 AttendeeStatus.going AttendeeSource.auto_confirmed
    ∷ auto 2 3 AttendeeStatus.pending AttendeeSource.auto_pending
    ∷ []

abbrev pub football_new : Session
football_new = record football_session {
  events =
      attendee_auto_confirmed 500 (some 40) 1
      ∷ attendee_auto_confirmed 500 (some 40) 2
      ∷ attendee_auto_pending 500 (some 40) 3
      ∷ session_created 500 (some 40) 100 1_000 (some 2_000) false
      ∷ [];
}

pub football_made : new_session (λ i. i) 500 10 football_input ≡ ok (football_new, football_people)
unfolding new_session
football_made = refl
