-- ===== src/Activity/Attendee/Examples.antt =====
-- Attendees on concrete inputs, and the theorems at them.
use rekreativko_api.Base.{◌≤◌, true, some, [], ◌∷◌, ◌≡◌, refl, ok}
use rekreativko_api.Activity.Samples.{
  football_input, football_new, football_people, football_made, auto,
}
use rekreativko_api.Activity.Attendee.{
  Attendee, AttendeeSource, attendee_promoted, going, pending, promoted, hold_spot,
}
use rekreativko_api.Activity.Attendee.Rsvp.{promote}
use rekreativko_api.Activity.Attendee.Roster.{here, next, releases_to, gone, spots}
use rekreativko_api.Activity.Attendee.Capacity.{Reach-capacity}

-- Person 1 leaves, and person 3 is promoted.
abbrev third_promoted : Attendee
third_promoted = record (auto 2 3 promoted AttendeeSource.auto_pending) {
  updated_at = 20;
  events = attendee_promoted 2 500 3 ∷ [];
}

abbrev second_person : Attendee
second_person = auto 1 2 going AttendeeSource.auto_confirmed

holds_spot : hold_spot going ≡ true
unfolding hold_spot
holds_spot = refl

third-promoted : promote 20 (auto 2 3 pending AttendeeSource.auto_pending) ≡ ok third_promoted
unfolding promote
third-promoted = refl

Reach-capacity_example : spots (second_person ∷ third_promoted ∷ []) ≤ 2
Reach-capacity_example =
    Reach-capacity (λ i. i) 500 10 2 football_input football_new football_people
      (second_person ∷ third_promoted ∷ []) refl football_made
      (next here (
        releases_to (second_person ∷ []) [] (auto 2 3 pending AttendeeSource.auto_pending)
          third_promoted 20
          (gone [] (second_person ∷ auto 2 3 pending AttendeeSource.auto_pending ∷ [])
            (auto 0 1 going AttendeeSource.auto_confirmed) holds_spot)
          third-promoted))

-- The promoted person 3 is on team 9, and answers again that they are going.
abbrev placed : Attendee
placed = record third_promoted { team_id = some 9 }
