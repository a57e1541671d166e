-- ===== src/Activity/Services/Simulation.antt =====
-- Each command of activity/internal/application/attendee_service.go on the places of Board.
use rekreativko_api.Base.{
  ℕ, true, ◌&&◌, not, some, List, [], ◌∷◌, ◌++◌, ◌≡◌, refl, sym, ap, ◌∙◌, subst, arith, ok,
}
use rekreativko_api.Activity.Member.{MemberRole}
use rekreativko_api.Activity.Session.{Session, has_capacity}
use rekreativko_api.Activity.Attendee.{
  Attendee, AttendeeStatus, going, pending, not_going, maybe, promoted, unknown, hold_spot,
  is_valid_status,
}
use rekreativko_api.Activity.Attendee.Rsvp.{
  update_rsvp, approve, reject, remove, new_requested_attendee, new_rsvp_manual_attendee,
}
use rekreativko_api.Activity.Attendee.Roster.{spots}
use rekreativko_api.Activity.Services.Store.{
  Store, find_attendee, get_attendee, create_attendee, update_attendee, delete_attendee,
}
use rekreativko_api.Activity.Services.AttendeeService.{new_rsvp, spot_released}
use rekreativko_api.Activity.Services.Commands.{
  creates, approves, rejects, removes, updates, cancels,
}
use rekreativko_api.Activity.Services.Board.{
  Place, Rules, find, is_absent, set_status, drop, taken, has_room, move_up, join, after,
  first_status, first_source, answered, first_status, first_source, answered,
}
use rekreativko_api.Activity.Services.Rows.{
  place, places, is_keyed, find-places, spots-places, find_attendee-user, fresh-absent,
}
use rekreativko_api.Activity.Services.Refinement.{
  Shows, rules_of, session_rules, update-Shows, delete-Shows, create-Shows, released-Shows,
}
use rekreativko_api.Activity.Services.Effects.{
  get_attendee_ok, approve_ok, reject_ok, remove_ok, update_rsvp_ok, has_capacity-has_room,
  set_status_self,
}

-- The place of the attendee that the command has read.
found :
    (u : ℕ) (w : Store) (a : Attendee)
    → get_attendee u w ≡ ok a
    → (find_attendee u w.attendees ≡ some a)
      × (find u (places w.attendees) ≡ some (place a))
      × (a.user_id ≡ u)
found u w a h =
    let f = get_attendee_ok u w a h in
    (f, rw (find-places u w.attendees, f) refl, find_attendee-user u w.attendees a f)

-- A store with its session shows its own places.
shows_own :
    (w : Store) (s : Session)
    → is_keyed w.attendees ≡ true
    → w.session ≡ some s
    → Shows (rules_of s) (places w.attendees) w
shows_own w s k e = record { keyed = k; same_places = refl; same_rules = ap session_rules e }

room_of :
    (s : Session) (xs : List Attendee)
    → has_room s.capacity (taken (places xs)) ≡ has_capacity s (spots xs)
room_of s xs = rw (spots-places xs, has_capacity-has_room s (spots xs)) refl

-- The place of the attendee that `CreateRSVP` stores.
new_place : Rules → (now u : ℕ) → AttendeeStatus → List Place → Place
unfolding taken
new_place rules now u status ps = record {
  user = u;
  status = first_status rules (has_room rules.capacity (taken ps)) status;
  source = first_source rules status;
  since = now;
}

new_rsvp-place :
    (id now u : ℕ) (status : AttendeeStatus) (s : Session) (w : Store) (a : Attendee)
    → new_rsvp id now u status s w ≡ ok a
    → (a.user_id ≡ u) × (place a ≡ new_place (rules_of s) now u status (places w.attendees))
unfolding new_rsvp new_place new_requested_attendee new_rsvp_manual_attendee is_valid_status
new_rsvp-place id now u going s w a h = ground (arith, room_of s w.attendees)
new_rsvp-place id now u pending s w a h = ground arith
new_rsvp-place id now u not_going s w a h = ground arith
new_rsvp-place id now u maybe s w a h = ground arith
new_rsvp-place id now u promoted s w a h = ground arith
new_rsvp-place id now u (unknown x) s w a h = ground arith

absent :
    (w v : Store) (a : Attendee) (u : ℕ)
    → a.user_id ≡ u
    → create_attendee a w ≡ ok v
    → is_absent u (places w.attendees) ≡ true
unfolding create_attendee
absent w v a u q c = ground (arith, fresh-absent a.id u w.attendees)

module _ (now u : ℕ) (w : Store) (s : Session) (k : is_keyed w.attendees ≡ true) where
  pub approved :
      (by : ℕ) (role : MemberRole) (a b : Attendee)
      → w.session ≡ some s
      → get_attendee u w ≡ ok a
      → has_capacity s (spots w.attendees) ≡ true
      → approve now s by role a ≡ ok b
      → Shows
          (rules_of s)
          (after (rules_of s) (approves now u by role) (places w.attendees))
          (update_attendee b w)
  unfolding after
  approved by role a b e p room h =
      let (f, g, same) = found u w a p in
      let (i, st, q) = approve_ok now s by role a b h in
      let step = update-Shows (rules_of s) (places w.attendees) w u a b (shows_own w s k e) f i in
      rw (g, q, room_of s w.attendees, room, same)
        (subst (λ x. Shows (rules_of s) (set_status u x (places w.attendees)) (update_attendee b w))
          st step)

  pub decided :
      (by : ℕ) (role : MemberRole) (a b : Attendee)
      → w.session ≡ some s
      → get_attendee u w ≡ ok a
      → reject now s by role a ≡ ok b
      → Shows
          (rules_of s)
          (after (rules_of s) (rejects now u by role) (places w.attendees))
          (update_attendee b w)
  unfolding after
  decided by role a b e p h =
      let (f, g, same) = found u w a p in
      let (i, st, q) = reject_ok now s by role a b h in
      let step = update-Shows (rules_of s) (places w.attendees) w u a b (shows_own w s k e) f i in
      rw (g, q, same)
        (subst (λ x. Shows (rules_of s) (set_status u x (places w.attendees)) (update_attendee b w))
          st step)

  pub removed :
      (by : ℕ) (role : MemberRole) (a b : Attendee) (v : Store)
      → w.session ≡ some s
      → get_attendee u w ≡ ok a
      → remove now s by role a ≡ ok b
      → spot_released now u (hold_spot a.status) (delete_attendee b w) ≡ ok v
      → Shows (rules_of s) (after (rules_of s) (removes now u by role) (places w.attendees)) v
  unfolding after
  removed by role a b v e p h r =
      let (f, g, same) = found u w a p in
      let (i, q) = remove_ok now s by role a b h in
      let step = delete-Shows (rules_of s) (places w.attendees) w u a b (shows_own w s k e) f i in
      let moves =
        released-Shows now u (hold_spot a.status) (rules_of s) (drop u (places w.attendees)) _ v
          step r in
      rw (g, q, same)
        (subst (λ x. Shows (rules_of s) (move_up x (drop u (places w.attendees))) v) q moves)

  pub cancelled :
      (a b : Attendee) (v : Store)
      → w.session ≡ some s
      → get_attendee u w ≡ ok a
      → b.id ≡ a.id
      → spot_released now u (hold_spot a.status) (delete_attendee b w) ≡ ok v
      → Shows (rules_of s) (after (rules_of s) (cancels now u) (places w.attendees)) v
  unfolding after
  cancelled a b v e p i r =
      let (f, g, same) = found u w a p in
      let step = delete-Shows (rules_of s) (places w.attendees) w u a b (shows_own w s k e) f i in
      rw (g, same)
        (released-Shows now u (hold_spot a.status) (rules_of s) (drop u (places w.attendees)) _ v
          step r)

  -- A change of the team only.
  pub placed :
      (a b : Attendee)
      → w.session ≡ some s
      → get_attendee u w ≡ ok a
      → b.id ≡ a.id
      → b.status ≡ a.status
      → Shows (rules_of s) (places w.attendees) (update_attendee b w)
  placed a b e p i st =
      let (f, g, same) = found u w a p in
      let step = update-Shows (rules_of s) (places w.attendees) w u a b (shows_own w s k e) f i in
      let stays =
        ap (λ x. set_status u x (places w.attendees)) st
        ∙ set_status_self u (places w.attendees) (place a) g in
      subst (λ qs. Shows (rules_of s) qs (update_attendee b w)) stays step

  pub answered_by :
      (status : AttendeeStatus) (a b : Attendee) (v : Store)
      → w.session ≡ some s
      → get_attendee u w ≡ ok a
      → update_rsvp now status s (spots w.attendees) a ≡ ok b
      → spot_released now u (hold_spot a.status && not (hold_spot b.status)) (update_attendee b w)
        ≡ ok v
      → Shows (rules_of s) (after (rules_of s) (updates now u status) (places w.attendees)) v
  unfolding after
  answered_by status a b v e p h r =
      let (f, g, same) = found u w a p in
      let (i, st) = update_rsvp_ok now status s (spots w.attendees) a b h in
      let step = update-Shows (rules_of s) (places w.attendees) w u a b (shows_own w s k e) f i in
      let moves =
        released-Shows now u _ (rules_of s) (set_status u b.status (places w.attendees)) _ v step
          r in
      let st' = st ∙ ap (λ r. answered r status a.status) (sym (room_of s w.attendees)) in
      rw (g, same)
        (subst
          (λ x.
            Shows (rules_of s)
              (move_up (hold_spot a.status && not (hold_spot x))
                (set_status u x (places w.attendees)))
              v)
          st' moves)

  -- The newcomer's place.
  pub joined :
      (id : ℕ) (status : AttendeeStatus) (a : Attendee) (v : Store)
      → w.session ≡ some s
      → new_rsvp id now u status s w ≡ ok a
      → create_attendee a w ≡ ok v
      → Shows (rules_of s) (after (rules_of s) (creates id now u status) (places w.attendees)) v
  unfolding after join new_place
  joined id status a v e h c =
      let step = create-Shows (rules_of s) (places w.attendees) w v a (shows_own w s k e) c in
      let (q, st) = new_rsvp-place id now u status s w a h in
      rw (absent w v a u q c)
        (subst (λ x. Shows (rules_of s) (places w.attendees ++ x ∷ []) v) st step)
