-- ===== src/Activity/Services/Refinement.antt =====
-- The commands of activity/internal/application/attendee_service.go and the places of Board.
use rekreativko_api.Base.{
  ℕ, Bool, true, false, Option, none, some, List, [], ◌∷◌, ◌++◌, ◌≡◌, refl, sym, ap, ◌∙◌, subst,
  arith, ok, value_or, guard->>-eq-ok, Bool-cases, Option-cases, inl, inr,
}
use rekreativko_api.Activity.Session.{Session, roster_changed, reset_teams}
use rekreativko_api.Activity.Attendee.{Attendee, pending, promoted, same_status}
use rekreativko_api.Activity.Attendee.Rsvp.{promote}
use rekreativko_api.Activity.Services.Store.{
  Store, get_session, find_attendee, create_attendee, update_attendee, delete_attendee,
  first_pending, replace_teams, is_fresh, going_ids, stored, is_waiting,
}
use rekreativko_api.Activity.Services.TeamFormation.{reset_team_formation, has_formation}
use rekreativko_api.Activity.Services.AttendeeService.{
  promote_next_pending, promote_pending, reset_team_formation_after_leaving, teams_locked,
  spot_released,
}
use rekreativko_api.Activity.Services.Board.{
  Place, Rules, set_status, drop, promote_next, move_up, next_in_line,
}
use rekreativko_api.Activity.Services.Rows.{
  place, places, is_keyed, map_place, places-append, places-off_team, update-places, delete-places,
}
use rekreativko_api.Activity.Services.Keys.{
  keyed-update, keyed-delete, keyed-append, keyed-off_team, first_pending-places,
  first_pending-is_waiting, find-first_pending,
}

abbrev pub rules_of : Session → Rules
rules_of s = record { capacity = s.capacity; by_approval = s.requires_approval }

abbrev pub session_rules : Option Session → Option Rules
session_rules none = none
session_rules (some s) = some (rules_of s)

-- The store has these rules and these places.
pub record Shows (rules : Rules) (ps : List Place) (w : Store) : Type 0 where
  pub keyed : is_keyed w.attendees ≡ true
  pub same_places : places w.attendees ≡ ps
  pub same_rules : session_rules w.session ≡ some rules

pub update-Shows :
    (rules : Rules) (ps : List Place) (w : Store) (u : ℕ) (a b : Attendee)
    → Shows rules ps w
    → find_attendee u w.attendees ≡ some a
    → b.id ≡ a.id
    → Shows rules (set_status u b.status ps) (update_attendee b w)
unfolding update_attendee
update-Shows rules ps w u a b h f e = record {
  keyed = keyed-update b w.attendees ∙ h.keyed;
  same_places =
      update-places u b w.attendees a h.keyed f e ∙ ap (set_status u b.status) h.same_places;
  same_rules = h.same_rules;
}

pub delete-Shows :
    (rules : Rules) (ps : List Place) (w : Store) (u : ℕ) (a b : Attendee)
    → Shows rules ps w
    → find_attendee u w.attendees ≡ some a
    → b.id ≡ a.id
    → Shows rules (drop u ps) (delete_attendee b w)
unfolding delete_attendee
delete-Shows rules ps w u a b h f e = rw e (record {
  keyed = keyed-delete a.id w.attendees h.keyed;
  same_places = delete-places u w.attendees a h.keyed f ∙ ap (drop u) h.same_places;
  same_rules = h.same_rules;
})

pub create-Shows :
    (rules : Rules) (ps : List Place) (w v : Store) (a : Attendee)
    → Shows rules ps w
    → create_attendee a w ≡ ok v
    → Shows rules (ps ++ place a ∷ []) v
unfolding create_attendee
create-Shows rules ps w v a h c =
    let (f, e) = guard->>-eq-ok (is_fresh a.id a.user_id w.attendees) _ _ c in
    let same : places (w.attendees ++ stored a ∷ []) ≡ ps ++ place a ∷ [] =
      places-append w.attendees (stored a ∷ []) ∙ ap (λ q. q ++ place a ∷ []) h.same_places in
    ground (arith, h.same_rules, keyed-append a w.attendees h.keyed f, same)

next-places :
    (ps : List Place) (w : Store)
    → places w.attendees ≡ ps
    → next_in_line ps ≡ map_place (first_pending w.attendees)
next-places ps w e = ap next_in_line (sym e) ∙ first_pending-places w.attendees

-- A row of the waitlist can be promoted.
pub promote_waiting :
    (now : ℕ) (a : Attendee)
    → is_waiting a ≡ true
    → (b : Attendee) × (promote now a ≡ ok b) × (b.id ≡ a.id) × (b.status ≡ promoted)
unfolding promote
promote_waiting now a h = elim (Bool-cases (same_status a.status pending)) [
  | inl t ↦ rw t (_, refl, refl, refl)
  | inr f ↦ ground arith
]

-- `promoteNextPending` moves the waitlist up.
pub promote-Shows :
    (now : ℕ) (rules : Rules) (ps : List Place) (w : Store)
    → Shows rules ps w
    → Shows rules (promote_next ps) (value_or (promote_next_pending now w) w)
unfolding promote_next_pending promote_pending
promote-Shows now rules ps w h =
    rw (next-places ps w h.same_places) (elim (Option-cases (first_pending w.attendees)) [
      | inl e ↦ rw e h
      | inr (a, e) ↦
          let (b, p, q, r) = promote_waiting now a (first_pending-is_waiting w.attendees a e) in
          rw (e, p)
            (subst (λ st. Shows rules (set_status a.user_id st ps) (update_attendee b w)) r
              (update-Shows rules ps w a.user_id a b h (find-first_pending w.attendees a h.keyed e)
                q))
    ])

reset_teams-rules :
    (now by : ℕ) (us : List ℕ) (s t : Session)
    → reset_teams now by roster_changed us s ≡ ok t
    → rules_of t ≡ rules_of s
unfolding reset_teams
reset_teams-rules now by us s t h = ground arith

pub reset-Shows :
    (now u : ℕ) (rules : Rules) (ps : List Place) (w v : Store)
    → Shows rules ps w
    → reset_team_formation_after_leaving now u w ≡ ok v
    → Shows rules ps v
unfolding reset_team_formation_after_leaving reset_team_formation replace_teams get_session
reset-Shows now u rules ps w v h e = elim (Option-cases w.session) [
  | inl n ↦ ground arith
  | inr (s, n) ↦ elim (Bool-cases (teams_locked s)) [
    | inl t ↦ ground (arith, h.keyed, h.same_places, h.same_rules)
    | inr f ↦ elim (Bool-cases (has_formation s w)) [
      | inr g ↦ ground (arith, h.keyed, h.same_places, h.same_rules)
      | inl g ↦ ground (
        arith,
        h.keyed,
        h.same_places,
        h.same_rules,
        keyed-off_team w.attendees,
        places-off_team w.attendees,
        reset_teams-rules now u (going_ids w.attendees) s,
      )
    ]
  ]
]

pub released-Shows :
    (now u : ℕ) (held : Bool) (rules : Rules) (ps : List Place) (w v : Store)
    → Shows rules ps w
    → spot_released now u held w ≡ ok v
    → Shows rules (move_up held ps) v
unfolding spot_released
released-Shows now u false rules ps w v h e = ground arith
released-Shows now u true rules ps w v h e =
    reset-Shows now u rules (promote_next ps) _ v (promote-Shows now rules ps w h) e
