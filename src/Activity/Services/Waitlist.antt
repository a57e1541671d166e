-- ===== src/Activity/Services/Waitlist.antt =====
-- The waitlist of a session with a capacity, through the commands of
-- activity/internal/application/attendee_service.go.
use rekreativko_api.Base.{
  ℕ, suc, ◌≤◌, Bool, true, false, ◌&&◌, not, some, List, [], ◌∷◌, ◌≡◌, refl, ◌∙◌, arith, inl, inr,
  Bool-cases, Option-cases,
}
use rekreativko_api.Activity.Attendee.{
  AttendeeStatus, going, pending, not_going, maybe, promoted, unknown, same_status, hold_spot,
}
use rekreativko_api.Activity.Services.Commands.{Command, creates, updates}
use rekreativko_api.Activity.Services.Board.{
  Place, find, is_distinct, set_status, drop, taken, waits, somebody_waits, next_in_line,
  promote_next, move_up, answered, has_room,
}
use rekreativko_api.Activity.Services.Line.{
  seat, taken-set_status, taken-drop, somebody_waits-set_status, somebody_waits-drop,
  distinct-set_status, distinct-drop, next_in_line-none, next_in_line-waits, find-next_in_line,
}

-- The answers that the API lets through.
abbrev pub is_answer : AttendeeStatus → Bool
is_answer going = true
is_answer not_going = true
is_answer maybe = true
is_answer _ = false

abbrev pub is_asked : Command → Bool
is_asked (creates id now u status) = is_answer status
is_asked (updates now u status) = is_answer status
is_asked _ = true

abbrev pub all_asked : List Command → Bool
all_asked [] = true
all_asked (c ∷ cs) = is_asked c && all_asked cs

-- No more spots are taken than there are, and somebody waits only if all of them are.
pub record IsFair (c : ℕ) (ps : List Place) : Type 0 where
  pub distinct : is_distinct ps ≡ true
  pub bounded : taken ps ≤ c
  pub full : somebody_waits ps ≡ true → c ≤ taken ps

-- A spot has just been given up.
pub record IsReleased (c : ℕ) (ps : List Place) : Type 0 where
  distinct : is_distinct ps ≡ true
  bounded : suc (taken ps) ≤ c
  full : somebody_waits ps ≡ true → c ≤ suc (taken ps)

waits-seat : (p : Place) → waits p ≡ true → seat p.status ≡ 0
unfolding hold_spot
waits-seat p h = ground arith

promote_next-IsFair : (c : ℕ) (ps : List Place) → IsReleased c ps → IsFair c (promote_next ps)
unfolding hold_spot
promote_next-IsFair c ps h = elim (Option-cases (next_in_line ps)) [
  | inl e ↦ rw e (record {
    distinct = h.distinct;
    bounded = omega (arith, h.bounded);
    full = λ w. ground (arith, next_in_line-none ps e);
  })
  | inr (p, e) ↦
      let (w, some_w) = next_in_line-waits ps p e in
      let t = taken-set_status p.user promoted ps p (find-next_in_line ps p h.distinct e) in
      let z = waits-seat p w in
      rw e (record {
        distinct = distinct-set_status p.user promoted ps ∙ h.distinct;
        bounded = omega (arith, h.bounded, t, z);
        full = λ _. omega (arith, h.full some_w, t, z);
      })
]

-- An answer makes somebody wait, or gives them a spot, by the room there is.
pub answered-room :
    (room : Bool) (status old : AttendeeStatus)
    → is_answer status ≡ true
    → (same_status (answered room status old) pending ≡ true → room ≡ false)
      × (hold_spot (answered room status old) ≡ true → hold_spot old ≡ false → room ≡ true)
unfolding hold_spot
answered-room room going old h = ground arith
answered-room room pending old h = ground arith
answered-room room not_going old h = ground arith
answered-room room maybe old h = ground arith
answered-room room promoted old h = ground arith
answered-room room (unknown s) old h = ground arith

pub move_up-IsFair :
    (c : ℕ) (released : Bool) (ps : List Place)
    → (released ≡ true → IsReleased c ps)
    → (released ≡ false → IsFair c ps)
    → IsFair c (move_up released ps)
move_up-IsFair c true ps released kept = promote_next-IsFair c ps (released refl)
move_up-IsFair c false ps released kept = kept refl

module _ (c u : ℕ) (ps : List Place) (p : Place) (found : find u ps ≡ some p)
    (h : IsFair c ps) where
  pub drop-IsReleased : hold_spot p.status ≡ true → IsReleased c (drop u ps)
  drop-IsReleased t = record {
    distinct = distinct-drop u ps h.distinct;
    bounded = ground (arith, h.bounded, taken-drop u ps p found);
    full = λ w. ground (arith, h.full (somebody_waits-drop u ps w), taken-drop u ps p found);
  }

  pub drop-IsFair : hold_spot p.status ≡ false → IsFair c (drop u ps)
  drop-IsFair f = record {
    distinct = distinct-drop u ps h.distinct;
    bounded = ground (arith, h.bounded, taken-drop u ps p found);
    full = λ w. ground (arith, h.full (somebody_waits-drop u ps w), taken-drop u ps p found);
  }

  -- Somebody waits after an answer only if all spots were taken before it.
  answer-full :
      (new : AttendeeStatus)
      → (same_status new pending ≡ true → has_room (some c) (taken ps) ≡ false)
      → somebody_waits (set_status u new ps) ≡ true
      → c ≤ taken ps
  answer-full new no_room w = elim (Bool-cases (same_status new pending)) [
    | inl t ↦ ground (arith, no_room t)
    | inr f ↦ h.full (somebody_waits-set_status u new ps w f)
  ]

  pub answer-IsReleased :
      (new : AttendeeStatus)
      → (same_status new pending ≡ true → has_room (some c) (taken ps) ≡ false)
      → hold_spot p.status && not (hold_spot new) ≡ true
      → IsReleased c (set_status u new ps)
  answer-IsReleased new no_room t = record {
    distinct = distinct-set_status u new ps ∙ h.distinct;
    bounded = ground (arith, h.bounded, taken-set_status u new ps p found);
    full = λ w. ground (arith, answer-full new no_room w, taken-set_status u new ps p found);
  }

  pub answer-IsFair :
      (new : AttendeeStatus)
      → (same_status new pending ≡ true → has_room (some c) (taken ps) ≡ false)
      → (hold_spot new ≡ true → hold_spot p.status ≡ false → has_room (some c) (taken ps) ≡ true)
      → hold_spot p.status && not (hold_spot new) ≡ false
      → IsFair c (set_status u new ps)
  answer-IsFair new no_room room f = record {
    distinct = distinct-set_status u new ps ∙ h.distinct;
    bounded = ground (arith, h.bounded, room, taken-set_status u new ps p found);
    full = λ w. ground (arith, answer-full new no_room w, taken-set_status u new ps p found);
  }
