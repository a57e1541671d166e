-- ===== src/Activity/Services/Promotion.antt =====
-- `promoteNextPending` of activity/internal/application/attendee_service.go on the rows.
use rekreativko_api.Base.{
  ℕ, ◌≤◌, true, false, is_some, none, some, List, [], ◌∷◌, ◌≡◌, refl, ap, ◌∙◌, arith, ok, inl, inr,
  Option-cases,
}
use rekreativko_api.Activity.Attendee.{Attendee, promoted}
use rekreativko_api.Activity.Services.Store.{
  Store, find_attendee, update_attendee, first_pending, is_waiting,
}
use rekreativko_api.Activity.Services.AttendeeService.{promote_next_pending, promote_pending}
use rekreativko_api.Activity.Services.Board.{set_status, somebody_waits}
use rekreativko_api.Activity.Services.Rows.{places, is_keyed, update-places}
use rekreativko_api.Activity.Services.Keys.{first_pending-is_waiting, find-first_pending}
use rekreativko_api.Activity.Services.Refinement.{promote_waiting}

first_pending-none :
    (xs : List Attendee) → first_pending xs ≡ none → somebody_waits (places xs) ≡ false
unfolding first_pending
first_pending-none [] h = refl
first_pending-none (x ∷ xs) h = ground (arith, first_pending-none xs)

first_pending-some :
    (xs : List Attendee) (q : Attendee) (u : ℕ)
    → find_attendee u xs ≡ some q
    → is_waiting q ≡ true
    → is_some (first_pending xs) ≡ true
unfolding first_pending find_attendee
first_pending-some [] q u f w = cc
first_pending-some (x ∷ xs) q u f w = ground (arith, first_pending-some xs q u)

first_pending-earliest :
    (xs : List Attendee) (a q : Attendee) (u : ℕ)
    → first_pending xs ≡ some a
    → find_attendee u xs ≡ some q
    → is_waiting q ≡ true
    → a.created_at ≤ q.created_at
unfolding first_pending find_attendee
first_pending-earliest [] a q u h f w = cc
first_pending-earliest (x ∷ xs) a q u h f w = elim (Option-cases (first_pending xs)) [
  | inl n ↦ ground (arith, first_pending-some xs q u)
  | inr (b, e) ↦ ground (arith, first_pending-earliest xs b q u e)
]

-- If somebody is in the waitlist, then `promoteNextPending` succeeds: it makes one of them promoted,
-- who joined no later than anybody else in the waitlist, and changes nobody else's place.
pub promote_next_pending-earliest :
    (now : ℕ) (w : Store)
    → is_keyed w.attendees ≡ true
    → somebody_waits (places w.attendees) ≡ true
    → (a : Attendee) × (v : Store) × (promote_next_pending now w ≡ ok v)
      × (find_attendee a.user_id w.attendees ≡ some a)
      × (is_waiting a ≡ true)
      × ((q : Attendee) (u : ℕ)
          → find_attendee u w.attendees ≡ some q
          → is_waiting q ≡ true
          → a.created_at ≤ q.created_at)
      × (places v.attendees ≡ set_status a.user_id promoted (places w.attendees))
unfolding promote_next_pending promote_pending update_attendee
promote_next_pending-earliest now w k s = elim (Option-cases (first_pending w.attendees)) [
  | inl n ↦ ground (arith, first_pending-none w.attendees n)
  | inr (a, e) ↦
      let waiting = first_pending-is_waiting w.attendees a e in
      let found = find-first_pending w.attendees a k e in
      let (b, p, q, r) = promote_waiting now a waiting in
      (
        a,
        update_attendee b w,
        rw (e, p) refl,
        found,
        waiting,
        λ q u. first_pending-earliest w.attendees a q u e,
        update-places a.user_id b w.attendees a k found q
            ∙ ap (λ st. set_status a.user_id st (places w.attendees)) r,
      )
]
