-- ===== src/Activity/Services/Keys.antt =====
-- The keys of the attendee rows through the writes, and the row at the head of the waitlist.
use rekreativko_api.Base.{ℕ, true, false, ◌==◌, some, List, [], ◌∷◌, ◌++◌, map, ◌≡◌, refl, arith}
use rekreativko_api.Activity.Attendee.{Attendee}
use rekreativko_api.Activity.Services.Store.{
  find_attendee, is_fresh, stored, update_row, update_rows, delete_rows, first_pending, off_team,
  is_waiting,
}
use rekreativko_api.Activity.Services.Board.{next_in_line}
use rekreativko_api.Activity.Services.Rows.{places, is_keyed, map_place}

fresh-update :
    (id v : ℕ) (b : Attendee) (xs : List Attendee)
    → is_fresh id v (update_rows b xs) ≡ is_fresh id v xs
unfolding is_fresh update_rows update_row
fresh-update id v b [] = refl
fresh-update id v b (x ∷ xs) = ground (arith, fresh-update id v b xs)

pub keyed-update : (b : Attendee) (xs : List Attendee) → is_keyed (update_rows b xs) ≡ is_keyed xs
unfolding is_keyed update_rows update_row
keyed-update b [] = refl
keyed-update b (x ∷ xs) = ground (arith, keyed-update b xs, fresh-update x.id x.user_id b xs)

fresh-delete :
    (id v i : ℕ) (xs : List Attendee)
    → is_fresh id v xs ≡ true
    → is_fresh id v (delete_rows i xs) ≡ true
unfolding is_fresh delete_rows
fresh-delete id v i [] h = refl
fresh-delete id v i (x ∷ xs) h = ground (arith, fresh-delete id v i xs)

pub keyed-delete :
    (i : ℕ) (xs : List Attendee) → is_keyed xs ≡ true → is_keyed (delete_rows i xs) ≡ true
unfolding is_keyed delete_rows
keyed-delete i [] h = refl
keyed-delete i (x ∷ xs) h = ground (arith, keyed-delete i xs, fresh-delete x.id x.user_id i xs)

fresh-append :
    (id v : ℕ) (a : Attendee) (xs : List Attendee)
    → is_fresh id v xs ≡ true
    → (id == a.id) ≡ false
    → (v == a.user_id) ≡ false
    → is_fresh id v (xs ++ stored a ∷ []) ≡ true
unfolding is_fresh
fresh-append id v a [] h p q = ground arith
fresh-append id v a (x ∷ xs) h p q = ground (arith, fresh-append id v a xs)

pub keyed-append :
    (a : Attendee) (xs : List Attendee)
    → is_keyed xs ≡ true
    → is_fresh a.id a.user_id xs ≡ true
    → is_keyed (xs ++ stored a ∷ []) ≡ true
unfolding is_keyed is_fresh
keyed-append a [] h f = refl
keyed-append a (x ∷ xs) h f = ground (arith, keyed-append a xs, fresh-append x.id x.user_id a xs)

fresh-off_team :
    (id v : ℕ) (xs : List Attendee) → is_fresh id v (map off_team xs) ≡ is_fresh id v xs
unfolding is_fresh
fresh-off_team id v [] = refl
fresh-off_team id v (x ∷ xs) = rw (fresh-off_team id v xs) refl

pub keyed-off_team : (xs : List Attendee) → is_keyed (map off_team xs) ≡ is_keyed xs
unfolding is_keyed
keyed-off_team [] = refl
keyed-off_team (x ∷ xs) = rw (keyed-off_team xs, fresh-off_team x.id x.user_id xs) refl

pub first_pending-places :
    (xs : List Attendee) → next_in_line (places xs) ≡ map_place (first_pending xs)
unfolding first_pending
first_pending-places [] = refl
first_pending-places (x ∷ xs) = ground (arith, first_pending-places xs)

pub first_pending-is_waiting :
    (xs : List Attendee) (a : Attendee) → first_pending xs ≡ some a → is_waiting a ≡ true
unfolding first_pending
first_pending-is_waiting [] a h = cc
first_pending-is_waiting (x ∷ xs) a h = ground (arith, first_pending-is_waiting xs a)

first_pending-fresh :
    (id v : ℕ) (xs : List Attendee) (a : Attendee)
    → first_pending xs ≡ some a
    → is_fresh id v xs ≡ true
    → (v == a.user_id) ≡ false
unfolding first_pending is_fresh
first_pending-fresh id v [] a h f = cc
first_pending-fresh id v (x ∷ xs) a h f = ground (arith, first_pending-fresh id v xs a)

pub find-first_pending :
    (xs : List Attendee) (a : Attendee)
    → is_keyed xs ≡ true
    → first_pending xs ≡ some a
    → find_attendee a.user_id xs ≡ some a
unfolding first_pending find_attendee is_keyed
find-first_pending [] a k h = cc
find-first_pending (x ∷ xs) a k h =
    ground (arith, find-first_pending xs a, first_pending-fresh x.id x.user_id xs a)
