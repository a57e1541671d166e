-- ===== src/Activity/Services/Rows.antt =====
-- The attendee rows of a session and the places they stand for.
use rekreativko_api.Base.{
  ℕ, Bool, true, false, ◌&&◌, ◌==◌, Option, none, some, List, [], ◌∷◌, ◌++◌, map, ◌≡◌, refl, arith,
}
use rekreativko_api.Activity.Attendee.{Attendee, hold_spot}
use rekreativko_api.Activity.Attendee.Roster.{spots}
use rekreativko_api.Activity.Services.Store.{
  find_attendee, is_fresh, update_row, update_rows, delete_rows, off_team,
}
use rekreativko_api.Activity.Services.Board.{
  Place, find, is_absent, is_distinct, set_status, drop, taken,
}

abbrev pub place : Attendee → Place
place a = record { user = a.user_id; status = a.status; source = a.source; since = a.created_at }

abbrev pub places : List Attendee → List Place
places [] = []
places (a ∷ as₀) = place a ∷ places as₀

-- The ids differ, and the users.
unfoldable pub is_keyed : List Attendee → Bool
unfolding is_fresh
is_keyed [] = true
is_keyed (a ∷ as₀) = is_fresh a.id a.user_id as₀ && is_keyed as₀

abbrev pub map_place : Option Attendee → Option Place
map_place none = none
map_place (some a) = some (place a)

pub find-places : (u : ℕ) (xs : List Attendee) → find u (places xs) ≡ map_place (find_attendee u xs)
unfolding find_attendee
find-places u [] = refl
find-places u (x ∷ xs) = ground (arith, find-places u xs)

pub spots-places : (xs : List Attendee) → taken (places xs) ≡ spots xs
unfolding taken hold_spot
spots-places [] = refl
spots-places (x ∷ xs) = ground (arith, spots-places xs)

pub places-append : (xs ys : List Attendee) → places (xs ++ ys) ≡ places xs ++ places ys
places-append [] ys = refl
places-append (x ∷ xs) ys = rw (places-append xs ys) refl

pub places-off_team : (xs : List Attendee) → places (map off_team xs) ≡ places xs
places-off_team [] = refl
places-off_team (x ∷ xs) = rw (places-off_team xs) refl

pub fresh-absent :
    (id u : ℕ) (xs : List Attendee) → is_fresh id u xs ≡ true → is_absent u (places xs) ≡ true
unfolding is_fresh
fresh-absent id u [] h = refl
fresh-absent id u (x ∷ xs) h = ground (arith, fresh-absent id u xs)

pub keyed-distinct : (xs : List Attendee) → is_keyed xs ≡ true → is_distinct (places xs) ≡ true
unfolding is_keyed
keyed-distinct [] h = refl
keyed-distinct (x ∷ xs) h = ground (arith, keyed-distinct xs, fresh-absent x.id x.user_id xs)

-- Whoever is found is the user, and their id is not fresh.
pub find_attendee-user :
    (u : ℕ) (xs : List Attendee) (a : Attendee) → find_attendee u xs ≡ some a → a.user_id ≡ u
unfolding find_attendee
find_attendee-user u [] a h = cc
find_attendee-user u (x ∷ xs) a h = ground (arith, find_attendee-user u xs a)

pub find_attendee-fresh :
    (u id v : ℕ) (xs : List Attendee) (a : Attendee)
    → find_attendee u xs ≡ some a
    → is_fresh id v xs ≡ true
    → ((a.id == id) ≡ false) × ((a.user_id == v) ≡ false)
unfolding find_attendee is_fresh
find_attendee-fresh u id v [] a h f = cc
find_attendee-fresh u id v (x ∷ xs) a h f = ground (arith, find_attendee-fresh u id v xs a)

fresh-update :
    (v : ℕ) (b : Attendee) (xs : List Attendee)
    → is_fresh b.id v xs ≡ true
    → places (update_rows b xs) ≡ places xs
unfolding is_fresh update_rows update_row
fresh-update v b [] h = refl
fresh-update v b (x ∷ xs) h = ground (arith, fresh-update v b xs)

fresh-delete : (id v : ℕ) (xs : List Attendee) → is_fresh id v xs ≡ true → delete_rows id xs ≡ xs
unfolding is_fresh delete_rows
fresh-delete id v [] h = refl
fresh-delete id v (x ∷ xs) h = ground (arith, fresh-delete id v xs)

-- The row of the user that was found is the one that is written.
pub update-places :
    (u : ℕ) (b : Attendee) (xs : List Attendee) (a : Attendee)
    → is_keyed xs ≡ true
    → find_attendee u xs ≡ some a
    → b.id ≡ a.id
    → places (update_rows b xs) ≡ set_status u b.status (places xs)
unfolding is_keyed find_attendee update_rows update_row
update-places u b [] a k h e = cc
update-places u b (x ∷ xs) a k h e = ground (
  arith,
  update-places u b xs a,
  fresh-update x.user_id b xs,
  find_attendee-fresh u x.id x.user_id xs a,
)

pub delete-places :
    (u : ℕ) (xs : List Attendee) (a : Attendee)
    → is_keyed xs ≡ true
    → find_attendee u xs ≡ some a
    → places (delete_rows a.id xs) ≡ drop u (places xs)
unfolding is_keyed find_attendee delete_rows
delete-places u [] a k h = cc
delete-places u (x ∷ xs) a k h = ground (
  arith,
  delete-places u xs a,
  fresh-delete x.id x.user_id xs,
  find_attendee-fresh u x.id x.user_id xs a,
)
