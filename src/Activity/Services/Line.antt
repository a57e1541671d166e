-- ===== src/Activity/Services/Line.antt =====
-- The places of Board under the changes of one place: how many are taken, who waits, who is next.
use rekreativko_api.Base.{
  ℕ, ◌+◌, true, false, ◌==◌, if◌then◌else◌, none, some, List, [], ◌∷◌, ◌++◌, ◌≡◌, refl, arith,
}
use rekreativko_api.Activity.Attendee.{AttendeeStatus, pending, same_status, hold_spot}
use rekreativko_api.Activity.Services.Board.{
  Place, find, is_absent, is_distinct, set_status, drop, taken, waits, somebody_waits, next_in_line,
}

abbrev pub seat : AttendeeStatus → ℕ
seat status = if hold_spot status then 1 else 0

pub taken-set_status :
    (u : ℕ) (status : AttendeeStatus) (ps : List Place) (p : Place)
    → find u ps ≡ some p
    → taken (set_status u status ps) + seat p.status ≡ taken ps + seat status
unfolding taken
taken-set_status u status [] p h = cc
taken-set_status u status (q ∷ ps) p h = ground (arith, taken-set_status u status ps p)

pub taken-drop :
    (u : ℕ) (ps : List Place) (p : Place)
    → find u ps ≡ some p
    → taken (drop u ps) + seat p.status ≡ taken ps
unfolding taken
taken-drop u [] p h = cc
taken-drop u (q ∷ ps) p h = ground (arith, taken-drop u ps p)

pub taken-append : (ps : List Place) (p : Place) → taken (ps ++ p ∷ []) ≡ taken ps + seat p.status
unfolding taken
taken-append [] p = ground arith
taken-append (q ∷ ps) p = ground (arith, taken-append ps p)

pub somebody_waits-set_status :
    (u : ℕ) (status : AttendeeStatus) (ps : List Place)
    → somebody_waits (set_status u status ps) ≡ true
    → same_status status pending ≡ false
    → somebody_waits ps ≡ true
somebody_waits-set_status u status [] h n = ground arith
somebody_waits-set_status u status (q ∷ ps) h n =
    ground (arith, somebody_waits-set_status u status ps)

pub somebody_waits-drop :
    (u : ℕ) (ps : List Place) → somebody_waits (drop u ps) ≡ true → somebody_waits ps ≡ true
somebody_waits-drop u [] h = h
somebody_waits-drop u (q ∷ ps) h = ground (arith, somebody_waits-drop u ps)

pub somebody_waits-append :
    (ps : List Place) (p : Place)
    → somebody_waits (ps ++ p ∷ []) ≡ true
    → waits p ≡ false
    → somebody_waits ps ≡ true
somebody_waits-append [] p h n = ground arith
somebody_waits-append (q ∷ ps) p h n = ground (arith, somebody_waits-append ps p)

absent-set_status :
    (v u : ℕ) (status : AttendeeStatus) (ps : List Place)
    → is_absent v (set_status u status ps) ≡ is_absent v ps
absent-set_status v u status [] = refl
absent-set_status v u status (q ∷ ps) = ground (arith, absent-set_status v u status ps)

pub distinct-set_status :
    (u : ℕ) (status : AttendeeStatus) (ps : List Place)
    → is_distinct (set_status u status ps) ≡ is_distinct ps
distinct-set_status u status [] = refl
distinct-set_status u status (q ∷ ps) =
    ground (arith, distinct-set_status u status ps, absent-set_status q.user u status ps)

absent-drop : (v u : ℕ) (ps : List Place) → is_absent v ps ≡ true → is_absent v (drop u ps) ≡ true
absent-drop v u [] h = refl
absent-drop v u (q ∷ ps) h = ground (arith, absent-drop v u ps)

pub distinct-drop :
    (u : ℕ) (ps : List Place) → is_distinct ps ≡ true → is_distinct (drop u ps) ≡ true
distinct-drop u [] h = refl
distinct-drop u (q ∷ ps) h = ground (arith, distinct-drop u ps, absent-drop q.user u ps)

absent-append :
    (v : ℕ) (ps : List Place) (p : Place)
    → is_absent v ps ≡ true
    → (p.user == v) ≡ false
    → is_absent v (ps ++ p ∷ []) ≡ true
absent-append v [] p h n = ground arith
absent-append v (q ∷ ps) p h n = ground (arith, absent-append v ps p)

pub distinct-append :
    (ps : List Place) (p : Place)
    → is_distinct ps ≡ true
    → is_absent p.user ps ≡ true
    → is_distinct (ps ++ p ∷ []) ≡ true
distinct-append [] p h n = refl
distinct-append (q ∷ ps) p h n = ground (arith, distinct-append ps p, absent-append q.user ps p)

pub next_in_line-none : (ps : List Place) → next_in_line ps ≡ none → somebody_waits ps ≡ false
next_in_line-none [] h = refl
next_in_line-none (q ∷ ps) h = ground (arith, next_in_line-none ps)

pub next_in_line-waits :
    (ps : List Place) (p : Place)
    → next_in_line ps ≡ some p
    → (waits p ≡ true) × (somebody_waits ps ≡ true)
next_in_line-waits [] p h = cc
next_in_line-waits (q ∷ ps) p h = ground (arith, next_in_line-waits ps p)

next_in_line-absent :
    (v : ℕ) (ps : List Place) (p : Place)
    → next_in_line ps ≡ some p
    → is_absent v ps ≡ true
    → (v == p.user) ≡ false
next_in_line-absent v [] p h a = cc
next_in_line-absent v (q ∷ ps) p h a = ground (arith, next_in_line-absent v ps p)

pub find-next_in_line :
    (ps : List Place) (p : Place)
    → is_distinct ps ≡ true
    → next_in_line ps ≡ some p
    → find p.user ps ≡ some p
find-next_in_line [] p d h = cc
find-next_in_line (q ∷ ps) p d h =
    ground (arith, find-next_in_line ps p, next_in_line-absent q.user ps p)
