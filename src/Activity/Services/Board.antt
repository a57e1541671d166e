-- ===== src/Activity/Services/Board.antt =====
-- What the attendee service promises about a session, with nothing but who stands where: the people
-- in the order in which they came, each confirmed, waiting, asking, declining or undecided. Ids, teams,
-- events, time stamps of changes, and who may do what, are forgotten.
use rekreativko_api.Base.{
  ℕ, suc, Bool, true, false, ◌&&◌, ◌||◌, not, ◌==◌, ltb, leb, if◌then◌else◌, Option, none, some,
  List, [], ◌∷◌, ◌++◌,
}
use rekreativko_api.Activity.Attendee.{
  AttendeeStatus, AttendeeSource, going, pending, not_going, maybe, promoted, unknown, rsvp_manual,
  requested, same_status, hold_spot,
}
use rekreativko_api.Activity.Attendee.Rsvp.{is_requested}
use rekreativko_api.Activity.Services.Commands.{
  Command, creates, approves, rejects, removes, assigns, unassigns, updates, cancels,
}

pub record Place : Type 0 where
  pub user : ℕ
  pub status : AttendeeStatus
  pub source : AttendeeSource
  pub since : ℕ

-- What a session says about its places.
pub record Rules : Type 0 where
  pub capacity : Option ℕ
  pub by_approval : Bool

abbrev pub has_room : Option ℕ → ℕ → Bool
has_room none n = true
has_room (some c) n = ltb n c

abbrev pub find : ℕ → List Place → Option Place
find u [] = none
find u (p ∷ ps) = let rest = find u ps in if p.user == u then some p else rest

abbrev pub is_absent : ℕ → List Place → Bool
is_absent u [] = true
is_absent u (p ∷ ps) = not (p.user == u) && is_absent u ps

-- Nobody has two places.
abbrev pub is_distinct : List Place → Bool
is_distinct [] = true
is_distinct (p ∷ ps) = is_absent p.user ps && is_distinct ps

abbrev pub set_status : ℕ → AttendeeStatus → List Place → List Place
set_status u status [] = []
set_status u status (p ∷ ps) =
    let rest = set_status u status ps in
    if p.user == u then record p { status = status } ∷ ps else p ∷ rest

abbrev pub drop : ℕ → List Place → List Place
drop u [] = []
drop u (p ∷ ps) = let rest = drop u ps in if p.user == u then ps else p ∷ rest

unfoldable pub taken : List Place → ℕ
unfolding hold_spot
taken [] = 0
taken (p ∷ ps) = let n = taken ps in if hold_spot p.status then suc n else n

-- In the waitlist, as opposed to asking a manager.
abbrev pub waits : Place → Bool
waits p = same_status p.status pending && not (is_requested p.source)

abbrev pub asks : Place → Bool
asks p = same_status p.status pending && is_requested p.source

abbrev pub somebody_waits : List Place → Bool
somebody_waits [] = false
somebody_waits (p ∷ ps) = waits p || somebody_waits ps

abbrev pub sooner : Place → Option Place → Option Place
sooner p none = some p
sooner p (some q) = if leb p.since q.since then some p else some q

abbrev pub next_in_line : List Place → Option Place
next_in_line [] = none
next_in_line (p ∷ ps) = let rest = next_in_line ps in if waits p then sooner p rest else rest

abbrev promote_place : List Place → Option Place → List Place
promote_place ps none = ps
promote_place ps (some p) = set_status p.user promoted ps

abbrev pub promote_next : List Place → List Place
promote_next ps = promote_place ps (next_in_line ps)

-- The waitlist moves up when a spot has been given up.
abbrev pub move_up : Bool → List Place → List Place
move_up released ps = if released then promote_next ps else ps

-- The status that an answer gives somebody who has one already.
abbrev pub answered : (room : Bool) → (status old : AttendeeStatus) → AttendeeStatus
answered room status old = if same_status status old then old else elim status [
  | going ↦ if room then going else pending
  | not_going ↦ not_going
  | maybe ↦ maybe
  | pending ↦ old
  | promoted ↦ old
  | unknown s ↦ old
]

abbrev pub first_status : Rules → (room : Bool) → AttendeeStatus → AttendeeStatus
first_status rules room going = if room && not rules.by_approval then going else pending
first_status rules room status = status

abbrev pub first_source : Rules → AttendeeStatus → AttendeeSource
first_source rules going = if rules.by_approval then requested else rsvp_manual
first_source rules status = rsvp_manual

unfoldable pub join : Rules → (now user : ℕ) → AttendeeStatus → List Place → List Place
unfolding taken
join rules now u status ps =
    if is_absent u ps
    then ps
      ++ record {
        user = u;
        status = first_status rules (has_room rules.capacity (taken ps)) status;
        source = first_source rules status;
        since = now;
      }
        ∷ []
    else ps

abbrev approve_from : (room : Bool) → Option Place → List Place → List Place
approve_from room none ps = ps
approve_from room (some p) ps = if asks p && room then set_status p.user going ps else ps

abbrev reject_from : Option Place → List Place → List Place
reject_from none ps = ps
reject_from (some p) ps = if asks p then set_status p.user not_going ps else ps

abbrev remove_from : Option Place → List Place → List Place
remove_from none ps = ps
remove_from (some p) ps = if hold_spot p.status then move_up true (drop p.user ps) else ps

abbrev cancel_from : Option Place → List Place → List Place
cancel_from none ps = ps
cancel_from (some p) ps = move_up (hold_spot p.status) (drop p.user ps)

abbrev answer_from : (room : Bool) → AttendeeStatus → Option Place → List Place → List Place
answer_from room status none ps = ps
answer_from room status (some p) ps =
    let new = answered room status p.status in
    move_up (hold_spot p.status && not (hold_spot new)) (set_status p.user new ps)

-- What a command does to the places, if it is not refused.
unfoldable pub after : Rules → Command → List Place → List Place
unfolding join hold_spot taken
after rules (creates id now u status) ps = join rules now u status ps
after rules (approves now u by role) ps =
    approve_from (has_room rules.capacity (taken ps)) (find u ps) ps
after rules (rejects now u by role) ps = reject_from (find u ps) ps
after rules (removes now u by role) ps = remove_from (find u ps) ps
after rules (assigns now u team by role) ps = ps
after rules (unassigns now u by role) ps = ps
after rules (updates now u status) ps =
    answer_from (has_room rules.capacity (taken ps)) status (find u ps) ps
after rules (cancels now u) ps = cancel_from (find u ps) ps

-- Any of the commands may be refused; the others do what `after` says, in their order.
pub data Plays (rules : Rules) : List Command → List Place → List Place → Type 0 where
  done : {ps : List Place} → Plays rules [] ps ps
  refused :
      {c : Command} {cs : List Command} {ps qs : List Place}
      → Plays rules cs ps qs
      → Plays rules (c ∷ cs) ps qs
  accepted :
      {c : Command} {cs : List Command} {ps qs : List Place}
      → Plays rules cs (after rules c ps) qs
      → Plays rules (c ∷ cs) ps qs
