-- ===== src/Activity/Attendee/Roster.antt =====
-- The attendees of a session with a capacity, as activity/internal/application/attendee_service.go
-- changes them: under the session's lock, so one change after the other, each with the number of
-- confirmed attendees read first. An attendee whose row is deleted is not in the list.
use rekreativko_api.Base.{
  ℕ, suc, true, false, if◌then◌else◌, Option, some, List, [], ◌∷◌, ◌++◌, map, ◌≡◌, ◌≢◌, ok,
}
use rekreativko_api.Activity.Member.{MemberRole}
use rekreativko_api.Activity.Session.{Session, has_capacity}
use rekreativko_api.Activity.Attendee.{Attendee, AttendeeStatus, promoted, hold_spot}
use rekreativko_api.Activity.Attendee.Rsvp.{
  update_rsvp, promote, approve, reject, new_rsvp_manual_attendee, new_invited_attendee,
  new_requested_attendee,
}

abbrev pub spots_of : List AttendeeStatus → ℕ
spots_of [] = 0
spots_of (x ∷ xs) = let n = spots_of xs in if hold_spot x then suc n else n

-- `CountConfirmedAttendees`.
abbrev pub spots : List Attendee → ℕ
spots as₀ = spots_of (map (λ a. a.status) as₀)

-- Somebody with a spot gives it up: by another answer, or by leaving or being removed.
pub data Release (c : ℕ) : List Attendee → List Attendee → Type 0 where
  answers_away :
      (xs ys : List Attendee) (a b : Attendee) (now : ℕ) (status : AttendeeStatus)
      (session : Session)
      → session.capacity ≡ some c
      → update_rsvp now status session (spots (xs ++ a ∷ ys)) a ≡ ok b
      → hold_spot a.status ≡ true
      → hold_spot b.status ≡ false
      → Release c (xs ++ a ∷ ys) (xs ++ b ∷ ys)
  gone :
      (xs ys : List Attendee) (a : Attendee)
      → hold_spot a.status ≡ true
      → Release c (xs ++ a ∷ ys) (xs ++ ys)

pub data Step (c : ℕ) : List Attendee → List Attendee → Type 0 where
  joins :
      {xs : List Attendee} (a : Attendee) (id now : ℕ) (session : Session) (g : Option ℕ) (u : ℕ)
      (status : AttendeeStatus)
      → session.capacity ≡ some c
      → status ≢ promoted
      → new_rsvp_manual_attendee id now session g u status (spots xs) ≡ ok a
      → Step c xs (xs ++ a ∷ [])
  accepts :
      {xs : List Attendee} (a : Attendee) (id now : ℕ) (session : Session) (u : ℕ)
      → session.capacity ≡ some c
      → new_invited_attendee id now session u (spots xs) ≡ ok a
      → Step c xs (xs ++ a ∷ [])
  requests :
      {xs : List Attendee} (id now : ℕ) (session : Session) (g : Option ℕ) (u : ℕ) (us : List ℕ)
      → Step c xs (xs ++ new_requested_attendee id now session g u us ∷ [])
  answers :
      (xs ys : List Attendee) (a b : Attendee) (now : ℕ) (status : AttendeeStatus)
      (session : Session)
      → session.capacity ≡ some c
      → update_rsvp now status session (spots (xs ++ a ∷ ys)) a ≡ ok b
      → Step c (xs ++ a ∷ ys) (xs ++ b ∷ ys)
  approved :
      (xs ys : List Attendee) (a b : Attendee) (now : ℕ) (session : Session) (by : ℕ)
      (role : MemberRole)
      → session.capacity ≡ some c
      → has_capacity session (spots (xs ++ a ∷ ys)) ≡ true
      → approve now session by role a ≡ ok b
      → Step c (xs ++ a ∷ ys) (xs ++ b ∷ ys)
  rejected :
      (xs ys : List Attendee) (a b : Attendee) (now : ℕ) (session : Session) (by : ℕ)
      (role : MemberRole)
      → reject now session by role a ≡ ok b
      → Step c (xs ++ a ∷ ys) (xs ++ b ∷ ys)
  leaves : (xs ys : List Attendee) (a : Attendee) → Step c (xs ++ a ∷ ys) (xs ++ ys)
  releases : {xs ys : List Attendee} → Release c xs ys → Step c xs ys
  releases_to :
      {xs : List Attendee} (ys zs : List Attendee) (a b : Attendee) (now : ℕ)
      → Release c xs (ys ++ a ∷ zs)
      → promote now a ≡ ok b
      → Step c xs (ys ++ b ∷ zs)

pub data Reach (c : ℕ) (from : List Attendee) : List Attendee → Type 0 where
  here : Reach c from from
  next : {mid ys : List Attendee} → Reach c from mid → Step c mid ys → Reach c from ys
