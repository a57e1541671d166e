-- ===== src/Activity/Attendee/Capacity.antt =====
-- The spots of a session with a capacity, through the steps of Roster.
use rekreativko_api.Activity.Team.{map_to_nat}
use rekreativko_api.Base.{
  zero, Bool-cases, inl, inr, subst, sym, ap, ◌∙◌, ℕ, suc, ◌+◌, ◌≤◌, true, false, if◌then◌else◌,
  Option, some, List, [], ◌∷◌, ◌++◌, ◌≡◌, ◌≢◌, refl, ok, arith, pos,
}
use rekreativko_api.Activity.Member.{MemberRole}
use rekreativko_api.Activity.Session.{Session, SessionInput, has_capacity, new_session}
use rekreativko_api.Activity.Session.Attendance.{new_session-attendees, statuses_for, first_going}
use rekreativko_api.Activity.Attendee.{
  Attendee, AttendeeStatus, going, pending, not_going, maybe, promoted, unknown, hold_spot,
}
use rekreativko_api.Activity.Attendee.Rsvp.{
  update_rsvp, promote, reject, new_rsvp_manual_attendee, new_invited_attendee,
  new_requested_attendee,
}
use rekreativko_api.Activity.Attendee.Roster.{
  spots_of, spots, Release, answers_away, gone, Step, joins, accepts, requests, answers, approved,
  rejected, leaves, releases, releases_to, Reach, here, next,
}

abbrev held : Attendee → ℕ
held a = if hold_spot a.status then 1 else 0

spots-append : (xs ys : List Attendee) → spots (xs ++ ys) ≡ spots xs + spots ys
spots-append [] ys = omega arith
spots-append (x ∷ xs) ys = ground (arith, spots-append xs ys)

spots-insert :
    (xs ys : List Attendee) (a : Attendee) → spots (xs ++ a ∷ ys) ≡ spots (xs ++ ys) + held a
spots-insert [] ys a = ground arith
spots-insert (x ∷ xs) ys a = ground (arith, spots-insert xs ys a)

-- An answer takes a spot only where one is free.
update_rsvp-free :
    (now : ℕ) (status : AttendeeStatus) (session : Session) (n : ℕ) (a b : Attendee)
    → update_rsvp now status session n a ≡ ok b
    → hold_spot a.status ≡ false
    → hold_spot b.status ≡ true
    → has_capacity session n ≡ true
unfolding update_rsvp hold_spot
update_rsvp-free now going session n a b h p q = ground arith
update_rsvp-free now pending session n a b h p q = ground arith
update_rsvp-free now not_going session n a b h p q = ground arith
update_rsvp-free now maybe session n a b h p q = ground arith
update_rsvp-free now promoted session n a b h p q = ground arith
update_rsvp-free now (unknown s) session n a b h p q = ground arith

new_rsvp_manual_attendee-free :
    (id now : ℕ) (session : Session) (g : Option ℕ) (u : ℕ) (status : AttendeeStatus) (n : ℕ)
    (a : Attendee)
    → new_rsvp_manual_attendee id now session g u status n ≡ ok a
    → status ≢ promoted
    → hold_spot a.status ≡ true
    → has_capacity session n ≡ true
unfolding new_rsvp_manual_attendee hold_spot
new_rsvp_manual_attendee-free id now session g u going n a h p q = ground arith
new_rsvp_manual_attendee-free id now session g u pending n a h p q = ground arith
new_rsvp_manual_attendee-free id now session g u not_going n a h p q = ground arith
new_rsvp_manual_attendee-free id now session g u maybe n a h p q = ground arith
new_rsvp_manual_attendee-free id now session g u promoted n a h p q = ground arith
new_rsvp_manual_attendee-free id now session g u (unknown s) n a h p q = ground arith

new_invited_attendee-free :
    (id now : ℕ) (session : Session) (u n : ℕ) (a : Attendee)
    → new_invited_attendee id now session u n ≡ ok a
    → hold_spot a.status ≡ true
    → has_capacity session n ≡ true
unfolding new_invited_attendee hold_spot
new_invited_attendee-free id now session u n a h q = ground arith

free-lt :
    (session : Session) (c n : ℕ)
    → session.capacity ≡ some c
    → has_capacity session n ≡ true
    → suc n ≤ c
unfolding has_capacity
free-lt session c n q h = ground arith

promote-held : (now : ℕ) (a b : Attendee) → promote now a ≡ ok b → (held a ≡ 0) × (held b ≡ 1)
unfolding promote hold_spot
promote-held now a b h = ground arith

reject-held :
    (now : ℕ) (session : Session) (by : ℕ) (role : MemberRole) (a b : Attendee)
    → reject now session by role a ≡ ok b
    → held b ≡ 0
unfolding reject hold_spot
reject-held now session by role a b h = ground arith

new_requested_attendee-held :
    (id now : ℕ) (session : Session) (g : Option ℕ) (u : ℕ) (us : List ℕ)
    → held (new_requested_attendee id now session g u us) ≡ 0
unfolding new_requested_attendee hold_spot
new_requested_attendee-held id now session g u us = refl

spots-last : (xs : List Attendee) (a : Attendee) → spots (xs ++ a ∷ []) ≡ spots xs + held a
spots-last xs a = omega (arith, spots-append xs (a ∷ []))

-- A spot that was given up is one spot fewer.
Release-spots : (c : ℕ) (xs ys : List Attendee) → Release c xs ys → suc (spots ys) ≡ spots xs
Release-spots c _ _ (answers_away xs ys a b now status session q h p r) =
    ground (arith, spots-insert xs ys a, spots-insert xs ys b)
Release-spots c _ _ (gone xs ys a p) = ground (arith, spots-insert xs ys a)

answers-spots :
    (now : ℕ) (status : AttendeeStatus) (session : Session) (c n rest : ℕ) (a b : Attendee)
    → session.capacity ≡ some c
    → update_rsvp now status session n a ≡ ok b
    → n ≡ rest + held a
    → n ≤ c
    → rest + held b ≤ c
answers-spots now status session c n rest a b q h e l = elim (Bool-cases (hold_spot a.status)) [
  | inl t ↦ ground arith
  | inr f ↦ elim (Bool-cases (hold_spot b.status)) [
    | inl t ↦
        ground (arith, free-lt session c n q (update_rsvp-free now status session n a b h f t))
    | inr g ↦ ground arith
  ]
]

newcomer-spots :
    (session : Session) (c n : ℕ) (a : Attendee)
    → session.capacity ≡ some c
    → (hold_spot a.status ≡ true → has_capacity session n ≡ true)
    → n ≤ c
    → n + held a ≤ c
newcomer-spots session c n a q free l = elim (Bool-cases (hold_spot a.status)) [
  | inl t ↦ ground (arith, free-lt session c n q (free t))
  | inr f ↦ ground arith
]

Step-spots : (c : ℕ) (xs ys : List Attendee) → Step c xs ys → spots xs ≤ c → spots ys ≤ c
Step-spots c xs _ (joins a id now session g u status q n h) l = rw (spots-last xs a) (
    newcomer-spots session c (spots xs) a q
      (new_rsvp_manual_attendee-free id now session g u status (spots xs) a h n) l)
Step-spots c xs _ (accepts a id now session u q h) l = rw (spots-last xs a) (
    newcomer-spots session c (spots xs) a q
      (new_invited_attendee-free id now session u (spots xs) a h) l)
Step-spots c xs _ (requests id now session g u us) l = omega (
  arith,
  spots-last xs (new_requested_attendee id now session g u us),
  new_requested_attendee-held id now session g u us,
)
Step-spots c _ _ (answers xs ys a b now status session q h) l =
    rw (spots-insert xs ys b)
      (answers-spots now status session c _ (spots (xs ++ ys)) a b q h (spots-insert xs ys a) l)
Step-spots c _ _ (approved xs ys a b now session by role q free h) l = ground (
  arith,
  spots-insert xs ys a,
  spots-insert xs ys b,
  free-lt session c (spots (xs ++ a ∷ ys)) q free,
)
Step-spots c _ _ (rejected xs ys a b now session by role h) l =
    ground
      (arith, spots-insert xs ys a, spots-insert xs ys b, reject-held now session by role a b h)
Step-spots c _ _ (leaves xs ys a) l = ground (arith, spots-insert xs ys a)
Step-spots c xs ys (releases r) l = omega (arith, Release-spots c xs ys r)
Step-spots c xs _ (releases_to ys zs a b now r h) l =
    let (p, q) = promote-held now a b h in
    omega
      (arith, Release-spots c xs (ys ++ a ∷ zs) r, spots-insert ys zs a, spots-insert ys zs b, p, q)

Reach-spots : (c : ℕ) (xs ys : List Attendee) → Reach c xs ys → spots xs ≤ c → spots ys ≤ c
Reach-spots c xs _ here l = l
Reach-spots c xs ys (next {mid} r s) l = Step-spots c mid ys s (Reach-spots c xs mid r l)

spots_of-first_going : (n : ℕ) (us : List ℕ) → spots_of (first_going n us) ≤ n
unfolding hold_spot
spots_of-first_going n [] = omega arith
spots_of-first_going zero (u ∷ us) = spots_of-first_going zero us
spots_of-first_going (suc n) (u ∷ us) = omega (arith, spots_of-first_going n us)

-- A session that is created with a capacity, and whose attendees then answer (nobody's first answer
-- is that they are promoted), ask, accept invites, are approved while there is room, are rejected,
-- leave, or are promoted when a spot is given up, in any order, never has more of them confirmed
-- than its capacity, while that stays as it is.
pub Reach-capacity :
    (ids : ℕ → ℕ) (id now c : ℕ) (input : SessionInput) (s : Session) (people later : List Attendee)
    → input.capacity ≡ some (pos c)
    → new_session ids id now input ≡ ok (s, people)
    → Reach c people later
    → spots later ≤ c
Reach-capacity ids id now c input s people later q h r =
    let (_, statuses) = new_session-attendees ids id now input s people h in
    Reach-spots c people later r (
      subst (λ x. spots_of x ≤ c)
        (sym (statuses ∙ ap (λ k. statuses_for (map_to_nat k) input.auto_attendee_ids) q))
        (spots_of-first_going c input.auto_attendee_ids))
