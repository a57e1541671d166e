-- ===== src/Activity/Services/Fairness.antt =====
-- Runs of the commands of activity/internal/application/attendee_service.go on a session with a
-- capacity.
use rekreativko_api.Base.{
  ℕ, ◌≤◌, Bool, true, false, ◌&&◌, not, if◌then◌else◌, some, List, [], ◌∷◌, ◌++◌, ◌≡◌, sym, ap, ◌∙◌,
  subst, arith, inl, inr, Bool-cases, Option-cases,
}
use rekreativko_api.Activity.Session.{Session}
use rekreativko_api.Activity.Attendee.{
  AttendeeStatus, going, pending, not_going, maybe, promoted, unknown, hold_spot,
}
use rekreativko_api.Activity.Services.Store.{Store}
use rekreativko_api.Activity.Services.Commands.{
  Command, creates, approves, rejects, removes, assigns, unassigns, updates, cancels, run,
}
use rekreativko_api.Activity.Services.Board.{
  Place, Rules, find, is_absent, set_status, drop, taken, waits, asks, somebody_waits, move_up,
  answered, has_room, join, after, first_status, first_source, Plays, done, refused, accepted,
}
use rekreativko_api.Activity.Services.Rows.{places, is_keyed, keyed-distinct}
use rekreativko_api.Activity.Services.Refinement.{session_rules}
use rekreativko_api.Activity.Services.Implements.{run_refines}
use rekreativko_api.Activity.Services.Line.{taken-append, somebody_waits-append, distinct-append}
use rekreativko_api.Activity.Services.Waitlist.{
  is_answer, is_asked, all_asked, IsFair, answered-room, move_up-IsFair, drop-IsReleased,
  drop-IsFair, answer-IsReleased, answer-IsFair,
}

and_left : (a b : Bool) → a && b ≡ true → a ≡ true
and_left a b h = ground arith

and_right : (a b : Bool) → a && b ≡ true → b ≡ true
and_right a b h = ground arith

-- A newcomer has a spot only where there is room, and waits only where there is none.
newcomer-IsFair :
    (c : ℕ) (ps : List Place) (p : Place)
    → IsFair c ps
    → is_absent p.user ps ≡ true
    → (hold_spot p.status ≡ true → has_room (some c) (taken ps) ≡ true)
    → (waits p ≡ true → has_room (some c) (taken ps) ≡ false)
    → IsFair c (ps ++ p ∷ [])
newcomer-IsFair c ps p h new room no_room = record {
  distinct = distinct-append ps p h.distinct new;
  bounded = ground (arith, h.bounded, room, taken-append ps p);
  full = λ w. elim (Bool-cases (waits p)) [
    | inl t ↦ ground (arith, no_room t, taken-append ps p)
    | inr f ↦ ground (arith, h.full (somebody_waits-append ps p w f), taken-append ps p)
  ];
}

newcomer_status :
    (rules : Rules) (room : Bool) (u now : ℕ) (status : AttendeeStatus)
    → is_answer status ≡ true
    → (hold_spot (first_status rules room status) ≡ true → room ≡ true)
      × (waits (record {
        user = u;
        status = first_status rules room status;
        source = first_source rules status;
        since = now;
      })
            ≡ true
          → room ≡ false)
unfolding hold_spot
newcomer_status rules room u now going h = ground arith
newcomer_status rules room u now pending h = ground arith
newcomer_status rules room u now not_going h = ground arith
newcomer_status rules room u now maybe h = ground arith
newcomer_status rules room u now promoted h = ground arith
newcomer_status rules room u now (unknown s) h = ground arith

abbrev limited : ℕ → Bool → Rules
limited c by_approval = record { capacity = some c; by_approval = by_approval }

find-user : (u : ℕ) (ps : List Place) (p : Place) → find u ps ≡ some p → p.user ≡ u
find-user u [] p h = cc
find-user u (q ∷ ps) p h = ground (arith, find-user u ps p)

find_own : (u : ℕ) (ps : List Place) (p : Place) → find u ps ≡ some p → find p.user ps ≡ some p
find_own u ps p h = subst (λ v. find v ps ≡ some p) (sym (find-user u ps p h)) h

module _ (c : ℕ) (ps : List Place) (p : Place) (f : find p.user ps ≡ some p) (h : IsFair c ps) where
  approve-IsFair :
      IsFair c (if asks p && has_room (some c) (taken ps) then set_status p.user going ps else ps)
  unfolding hold_spot
  approve-IsFair = elim (Bool-cases (asks p && has_room (some c) (taken ps))) [
    | inr n ↦ rw n h
    | inl t ↦ rw t (
        answer-IsFair c p.user ps p f h going (λ x. ground arith) (λ x y. ground arith)
          (ground arith))
  ]

  reject-IsFair : IsFair c (if asks p then set_status p.user not_going ps else ps)
  unfolding hold_spot
  reject-IsFair = elim (Bool-cases (asks p)) [
    | inr n ↦ rw n h
    | inl t ↦ rw t (
        answer-IsFair c p.user ps p f h not_going (λ x. ground arith) (λ x y. ground arith)
          (ground arith))
  ]

  leave-IsFair : IsFair c (move_up (hold_spot p.status) (drop p.user ps))
  leave-IsFair =
      move_up-IsFair c (hold_spot p.status) (drop p.user ps) (drop-IsReleased c p.user ps p f h)
        (drop-IsFair c p.user ps p f h)

  remove-IsFair : IsFair c (if hold_spot p.status then move_up true (drop p.user ps) else ps)
  remove-IsFair = elim (Bool-cases (hold_spot p.status)) [
    | inr n ↦ rw n h
    | inl t ↦ rw t (subst (λ x. IsFair c (move_up x (drop p.user ps))) t leave-IsFair)
  ]

  reply-IsFair :
      (status : AttendeeStatus)
      → is_answer status ≡ true
      → let new = answered (has_room (some c) (taken ps)) status p.status in
        IsFair c (move_up (hold_spot p.status && not (hold_spot new)) (set_status p.user new ps))
  reply-IsFair status q =
      let new : AttendeeStatus = answered (has_room (some c) (taken ps)) status p.status in
      let (no_room, room) = answered-room (has_room (some c) (taken ps)) status p.status q in
      move_up-IsFair c (hold_spot p.status && not (hold_spot new)) (set_status p.user new ps)
        (answer-IsReleased c p.user ps p f h new no_room)
        (answer-IsFair c p.user ps p f h new no_room room)

after-IsFair :
    (c : ℕ) (g : Bool) (x : Command) (ps : List Place)
    → is_asked x ≡ true
    → IsFair c ps
    → IsFair c (after (limited c g) x ps)
unfolding after join
after-IsFair c g (creates id now u status) ps q h = elim (Bool-cases (is_absent u ps)) [
  | inr f ↦ rw f h
  | inl t ↦
      let (room, no_room) =
        newcomer_status (limited c g) (has_room (some c) (taken ps)) u now status q in
      rw t (newcomer-IsFair c ps _ h t room no_room)
]
after-IsFair c g (approves now u by role) ps q h = elim (Option-cases (find u ps)) [
  | inl n ↦ rw n h
  | inr (p, f) ↦ rw f (approve-IsFair c ps p (find_own u ps p f) h)
]
after-IsFair c g (rejects now u by role) ps q h = elim (Option-cases (find u ps)) [
  | inl n ↦ rw n h
  | inr (p, f) ↦ rw f (reject-IsFair c ps p (find_own u ps p f) h)
]
after-IsFair c g (removes now u by role) ps q h = elim (Option-cases (find u ps)) [
  | inl n ↦ rw n h
  | inr (p, f) ↦ rw f (remove-IsFair c ps p (find_own u ps p f) h)
]
after-IsFair c g (assigns now u team by role) ps q h = h
after-IsFair c g (unassigns now u by role) ps q h = h
after-IsFair c g (updates now u status) ps q h = elim (Option-cases (find u ps)) [
  | inl n ↦ rw n h
  | inr (p, f) ↦ rw f (reply-IsFair c ps p (find_own u ps p f) h status q)
]
after-IsFair c g (cancels now u) ps q h = elim (Option-cases (find u ps)) [
  | inl n ↦ rw n h
  | inr (p, f) ↦ rw f (leave-IsFair c ps p (find_own u ps p f) h)
]

play-IsFair :
    (c : ℕ) (g : Bool) (cs : List Command) (ps qs : List Place)
    → all_asked cs ≡ true
    → Plays (limited c g) cs ps qs
    → IsFair c ps
    → IsFair c qs
play-IsFair c g [] ps _ q done h = h
play-IsFair c g (x ∷ cs) ps qs q (refused r) h =
    play-IsFair c g cs ps qs (and_right (is_asked x) (all_asked cs) q) r h
play-IsFair c g (x ∷ cs) ps qs q (accepted r) h =
    play-IsFair c g cs _ qs (and_right (is_asked x) (all_asked cs) q) r
      (after-IsFair c g x ps (and_left (is_asked x) (all_asked cs) q) h)

-- From a session with a capacity, no more confirmed attendees than that, and nobody in the waitlist
-- unless all spots are taken, any run of the commands with the answers that the API lets through ends
-- in one: at most the capacity confirmed, no spot idle while somebody waits, and nobody there twice.
pub run-IsFair :
    (c : ℕ) (cs : List Command) (w : Store) (s : Session)
    → w.session ≡ some s
    → s.capacity ≡ some c
    → is_keyed w.attendees ≡ true
    → all_asked cs ≡ true
    → taken (places w.attendees) ≤ c
    → (somebody_waits (places w.attendees) ≡ true → c ≤ taken (places w.attendees))
    → IsFair c (places (run cs w).attendees)
run-IsFair c cs w s e q k asked bounded full =
    let rules : session_rules w.session ≡ some (limited c s.requires_approval) =
      ap session_rules e
      ∙ ap (λ x. some (record { capacity = x; by_approval = s.requires_approval })) q in
    let (p, _, _) = run_refines cs w (limited c s.requires_approval) k rules in
    play-IsFair c s.requires_approval cs _ _ asked p
      (record { distinct = keyed-distinct w.attendees k; bounded = bounded; full = full })
