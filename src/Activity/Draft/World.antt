-- ===== src/Activity/Draft/World.antt =====
-- A draft beside the people who are going, and what can happen to the two: calls of the draft's
-- operations, people who join and people who leave.
use rekreativko_api.Base.{
  ℕ, suc, ◌≤◌, ℤ, true, false, List, [], ◌∷◌, ◌++◌, count, count-append, ◌≡◌, ◌≢◌, arith, ok,
  Bool-cases, if_ind, inl, inr,
}
use rekreativko_api.Activity.Member.{MemberRole}
use rekreativko_api.Activity.Session.{Session}
use rekreativko_api.Activity.Draft.State.{
  TeamDraft, completed, is_running, DraftCancelReason, session_ended, by_organizer,
}
use rekreativko_api.Activity.Draft.Operations.{pick, replace_captain, cancel_draft}
use rekreativko_api.Activity.Draft.Endings.{attendee_left, cancel, reset, end_with_session}
use rekreativko_api.Activity.Draft.Soundness.{IsSound, pick-Done, replace_captain-Done}
use rekreativko_api.Activity.Draft.Picking.{cancel-ok}
use rekreativko_api.Activity.Draft.Leaving.{
  Left, attendee_left-Done, cancel_draft-IsSound, cancel_draft-ne-completed, bump-IsSound,
}

pub record World : Type 0 where
  pub draft : TeamDraft
  pub going : List ℕ

-- `AttendeeLeft` is called for everybody who stops going, with the people left; whoever joins is
-- not told to the draft.
pub data Step (w : World) : World → Type 0 where
  joins : (u : ℕ) → u ≢ 0 → count u w.going ≡ 0 → Step w (record w { going = w.going ++ u ∷ [] })
  leaves :
      (now u : ℕ) (c : List ℕ)
      → u ≢ 0
      → Left u w.going c
      → Step w (record { draft = attendee_left now u c w.draft; going = c })
  picks :
      (now : ℕ) (s : Session) (captain_id u : ℕ) (e : TeamDraft)
      → pick now s captain_id u w.going w.draft ≡ ok e
      → Step w (record w { draft = e })
  replaces :
      (now : ℕ) (s : Session) (by : ℕ) (role : MemberRole) (side : ℤ) (u : ℕ) (e : TeamDraft)
      → replace_captain now s by role side u w.going w.draft ≡ ok e
      → Step w (record w { draft = e })
  cancels :
      (now : ℕ) (s : Session) (by : ℕ) (role : MemberRole) (e : TeamDraft)
      → cancel now s by role w.going w.draft ≡ ok e
      → Step w (record w { draft = e })
  resets :
      (now : ℕ) (reason : DraftCancelReason) (by : ℕ)
      → Step w (record w { draft = reset now reason by w.draft })
  ends : (now by : ℕ) → Step w (record w { draft = end_with_session now by w.draft })

pub data Reach (w : World) : World → Type 0 where
  here : Reach w w
  next : {v x : World} → Reach w v → Step v x → Reach w x

-- The draft is sound for the people who are going, each of whom is listed once.
pub record IsSoundWorld (w : World) : Type 0 where
  pub sound : IsSound w.draft w.going
  pub each_once : (u : ℕ) → count u w.going ≤ 1
  pub no_nil : count 0 w.going ≡ 0

grow-IsSound : (u : ℕ) (c : List ℕ) (d : TeamDraft) → IsSound d c → IsSound d (c ++ u ∷ [])
grow-IsSound u c d s = record {
  once = s.once;
  going = λ v n r p. omega (arith, s.going v n r p, count-append v c (u ∷ []));
  seated = s.seated;
  vacancy = s.vacancy;
}

-- A draft that no longer runs is sound for everybody else too.
ended-IsSound : (b c : List ℕ) (d : TeamDraft) → is_running d ≡ false → IsSound d b → IsSound d c
ended-IsSound b c d r s = record {
  once = s.once;
  going = λ v n q p. cc;
  seated = s.seated;
  vacancy = s.vacancy;
}

leave-IsSound :
    (now u : ℕ) (b c : List ℕ) (d : TeamDraft)
    → IsSound d b
    → Left u b c
    → u ≢ 0
    → IsSound (attendee_left now u c d) c
unfolding attendee_left
leave-IsSound now u b c d s l z = elim (Bool-cases (is_running d)) [
  | inl r ↦ (attendee_left-Done now u b c d s l z r).0
  | inr r ↦ rw r (ended-IsSound b c d r s)
]

-- What the calls that end a draft share: it is cancelled if it runs, and left alone if not.
stop-IsSound :
    (now : ℕ) (reason : DraftCancelReason) (by : ℕ) (ps c : List ℕ) (d : TeamDraft)
    → IsSound d c
    → IsSound (cancel_draft now reason by ps (record d { version = suc d.version })) c
stop-IsSound now reason by ps c d s =
    cancel_draft-IsSound now reason by ps c c _ (bump-IsSound (suc d.version) c d s)

pub cancel-IsSound :
    (now : ℕ) (session : Session) (by : ℕ) (role : MemberRole) (c : List ℕ) (d e : TeamDraft)
    → cancel now session by role c d ≡ ok e
    → IsSound d c
    → IsSound e c × (e.status ≢ completed)
cancel-IsSound now session by role c d e h s = rw (cancel-ok now session by role c d e h) (
  stop-IsSound now by_organizer by c c d s,
  cancel_draft-ne-completed now by_organizer by c (record d { version = suc d.version }),
)

reset-IsSound :
    (now : ℕ) (reason : DraftCancelReason) (by : ℕ) (c : List ℕ) (d : TeamDraft)
    → IsSound d c
    → IsSound (reset now reason by d) c
unfolding reset
reset-IsSound now reason by c d s =
    if_ind (λ e. IsSound e c) (is_running d) _ _ (stop-IsSound now reason by [] c d s) s

end-IsSound :
    (now by : ℕ) (c : List ℕ) (d : TeamDraft) → IsSound d c → IsSound (end_with_session now by d) c
unfolding end_with_session
end-IsSound now by c d s =
    if_ind (λ e. IsSound e c) (is_running d) _ _ (stop-IsSound now session_ended by [] c d s) s

pub reset-ne-completed :
    (now : ℕ) (reason : DraftCancelReason) (by : ℕ) (d : TeamDraft)
    → is_running d ≡ true
    → (reset now reason by d).status ≢ completed
unfolding reset
reset-ne-completed now reason by d r =
    rw r (cancel_draft-ne-completed now reason by [] (record d { version = suc d.version }))

pub end-ne-completed :
    (now by : ℕ) (d : TeamDraft)
    → is_running d ≡ true
    → (end_with_session now by d).status ≢ completed
unfolding end_with_session
end-ne-completed now by d r =
    rw r (cancel_draft-ne-completed now session_ended by [] (record d { version = suc d.version }))

pub Step-IsSoundWorld : {w x : World} → Step w x → IsSoundWorld w → IsSoundWorld x
Step-IsSoundWorld {w} (joins u n z) v = record {
  sound = grow-IsSound u w.going w.draft v.sound;
  each_once = λ a. ground (arith, v.each_once a, count-append a w.going (u ∷ []));
  no_nil = ground (arith, v.no_nil, count-append 0 w.going (u ∷ []));
}
Step-IsSoundWorld {w} (leaves now u c n l) v = record {
  sound = leave-IsSound now u w.going c w.draft v.sound l n;
  each_once = λ a. omega (arith, v.each_once a, l a);
  no_nil = omega (arith, v.no_nil, l 0);
}
Step-IsSoundWorld {w} (picks now s by u e h) v = record {
  sound = (pick-Done now s by u w.going w.draft e v.sound h).0;
  each_once = v.each_once;
  no_nil = v.no_nil;
}
Step-IsSoundWorld {w} (replaces now s by role side u e h) v = record {
  sound = (replace_captain-Done now s by role side u w.going w.draft e v.sound v.no_nil h).0;
  each_once = v.each_once;
  no_nil = v.no_nil;
}
Step-IsSoundWorld {w} (cancels now s by role e h) v = record {
  sound = (cancel-IsSound now s by role w.going w.draft e h v.sound).0;
  each_once = v.each_once;
  no_nil = v.no_nil;
}
Step-IsSoundWorld {w} (resets now reason by) v = record {
  sound = reset-IsSound now reason by w.going w.draft v.sound;
  each_once = v.each_once;
  no_nil = v.no_nil;
}
Step-IsSoundWorld {w} (ends now by) v = record {
  sound = end-IsSound now by w.going w.draft v.sound;
  each_once = v.each_once;
  no_nil = v.no_nil;
}
