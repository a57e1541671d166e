-- ===== src/Activity/Draft/Progress.antt =====
-- How picks bring a draft to its end.
use rekreativko_api.Base.{
  ℕ, zero, suc, ◌+◌, ◌≤◌, true, ◌==◌, ◌||◌, if◌then◌else◌, none, some, List, [], ◌∷◌, ◌++◌, count,
  contains, contains-count, length, ◌≡◌, refl, arith, ok, Option-cases, inl, inr, ==_self,
}
use rekreativko_api.Activity.Session.{Session, require_teams_changeable}
use rekreativko_api.Activity.Draft.State.{
  TeamDraft, DraftPick, DraftSide, side_a, side_b, active, completed, available, find_pick,
  is_picked, captain, captain_side, current_side,
}
use rekreativko_api.Activity.Draft.Operations.{settle, with_pick, pick}
use rekreativko_api.Activity.Draft.Counts.{places, count-available-le}
use rekreativko_api.Activity.Draft.Settling.{is_nil, settle-Settled, available-frame}
use rekreativko_api.Activity.Draft.Picking.{pick_iff}
use rekreativko_api.Activity.Draft.Soundness.{IsSound, pick-Done}

picked-append :
    (u : ℕ) (ps : List DraftPick) (p : DraftPick)
    → find_pick u ps ≡ none
    → find_pick u (ps ++ p ∷ []) ≡ (if p.user_id == u then some p else none)
unfolding find_pick
picked-append u [] p h = refl
picked-append u (q ∷ ps) p h = ground (arith, picked-append u ps p)

picked-append_some :
    (u : ℕ) (ps : List DraftPick) (p q : DraftPick)
    → find_pick u ps ≡ some q
    → find_pick u (ps ++ p ∷ []) ≡ some q
unfolding find_pick
picked-append_some u [] p q h = cc
picked-append_some u (r ∷ ps) p q h = ground (arith, picked-append_some u ps p q)

is_picked-with_pick :
    (now : ℕ) (side : DraftSide) (by u x : ℕ) (d : TeamDraft)
    → is_picked (with_pick now side by u d) x ≡ (is_picked d x || u == x)
unfolding with_pick
is_picked-with_pick now side by u x d =
    let p : DraftPick = record {
      pick_number = d.turn;
      side = side;
      user_id = u;
      picked_at = now;
    } in
    elim (Option-cases (find_pick x d.picks)) [
      | inl e ↦ ground (arith, picked-append x d.picks p)
      | inr (q, e) ↦ ground (arith, picked-append_some x d.picks p q)
    ]

captain_side-with_pick :
    (now : ℕ) (side : DraftSide) (by u x : ℕ) (d : TeamDraft)
    → captain_side (with_pick now side by u d) x ≡ captain_side d x
unfolding captain_side with_pick
captain_side-with_pick now side by u x d = refl

length-available-with_pick :
    (now : ℕ) (side : DraftSide) (by u : ℕ) (d : TeamDraft) (xs : List ℕ)
    → length (available (with_pick now side by u d) xs) + count u (available d xs)
      ≡ length (available d xs)
unfolding available
length-available-with_pick now side by u d [] = refl
length-available-with_pick now side by u d (x ∷ xs) = ground (
  arith,
  length-available-with_pick now side by u d xs,
  is_picked-with_pick now side by u x d,
  captain_side-with_pick now side by u x d,
)

captain_side-captain :
    (d : TeamDraft) (c : List ℕ)
    → IsSound d c
    → d.status ≡ active
    → (side : DraftSide) → captain_side d (captain d side) ≡ some side
unfolding captain_side places
captain_side-captain d c s a side_a = ground (arith, s.seated a)
captain_side-captain d c s a side_b = ground (arith, s.seated a, s.once d.captain_a)

-- A successful pick of somebody who is listed once leaves one person fewer to pick, moves on to the
-- next turn and version, and completes the draft if nobody is left, else keeps it active.
pub pick_effect :
    (now : ℕ) (session : Session) (by u : ℕ) (c : List ℕ) (d e : TeamDraft)
    → pick now session by u c d ≡ ok e
    → count u c ≤ 1
    → (suc (length (available e c)) ≡ length (available d c))
      × (e.turn ≡ suc d.turn)
      × (e.version ≡ suc d.version)
      × (e.status ≡ (if is_nil (available e c) then completed else active))
unfolding with_pick
pick_effect now session by u c d e h o =
    let (a, _, _, free, w) = (pick_iff now session by u c d e).0 h in
    let p = with_pick now (current_side d) by u d in
    let f = settle-Settled now c true p in
    let same = available-frame p (settle now c true p) c f.same_a f.same_b f.same_picks in
    ground (
      arith,
      a,
      w,
      f,
      same,
      length-available-with_pick now (current_side d) by u d c,
      contains-count u (available d c) free,
      count-available-le d c u,
    )

-- `n` picks one after the other, with the same people going, that lead to `f`.
pub data Picks (c : List ℕ) (f : TeamDraft) : ℕ → TeamDraft → Type 0 where
  stop : Picks c f zero f
  pick_then :
      {n : ℕ} {d e : TeamDraft} (now : ℕ) (session : Session) (by u : ℕ)
      → pick now session by u c d ≡ ok e
      → Picks c f n e
      → Picks c f (suc n) d

-- Where nobody is listed twice among the people going, each of a sequence of successful picks
-- leaves one person fewer available, so no sequence is longer than the people available at first.
pub Picks-count :
    {c : List ℕ} {f d : TeamDraft} {n : ℕ}
    → ((u : ℕ) → count u c ≤ 1)
    → Picks c f n d
    → n + length (available f c) ≡ length (available d c)
Picks-count o stop = omega arith
Picks-count {c} o (pick_then {d} {e} now session by u h rest) =
    omega (arith, Picks-count o rest, (pick_effect now session by u c d e h (o u)).0)

-- The captain whose turn it is can take anybody who is available.
pub can_pick :
    (now : ℕ) (session : Session) (u : ℕ) (c : List ℕ) (d : TeamDraft)
    → IsSound d c
    → d.status ≡ active
    → require_teams_changeable session ≡ ok tt
    → contains (available d c) u ≡ true
    → (e : TeamDraft) × (pick now session (captain d (current_side d)) u c d ≡ ok e)
can_pick now session u c d s a q h =
    let by = captain d (current_side d) in
    let e = settle now c true (with_pick now (current_side d) by u d) in
    (
      e,
      (pick_iff now session by u c d e).1
          (a, q, captain_side-captain d c s a (current_side d), h, refl),
    )

somebody : (n : ℕ) (xs : List ℕ) → length xs ≡ suc n → (u : ℕ) × (contains xs u ≡ true)
somebody n [] h = absurd (omega arith)
somebody n (x ∷ xs) h = (x, ground (arith, ==_self x))

is_nil-length : (xs : List ℕ) → is_nil xs ≡ (length xs == 0)
is_nil-length [] = refl
is_nil-length (x ∷ xs) = ground arith

-- A sound, active draft of a session whose teams may change, with everybody going listed once and
-- somebody left to pick, can be brought to its end: there are as many successful picks as people
-- available, and the last of them completes the draft.
pub can_finish :
    (session : Session) (c : List ℕ) (n : ℕ) (d : TeamDraft)
    → ((u : ℕ) → count u c ≤ 1)
    → require_teams_changeable session ≡ ok tt
    → IsSound d c
    → d.status ≡ active
    → length (available d c) ≡ suc n
    → (f : TeamDraft) × Picks c f (suc n) d × (f.status ≡ completed)
can_finish session c zero d o q s a l =
    let (u, free) = somebody zero (available d c) l in
    let (e, h) = can_pick 0 session u c d s a q free in
    let (shorter, _, _, status) = pick_effect 0 session _ u c d e h (o u) in
    (e, pick_then 0 session _ u h stop, ground (arith, is_nil-length (available e c)))
can_finish session c (suc n) d o q s a l =
    let (u, free) = somebody (suc n) (available d c) l in
    let (e, h) = can_pick 0 session u c d s a q free in
    let (shorter, _, _, status) = pick_effect 0 session _ u c d e h (o u) in
    let (f, rest, done) =
      can_finish session c n e o q (pick-Done 0 session _ u c d e s h).0
        (ground (arith, is_nil-length (available e c))) (omega arith) in
    (f, pick_then 0 session _ u h rest, done)
