-- ===== src/Activity/Draft/Soundness.antt =====
-- A sound draft beside the people who are going, under its operations.
use rekreativko_api.Base.{
  ℕ, ◌+◌, ◌≤◌, ◌<◌, ℤ, Bool, true, ◌==◌, List, hit, count, contains, ◌≡◌, ◌≢◌, ◌⊎◌, inl, inr, arith,
  ok, contains-count, Option-cases, if_ind,
}
use rekreativko_api.Activity.Member.{MemberRole}
use rekreativko_api.Activity.Session.{Session}
use rekreativko_api.Activity.Draft.State.{
  TeamDraft, DraftSide, DraftPick, active, paused, completed, side_a, side_b, available, is_running,
  find_pick, captain, other_side, current_side,
}
use rekreativko_api.Activity.Draft.Operations.{
  settle, with_pick, with_captain, seat_captain, pick, replace_captain, promote,
}
use rekreativko_api.Activity.Draft.Counts.{
  count_picks, places, count_picks-append, count_picks-delete, count-available,
}
use rekreativko_api.Activity.Draft.Settling.{is_nil, settle-Settled}
use rekreativko_api.Activity.Draft.Picking.{pick_iff, replace_on-ok, replace_captain-ok}

-- Nobody has two places; while the draft runs, whoever has a place is going; an active draft has
-- both captains, and a paused one lacks one.
pub record IsSound (d : TeamDraft) (c : List ℕ) : Type 0 where
  pub once : (u : ℕ) → u ≢ 0 → places u d ≤ 1
  pub going : (u : ℕ) → u ≢ 0 → is_running d ≡ true → 0 < places u d → 0 < count u c
  pub seated : d.status ≡ active → (d.captain_a ≢ 0) × (d.captain_b ≢ 0)
  pub vacancy : d.status ≡ paused → (d.captain_a ≡ 0) ⊎ (d.captain_b ≡ 0)

-- The same of a draft that may still have to be settled.
settle-IsSound :
    (now : ℕ) (c : List ℕ) (announce : Bool) (d : TeamDraft)
    → IsSound d c
    → IsSound (settle now c announce d) c
unfolding places is_running
settle-IsSound now c announce d s =
    let f = settle-Settled now c announce d in
    record {
      once = λ u h. ground (arith, f, s.once u h);
      going = λ u h r p. ground (arith, f, s.going u h);
      seated = ground (arith, f, s.seated);
      vacancy = ground (arith, f, s.vacancy);
    }

places-with_pick :
    (now : ℕ) (side : DraftSide) (captain_id user_id : ℕ) (d : TeamDraft) (u : ℕ)
    → places u (with_pick now side captain_id user_id d) ≡ places u d + hit user_id u
unfolding places with_pick
places-with_pick now side captain_id user_id d u = omega (
  arith,
  count_picks-append u d.picks
      (record { pick_number = d.turn; side = side; user_id = user_id; picked_at = now }),
)

available_place :
    (d : TeamDraft) (c : List ℕ) (u : ℕ)
    → u ≢ 0
    → 0 < count u (available d c)
    → (places u d ≡ 0) × (0 < count u c)
available_place d c u n h = ground (arith, count-available d c u n)

-- A pick takes somebody who is available, so has no place yet and is going.
with_pick-IsSound :
    (now : ℕ) (side : DraftSide) (captain_id user_id : ℕ) (c : List ℕ) (d : TeamDraft)
    → IsSound d c
    → 0 < count user_id (available d c)
    → IsSound (with_pick now side captain_id user_id d) c
unfolding is_running with_pick
with_pick-IsSound now side captain_id user_id c d s h = record {
  once = λ u n. ground (
    arith,
    s.once u n,
    places-with_pick now side captain_id user_id d u,
    available_place d c u n,
  );
  going = λ u n r p. ground (
    arith,
    s.going u n,
    places-with_pick now side captain_id user_id d u,
    available_place d c u n,
  );
  seated = ground (arith, s.seated);
  vacancy = ground (arith, s.vacancy);
}

-- Nobody is left to pick, and whoever has a place is going.
abbrev pub Finished : List ℕ → TeamDraft → Type 0
Finished c e = (is_nil (available e c) ≡ true) × ((u : ℕ) → u ≢ 0 → 0 < places u e → 0 < count u c)

-- After a call: the draft is sound, and finished if the call completed it.
abbrev pub Done : List ℕ → TeamDraft → Type 0
Done c e = IsSound e c × (e.status ≡ completed → Finished c e)

places-settle :
    (now : ℕ) (c : List ℕ) (announce : Bool) (d : TeamDraft) (u : ℕ)
    → places u (settle now c announce d) ≡ places u d
unfolding places
places-settle now c announce d u = ground (arith, settle-Settled now c announce d)

pub settle-Done :
    (now : ℕ) (c : List ℕ) (announce : Bool) (d : TeamDraft)
    → IsSound d c
    → is_running d ≡ true
    → Done c (settle now c announce d)
unfolding is_running
settle-Done now c announce d s r = (
  settle-IsSound now c announce d s,
  λ h. (
    ground (arith, settle-Settled now c announce d),
    λ u n p. s.going u n r (rw places-settle at p),
  ),
)

pub pick-Done :
    (now : ℕ) (session : Session) (captain_id user_id : ℕ) (c : List ℕ) (d e : TeamDraft)
    → IsSound d c
    → pick now session captain_id user_id c d ≡ ok e
    → Done c e
unfolding with_pick is_running
pick-Done now session captain_id user_id c d e s h =
    let (a, _, _, free, w) = (pick_iff now session captain_id user_id c d e).0 h in
    let more =
      with_pick-IsSound now (current_side d) captain_id user_id c d s
        (contains-count user_id (available d c) free) in
    rw w (
      settle-Done now c true (with_pick now (current_side d) captain_id user_id d) more
        (ground arith))

-- The picks after a promotion hold everybody as often, but the promoted, who lose that place.
promote-count :
    (side : DraftSide) (user_id : ℕ) (c : List ℕ) (d : TeamDraft) (picks : List DraftPick)
    → promote side user_id c d (find_pick user_id d.picks) ≡ ok picks
    → user_id ≢ 0
    → (u : ℕ)
    → ((picks ≡ d.picks) × (0 < count user_id (available d c)))
      ⊎ (count_picks u picks + hit user_id u ≡ count_picks u d.picks)
unfolding promote
promote-count side user_id c d picks h n u = elim (Option-cases (find_pick user_id d.picks)) [
  | inl e ↦ ground (arith, contains-count user_id (available d c))
  | inr (p, e) ↦ ground (arith, count_picks-delete user_id u d.picks p e)
]

places-with_captain :
    (side : DraftSide) (user_id by u : ℕ) (d : TeamDraft)
    → u ≢ 0
    → captain d side ≡ 0
    → places u (with_captain side user_id by d) ≡ places u d + hit user_id u
unfolding places with_captain
places-with_captain side_a user_id by u d n h = ground arith
places-with_captain side_b user_id by u d n h = ground arith

-- The new captain was available, or a pick of that side, so has one place after as before.
promoted_places :
    (side : DraftSide) (user_id by : ℕ) (c : List ℕ) (d : TeamDraft) (picks : List DraftPick)
    → IsSound d c
    → captain d side ≡ 0
    → user_id ≢ 0
    → promote side user_id c d (find_pick user_id d.picks) ≡ ok picks
    → (u : ℕ) → u ≢ 0
    → (places u (with_captain side user_id by (record d { picks = picks })) ≤ 1)
      × (places u (with_captain side user_id by (record d { picks = picks }))
          ≤ places u d + hit user_id u)
unfolding places
promoted_places side user_id by c d picks s v n m u h = ground (
  arith,
  s.once u h,
  promote-count side user_id c d picks m n u,
  places-with_captain side user_id by u (record d { picks = picks }) h,
  available_place d c user_id n,
)

seat_status :
    (side : DraftSide) (user_id by : ℕ) (d : TeamDraft)
    → d.status ≡ paused
    → user_id ≢ 0
    → let e = with_captain side user_id by d in
      (e.status ≡ active → (e.captain_a ≢ 0) × (e.captain_b ≢ 0))
      × (e.status ≡ paused → (e.captain_a ≡ 0) ⊎ (e.captain_b ≡ 0))
      × (is_running e ≡ true)
unfolding with_captain is_running
seat_status side_a user_id by d p n = ground arith
seat_status side_b user_id by d p n = ground arith

with_captain-IsSound :
    (side : DraftSide) (user_id by : ℕ) (c : List ℕ) (d : TeamDraft) (picks : List DraftPick)
    → IsSound d c
    → d.status ≡ paused
    → captain d side ≡ 0
    → user_id ≢ 0
    → 0 < count user_id c
    → promote side user_id c d (find_pick user_id d.picks) ≡ ok picks
    → IsSound (with_captain side user_id by (record d { picks = picks })) c
unfolding is_running
with_captain-IsSound side user_id by c d picks s p v n there m =
    let (live, stuck, _) = seat_status side user_id by (record d { picks = picks }) p n in
    record {
      once = λ u h. (promoted_places side user_id by c d picks s v n m u h).0;
      going = λ u h r q.
          ground (arith, s.going u h, promoted_places side user_id by c d picks s v n m u h);
      seated = live;
      vacancy = stuck;
    }

pub running-ne-completed : (d : TeamDraft) → is_running d ≡ true → d.status ≢ completed
unfolding is_running
running-ne-completed d h e = ground arith

seat_captain-Done :
    (now : ℕ) (side : DraftSide) (user_id by : ℕ) (c : List ℕ) (d : TeamDraft)
    → IsSound (with_captain side user_id by d) c
    → is_running (with_captain side user_id by d) ≡ true
    → Done c (seat_captain now side user_id by c d)
unfolding seat_captain
seat_captain-Done now side user_id by c d s h =
    if_ind (Done c) (captain d (other_side side) == 0) _ _
      (s, λ e. absurd (running-ne-completed (with_captain side user_id by d) h e))
      (settle-Done now c true (with_captain side user_id by d) s h)

not-nil : (c : List ℕ) (u : ℕ) → count 0 c ≡ 0 → contains c u ≡ true → u ≢ 0
not-nil c u z h e = ground (arith, contains-count u c h)

pub replace_captain-Done :
    (now : ℕ) (session : Session) (requester_id : ℕ) (role : MemberRole) (raw : ℤ) (user_id : ℕ)
    (c : List ℕ) (d e : TeamDraft)
    → IsSound d c
    → count 0 c ≡ 0
    → replace_captain now session requester_id role raw user_id c d ≡ ok e
    → Done c e
replace_captain-Done now session requester_id role raw user_id c d e s z h =
    let (side, _, p, _, h₁) =
      replace_captain-ok now session requester_id role raw user_id c d e h in
    let (picks, v, there, m, w) = replace_on-ok now requester_id user_id c d side e h₁ in
    let n : user_id ≢ 0 = λ q. not-nil c user_id z there q in
    let more =
      with_captain-IsSound side user_id requester_id c d picks s p v n
        (contains-count user_id c there) m in
    let (_, _, live) = seat_status side user_id requester_id (record d { picks = picks }) p n in
    rw w (seat_captain-Done now side user_id requester_id c (record d { picks = picks }) more live)
