-- ===== src/Activity/Draft/Leaving.antt =====
-- A sound draft when somebody stops going, or when it is called off.
use rekreativko_api.Base.{
  ℕ, suc, ◌+◌, ◌≤◌, true, false, Option, none, some, List, hit, count, length, ◌≡◌, ◌≢◌, inl, inr,
  refl, arith, Option-cases, if_ind,
}
use rekreativko_api.Activity.Team.{has_enough_players}
use rekreativko_api.Activity.Draft.State.{
  TeamDraft, DraftSide, DraftPick, completed, side_a, side_b, is_running, find_pick, captain_side,
  DraftCancelReason, too_few_players,
}
use rekreativko_api.Activity.Draft.Operations.{cancel_draft}
use rekreativko_api.Activity.Draft.Endings.{drop_picked, left_from, attendee_left}
use rekreativko_api.Activity.Draft.Counts.{places, count_picks-delete, find_pick-none}
use rekreativko_api.Activity.Draft.Soundness.{IsSound, Done, settle-Done}

-- `c` is `b` without one person who has left.
abbrev pub Left : (u : ℕ) → (b c : List ℕ) → Type 0
Left u b c = (v : ℕ) → count v c + hit u v ≡ count v b

pub cancel_draft-IsSound :
    (now : ℕ) (reason : DraftCancelReason) (by : ℕ) (ps b c : List ℕ) (d : TeamDraft)
    → IsSound d b
    → IsSound (cancel_draft now reason by ps d) c
unfolding is_running cancel_draft places
cancel_draft-IsSound now reason by ps b c d s = record {
  once = λ u h. s.once u h;
  going = λ u h r q. cc;
  seated = λ e. cc;
  vacancy = λ e. cc;
}

captain-Left-IsSound :
    (now u : ℕ) (side : DraftSide) (b c : List ℕ) (d : TeamDraft)
    → IsSound d b
    → Left u b c
    → is_running d ≡ true
    → captain_side d u ≡ some side
    → IsSound (left_from now u c d (some side)) c
unfolding is_running left_from places captain_side
captain-Left-IsSound now u side_a b c d s l r h = record {
  once = λ v n. ground (arith, s.once v n);
  going = λ v n q p. ground (arith, s.once v n, s.going v n, l v);
  seated = ground arith;
  vacancy = ground arith;
}
captain-Left-IsSound now u side_b b c d s l r h = record {
  once = λ v n. ground (arith, s.once v n);
  going = λ v n q p. ground (arith, s.once v n, s.going v n, l v);
  seated = ground arith;
  vacancy = ground arith;
}

-- Whoever is dropped has no place left, and nobody gains one.
dropped_places :
    (u : ℕ) (d : TeamDraft)
    → u ≢ 0
    → places u d ≤ 1
    → captain_side d u ≡ none
    → (v : ℕ)
    → (places v (drop_picked u d (find_pick u d.picks)) ≤ places v d)
      × (u ≡ v → places v (drop_picked u d (find_pick u d.picks)) ≡ 0)
unfolding drop_picked places captain_side
dropped_places u d z o h v = elim (Option-cases (find_pick u d.picks)) [
  | inl e ↦ ground (arith, find_pick-none u d.picks)
  | inr (p, e) ↦ ground (arith, count_picks-delete u v d.picks p e)
]

drop_picked-frame :
    (u : ℕ) (d : TeamDraft) (o : Option DraftPick)
    → let e = drop_picked u d o in
      (e.status ≡ d.status) × (e.captain_a ≡ d.captain_a) × (e.captain_b ≡ d.captain_b)
unfolding drop_picked
drop_picked-frame u d o = ground arith

drop_picked-IsSound :
    (u : ℕ) (b c : List ℕ) (d : TeamDraft)
    → IsSound d b
    → Left u b c
    → u ≢ 0
    → captain_side d u ≡ none
    → IsSound (drop_picked u d (find_pick u d.picks)) c
unfolding is_running
drop_picked-IsSound u b c d s l z h =
    let f = drop_picked-frame u d (find_pick u d.picks) in
    record {
      once = λ v n. ground (arith, s.once v n, dropped_places u d z (s.once u z) h v);
      going = λ v n q p. ground (arith, s.going v n, l v, dropped_places u d z (s.once u z) h v);
      seated = ground (arith, s.seated);
      vacancy = ground (arith, s.vacancy);
    }

left_from-Done :
    (now u : ℕ) (b c : List ℕ) (d : TeamDraft) (o : Option DraftSide)
    → IsSound d b
    → Left u b c
    → u ≢ 0
    → is_running d ≡ true
    → captain_side d u ≡ o
    → Done c (left_from now u c d o)
unfolding left_from is_running
left_from-Done now u b c d none s l z r h =
    settle-Done now c false (drop_picked u d (find_pick u d.picks))
      (drop_picked-IsSound u b c d s l z h)
      (ground (arith, drop_picked-frame u d (find_pick u d.picks)))
left_from-Done now u b c d (some side_a) s l z r h =
    (captain-Left-IsSound now u side_a b c d s l r h, λ e. absurd (cc))
left_from-Done now u b c d (some side_b) s l z r h =
    (captain-Left-IsSound now u side_b b c d s l r h, λ e. absurd (cc))

-- The version number plays no part.
pub bump-IsSound :
    (version : ℕ) (c : List ℕ) (d : TeamDraft)
    → IsSound d c
    → IsSound (record d { version = version }) c
unfolding places is_running
bump-IsSound version c d s = record {
  once = s.once;
  going = s.going;
  seated = s.seated;
  vacancy = s.vacancy;
}

pub cancel_draft-ne-completed :
    (now : ℕ) (reason : DraftCancelReason) (by : ℕ) (ps : List ℕ) (d : TeamDraft)
    → (cancel_draft now reason by ps d).status ≢ completed
unfolding cancel_draft
cancel_draft-ne-completed now reason by ps d e = cc

-- After `AttendeeLeft` the draft is sound for the people who are left; if that completed it,
-- nobody is left to pick.
pub attendee_left-Done :
    (now u : ℕ) (b c : List ℕ) (d : TeamDraft)
    → IsSound d b
    → Left u b c
    → u ≢ 0
    → is_running d ≡ true
    → Done c (attendee_left now u c d)
unfolding attendee_left
attendee_left-Done now u b c d s l z r =
    let e = record d { version = suc d.version } in
    let s' = bump-IsSound (suc d.version) b d s in
    rw r (
      if_ind (Done c) (has_enough_players d.team_config (length c)) _ _
        (left_from-Done now u b c e (captain_side e u) s' l z (unfold is_running in r) refl)
        (
          cancel_draft-IsSound now too_few_players 0 c b c e s',
          λ h. absurd (cancel_draft-ne-completed now too_few_players 0 c e h),
        ))
