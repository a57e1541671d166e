-- ===== src/Activity/Draft/Counts.antt =====
-- How often a person stands in a draft: as a captain, as a pick, in a roster, among the available.
use rekreativko_api.Base.{
  ℕ, ◌+◌, ◌≤◌, ◌<◌, true, false, ◌==◌, ◌||◌, if◌then◌else◌, none, some, List, [], ◌∷◌, ◌++◌, hit,
  count, ◌≡◌, ◌≢◌, inl, inr, refl, arith, Bool-cases, Option-cases,
}
use rekreativko_api.Activity.Draft.State.{
  DraftPick, side_a, side_b, TeamDraft, captain_side, find_pick, delete_pick, is_captain, is_picked,
  available, side_picks, roster,
}

-- How often a person stands among the picks.
unfoldable pub count_picks : ℕ → List DraftPick → ℕ
count_picks u [] = 0
count_picks u (p ∷ ps) = hit p.user_id u + count_picks u ps

-- How often a person has a place in the draft.
unfoldable pub places : ℕ → TeamDraft → ℕ
places u d = hit d.captain_a u + hit d.captain_b u + count_picks u d.picks

pub count_picks-append :
    (u : ℕ) (ps : List DraftPick) (p : DraftPick)
    → count_picks u (ps ++ p ∷ []) ≡ count_picks u ps + hit p.user_id u
unfolding count_picks
count_picks-append u [] p = omega arith
count_picks-append u (q ∷ ps) p = omega (arith, count_picks-append u ps p)

pub find_pick-none : (u : ℕ) (ps : List DraftPick) → find_pick u ps ≡ none → count_picks u ps ≡ 0
unfolding find_pick count_picks
find_pick-none u [] h = refl
find_pick-none u (p ∷ ps) h = ground (arith, find_pick-none u ps)

pub find_pick-some :
    (u : ℕ) (ps : List DraftPick) (p : DraftPick)
    → find_pick u ps ≡ some p
    → (p.user_id ≡ u) × (0 < count_picks u ps)
unfolding find_pick count_picks
find_pick-some u [] p h = cc
find_pick-some u (q ∷ ps) p h = ground (arith, find_pick-some u ps p)

pub count_picks-delete :
    (u v : ℕ) (ps : List DraftPick) (p : DraftPick)
    → find_pick u ps ≡ some p
    → count_picks v (delete_pick u ps) + hit u v ≡ count_picks v ps
unfolding find_pick delete_pick count_picks
count_picks-delete u v [] p h = cc
count_picks-delete u v (q ∷ ps) p h = ground (arith, count_picks-delete u v ps p)

-- Whoever has no place in the draft is neither a captain nor picked, and the other way round.
pub no_place :
    (d : TeamDraft) (u : ℕ)
    → u ≢ 0
    → ((is_captain d u || is_picked d u) ≡ false → places u d ≡ 0)
      × ((is_captain d u || is_picked d u) ≡ true → 0 < places u d)
unfolding captain_side places
no_place d u h = elim (Option-cases (find_pick u d.picks)) [
  | inl e ↦ ground (arith, find_pick-none u d.picks e)
  | inr (p, e) ↦ ground (arith, find_pick-some u d.picks p e)
]

pub count-available-le :
    (d : TeamDraft) (xs : List ℕ) (u : ℕ) → count u (available d xs) ≤ count u xs
unfolding available
count-available-le d [] u = omega arith
count-available-le d (x ∷ xs) u = ground (arith, count-available-le d xs u)

-- The available are the people going who have no place yet.
pub count-available :
    (d : TeamDraft) (xs : List ℕ) (u : ℕ)
    → u ≢ 0
    → count u (available d xs) ≡ (if places u d == 0 then count u xs else 0)
unfolding available
count-available d [] u h = ground arith
count-available d (x ∷ xs) u h = elim (Bool-cases (x == u)) [
  | inl same ↦ ground (arith, count-available d xs u h, no_place d u h)
  | inr other ↦ ground (arith, count-available d xs u h)
]

count-side_picks :
    (u : ℕ) (ps : List DraftPick)
    → count u (side_picks side_a ps) + count u (side_picks side_b ps) ≡ count_picks u ps
unfolding side_picks count_picks
count-side_picks u [] = refl
count-side_picks u (p ∷ ps) = ground (arith, count-side_picks u ps)

-- The two rosters hold everybody with a place, as often.
pub count-roster :
    (d : TeamDraft) (u : ℕ)
    → u ≢ 0
    → count u (roster d side_a) + count u (roster d side_b) ≡ places u d
unfolding roster places
count-roster d u h = ground (arith, count-side_picks u d.picks)
