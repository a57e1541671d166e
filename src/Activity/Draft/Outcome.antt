-- ===== src/Activity/Draft/Outcome.antt =====
-- How a draft starts and how it ends.
use rekreativko_api.Base.{
  ℕ, ◌≤◌, pos, Bool, true, not, ◌==◌, ◌||◌, ◌&&◌, some, List, [], ◌∷◌, ◌++◌, count, contains,
  contains-count, count-append, length, ◌≡◌, ◌≢◌, refl, arith, ok, guard->>-eq-ok, >>=-eq-ok,
}
use rekreativko_api.Activity.Errors.{
  unauthorized, invalid_pick_order, invalid_draft_captains, draft_captain_not_confirmed,
  not_enough_players,
}
use rekreativko_api.Activity.Team.{
  TeamConfig, new_team_config, has_enough_players, ensure_supported_by,
}
use rekreativko_api.Activity.Session.{can_manage_session, require_teams_changeable}
use rekreativko_api.Activity.Draft.State.{
  TeamDraft, completed, side_a, side_b, roster, available, is_running, is_valid_order,
}
use rekreativko_api.Activity.Draft.Operations.{
  TeamDraftInput, new_team_draft, start_with, opened_draft, or_snake, settle,
}
use rekreativko_api.Activity.Draft.Counts.{count_picks, places, count-available, count-roster}
use rekreativko_api.Activity.Draft.Settling.{is_nil}
use rekreativko_api.Activity.Draft.Soundness.{
  running-ne-completed, IsSound, Finished, Done, pick-Done, replace_captain-Done, settle-Done,
}
use rekreativko_api.Activity.Draft.Leaving.{attendee_left-Done}
use rekreativko_api.Activity.Draft.World.{
  cancel-IsSound, reset-ne-completed, end-ne-completed, World, Step, joins, leaves, picks, replaces,
  cancels, resets, ends, Reach, here, next, IsSoundWorld, Step-IsSoundWorld,
}

abbrev two_captains : TeamDraftInput → Bool
two_captains input =
    not (input.captain_a == 0 || (input.captain_b == 0 || input.captain_a == input.captain_b))

abbrev captains_going : TeamDraftInput → Bool
captains_going input =
    contains input.confirmed input.captain_a && contains input.confirmed input.captain_b

opened_draft-IsSound :
    (id now : ℕ) (input : TeamDraftInput) (config : TeamConfig)
    → two_captains input ≡ true
    → captains_going input ≡ true
    → IsSound (opened_draft id now input config) input.confirmed
unfolding places count_picks opened_draft is_running
opened_draft-IsSound id now input config two there = record {
  once = λ u n. ground arith;
  going = λ u n r p. ground (
    arith,
    contains-count input.captain_a input.confirmed,
    contains-count input.captain_b input.confirmed,
  );
  seated = λ e. ground arith;
  vacancy = λ e. cc;
}

opened_draft-running :
    (id now : ℕ) (input : TeamDraftInput) (config : TeamConfig)
    → is_running (opened_draft id now input config) ≡ true
unfolding opened_draft is_running
opened_draft-running id now input config = refl

start_with-Done :
    (id now : ℕ) (input : TeamDraftInput) (config : TeamConfig) (d : TeamDraft)
    → start_with id now input config ≡ ok d
    → Done input.confirmed d
unfolding start_with
start_with-Done id now input config d h =
    let (_, _, h₁) = >>=-eq-ok (ensure_supported_by input.session.activity_type) _ h in
    let (two, h₂) = guard->>-eq-ok (two_captains input) invalid_draft_captains _ h₁ in
    let (there, h₃) = guard->>-eq-ok (captains_going input) draft_captain_not_confirmed _ h₂ in
    let (_, h₄) =
      guard->>-eq-ok (has_enough_players config (length input.confirmed)) not_enough_players _ h₃ in
    let e : d ≡ settle now input.confirmed true (opened_draft id now input config) = ground arith in
    rw e (
      settle-Done now input.confirmed true (opened_draft id now input config)
        (opened_draft-IsSound id now input config two there)
        (opened_draft-running id now input config))

-- A draft that starts is sound for the people going, and if it is completed at once, it is
-- finished.
pub new_team_draft-Done :
    (id now : ℕ) (input : TeamDraftInput) (d : TeamDraft)
    → new_team_draft id now input ≡ ok d
    → Done input.confirmed d
unfolding new_team_draft
new_team_draft-Done id now input d h =
    let (_, h₁) =
      guard->>-eq-ok (can_manage_session input.session input.requester_id input.requester_role)
        unauthorized _ h in
    let (_, _, h₂) = >>=-eq-ok (require_teams_changeable input.session) _ h₁ in
    let (_, h₃) =
      guard->>-eq-ok (is_valid_order (or_snake input.pick_order)) invalid_pick_order _ h₂ in
    let (config, _, h₄) =
      >>=-eq-ok (new_team_config (some (pos 2)) input.min_players_per_team input.colors)
        (start_with id now input) h₃ in
    start_with-Done id now input config d h₄

-- From a draft that has started, whatever is called, whoever joins and whoever leaves, the draft
-- stays sound for the people going.
pub Reach-IsSoundWorld : {w x : World} → IsSoundWorld w → Reach w x → IsSoundWorld x
Reach-IsSoundWorld v here = v
Reach-IsSoundWorld v (next r s) = Step-IsSoundWorld s (Reach-IsSoundWorld v r)

-- A step that completes a running draft finishes it.
Step-Finished :
    {w x : World}
    → Step w x
    → IsSoundWorld w
    → is_running w.draft ≡ true
    → x.draft.status ≡ completed
    → Finished x.going x.draft
Step-Finished {w} (joins u n z) v r e = absurd (running-ne-completed w.draft r e)
Step-Finished {w} (leaves now u c n l) v r e =
    (attendee_left-Done now u w.going c w.draft v.sound l n r).1 e
Step-Finished {w} (picks now s by u d h) v r e =
    (pick-Done now s by u w.going w.draft d v.sound h).1 e
Step-Finished {w} (replaces now s by role side u d h) v r e =
    (replace_captain-Done now s by role side u w.going w.draft d v.sound v.no_nil h).1 e
Step-Finished {w} (cancels now s by role d h) v r e =
    absurd ((cancel-IsSound now s by role w.going w.draft d h v.sound).1 e)
Step-Finished {w} (resets now reason by) v r e =
    absurd (reset-ne-completed now reason by w.draft r e)
Step-Finished {w} (ends now by) v r e = absurd (end-ne-completed now by w.draft r e)

is_nil-count : (u : ℕ) (xs : List ℕ) → is_nil xs ≡ true → count u xs ≡ 0
is_nil-count u [] h = refl
is_nil-count u (x ∷ xs) h = cc

-- Everybody with a place is going, everybody going has a place, and nobody has two.
Finished-split :
    (d : TeamDraft) (c : List ℕ) (u : ℕ)
    → IsSound d c
    → Finished c d
    → count u c ≤ 1
    → u ≢ 0
    → count u (roster d side_a ++ roster d side_b) ≡ count u c
Finished-split d c u s f o n = ground (
  arith,
  count-append u (roster d side_a) (roster d side_b),
  count-roster d u n,
  is_nil-count u (available d c) f.0,
  count-available d c u n,
  f.1 u n,
  s.once u n,
)

-- The step that completes a draft, in any history of the draft, leaves its two rosters holding
-- exactly the people going, each of them once.
pub completion_splits :
    {w v x : World}
    → IsSoundWorld w
    → Reach w v
    → Step v x
    → is_running v.draft ≡ true
    → x.draft.status ≡ completed
    → (u : ℕ) → u ≢ 0
    → count u (roster x.draft side_a ++ roster x.draft side_b) ≡ count u x.going
completion_splits {x} i h s r e u n =
    let before = Reach-IsSoundWorld i h in
    let after = Step-IsSoundWorld s before in
    Finished-split x.draft x.going u after.sound (Step-Finished s before r e) (after.each_once u) n

-- A draft that was started with the people going, each listed once and none of them the nil id, and
-- that any calls, arrivals and departures bring from a running state to its completion, ends with
-- rosters that hold exactly the people then going, each of them once.
pub new_team_draft_splits :
    (id now : ℕ) (input : TeamDraftInput) (d : TeamDraft)
    → new_team_draft id now input ≡ ok d
    → ((u : ℕ) → count u input.confirmed ≤ 1)
    → count 0 input.confirmed ≡ 0
    → {v x : World} → Reach (record { draft = d; going = input.confirmed }) v
    → Step v x
    → is_running v.draft ≡ true
    → x.draft.status ≡ completed
    → (u : ℕ) → u ≢ 0
    → count u (roster x.draft side_a ++ roster x.draft side_b) ≡ count u x.going
new_team_draft_splits id now input d h once z reach s r e u n =
    completion_splits
      (record { sound = (new_team_draft-Done id now input d h).0; each_once = once; no_nil = z })
      reach s r e u n
