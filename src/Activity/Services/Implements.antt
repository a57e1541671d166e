-- ===== src/Activity/Services/Implements.antt =====
-- Runs of the commands of activity/internal/application/attendee_service.go against the plays of
-- Board.
use rekreativko_api.Base.{
  true, not, is_some, contains, some, List, [], ◌∷◌, ◌≡◌, refl, sym, subst, ap, ◌∙◌, arith, inl,
  inr, Option-cases, Result-cases, ok-injective, Result, ok, ◌>>=◌, value_or, >>=-eq-ok,
  guard->>-eq-ok,
}
use rekreativko_api.Activity.Errors.{
  Error, account_deleted, session_full, invalid_attendee_status, attendee_already_attending,
}
use rekreativko_api.Activity.Session.{Session, has_capacity, can_rsvp}
use rekreativko_api.Activity.Attendee.{is_valid_status}
use rekreativko_api.Activity.Attendee.Rsvp.{update_rsvp, approve, reject, remove}
use rekreativko_api.Activity.Attendee.Placement.{assign_to_team, unassign_from_team, leave_team}
use rekreativko_api.Activity.Attendee.Roster.{spots}
use rekreativko_api.Activity.Services.Store.{Store, get_session, get_attendee, find_attendee}
use rekreativko_api.Activity.Services.TeamFormation.{require_no_active_draft}
use rekreativko_api.Activity.Services.AttendeeService.{
  create_rsvp, approve_attendee, reject_attendee, remove_attendee, assign_attendee_team,
  unassign_attendee_team, update_rsvp_of, cancel_rsvp, parse_member_role, new_rsvp, admit,
  group_member,
}
use rekreativko_api.Activity.Services.Commands.{
  Command, creates, approves, rejects, removes, assigns, unassigns, updates, cancels, exec, run,
}
use rekreativko_api.Activity.Services.Board.{Place, Rules, after, Plays, done, refused, accepted}
use rekreativko_api.Activity.Services.Rows.{places, is_keyed}
use rekreativko_api.Activity.Services.Refinement.{Shows, rules_of, session_rules}
use rekreativko_api.Activity.Services.Effects.{
  assign_to_team_ok, unassign_from_team_ok, leave_team-id,
}
use rekreativko_api.Activity.Services.Simulation.{
  approved, decided, removed, cancelled, placed, answered_by, joined,
}

-- The session that is read is the one that is there.
pub with_session :
    (w : Store) (s : Session) (rest : Session → Result Error Store) (v : Store)
    → w.session ≡ some s
    → (get_session w >>= rest) ≡ ok v
    → rest s ≡ ok v
unfolding get_session
with_session w s rest v e h = rw e at h

-- A command that is not refused does to the places what Board says.
pub exec-Shows :
    (c : Command) (w v : Store) (s : Session)
    → is_keyed w.attendees ≡ true
    → w.session ≡ some s
    → exec c w ≡ ok v
    → Shows (rules_of s) (after (rules_of s) c (places w.attendees)) v
unfolding exec create_rsvp approve_attendee reject_attendee remove_attendee assign_attendee_team
    unassign_attendee_team update_rsvp_of cancel_rsvp after
exec-Shows (creates id now u status) w v s k e h =
    let (_, h₁) = guard->>-eq-ok (is_valid_status status) invalid_attendee_status _ h in
    let h₂ = with_session w s _ v e h₁ in
    let (p, _, h₃) = >>=-eq-ok (admit s (group_member s.activity_group_id u w.members)) _ h₂ in
    let (_, _, h₄) = >>=-eq-ok (can_rsvp now p s) _ h₃ in
    let (_, h₅) =
      guard->>-eq-ok (not (is_some (find_attendee u w.attendees))) attendee_already_attending _
        h₄ in
    let (a, p₆, h₆) = >>=-eq-ok (new_rsvp id now u status s w) _ h₅ in
    joined now u w s k id status a v e p₆ h₆
exec-Shows (approves now u by role) w v s k e h =
    let (r, _, h₁) = >>=-eq-ok (parse_member_role role) _ h in
    let (_, h₂) = guard->>-eq-ok (not (contains w.inactive u)) account_deleted _ h₁ in
    let (a, p, h₃) = >>=-eq-ok (get_attendee u w) _ (with_session w s _ v e h₂) in
    let (q, h₄) = guard->>-eq-ok (has_capacity s (spots w.attendees)) session_full _ h₃ in
    let (b, d, h₅) = >>=-eq-ok (approve now s by r a) _ h₄ in
    subst (Shows (rules_of s) _) (ok-injective h₅) (approved now u w s k by r a b e p q d)
exec-Shows (rejects now u by role) w v s k e h =
    let (r, _, h₁) = >>=-eq-ok (parse_member_role role) _ h in
    let (a, p, h₂) = >>=-eq-ok (get_attendee u w) _ (with_session w s _ v e h₁) in
    let (b, d, h₃) = >>=-eq-ok (reject now s by r a) _ h₂ in
    subst (Shows (rules_of s) _) (ok-injective h₃) (decided now u w s k by r a b e p d)
exec-Shows (removes now u by role) w v s k e h =
    let (r, _, h₁) = >>=-eq-ok (parse_member_role role) _ h in
    let (a, p, h₂) = >>=-eq-ok (get_attendee u w) _ (with_session w s _ v e h₁) in
    let (b, d, h₃) = >>=-eq-ok (remove now s by r a) _ h₂ in removed now u w s k by r a b v e p d h₃
exec-Shows (assigns now u team by role) w v s k e h =
    let (r, _, h₁) = >>=-eq-ok (parse_member_role role) _ h in
    let (_, _, h₂) = >>=-eq-ok (require_no_active_draft w) _ (with_session w s _ v e h₁) in
    let (a, p, h₃) = >>=-eq-ok (get_attendee u w) _ h₂ in
    let (b, d, h₄) = >>=-eq-ok (assign_to_team now s team by r a) _ h₃ in
    let (i, st) = assign_to_team_ok now s team by r a b d in
    subst (Shows (rules_of s) _) (ok-injective h₄) (placed now u w s k a b e p i st)
exec-Shows (unassigns now u by role) w v s k e h =
    let (r, _, h₁) = >>=-eq-ok (parse_member_role role) _ h in
    let (_, _, h₂) = >>=-eq-ok (require_no_active_draft w) _ (with_session w s _ v e h₁) in
    let (a, p, h₃) = >>=-eq-ok (get_attendee u w) _ h₂ in
    let (b, d, h₄) = >>=-eq-ok (unassign_from_team now s by r a) _ h₃ in
    let (i, st) = unassign_from_team_ok now s by r a b d in
    subst (Shows (rules_of s) _) (ok-injective h₄) (placed now u w s k a b e p i st)
exec-Shows (updates now u status) w v s k e h =
    let (_, h₁) = guard->>-eq-ok (is_valid_status status) invalid_attendee_status _ h in
    let (a, p, h₂) = >>=-eq-ok (get_attendee u w) _ h₁ in
    let h₃ = with_session w s _ v e h₂ in
    let (b, d, h₄) = >>=-eq-ok (update_rsvp now status s (spots w.attendees) a) _ h₃ in
    answered_by now u w s k status a b v e p d h₄
exec-Shows (cancels now u) w v s k e h =
    let (a, p, h₁) = >>=-eq-ok (get_attendee u w) _ h in
    cancelled now u w s k a (leave_team now a) v e p (leave_team-id now a) h₁

ends_in :
    (rules : Rules) (ps : List Place) (w : Store)
    → Shows rules ps w
    → (s : Session) × (w.session ≡ some s) × (rules_of s ≡ rules)
ends_in rules ps w h = elim (Option-cases w.session) [
  | inl n ↦ ground (arith, h.same_rules)
  | inr (s, e) ↦ (s, e, ground (arith, h.same_rules))
]

-- The store at the end of a play from given places.
abbrev pub Ends : Rules → List Command → List Place → Store → Type 0
Ends rules cs ps w =
    Plays rules cs ps (places w.attendees)
    × (is_keyed w.attendees ≡ true)
    × (session_rules w.session ≡ some rules)

-- However a run of commands on an existing session goes, the places are those of a play of the same
-- commands by the session's rules, in which the refused commands do nothing; ids and users stay
-- distinct; and the session's rules stay.
pub run_refines :
    (cs : List Command) (w : Store) (rules : Rules)
    → is_keyed w.attendees ≡ true
    → session_rules w.session ≡ some rules
    → Ends rules cs (places w.attendees) (run cs w)
unfolding run
run_refines [] w rules k e = (done, k, e)
run_refines (c ∷ cs) w rules k e = elim (Result-cases (exec c w)) [
  | inr (x, r) ↦
      let (p, q, t) = run_refines cs w rules k e in
      subst (λ x. Ends rules (c ∷ cs) (places w.attendees) (run cs (value_or x w))) (sym r)
        (refused p, q, t)
  | inl (v, r) ↦
      let (s, at_s, same) =
        ends_in rules (places w.attendees) w
          (record { keyed = k; same_places = refl; same_rules = e }) in
      let h = exec-Shows c w v s k at_s r in
      let (p, q, t) = run_refines cs v rules h.keyed (h.same_rules ∙ ap some same) in
      let moved = h.same_places ∙ ap (λ x. after x c (places w.attendees)) same in
      let played = subst (λ ps. Plays rules cs ps (places (run cs v).attendees)) moved p in
      subst (λ x. Ends rules (c ∷ cs) (places w.attendees) (run cs (value_or x w))) (sym r)
        (accepted played, q, t)
]
