-- ===== src/Activity/Services/Leaving.antt =====
-- `resetTeamFormationAfterLeaving` of activity/internal/application/attendee_service.go.
use rekreativko_api.Base.{
  ℕ, Bool, true, false, ◌&&◌, not, is_some, Option, none, some, List, [], ◌∷◌, map, ◌≡◌, refl, ◌∙◌,
  subst, arith, ok, value_or, >>=-eq-ok, guard->>-eq-ok, inl, inr, Option-cases, Bool-cases,
  Result-cases,
}
use rekreativko_api.Activity.Errors.{invalid_attendee_status}
use rekreativko_api.Activity.Session.{Session, roster_changed, reset_teams}
use rekreativko_api.Activity.Attendee.{
  Attendee, AttendeeStatus, not_going, maybe, hold_spot, is_valid_status,
}
use rekreativko_api.Activity.Attendee.Rsvp.{update_rsvp, promote, remove}
use rekreativko_api.Activity.Attendee.Placement.{leave_team}
use rekreativko_api.Activity.Attendee.Roster.{spots}
use rekreativko_api.Activity.Services.Store.{
  Store, get_session, get_attendee, find_attendee, update_attendee, delete_attendee, first_pending,
  going_ids, replace_teams, active_draft, open_round, off_team,
}
use rekreativko_api.Activity.Services.TeamFormation.{has_formation, reset_team_formation}
use rekreativko_api.Activity.Services.AttendeeService.{
  promote_next_pending, promote_pending, teams_locked, reset_team_formation_after_leaving,
  spot_released, remove_attendee, update_rsvp_of, cancel_rsvp, parse_member_role,
}
use rekreativko_api.Activity.Services.Commands.{Command, removes, updates, cancels, exec}
use rekreativko_api.Activity.Services.Implements.{with_session}

abbrev nobody_on_team : List Attendee → Bool
nobody_on_team [] = true
nobody_on_team (a ∷ as₀) = not (is_some a.team_id) && nobody_on_team as₀

-- The session has no teams, no running draft and no open vote.
abbrev is_unformed : Option Session → Store → Bool
is_unformed none w = true
is_unformed (some s) w = not (has_formation s w)

-- Nothing of the team formation of the store before is left.
abbrev pub IsReset : Session → Store → Store → Type 0
IsReset s w v =
    (is_unformed v.session v ≡ true)
    × (has_formation s w ≡ true
        → (nobody_on_team v.attendees ≡ true) × (v.drafts ≡ []) × (v.rounds ≡ []))

off_team-nobody : (xs : List Attendee) → nobody_on_team (map off_team xs) ≡ true
off_team-nobody [] = refl
off_team-nobody (x ∷ xs) = off_team-nobody xs

reset_teams-none :
    (now by : ℕ) (us : List ℕ) (s t : Session)
    → reset_teams now by roster_changed us s ≡ ok t
    → t.team_config ≡ none
unfolding reset_teams
reset_teams-none now by us s t h = ground arith

reset_team_formation_after_leaving-IsReset :
    (now u : ℕ) (w v : Store) (s : Session)
    → w.session ≡ some s
    → teams_locked s ≡ false
    → reset_team_formation_after_leaving now u w ≡ ok v
    → IsReset s w v
unfolding reset_team_formation_after_leaving reset_team_formation replace_teams get_session
    active_draft open_round
reset_team_formation_after_leaving-IsReset now u w v s e f h =
    elim (Bool-cases (has_formation s w)) [
      | inr n ↦ ground arith
      | inl y ↦
          ground
            (arith, off_team-nobody w.attendees, reset_teams-none now u (going_ids w.attendees) s)
    ]

-- The promotion changes the attendees only.
promotion-frame :
    (now : ℕ) (w : Store)
    → let v = value_or (promote_next_pending now w) w in
      (v.session ≡ w.session) × (v.drafts ≡ w.drafts) × (v.rounds ≡ w.rounds)
unfolding promote_next_pending promote_pending update_attendee
promotion-frame now w = elim (Option-cases (first_pending w.attendees)) [
  | inl n ↦ rw n (refl, refl, refl)
  | inr (a, e) ↦ elim (Result-cases (promote now a)) [
    | inl (b, p) ↦ rw (e, p) (refl, refl, refl)
    | inr (x, p) ↦ rw (e, p) (refl, refl, refl)
  ]
]

released-IsReset :
    (now u : ℕ) (w v : Store) (s : Session)
    → w.session ≡ some s
    → teams_locked s ≡ false
    → spot_released now u true w ≡ ok v
    → IsReset s w v
unfolding spot_released active_draft open_round
released-IsReset now u w v s e f h =
    let (p, q, r) = promotion-frame now w in
    let reset =
      reset_team_formation_after_leaving-IsReset now u (value_or (promote_next_pending now w) w) v s
        (p ∙ e) f h in
    (reset.0, λ y. reset.1 (rw (q, r) y))

unfoldable pub held_before : (u : ℕ) → Store → Bool
unfolding hold_spot
held_before u w = elim (find_attendee u w.attendees) [ none ↦ false | some a ↦ hold_spot a.status ]

abbrev is_away : AttendeeStatus → Bool
is_away not_going = true
is_away maybe = true
is_away _ = false

-- Somebody with a spot is removed, cancels, or answers that they are not, or maybe, going.
abbrev pub gives_up : Command → Store → Bool
gives_up (removes now u by role) w = held_before u w
gives_up (updates now u status) w = is_away status && held_before u w
gives_up (cancels now u) w = held_before u w
gives_up _ w = false

get_attendee-held :
    (u : ℕ) (w : Store) (a : Attendee)
    → get_attendee u w ≡ ok a
    → hold_spot a.status ≡ held_before u w
unfolding get_attendee held_before
get_attendee-held u w a h = ground arith

update_rsvp-away :
    (now : ℕ) (status : AttendeeStatus) (s : Session) (n : ℕ) (a b : Attendee)
    → is_away status ≡ true
    → update_rsvp now status s n a ≡ ok b
    → hold_spot b.status ≡ false
unfolding update_rsvp hold_spot
update_rsvp-away now not_going s n a b q h = ground arith
update_rsvp-away now maybe s n a b q h = ground arith
update_rsvp-away now _ s n a b q h = ground arith

-- When somebody who has a spot in a session that is neither over nor called off is removed, cancels,
-- or answers that they are not or maybe going, and the command succeeds, then no teams, no running
-- draft and no open vote are left; and if there were any, then nobody is on a team and no draft and no
-- voting round of the session is stored any more.
pub exec-IsReset :
    (c : Command) (w v : Store) (s : Session)
    → w.session ≡ some s
    → teams_locked s ≡ false
    → gives_up c w ≡ true
    → exec c w ≡ ok v
    → IsReset s w v
unfolding exec remove_attendee update_rsvp_of cancel_rsvp delete_attendee update_attendee
exec-IsReset (removes now u by role) w v s e f g h =
    let (r, _, h₁) = >>=-eq-ok (parse_member_role role) _ h in
    let (a, p, h₂) = >>=-eq-ok (get_attendee u w) _ (with_session w s _ v e h₁) in
    let (b, d, h₃) = >>=-eq-ok (remove now s by r a) _ h₂ in
    released-IsReset now u (delete_attendee b w) v s e f (
      subst (λ x. spot_released now u x (delete_attendee b w) ≡ ok v)
        (get_attendee-held u w a p ∙ g) h₃)
exec-IsReset (updates now u status) w v s e f g h =
    let (_, h₁) = guard->>-eq-ok (is_valid_status status) invalid_attendee_status _ h in
    let (a, p, h₂) = >>=-eq-ok (get_attendee u w) _ h₁ in
    let (b, d, h₃) =
      >>=-eq-ok (update_rsvp now status s (spots w.attendees) a) _ (with_session w s _ v e h₂) in
    let away : is_away status ≡ true = ground arith in
    let held : hold_spot a.status ≡ true = ground (arith, get_attendee-held u w a p) in
    let left = update_rsvp-away now status s (spots w.attendees) a b away d in
    let released : hold_spot a.status && not (hold_spot b.status) ≡ true = ground arith in
    released-IsReset now u (update_attendee b w) v s e f
      (subst (λ x. spot_released now u x (update_attendee b w) ≡ ok v) released h₃)
exec-IsReset (cancels now u) w v s e f g h =
    let (a, p, h₁) = >>=-eq-ok (get_attendee u w) _ h in
    released-IsReset now u (delete_attendee (leave_team now a) w) v s e f (
      subst (λ x. spot_released now u x (delete_attendee (leave_team now a) w) ≡ ok v)
        (get_attendee-held u w a p ∙ g) h₁)
exec-IsReset _ w v s e f g h = ground arith
