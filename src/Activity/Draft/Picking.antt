-- ===== src/Activity/Draft/Picking.antt =====
-- When a call on a draft succeeds, and what it writes.
use rekreativko_api.Base.{
  ℕ, suc, ℤ, true, ◌==◌, some, List, ◌≡◌, ◌↔◌, contains, ok, arith, >>=-eq-ok, guard->>-eq-ok,
}
use rekreativko_api.Activity.Errors.{
  unauthorized, invalid_draft_captains, draft_captain_not_confirmed, draft_not_active,
}
use rekreativko_api.Activity.Member.{MemberRole}
use rekreativko_api.Activity.Session.{Session, can_manage_session, require_teams_changeable}
use rekreativko_api.Activity.Draft.State.{
  TeamDraft, DraftSide, DraftPick, active, paused, captain, captain_side, current_side, available,
  same_side, find_pick, to_side, is_running, by_organizer,
}
use rekreativko_api.Activity.Draft.Operations.{
  settle, with_pick, pick, replace_captain, replace_on, promote, seat_captain, cancel_draft,
  require_paused, or_fail,
}
use rekreativko_api.Activity.Draft.Endings.{cancel}

same_side_self : (s : DraftSide) → same_side s s ≡ true
same_side_self s = ground arith

pub pick_iff :
    (now : ℕ) (session : Session) (captain_id user_id : ℕ) (c : List ℕ) (d e : TeamDraft)
    → (pick now session captain_id user_id c d ≡ ok e) ↔ (
        (d.status ≡ active)
        × (require_teams_changeable session ≡ ok tt)
        × (captain_side d captain_id ≡ some (current_side d))
        × (contains (available d c) user_id ≡ true)
        × (e ≡ settle now c true (with_pick now (current_side d) captain_id user_id d)))
unfolding pick
pick_iff now session captain_id user_id c d e =
    ((λ h. ground arith), (λ h. ground (arith, same_side_self (current_side d))))

-- What a replacement that succeeds tells of the side and of the new captain.
pub replace_on-ok :
    (now requester_id user_id : ℕ) (c : List ℕ) (d : TeamDraft) (side : DraftSide) (e : TeamDraft)
    → replace_on now requester_id user_id c d side ≡ ok e
    → (picks : List DraftPick) × (captain d side ≡ 0)
      × (contains c user_id ≡ true)
      × (promote side user_id c d (find_pick user_id d.picks) ≡ ok picks)
      × (e ≡ seat_captain now side user_id requester_id c (record d { picks = picks }))
unfolding replace_on
replace_on-ok now requester_id user_id c d side e h =
    let (vacant, h₁) = guard->>-eq-ok (captain d side == 0) invalid_draft_captains _ h in
    let (there, h₂) = guard->>-eq-ok (contains c user_id) draft_captain_not_confirmed _ h₁ in
    let (picks, moved, h₃) =
      >>=-eq-ok (promote side user_id c d (find_pick user_id d.picks)) _ h₂ in
    (picks, ground arith, there, moved, ground arith)

-- A replacement that succeeds was asked by somebody who manages the session, in a paused draft.
pub replace_captain-ok :
    (now : ℕ) (session : Session) (requester_id : ℕ) (role : MemberRole) (raw : ℤ) (user_id : ℕ)
    (c : List ℕ) (d e : TeamDraft)
    → replace_captain now session requester_id role raw user_id c d ≡ ok e
    → (side : DraftSide) × (can_manage_session session requester_id role ≡ true)
      × (d.status ≡ paused)
      × (to_side raw ≡ some side)
      × (replace_on now requester_id user_id c d side ≡ ok e)
unfolding replace_captain
replace_captain-ok now session requester_id role raw user_id c d e h =
    let (may, h₁) =
      guard->>-eq-ok (can_manage_session session requester_id role) unauthorized _ h in
    let (_, p, h₂) = >>=-eq-ok (require_paused d.status) _ h₁ in
    let (_, q, h₃) = >>=-eq-ok (require_teams_changeable session) _ h₂ in
    let (side, at, h₄) =
      >>=-eq-ok (or_fail (to_side raw) invalid_draft_captains)
        (replace_on now requester_id user_id c d) h₃ in
    (side, may, ground arith, ground arith, h₄)

-- A cancellation that succeeds was asked by somebody who manages the session, of a draft that runs.
pub cancel-ok :
    (now : ℕ) (session : Session) (by : ℕ) (role : MemberRole) (c : List ℕ) (d e : TeamDraft)
    → cancel now session by role c d ≡ ok e
    → e ≡ cancel_draft now by_organizer by c (record d { version = suc d.version })
unfolding cancel
cancel-ok now session by role c d e h =
    let (_, h₁) = guard->>-eq-ok (can_manage_session session by role) unauthorized _ h in
    let (_, h₂) = guard->>-eq-ok (is_running d) draft_not_active _ h₁ in ground arith
