-- ===== src/Activity/InviteLink/Use.antt =====
-- The uses of an invite link, among the other calls of invite_link.go.
use rekreativko_api.Base.{
  ap, ◌∙◌, String, ◌<◌, ℕ, suc, ◌+◌, ◌≤◌, true, false, if◌then◌else◌, Option, none, List, [], ◌∷◌,
  ◌++◌, ◌≡◌, ◌↔◌, ◌⊎◌, refl, Result, ok, err, arith,
}
use rekreativko_api.Activity.Errors.{Error}
use rekreativko_api.Activity.Member.{MemberRole}
use rekreativko_api.Activity.InviteLink.{
  InviteLink, InviteLinkUsage, is_confirmed, is_revoked, is_expired, has_successful_usage, use_link,
  revoke, expire, new_invite_link,
}

pub data LinkOp : Type 0 where
  uses : (id user_id : ℕ) → LinkOp
  revokes : (by : ℕ) → MemberRole → LinkOp
  expires : LinkOp

-- An error of `Revoke` or `Expire` leaves the link as it was.
abbrev pub after : InviteLink → Result Error InviteLink → InviteLink
after l (ok m) = m
after l (err e) = l

unfoldable pub step : (now : ℕ) → LinkOp → InviteLink → InviteLink
step now (uses id user_id) l = (use_link id now user_id l).0
step now (revokes by role) l = after l (revoke now by role l)
step now expires l = after l (expire now l)

unfoldable pub run : InviteLink → List (ℕ × LinkOp) → InviteLink
run l [] = l
run l ((now, op) ∷ ops) = run (step now op l) ops

-- How many people the link has let in.
abbrev pub successes : List InviteLinkUsage → ℕ
successes [] = 0
successes (u ∷ us) = let n = successes us in if is_confirmed u.status then suc n else n

successes-append :
    (us : List InviteLinkUsage) (u : InviteLinkUsage)
    → successes (us ++ u ∷ []) ≡ successes us + (if is_confirmed u.status then 1 else 0)
successes-append [] u = ground arith
successes-append (v ∷ us) u = ground (arith, successes-append us u)

successes-none : (us : List InviteLinkUsage) → has_successful_usage us ≡ false → successes us ≡ 0
unfolding has_successful_usage
successes-none [] h = refl
successes-none (u ∷ us) h = ground (arith, successes-none us)

use_link-usages :
    (id now user_id : ℕ) (l : InviteLink)
    → let (m, usage, e) = use_link id now user_id l in m.usages ≡ l.usages ++ usage ∷ []
unfolding use_link
use_link-usages id now user_id l = ground arith

use_link-confirmed :
    (id now user_id : ℕ) (l : InviteLink)
    → let (m, usage, e) = use_link id now user_id l in
      is_confirmed usage.status ≡ true → has_successful_usage l.usages ≡ false
unfolding use_link
use_link-confirmed id now user_id l h = ground arith

step-successes :
    (now : ℕ) (op : LinkOp) (l : InviteLink)
    → successes l.usages ≤ 1
    → successes (step now op l).usages ≤ 1
unfolding step revoke expire
step-successes now (uses id user_id) l h =
    let usage = (use_link id now user_id l).1 in
    ground (
      arith,
      use_link-usages id now user_id l,
      successes-append l.usages usage,
      use_link-confirmed id now user_id l,
      successes-none l.usages,
    )
step-successes now (revokes by role) l h = ground arith
step-successes now expires l h = ground arith

run-successes :
    (l : InviteLink) (ops : List (ℕ × LinkOp))
    → successes l.usages ≤ 1
    → successes (run l ops).usages ≤ 1
unfolding run
run-successes l [] h = h
run-successes l ((now, op) ∷ ops) h = run-successes (step now op l) ops (step-successes now op l h)

-- A link lets in one person at most, whoever uses, revokes or expires it, in any order.
pub run-single_use :
    (random : Option String) (id now group_id by : ℕ) (role : MemberRole) (l : InviteLink)
    (ops : List (ℕ × LinkOp))
    → new_invite_link random id now group_id by role ≡ ok l
    → successes (run l ops).usages ≤ 1
unfolding new_invite_link
run-single_use random id now group_id by role l ops h = run-successes l ops (ground arith)

-- Using a link succeeds exactly if nobody has used it before, it is not revoked and its time is not
-- over; a usage is recorded in any case, and it is confirmed exactly if the use succeeds.
pub use_link_iff :
    (id now user_id : ℕ) (l : InviteLink)
    → let (m, usage, e) = use_link id now user_id l in
      ((e ≡ none) ↔ (
        (has_successful_usage l.usages ≡ false)
        × (is_revoked l.status ≡ false)
        × (is_expired now l ≡ false)))
      × ((e ≡ none) ↔ (is_confirmed usage.status ≡ true))
      × (m.usages ≡ l.usages ++ usage ∷ [])
unfolding use_link is_expired
use_link_iff id now user_id l = (
  ((λ h. ground arith), λ h. ground arith),
  ((λ h. ground arith), λ h. ground arith),
  ground arith,
)

-- Revoked, or past its time: `Expire` may turn the one into the other.
abbrev IsDead : (now : ℕ) → InviteLink → Type 0
IsDead now l = (is_revoked l.status ≡ true) ⊎ (l.expires_at < now)

abbrev pub IsAfter : ℕ → List (ℕ × LinkOp) → Type 0
IsAfter t [] = Unit {0}
IsAfter t ((now, op) ∷ ops) = (t ≤ now) × IsAfter now ops

use_link-IsDead :
    (t id now user_id : ℕ) (l : InviteLink)
    → t ≤ now
    → IsDead t l
    → let (m, usage, e) = use_link id now user_id l in
      IsDead now m × (is_confirmed usage.status ≡ false)
unfolding use_link is_expired
use_link-IsDead t id now user_id l le d = (ground arith, ground arith)

step-IsDead :
    (t now : ℕ) (op : LinkOp) (l : InviteLink)
    → t ≤ now
    → IsDead t l
    → IsDead now (step now op l) × (successes (step now op l).usages ≡ successes l.usages)
unfolding step revoke expire is_expired
step-IsDead t now (uses id user_id) l le d =
    let usage = (use_link id now user_id l).1 in
    let (dead, failed) = use_link-IsDead t id now user_id l le d in
    (
      dead,
      ground (arith, failed, use_link-usages id now user_id l, successes-append l.usages usage),
    )
step-IsDead t now (revokes by role) l le d = (ground arith, ground arith)
step-IsDead t now expires l le d = (ground arith, ground arith)

run-IsDead :
    (t : ℕ) (l : InviteLink) (ops : List (ℕ × LinkOp))
    → IsAfter t ops
    → IsDead t l
    → successes (run l ops).usages ≡ successes l.usages
unfolding run
run-IsDead t l [] a d = refl
run-IsDead t l ((now, op) ∷ ops) (le, a) d =
    let (dead, same) = step-IsDead t now op l le d in
    run-IsDead now (step now op l) ops a dead ∙ same

-- Once a link is revoked, nobody is let in by it any more, whatever is called from then on, as long
-- as the clock does not run back.
pub revoke-IsDead :
    (t by : ℕ) (role : MemberRole) (l m : InviteLink) (ops : List (ℕ × LinkOp))
    → revoke t by role l ≡ ok m
    → IsAfter t ops
    → successes (run m ops).usages ≡ successes l.usages
unfolding revoke
revoke-IsDead t by role l m ops h a =
    let dead : IsDead t m = ground arith in
    let same : m.usages ≡ l.usages = ground arith in run-IsDead t m ops a dead ∙ ap successes same
