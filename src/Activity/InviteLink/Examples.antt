-- ===== src/Activity/InviteLink/Examples.antt =====
-- An invite link on concrete inputs, and the theorems at it.
use rekreativko_api.Base.{
  ◌≤◌, true, false, some, none, [], ◌∷◌, ◌++◌, ◌≡◌, ◌↔◌, refl, ok, arith, value_or,
}
use rekreativko_api.Activity.Member.{admin}
use rekreativko_api.Activity.InviteLink.{
  InviteLink, active, is_confirmed, is_revoked, is_expired, has_successful_usage, use_link, revoke,
  new_invite_link,
}
use rekreativko_api.Activity.InviteLink.Use.{
  run, uses, revokes, expires, successes, run-single_use, use_link_iff, revoke-IsDead,
}

abbrev blank : InviteLink
blank = record {
  id = 0;
  group_id = 0;
  created_by = 0;
  token = "";
  status = active;
  created_at = 0;
  expires_at = 0;
  revoked_at = none;
  usages = [];
  events = [];
}

-- Admin 5 makes a link to group 3.
link : InviteLink
unfolding new_invite_link
link = value_or (new_invite_link (some "c2VjcmV0") 70 10 3 5 admin) blank

link-made : new_invite_link (some "c2VjcmV0") 70 10 3 5 admin ≡ ok link
unfolding link
link-made = refl

run-single_use_example :
    successes (run link ((20, uses 71 7) ∷ (30, uses 72 8) ∷ (40, revokes 5 admin) ∷ [])).usages ≤ 1
run-single_use_example =
    run-single_use (some "c2VjcmV0") 70 10 3 5 admin link
      ((20, uses 71 7) ∷ (30, uses 72 8) ∷ (40, revokes 5 admin) ∷ []) link-made

use_link_iff_example :
    let (m, usage, e) = use_link 71 20 7 link in
    ((e ≡ none) ↔ (
      (has_successful_usage link.usages ≡ false)
      × (is_revoked link.status ≡ false)
      × (is_expired 20 link ≡ false)))
    × ((e ≡ none) ↔ (is_confirmed usage.status ≡ true))
    × (m.usages ≡ link.usages ++ usage ∷ [])
use_link_iff_example = use_link_iff 71 20 7 link

dead_link : InviteLink
unfolding link revoke
dead_link = value_or (revoke 20 5 admin link) link

link-revoked : revoke 20 5 admin link ≡ ok dead_link
unfolding dead_link
link-revoked = refl

revoke-IsDead_example : successes (run dead_link ((30, uses 71 7) ∷ (40, expires) ∷ [])).usages ≡ 0
unfolding link
revoke-IsDead_example =
    revoke-IsDead 20 5 admin link dead_link ((30, uses 71 7) ∷ (40, expires) ∷ []) link-revoked
      (omega arith, (omega arith, tt))
