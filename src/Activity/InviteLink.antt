-- ===== src/Activity/InviteLink.antt =====
-- activity/internal/domain/invite_link.go: a link that lets one person join a group. `now` is what
-- `time.Now().UTC()` returns, in nanoseconds, and `id` what `uuid.New()` returns; the token is what
-- the system's random source gives, encoded, or none if it fails.
pub mod Use
mod Examples
use rekreativko_api.Base.{
  ℕ, ◌+◌, String, Bool, true, false, ◌&&◌, ◌||◌, not, ltb, if◌then◌else◌, Option, none, some, List,
  [], ◌∷◌, ◌++◌, Result, ok, err, ◌>>=◌, ◌>>◌, guard,
}
use rekreativko_api.Activity.Errors.{
  Error, unauthorized, invite_link_already_used, invite_link_revoked, invite_link_expired,
  invite_link_has_not_expired_yet, no_random_token,
}
use rekreativko_api.Activity.Member.{MemberRole, can_manage_members}

-- Seven days.
abbrev pub invite_link_expiry_duration : ℕ
invite_link_expiry_duration = 604_800_000_000_000

pub data InviteLinkStatus : Type 0 where
  active expired revoked : InviteLinkStatus

pub data InviteLinkUsageStatus : Type 0 where
  usage_confirmed usage_expired usage_revoked usage_consumed : InviteLinkUsageStatus

pub record InviteLinkUsage : Type 0 where
  pub id : ℕ
  pub invite_link_id : ℕ
  pub user_id : ℕ
  pub status : InviteLinkUsageStatus
  pub used_at : ℕ

-- The aggregate of each event is the link.
pub data InviteLinkEvent : Type 0 where
  link_created : (link_id group_id created_by expires_at : ℕ) → InviteLinkEvent
  link_used : (link_id group_id user_id : ℕ) → InviteLinkEvent
  link_revoked : (link_id group_id revoked_by : ℕ) → InviteLinkEvent
  link_expired : (link_id group_id : ℕ) → InviteLinkEvent

pub record InviteLink : Type 0 where
  pub id : ℕ
  pub group_id : ℕ
  pub created_by : ℕ
  pub token : String
  pub status : InviteLinkStatus
  pub created_at : ℕ
  pub expires_at : ℕ
  pub revoked_at : Option ℕ
  pub usages : List InviteLinkUsage
  pub events : List InviteLinkEvent

unfoldable pub add_event : InviteLinkEvent → InviteLink → InviteLink
add_event e l = record l { events = l.events ++ e ∷ [] }

abbrev or_fail {ℓ} : {A : Type ℓ} → Option A → Error → Result Error A
or_fail none e = err e
or_fail (some a) e = ok a

unfoldable pub new_invite_link :
    (random : Option String) (id now group_id created_by : ℕ) → MemberRole → Result Error InviteLink
unfolding can_manage_members add_event
new_invite_link random id now group_id created_by creator_role = do
  guard (can_manage_members creator_role) unauthorized
  token ← or_fail random no_random_token
  ok (
      add_event (link_created id group_id created_by (now + invite_link_expiry_duration)) (record {
        id = id;
        group_id = group_id;
        created_by = created_by;
        token = token;
        status = active;
        created_at = now;
        expires_at = now + invite_link_expiry_duration;
        revoked_at = none;
        usages = [];
        events = [];
      }))

abbrev pub is_revoked : InviteLinkStatus → Bool
is_revoked revoked = true
is_revoked _ = false

abbrev pub is_active : InviteLinkStatus → Bool
is_active active = true
is_active _ = false

abbrev pub is_confirmed : InviteLinkUsageStatus → Bool
is_confirmed usage_confirmed = true
is_confirmed _ = false

unfoldable pub is_expired : (now : ℕ) → InviteLink → Bool
is_expired now l = ltb l.expires_at now

unfoldable pub has_successful_usage : List InviteLinkUsage → Bool
has_successful_usage [] = false
has_successful_usage (u ∷ us) = if is_confirmed u.status then true else has_successful_usage us

unfoldable pub is_usable : (now : ℕ) → InviteLink → Bool
unfolding is_expired has_successful_usage
is_usable now l =
    is_active l.status && (not (is_expired now l) && not (has_successful_usage l.usages))

-- The link with one more usage, the usage, and the error beside it.
abbrev recorded :
    (id now user_id : ℕ)
    → InviteLinkUsageStatus
    → Option Error
    → InviteLink
    → InviteLink × InviteLinkUsage × Option Error
recorded id now user_id status e l =
    let usage : InviteLinkUsage = record {
      id = id;
      invite_link_id = l.id;
      user_id = user_id;
      status = status;
      used_at = now;
    } in
    (record l { usages = l.usages ++ usage ∷ [] }, usage, e)

-- A failed use is recorded too, so it changes the link.
unfoldable pub use_link :
    (id now user_id : ℕ) → InviteLink → InviteLink × InviteLinkUsage × Option Error
unfolding has_successful_usage is_expired add_event
use_link id now user_id l =
    if has_successful_usage l.usages
    then recorded id now user_id usage_consumed (some invite_link_already_used) l
    else if is_revoked l.status
    then recorded id now user_id usage_revoked (some invite_link_revoked) l
    else if is_expired now l
    then recorded id now user_id usage_expired (some invite_link_expired)
        (record l { status = expired })
    else recorded id now user_id usage_confirmed none
        (add_event (link_used l.id l.group_id user_id) l)

unfoldable pub revoke : (now requested_by : ℕ) → MemberRole → InviteLink → Result Error InviteLink
unfolding can_manage_members is_expired add_event
revoke now requested_by requester_role l = do
  guard (can_manage_members requester_role) unauthorized
  guard (not (is_revoked l.status)) invite_link_revoked
  guard (not (is_expired now l)) invite_link_expired
  ok (
      add_event (link_revoked l.id l.group_id requested_by)
        (record l { status = revoked; revoked_at = some now }))

unfoldable pub expire : (now : ℕ) → InviteLink → Result Error InviteLink
unfolding is_expired add_event
expire now l = do
  guard (is_expired now l) invite_link_has_not_expired_yet
  ok (add_event (link_expired l.id l.group_id) (record l { status = expired }))
