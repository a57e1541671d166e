-- ===== src/Activity/Member.antt =====
-- activity/internal/domain/member.go: roles and the life of a membership. Event ids and the time
-- stamps of events are left out; `now` is what `time.Now().UTC()` returns.
pub mod Lifecycle
use rekreativko_api.Base.{
  ℕ, String, Bool, true, false, ◌||◌, ◌&&◌, not, Option, some, none, List, [], ◌∷◌, ◌++◌, Result,
  ok, ◌>>=◌, ◌>>◌, guard,
}
use rekreativko_api.Activity.Errors.{
  Error, unauthorized, member_already_admin, member_not_admin, creator_cannot_leave, not_confirmed,
  not_pending_status, cannot_demote_creator, member_already_priority, member_not_priority,
}

-- `other` is any other string, such as the empty role of somebody who is no member.
pub data MemberRole : Type 0 where
  creator admin member : MemberRole
  other : String → MemberRole

pub data MemberStatus : Type 0 where
  pending confirmed rejected left removed : MemberStatus

abbrev pub is_creator : MemberRole → Bool
is_creator creator = true
is_creator _ = false

abbrev pub is_admin : MemberRole → Bool
is_admin admin = true
is_admin _ = false

abbrev pub is_member : MemberRole → Bool
is_member member = true
is_member _ = false

unfoldable pub can_manage_members : MemberRole → Bool
can_manage_members creator = true
can_manage_members admin = true
can_manage_members _ = false

abbrev pub is_pending : MemberStatus → Bool
is_pending pending = true
is_pending _ = false

abbrev pub is_confirmed : MemberStatus → Bool
is_confirmed confirmed = true
is_confirmed _ = false

-- What each event carries beside its id and time stamp; its aggregate is the group.
pub data MemberEvent : Type 0 where
  member_join_requested : (activity_id user_id : ℕ) → (manager_user_ids : List ℕ) → MemberEvent
  member_joined : (activity_id user_id : ℕ) → (via_invite : Bool) → MemberEvent
  member_approved : (activity_id user_id approved_by : ℕ) → MemberEvent
  member_rejected : (activity_id user_id rejected_by : ℕ) → MemberEvent
  member_left : (activity_id user_id : ℕ) → MemberEvent
  member_removed : (activity_id user_id removed_by : ℕ) → MemberEvent
  member_role_changed :
      (activity_id user_id changed_by : ℕ) → (new_role old_role : MemberRole) → MemberEvent
  member_priority_set : (activity_id user_id set_by : ℕ) → MemberEvent
  member_priority_removed : (activity_id user_id removed_by : ℕ) → MemberEvent

pub record Member : Type 0 where
  pub id : ℕ
  pub activity_group_id : ℕ
  pub user_id : ℕ
  pub role : MemberRole
  pub status : MemberStatus
  pub is_priority : Bool
  pub joined_at : ℕ
  pub decided_at : Option ℕ
  pub left_at : Option ℕ
  pub events : List MemberEvent

add_event : MemberEvent → Member → Member
add_event e m = record m { events = m.events ++ e ∷ [] }

unfoldable pub new_creator_member : (id now activity_group_id user_id : ℕ) → Member
new_creator_member id now activity_group_id user_id = record {
  id = id;
  activity_group_id = activity_group_id;
  user_id = user_id;
  role = creator;
  status = confirmed;
  is_priority = false;
  joined_at = now;
  decided_at = some now;
  left_at = none;
  events = [];
}

unfoldable pub new_join_request : (id now activity_group_id user_id : ℕ) → List ℕ → Member
unfolding add_event
new_join_request id now activity_group_id user_id manager_user_ids =
    add_event (member_join_requested activity_group_id user_id manager_user_ids) (record {
      id = id;
      activity_group_id = activity_group_id;
      user_id = user_id;
      role = member;
      status = pending;
      is_priority = false;
      joined_at = now;
      decided_at = none;
      left_at = none;
      events = [];
    })

unfoldable pub new_member_from_invite : (id now activity_group_id user_id : ℕ) → Member
unfolding add_event
new_member_from_invite id now activity_group_id user_id =
    add_event (member_joined activity_group_id user_id true) (record {
      id = id;
      activity_group_id = activity_group_id;
      user_id = user_id;
      role = member;
      status = confirmed;
      is_priority = false;
      joined_at = now;
      decided_at = none;
      left_at = none;
      events = [];
    })

unfoldable pub new_member_from_invite_link : (id now activity_group_id user_id : ℕ) → Member
unfolding add_event
new_member_from_invite_link id now activity_group_id user_id =
    add_event (member_joined activity_group_id user_id true) (record {
      id = id;
      activity_group_id = activity_group_id;
      user_id = user_id;
      role = member;
      status = confirmed;
      is_priority = false;
      joined_at = now;
      decided_at = none;
      left_at = none;
      events = [];
    })

unfoldable pub approve : (now approved_by : ℕ) → MemberRole → Member → Result Error Member
unfolding add_event can_manage_members
approve now approved_by approver_role p = do
  guard (can_manage_members approver_role) unauthorized
  guard (is_pending p.status) not_pending_status
  ok (
      add_event (member_approved p.activity_group_id p.user_id approved_by)
        (record p { status = confirmed; decided_at = some now }))

unfoldable pub reject : (now rejected_by : ℕ) → MemberRole → Member → Result Error Member
unfolding add_event can_manage_members
reject now rejected_by rejector_role p = do
  guard (can_manage_members rejector_role) unauthorized
  guard (is_pending p.status) not_pending_status
  ok (
      add_event (member_rejected p.activity_group_id p.user_id rejected_by)
        (record p { status = rejected; decided_at = some now }))

unfoldable pub leave : (now : ℕ) → Member → Result Error Member
unfolding add_event
leave now p = do
  guard (not (is_creator p.role)) creator_cannot_leave
  guard (is_confirmed p.status) not_confirmed
  ok (
      add_event (member_left p.activity_group_id p.user_id)
        (record p { status = left; decided_at = some now }))

unfoldable pub remove : (now remover_id : ℕ) → MemberRole → Member → Result Error Member
unfolding add_event can_manage_members
remove now remover_id remover_role p = do
  guard (not (is_creator p.role)) creator_cannot_leave
  guard (not (is_admin remover_role && is_admin p.role)) unauthorized
  guard (can_manage_members remover_role) unauthorized
  guard (is_confirmed p.status) not_confirmed
  ok (
      add_event (member_removed p.activity_group_id p.user_id remover_id)
        (record p { status = removed; decided_at = some now }))

-- `NewMemberRoleChangedEvent(Member, changedBy, newRole, oldRole)`.
new_member_role_changed_event :
    Member → (changed_by : ℕ) → (new_role old_role : MemberRole) → MemberEvent
new_member_role_changed_event m changed_by new_role old_role =
    member_role_changed m.activity_group_id m.user_id changed_by new_role old_role

-- The third argument of the event is the requester's role, as in the source.
unfoldable pub change_role :
    (requester_id : ℕ) → (requester_role new_role : MemberRole) → Member → Result Error Member
unfolding add_event new_member_role_changed_event
change_role requester_id requester_role new_role p = do
  guard (is_creator requester_role) unauthorized
  guard (not (is_creator p.role)) cannot_demote_creator
  guard (is_confirmed p.status) not_confirmed
  guard (not (is_member new_role && not (is_admin p.role))) member_not_admin
  guard (not (is_admin new_role && is_admin p.role)) member_already_admin
  let q = record p { role = new_role }
  ok (add_event (new_member_role_changed_event q requester_id requester_role p.role) q)

unfoldable pub promote_to_admin : (requester_id : ℕ) → MemberRole → Member → Result Error Member
unfolding change_role
promote_to_admin requester_id requester_role = change_role requester_id requester_role admin

unfoldable pub demote_to_member : (requester_id : ℕ) → MemberRole → Member → Result Error Member
unfolding change_role
demote_to_member requester_id requester_role = change_role requester_id requester_role member

unfoldable pub can_re_join : Member → Bool
can_re_join p = elim p.status [ left ↦ true | removed ↦ true | _ ↦ false ]

-- `MemberStatus.CanReJoin`, which names other statuses than `Member.CanReJoin`.
unfoldable pub status_can_re_join : MemberStatus → Bool
status_can_re_join left = true
status_can_re_join rejected = true
status_can_re_join _ = false

unfoldable pub set_priority : (requester_id : ℕ) → MemberRole → Member → Result Error Member
unfolding add_event can_manage_members
set_priority requester_id requester_role p = do
  guard (can_manage_members requester_role) unauthorized
  guard (is_confirmed p.status) not_confirmed
  guard (not p.is_priority) member_already_priority
  ok (
      add_event (member_priority_set p.activity_group_id p.user_id requester_id)
        (record p { is_priority = true }))

unfoldable pub remove_priority : (requester_id : ℕ) → MemberRole → Member → Result Error Member
unfolding add_event can_manage_members
remove_priority requester_id requester_role p = do
  guard (can_manage_members requester_role) unauthorized
  guard (is_confirmed p.status) not_confirmed
  guard p.is_priority member_not_priority
  ok (
      add_event (member_priority_removed p.activity_group_id p.user_id requester_id)
        (record p { is_priority = false }))
