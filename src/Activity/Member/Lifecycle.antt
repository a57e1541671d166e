-- ===== src/Activity/Member/Lifecycle.antt =====
-- The life of a membership: the operations of activity/internal/domain/member.go as the steps of
-- a state machine, its invariant and its terminal states.
use rekreativko_api.Base.{
  ℕ, Bool, true, false, List, [], ◌∷◌, ◌≡◌, ◌⊎◌, refl, Result, ok, err, arith,
}
use rekreativko_api.Activity.Errors.{Error}
use rekreativko_api.Activity.Member.{
  Member, MemberRole, MemberStatus, creator, member, pending, confirmed, rejected,
  new_creator_member, new_join_request, new_member_from_invite, new_member_from_invite_link,
  approve, reject, leave, remove, promote_to_admin, demote_to_member, set_priority, remove_priority,
}

-- A call of a method with its requester and the requester's role.
pub data MemberOp : Type 0 where
  approves rejects removes promotes demotes sets_priority removes_priority :
      ℕ → MemberRole → MemberOp
  leaves : MemberOp

unfoldable pub apply : ℕ → MemberOp → Member → Result Error Member
unfolding approve reject leave remove promote_to_admin demote_to_member set_priority remove_priority
apply now (approves by role) m = approve now by role m
apply now (rejects by role) m = reject now by role m
apply now (removes by role) m = remove now by role m
apply now (promotes by role) m = promote_to_admin by role m
apply now (demotes by role) m = demote_to_member by role m
apply now (sets_priority by role) m = set_priority by role m
apply now (removes_priority by role) m = remove_priority by role m
apply now leaves m = leave now m

-- An error leaves the member as it was.
abbrev after : Member → Result Error Member → Member
after m (ok m') = m'
after m (err e) = m

unfoldable pub run : Member → List (ℕ × MemberOp) → Member
run m [] = m
run m ((now, op) ∷ ops) = run (after m (apply now op m)) ops

-- The creator is always confirmed, and a member that was never confirmed has no other role than
-- the plain one.
pub record IsWellFormed (m : Member) : Type 0 where
  pub creator_confirmed : m.role ≡ creator → m.status ≡ confirmed
  pub pending_plain : m.status ≡ pending → m.role ≡ member
  pub rejected_plain : m.status ≡ rejected → m.role ≡ member

abbrev Origin : Member → Type 0
Origin m =
    ((id now g u : ℕ) × (m ≡ new_creator_member id now g u))
    ⊎ ((id now g u : ℕ) × (ms : List ℕ) × (m ≡ new_join_request id now g u ms))
    ⊎ ((id now g u : ℕ) × (m ≡ new_member_from_invite id now g u))
    ⊎ ((id now g u : ℕ) × (m ≡ new_member_from_invite_link id now g u))

pub apply-IsWellFormed :
    (now : ℕ) (op : MemberOp) (m : Member)
    → IsWellFormed m
    → IsWellFormed (after m (apply now op m))
unfolding apply
apply-IsWellFormed now (approves by role) m w = ground arith
apply-IsWellFormed now (rejects by role) m w = ground arith
apply-IsWellFormed now (removes by role) m w = ground arith
apply-IsWellFormed now (promotes by role) m w = ground arith
apply-IsWellFormed now (demotes by role) m w = ground arith
apply-IsWellFormed now (sets_priority by role) m w = ground arith
apply-IsWellFormed now (removes_priority by role) m w = ground arith
apply-IsWellFormed now leaves m w = ground arith

-- If a member's creator role goes with the confirmed status, and the pending and the rejected status
-- with the plain role, then that is so after any calls by anybody.
pub run-IsWellFormed :
    (m : Member) (ops : List (ℕ × MemberOp)) → IsWellFormed m → IsWellFormed (run m ops)
unfolding run
run-IsWellFormed m [] w = w
run-IsWellFormed m ((now, op) ∷ ops) w =
    run-IsWellFormed (after m (apply now op m)) ops (apply-IsWellFormed now op m w)

abbrev pub is_over : MemberStatus → Bool
is_over pending = false
is_over confirmed = false
is_over _ = true

apply_over :
    (now : ℕ) (op : MemberOp) (m : Member) → is_over m.status ≡ true → after m (apply now op m) ≡ m
unfolding apply
apply_over now (approves by role) m h = ground arith
apply_over now (rejects by role) m h = ground arith
apply_over now (removes by role) m h = ground arith
apply_over now (promotes by role) m h = ground arith
apply_over now (demotes by role) m h = ground arith
apply_over now (sets_priority by role) m h = ground arith
apply_over now (removes_priority by role) m h = ground arith
apply_over now leaves m h = ground arith

-- Whatever is tried on a member that was rejected, has left or was removed changes nothing.
pub run_over_member :
    (m : Member) (ops : List (ℕ × MemberOp)) → is_over m.status ≡ true → run m ops ≡ m
unfolding run
run_over_member m [] h = refl
run_over_member m ((now, op) ∷ ops) h = rw (apply_over now op m h) (run_over_member m ops h)

-- A member whose role is creator is still there, confirmed and creator, after any calls.
creator_kept :
    (now : ℕ) (op : MemberOp) (m : Member)
    → m.role ≡ creator
    → m.status ≡ confirmed
    → ((after m (apply now op m)).role ≡ creator) × ((after m (apply now op m)).status ≡ confirmed)
unfolding apply
creator_kept now (approves by role) m r c = ground arith
creator_kept now (rejects by role) m r c = ground arith
creator_kept now (removes by role) m r c = ground arith
creator_kept now (promotes by role) m r c = ground arith
creator_kept now (demotes by role) m r c = ground arith
creator_kept now (sets_priority by role) m r c = ground arith
creator_kept now (removes_priority by role) m r c = ground arith
creator_kept now leaves m r c = ground arith

-- Whatever is tried on the member that created the group, by anybody, they stay its confirmed
-- creator.
pub run_creator :
    (id now g u : ℕ) (ops : List (ℕ × MemberOp))
    → let m = run (new_creator_member id now g u) ops in (m.role ≡ creator) × (m.status ≡ confirmed)
unfolding run new_creator_member
run_creator id now g u ops = go (new_creator_member id now g u) ops refl refl
  where
    go :
        (m : Member) (ops : List (ℕ × MemberOp))
        → m.role ≡ creator
        → m.status ≡ confirmed
        → ((run m ops).role ≡ creator) × ((run m ops).status ≡ confirmed)
    go m [] r c = (r, c)
    go m ((t, op) ∷ rest) r c =
        let (r', c') = creator_kept t op m r c in go (after m (apply t op m)) rest r' c'
