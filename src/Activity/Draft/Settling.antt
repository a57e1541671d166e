-- ===== src/Activity/Draft/Settling.antt =====
-- What `settle` does, and what the writes of the operations do to the places in a draft.
use rekreativko_api.Base.{
  ℕ, Bool, true, false, ◌&&◌, if◌then◌else◌, List, [], ◌∷◌, ◌≡◌, refl, arith,
}
use rekreativko_api.Activity.Draft.State.{TeamDraft, active, completed, available, captain_side}
use rekreativko_api.Activity.Draft.Operations.{is_active, settle_active, settle}

abbrev pub is_nil : List ℕ → Bool
is_nil [] = true
is_nil (x ∷ xs) = false

-- Settling changes nothing but the status, the end and the events; the draft is completed exactly
-- if it was active and nobody is left to pick.
pub record Settled (c : List ℕ) (d e : TeamDraft) : Type 0 where
  pub same_a : e.captain_a ≡ d.captain_a
  pub same_b : e.captain_b ≡ d.captain_b
  pub same_picks : e.picks ≡ d.picks
  pub same_turn : e.turn ≡ d.turn
  pub same_version : e.version ≡ d.version
  pub same_order : e.pick_order ≡ d.pick_order
  pub same_config : e.team_config ≡ d.team_config
  pub new_status :
      e.status ≡ (if is_active d.status && is_nil (available e c) then completed else d.status)

-- Who is available depends on the captains and the picks alone.
pub available-frame :
    (d e : TeamDraft) (c : List ℕ)
    → e.captain_a ≡ d.captain_a
    → e.captain_b ≡ d.captain_b
    → e.picks ≡ d.picks
    → available e c ≡ available d c
unfolding available captain_side
available-frame d e [] a b p = refl
available-frame d e (x ∷ xs) a b p = rw (a, b, p, available-frame d e xs a b p)

settle_active-Settled :
    (now : ℕ) (c left : List ℕ) (announce : Bool) (d : TeamDraft)
    → d.status ≡ active
    → available d c ≡ left
    → Settled c d (settle_active now left announce d)
unfolding settle_active
settle_active-Settled now c [] announce d h e =
    ground (arith, available-frame d (settle_active now [] announce d) c refl refl refl)
settle_active-Settled now c (x ∷ xs) true d h e =
    ground (arith, available-frame d (settle_active now (x ∷ xs) true d) c refl refl refl)
settle_active-Settled now c (x ∷ xs) false d h e = ground arith

pub settle-Settled :
    (now : ℕ) (c : List ℕ) (announce : Bool) (d : TeamDraft) → Settled c d (settle now c announce d)
unfolding settle
settle-Settled now c announce d =
    ground (arith, settle_active-Settled now c (available d c) announce d)
