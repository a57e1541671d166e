-- ===== src/Activity/Draft/Turns.antt =====
-- Whose turn it is, in the snake and in the alternating order.
use rekreativko_api.Base.{
  ℕ, zero, suc, ◌+◌, ◌*◌, ◌%◌, ◌≤◌, if◌then◌else◌, List, [], ◌∷◌, ◌≡◌, refl, arith,
}
use rekreativko_api.Activity.Draft.State.{
  PickOrder, snake, alternate, DraftSide, side_a, side_b, TeamDraft, same_side, side_for_turn,
  turn_order_from, turn_order, total_picks,
}

abbrev pub count_side : DraftSide → List DraftSide → ℕ
count_side s [] = 0
count_side s (x ∷ xs) = let n = count_side s xs in if same_side x s then suc n else n

turn_order_from-two :
    (order : PickOrder) (n i : ℕ)
    → count_side side_a (turn_order_from order n i) + count_side side_b (turn_order_from order n i)
      ≡ n
unfolding turn_order_from
turn_order_from-two order zero i = refl
turn_order_from-two order (suc n) i = ground (arith, turn_order_from-two order n (suc i))

-- Neither side has picked two more times than the other.
abbrev pub IsFair : List DraftSide → Type 0
IsFair ts =
    (count_side side_a ts ≤ count_side side_b ts + 1)
    × (count_side side_b ts ≤ count_side side_a ts + 1)

-- Four turns from a multiple of four on give each side two, in every order.
IsFair-from : (order : PickOrder) (n i : ℕ) → i % 4 ≡ 0 → IsFair (turn_order_from order n i)
unfolding turn_order_from side_for_turn
IsFair-from order zero i h = ground arith
IsFair-from order (suc zero) i h = ground arith
IsFair-from order (suc (suc zero)) i h = ground arith
IsFair-from order (suc (suc (suc zero))) i h = ground arith
IsFair-from order (suc (suc (suc (suc n)))) i h =
    ground (arith, IsFair-from order n (suc (suc (suc (suc i)))) (omega arith))

-- In the turns that a draft shows, whatever its pick order and the number of people available,
-- neither side has two turns more than the other, and the turns of the two sides add up to all
-- picks.
pub turn_order-IsFair :
    (d : TeamDraft) (available_count : ℕ)
    → IsFair (turn_order d available_count)
      × (count_side side_a (turn_order d available_count)
            + count_side side_b (turn_order d available_count)
          ≡ total_picks d available_count)
unfolding turn_order
turn_order-IsFair d n = (
  IsFair-from d.pick_order (total_picks d n) 0 refl,
  turn_order_from-two d.pick_order (total_picks d n) 0,
)

-- Round by round: the snake is A, B, B, A, and the alternating order A, B, A, B.
pub side_for_turn_rounds :
    (k : ℕ)
    → (side_for_turn snake (4 * k) ≡ side_a)
      × (side_for_turn snake (4 * k + 1) ≡ side_b)
      × (side_for_turn snake (4 * k + 2) ≡ side_b)
      × (side_for_turn snake (4 * k + 3) ≡ side_a)
      × (side_for_turn alternate (2 * k) ≡ side_a)
      × (side_for_turn alternate (2 * k + 1) ≡ side_b)
unfolding side_for_turn
side_for_turn_rounds k = ground arith
