-- ===== src/Base/Lists.antt =====
-- Lists measured by native numbers; membership and multiplicity of identifiers.
use Prim.Native.Nat.{ℕ, zero, suc, ◌+◌, ◌<◌}
use mathlib.Core.Path.{◌≡◌, refl, ap}
use mathlib.Core.Bool.{Bool, true, false, ◌||◌}
use mathlib.Core.List.{List, [], ◌∷◌, ◌++◌, map}
use mathlib.Core.Option.{Option, none, some}
use native.Mathlib.Omega.{arith}
use rekreativko_api.Base.Tests.{◌==◌, if◌then◌else◌}

module _ {ℓ} {A : Type ℓ} where
  abbrev pub length : List A → ℕ
  length [] = 0
  length (x ∷ xs) = suc (length xs)

  abbrev pub get_elem? : List A → ℕ → Option A
  get_elem? [] i = none
  get_elem? (x ∷ xs) zero = some x
  get_elem? (x ∷ xs) (suc i) = get_elem? xs i

  abbrev pub get_or : List A → ℕ → A → A
  get_or [] i d = d
  get_or (x ∷ xs) zero d = x
  get_or (x ∷ xs) (suc i) d = get_or xs i d

  pub length-append : (xs ys : List A) → length (xs ++ ys) ≡ length xs + length ys
  length-append [] ys = omega arith
  length-append (x ∷ xs) ys = omega (arith, length-append xs ys)

pub length-map {ℓ κ} :
    {A : Type ℓ} {B : Type κ} (f : A → B) (xs : List A) → length (map f xs) ≡ length xs
length-map f [] = refl
length-map f (x ∷ xs) = ap suc (length-map f xs)

-- 1 if the two are equal.
abbrev pub hit : ℕ → ℕ → ℕ
hit a b = if a == b then 1 else 0

-- How often `u` stands in the list.
abbrev pub count : ℕ → List ℕ → ℕ
count u [] = 0
count u (v ∷ vs) = hit v u + count u vs

-- `slices.Contains`.
abbrev pub contains : List ℕ → ℕ → Bool
contains [] u = false
contains (v ∷ vs) u = v == u || contains vs u

pub count-append : (u : ℕ) (vs ws : List ℕ) → count u (vs ++ ws) ≡ count u vs + count u ws
count-append u [] ws = omega arith
count-append u (v ∷ vs) ws = ground (arith, count-append u vs ws)

pub contains-count : (a : ℕ) (xs : List ℕ) → contains xs a ≡ true → 0 < count a xs
contains-count a [] h = ground arith
contains-count a (x ∷ xs) h = ground (arith, contains-count a xs)

pub count-contains : (a : ℕ) (xs : List ℕ) → 0 < count a xs → contains xs a ≡ true
count-contains a [] h = ground arith
count-contains a (x ∷ xs) h = ground (arith, count-contains a xs)

pub not-contains-count : (a : ℕ) (xs : List ℕ) → contains xs a ≡ false → count a xs ≡ 0
not-contains-count a [] h = refl
not-contains-count a (x ∷ xs) h = ground (arith, not-contains-count a xs)
