-- ===== src/Activity/Voting/Canonical.antt =====
-- Divisions up to the order of the players and of the teams, and their keys.
use rekreativko_api.Base.{
  ℕ, Bool, true, false, leb, List, [], ◌∷◌, map, ap, Bool-cases, ◌≡◌, inl, inr, refl, sym, subst,
  ==_self, ◌↔◌, ◌∙◌, arith,
}
use rekreativko_api.Activity.Voting.Key.{
  insert_by, sort_by, team_leb, division_key, same_team, same_key,
}

-- One list is the other with some items moved.
pub data Reordered {ℓ} {A : Type ℓ} : List A → List A → Type ℓ where
  same : {xs : List A} → Reordered xs xs
  swapped : {x y : A} {xs ys : List A} → Reordered xs ys → Reordered (x ∷ y ∷ xs) (y ∷ x ∷ ys)
  behind : {x : A} {xs ys : List A} → Reordered xs ys → Reordered (x ∷ xs) (x ∷ ys)
  then_again : {xs ys zs : List A} → Reordered xs ys → Reordered ys zs → Reordered xs zs

-- A test that is a total order.
pub record IsOrder {ℓ} {A : Type ℓ} (le : A → A → Bool) : Type ℓ where
  pub total : (a b : A) → le a b ≡ false → le b a ≡ true
  pub antisym : (a b : A) → le a b ≡ true → le b a ≡ true → a ≡ b
  pub trans : (a b c : A) → le a b ≡ true → le b c ≡ true → le a c ≡ true

module _ {ℓ} {A : Type ℓ} (le : A → A → Bool) (o : IsOrder le) where
  insert-insert :
      (a b : A) (xs : List A)
      → insert_by le a (insert_by le b xs) ≡ insert_by le b (insert_by le a xs)
  unfolding insert_by
  insert-insert a b [] = ground (arith, o.total a b, o.antisym a b)
  insert-insert a b (x ∷ xs) = ground (
    arith,
    insert-insert a b xs,
    o.total a b,
    o.antisym a b,
    o.trans a b x,
    o.trans b a x,
    o.total a x,
    o.total b x,
  )

  pub sort-Reordered : {xs ys : List A} → Reordered xs ys → sort_by le xs ≡ sort_by le ys
  unfolding sort_by
  sort-Reordered same = refl
  sort-Reordered (swapped {x} {y} {xs} r) =
      insert-insert x y (sort_by le xs)
      ∙ ap (λ l. insert_by le y (insert_by le x l)) (sort-Reordered r)
  sort-Reordered (behind {x} r) = ap (insert_by le x) (sort-Reordered r)
  sort-Reordered (then_again r s) = sort-Reordered r ∙ sort-Reordered s

Reordered-sym {ℓ} : {A : Type ℓ} {xs ys : List A} → Reordered xs ys → Reordered ys xs
Reordered-sym same = same
Reordered-sym (swapped r) = swapped (Reordered-sym r)
Reordered-sym (behind r) = behind (Reordered-sym r)
Reordered-sym (then_again r s) = then_again (Reordered-sym s) (Reordered-sym r)

Reordered-map {ℓ κ} :
    {A : Type ℓ} {B : Type κ} (f : A → B) {xs ys : List A}
    → Reordered xs ys
    → Reordered (map f xs) (map f ys)
Reordered-map f same = same
Reordered-map f (swapped r) = swapped (Reordered-map f r)
Reordered-map f (behind r) = behind (Reordered-map f r)
Reordered-map f (then_again r s) = then_again (Reordered-map f r) (Reordered-map f s)

Reordered-insert {ℓ} :
    {A : Type ℓ} (le : A → A → Bool) (a : A) (xs : List A) → Reordered (a ∷ xs) (insert_by le a xs)
unfolding insert_by
Reordered-insert le a [] = same
Reordered-insert le a (x ∷ xs) = elim (Bool-cases (le a x)) [
  | inl t ↦ rw t same
  | inr f ↦ rw f (then_again (swapped same) (behind (Reordered-insert le a xs)))
]

Reordered-sort {ℓ} : {A : Type ℓ} (le : A → A → Bool) (xs : List A) → Reordered xs (sort_by le xs)
unfolding sort_by
Reordered-sort le [] = same
Reordered-sort le (x ∷ xs) =
    then_again (behind (Reordered-sort le xs)) (Reordered-insert le x (sort_by le xs))

leb-IsOrder : IsOrder leb
leb-IsOrder = record {
  total = λ a b h. ground arith;
  antisym = λ a b h k. ground arith;
  trans = λ a b c h k. ground arith;
}

team_leb_total : (us vs : List ℕ) → team_leb us vs ≡ false → team_leb vs us ≡ true
unfolding team_leb
team_leb_total [] vs h = cc
team_leb_total (u ∷ us) [] h = refl
team_leb_total (u ∷ us) (v ∷ vs) h = ground (arith, team_leb_total us vs)

team_leb_antisym : (us vs : List ℕ) → team_leb us vs ≡ true → team_leb vs us ≡ true → us ≡ vs
unfolding team_leb
team_leb_antisym [] [] h k = refl
team_leb_antisym [] (v ∷ vs) h k = cc
team_leb_antisym (u ∷ us) [] h k = cc
team_leb_antisym (u ∷ us) (v ∷ vs) h k = ground (arith, team_leb_antisym us vs)

team_leb_trans :
    (us vs ws : List ℕ) → team_leb us vs ≡ true → team_leb vs ws ≡ true → team_leb us ws ≡ true
unfolding team_leb
team_leb_trans [] vs ws h k = refl
team_leb_trans (u ∷ us) [] ws h k = cc
team_leb_trans (u ∷ us) (v ∷ vs) [] h k = cc
team_leb_trans (u ∷ us) (v ∷ vs) (w ∷ ws) h k = ground (arith, team_leb_trans us vs ws)

team_leb-IsOrder : IsOrder team_leb
team_leb-IsOrder = record {
  total = team_leb_total;
  antisym = team_leb_antisym;
  trans = team_leb_trans;
}

-- The same players together, whatever the order of the players of a team and of the teams.
pub data SameDivision : List (List ℕ) → List (List ℕ) → Type 0 where
  teams_moved : {ts us : List (List ℕ)} → Reordered ts us → SameDivision ts us
  players_moved :
      {t u : List ℕ} {ts us : List (List ℕ)}
      → Reordered t u
      → SameDivision ts us
      → SameDivision (t ∷ ts) (u ∷ us)
  both_moved :
      {ts us vs : List (List ℕ)} → SameDivision ts us → SameDivision us vs → SameDivision ts vs

SameDivision-sym : {ts us : List (List ℕ)} → SameDivision ts us → SameDivision us ts
SameDivision-sym (teams_moved r) = teams_moved (Reordered-sym r)
SameDivision-sym (players_moved r s) = players_moved (Reordered-sym r) (SameDivision-sym s)
SameDivision-sym (both_moved r s) = both_moved (SameDivision-sym s) (SameDivision-sym r)

SameDivision-division_key :
    {ts us : List (List ℕ)} → SameDivision ts us → division_key ts ≡ division_key us
unfolding division_key sort_by
SameDivision-division_key (teams_moved r) =
    sort-Reordered team_leb team_leb-IsOrder (Reordered-map (sort_by leb) r)
SameDivision-division_key (players_moved {t} {u} {ts} r s) =
    ap (λ x. insert_by team_leb x (sort_by team_leb (map (sort_by leb) ts)))
      (sort-Reordered leb leb-IsOrder r)
    ∙ ap (insert_by team_leb (sort_by leb u)) (SameDivision-division_key s)
SameDivision-division_key (both_moved r s) =
    SameDivision-division_key r ∙ SameDivision-division_key s

SameDivision-sorted : (ts : List (List ℕ)) → SameDivision ts (map (sort_by leb) ts)
SameDivision-sorted [] = teams_moved same
SameDivision-sorted (t ∷ ts) = players_moved (Reordered-sort leb t) (SameDivision-sorted ts)

SameDivision-key : (ts : List (List ℕ)) → SameDivision ts (division_key ts)
unfolding division_key
SameDivision-key ts =
    both_moved (SameDivision-sorted ts)
      (teams_moved (Reordered-sort team_leb (map (sort_by leb) ts)))

pub division_key_iff :
    (ts us : List (List ℕ)) → (division_key ts ≡ division_key us) ↔ SameDivision ts us
division_key_iff ts us = (
  (λ h.
      both_moved (SameDivision-key ts)
        (SameDivision-sym (subst (SameDivision us) (sym h) (SameDivision-key us)))),
  SameDivision-division_key,
)

same_team-eq : (us vs : List ℕ) → (same_team us vs ≡ true) ↔ (us ≡ vs)
unfolding same_team
same_team-eq [] [] = ((λ h. refl), λ h. refl)
same_team-eq [] (v ∷ vs) = ((λ h. cc), λ h. ground arith)
same_team-eq (u ∷ us) [] = ((λ h. cc), λ h. ground arith)
same_team-eq (u ∷ us) (v ∷ vs) =
    let (there, back) = same_team-eq us vs in
    ((λ h. ground (arith, there)), λ h. ground (arith, back, ==_self v, h))

pub same_key-eq : (ss ts : List (List ℕ)) → (same_key ss ts ≡ true) ↔ (ss ≡ ts)
unfolding same_key
same_key-eq [] [] = ((λ h. refl), λ h. refl)
same_key-eq [] (t ∷ ts) = ((λ h. cc), λ h. ground arith)
same_key-eq (s ∷ ss) [] = ((λ h. cc), λ h. ground arith)
same_key-eq (s ∷ ss) (t ∷ ts) =
    let (there, back) = same_key-eq ss ts in
    let (there', back') = same_team-eq s t in
    ((λ h. ground (arith, there, there')), λ h. ground (arith, back, back', h))
