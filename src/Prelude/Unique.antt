-- ===== src/Prelude/Unique.antt =====
-- The one row under a unique key.
use Prim.Native.Nat.{◌≤◌}
use mathlib.Core.Path.{◌≡◌, ◌∙◌, ap}
use mathlib.Core.Bool.{Bool, true, false}
use mathlib.Core.Logic.{inl, inr}
use mathlib.Core.Option.{some}
use mathlib.Core.List.{List, [], ◌∷◌}
use native.Mathlib.Omega.{arith}
use cyber_lab_backend.Prelude.Tests.{Bool-cases, Option-cases}
use cyber_lab_backend.Prelude.Tables.{select_one, update_where, exists_where, count_where}
use cyber_lab_backend.Prelude.Rows.{
  All, exists_of_select, not_exists_of_select, select_one-holds, count_pos, All-select_one, All-map,
}

module _ {ℓ} {A : Type ℓ} where
  pub no_row_of_count :
      (k : A → Bool) (xs : List A) → count_where k xs ≡ 0 → All (λ y. k y ≡ false) xs
  no_row_of_count k [] h = tt
  no_row_of_count k (y ∷ xs) h = elim (Bool-cases (k y)) [
    | inl hit ↦ absurd (ground arith)
    | inr miss ↦ (miss, no_row_of_count k xs (ground arith))
  ]

  pub exists_of_implied :
      (p k : A → Bool) (xs : List A)
      → ((y : A) → p y ≡ true → k y ≡ true)
      → exists_where p xs ≡ true
      → exists_where k xs ≡ true
  exists_of_implied p k [] h e = e
  exists_of_implied p k (y ∷ xs) h e = ground (arith, h y, exists_of_implied p k xs h)

  -- Under a unique key, a row that a narrower query returns is the only one.
  pub only_row :
      (p k : A → Bool) (xs : List A) (x : A)
      → ((y : A) → p y ≡ true → k y ≡ true)
      → count_where k xs ≤ 1
      → select_one p xs ≡ some x
      → All (λ y. k y ≡ true → y ≡ x) xs
  only_row p k [] x h one e = tt
  only_row p k (y ∷ xs) x h one e = elim (Bool-cases (p y)) [
    | inl hit ↦
        let same : y ≡ x = ground arith in
        let key = h y hit in
        (
          λ _. same,
          All-map (λ z. k z ≡ false) (λ z. k z ≡ true → z ≡ x) xs
              (λ z none t. absurd (ground arith)) (no_row_of_count k xs (ground arith)),
        )
    | inr miss ↦
        let rest : select_one p xs ≡ some x = ground arith in
        let below = count_pos k xs (exists_of_implied p k xs h (exists_of_select p xs x rest)) in
        (λ t. absurd (ground arith), only_row p k xs x h (ground arith) rest)
  ]

  pub select_one-only :
      (k : A → Bool) (xs : List A) (x : A)
      → All (λ y. k y ≡ true → y ≡ x) xs
      → exists_where k xs ≡ true
      → select_one k xs ≡ some x
  select_one-only k xs x only e = elim (Option-cases (select_one k xs)) [
    | inl missing ↦ absurd (ground (arith, not_exists_of_select k xs missing))
    | inr (z, found) ↦
        found
        ∙ ap some (
            All-select_one (λ y. k y ≡ true → y ≡ x) k xs z only found
              (select_one-holds k xs z found))
  ]

  -- The row that a query by key and more returns is the row under the key.
  pub select_one-key :
      (p k : A → Bool) (xs : List A) (x : A)
      → ((y : A) → p y ≡ true → k y ≡ true)
      → count_where k xs ≤ 1
      → select_one p xs ≡ some x
      → select_one k xs ≡ some x
  select_one-key p k xs x h one e =
      select_one-only k xs x (only_row p k xs x h one e)
        (exists_of_implied p k xs h (exists_of_select p xs x e))

module _ {ℓ κ} {A : Type ℓ} (P : A → Type κ) where
  -- An update of rows of which something is known.
  pub All-update-All :
      (q : A → Bool) (f : A → A) (xs : List A)
      → All (λ x. q x ≡ true → P (f x)) xs
      → All P xs
      → All P (update_where q f xs)
  All-update-All q f [] h a = tt
  All-update-All q f (x ∷ xs) (here, later) (a, as') = elim (Bool-cases (q x)) [
    | inl hit ↦ rw hit (here hit, All-update-All q f xs later as')
    | inr miss ↦ rw miss (a, All-update-All q f xs later as')
  ]
