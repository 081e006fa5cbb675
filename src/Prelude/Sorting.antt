-- ===== src/Prelude/Sorting.antt =====
-- `order by`: a list sorted by a test of what comes first.
use Prim.Native.Nat.{ℕ, suc, ◌+◌}
use mathlib.Core.Path.{◌≡◌, refl}
use mathlib.Core.Logic.{inl, inr}
use mathlib.Core.Bool.{Bool, true, false}
use mathlib.Core.List.{List, [], ◌∷◌}
use native.Mathlib.Omega.{arith}
use cyber_lab_backend.Prelude.Tests.{if◌then◌else◌, Bool-cases}
use cyber_lab_backend.Prelude.Tables.{length}
use cyber_lab_backend.Prelude.Rows.{All, All-map}

module _ {ℓ} {A : Type ℓ} (before : A → A → Bool) where
  unfoldable pub insert_by : A → List A → List A
  insert_by x [] = x ∷ []
  insert_by x (y ∷ ys) = let later = insert_by x ys in if before x y then x ∷ y ∷ ys else y ∷ later

  unfoldable pub order_by : List A → List A
  unfolding insert_by
  order_by [] = []
  order_by (x ∷ xs) = insert_by x (order_by xs)

abbrev pub sum {ℓ} : {A : Type ℓ} → (A → ℕ) → List A → ℕ
sum f [] = 0
sum f (x ∷ xs) = f x + sum f xs

module _ {ℓ} {A : Type ℓ} (before : A → A → Bool) where
  sum-insert_by : (f : A → ℕ) (x : A) (xs : List A) → sum f (insert_by before x xs) ≡ f x + sum f xs
  unfolding insert_by
  sum-insert_by f x [] = refl
  sum-insert_by f x (y ∷ ys) = let rest = sum-insert_by f x ys in ground (arith, rest)

  pub sum-order_by : (f : A → ℕ) (xs : List A) → sum f (order_by before xs) ≡ sum f xs
  unfolding order_by
  sum-order_by f [] = refl
  sum-order_by f (x ∷ xs) =
      let rest = sum-order_by f xs in
      let inserted = sum-insert_by f x (order_by before xs) in ground (arith, rest, inserted)

  length-insert_by : (x : A) (xs : List A) → length (insert_by before x xs) ≡ suc (length xs)
  unfolding insert_by
  length-insert_by x [] = refl
  length-insert_by x (y ∷ ys) = let rest = length-insert_by x ys in ground (arith, rest)

  pub length-order_by : (xs : List A) → length (order_by before xs) ≡ length xs
  unfolding order_by
  length-order_by [] = refl
  length-order_by (x ∷ xs) =
      let rest = length-order_by xs in
      let inserted = length-insert_by x (order_by before xs) in ground (arith, rest, inserted)

-- Each element stands in the relation to all behind it.
abbrev pub Sorted {ℓ κ} : {A : Type ℓ} → (A → A → Type κ) → List A → Type κ
Sorted R [] = Unit
Sorted R (x ∷ xs) = All (R x) xs × Sorted R xs

module _ {ℓ κ} {A : Type ℓ} (before : A → A → Bool) (R : A → A → Type κ)
    (first : (x y : A) → before x y ≡ true → R x y)
    (second : (x y : A) → before x y ≡ false → R y x)
    (through : (x y z : A) → R x y → R y z → R x z) where
  All-insert_by {κ'} :
      (P : A → Type κ') (x : A) (xs : List A) → P x → All P xs → All P (insert_by before x xs)
  unfolding insert_by
  All-insert_by P x [] h hs = (h, tt)
  All-insert_by P x (y ∷ ys) h (here_y, later) = elim (Bool-cases (before x y)) [
    | inl hit ↦ rw hit (h, (here_y, later))
    | inr miss ↦ rw miss (here_y, All-insert_by P x ys h later)
  ]

  insert_by-Sorted : (x : A) (xs : List A) → Sorted R xs → Sorted R (insert_by before x xs)
  unfolding insert_by
  insert_by-Sorted x [] h = (tt, tt)
  insert_by-Sorted x (y ∷ ys) (behind, rest) = elim (Bool-cases (before x y)) [
    | inl hit ↦
        let r = first x y hit in
        rw hit ((r, All-map (R y) (R x) ys (λ z s. through x y z r s) behind), (behind, rest))
    | inr miss ↦
        rw miss (All-insert_by (R y) x ys (second x y miss) behind, insert_by-Sorted x ys rest)
  ]

  pub order_by-Sorted : (xs : List A) → Sorted R (order_by before xs)
  unfolding order_by
  order_by-Sorted [] = tt
  order_by-Sorted (x ∷ xs) = insert_by-Sorted x (order_by before xs) (order_by-Sorted xs)
