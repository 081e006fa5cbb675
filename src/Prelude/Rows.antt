-- ===== src/Prelude/Rows.antt =====
-- What the statements of a table keep: counts, predicates of every row, and the row under a key.
use Prim.Native.Nat.{◌≤◌}
use mathlib.Core.Path.{◌≡◌, refl}
use mathlib.Core.Bool.{Bool, true, false}
use mathlib.Core.Logic.{inl, inr}
use mathlib.Core.Option.{none, some}
use mathlib.Core.List.{List, [], ◌∷◌}
use native.Mathlib.Omega.{arith}
use cyber_lab_backend.Prelude.Tests.{if◌then◌else◌, Bool-cases}
use cyber_lab_backend.Prelude.Tables.{
  select_where, select_one, update_where, exists_where, count_where,
}

module _ {ℓ κ} {A : Type ℓ} (P : A → Type κ) where
  abbrev pub All : List A → Type κ
  All [] = Unit
  All (x ∷ xs) = P x × All xs

module _ {ℓ} {A : Type ℓ} where
  -- An update that makes no row count that did not count before.
  pub count-update-le :
      (p q : A → Bool) (f : A → A) (xs : List A)
      → All (λ x. q x ≡ true → p (f x) ≡ true → p x ≡ true) xs
      → count_where p (update_where q f xs) ≤ count_where p xs
  count-update-le p q f [] h = omega arith
  count-update-le p q f (x ∷ xs) (h, hs) =
      let rest = count-update-le p q f xs hs in ground (arith, h)

  -- An update that keeps the test of every row keeps the count.
  pub count-update :
      (p q : A → Bool) (f : A → A) (xs : List A)
      → All (λ x. q x ≡ true → p (f x) ≡ p x) xs
      → count_where p (update_where q f xs) ≡ count_where p xs
  count-update p q f [] h = refl
  count-update p q f (x ∷ xs) (h, hs) = let rest = count-update p q f xs hs in ground (arith, h)

  pub count_eq_zero :
      (p : A → Bool) (xs : List A) → exists_where p xs ≡ false → count_where p xs ≡ 0
  count_eq_zero p [] h = refl
  count_eq_zero p (x ∷ xs) h = ground (arith, count_eq_zero p xs)

  pub count_pos : (p : A → Bool) (xs : List A) → exists_where p xs ≡ true → 1 ≤ count_where p xs
  count_pos p [] h = ground arith
  count_pos p (x ∷ xs) h = ground (arith, count_pos p xs)

  pub exists-update :
      (p q : A → Bool) (f : A → A) (xs : List A)
      → All (λ x. q x ≡ true → p (f x) ≡ p x) xs
      → exists_where p (update_where q f xs) ≡ exists_where p xs
  exists-update p q f [] h = refl
  exists-update p q f (x ∷ xs) (h, hs) = let rest = exists-update p q f xs hs in ground (arith, h)

  pub exists_of_select :
      (p : A → Bool) (xs : List A) (x : A) → select_one p xs ≡ some x → exists_where p xs ≡ true
  exists_of_select p [] x e = ground arith
  exists_of_select p (y ∷ xs) x e = ground (arith, exists_of_select p xs x)

  pub not_exists_of_select :
      (p : A → Bool) (xs : List A) → select_one p xs ≡ none → exists_where p xs ≡ false
  not_exists_of_select p [] e = refl
  not_exists_of_select p (y ∷ xs) e = ground (arith, not_exists_of_select p xs)

  -- The row that a query returns satisfies its condition.
  pub select_one-holds :
      (p : A → Bool) (xs : List A) (x : A) → select_one p xs ≡ some x → p x ≡ true
  select_one-holds p [] x e = ground arith
  select_one-holds p (y ∷ xs) x e = ground (arith, select_one-holds p xs x)

  -- An update of rows that keep the key: the row under a key, before and after.
  pub select_one-update :
      (p q : A → Bool) (f : A → A) (xs : List A)
      → ((x : A) → q x ≡ true → p (f x) ≡ p x)
      → (x : A) → select_one p xs ≡ some x
      → select_one p (update_where q f xs) ≡ some (if q x then f x else x)
  select_one-update p q f [] h x e = ground arith
  select_one-update p q f (y ∷ xs) h x e =
      let rest = select_one-update p q f xs h x in ground (arith, h y, rest)

  pub select_one-update_none :
      (p q : A → Bool) (f : A → A) (xs : List A)
      → ((x : A) → q x ≡ true → p (f x) ≡ p x)
      → select_one p xs ≡ none
      → select_one p (update_where q f xs) ≡ none
  select_one-update_none p q f [] h e = refl
  select_one-update_none p q f (y ∷ xs) h e =
      let rest = select_one-update_none p q f xs h in ground (arith, h y, rest)

module _ {ℓ κ} {A : Type ℓ} (P : A → Type κ) where
  pub All-update :
      (q : A → Bool) (f : A → A) (xs : List A)
      → ((x : A) → q x ≡ true → P x → P (f x))
      → All P xs
      → All P (update_where q f xs)
  All-update q f [] h a = tt
  All-update q f (x ∷ xs) h (a, as') = elim (Bool-cases (q x)) [
    | inl hit ↦ rw hit (h x hit a, All-update q f xs h as')
    | inr miss ↦ rw miss (a, All-update q f xs h as')
  ]

  pub All-select_one :
      (p : A → Bool) (xs : List A) (x : A) → All P xs → select_one p xs ≡ some x → P x
  All-select_one p [] x a e = absurd (ground arith)
  All-select_one p (y ∷ xs) x (a, as') e = elim (Bool-cases (p y)) [
    | inl hit ↦ let same : y ≡ x = ground arith in rw (← same) a
    | inr miss ↦ All-select_one p xs x as' (ground arith)
  ]

  pub All-map {κ'} : (Q : A → Type κ') (xs : List A) → ((x : A) → P x → Q x) → All P xs → All Q xs
  All-map Q [] h a = tt
  All-map Q (x ∷ xs) h (a, as') = (h x a, All-map Q xs h as')

  pub All-everywhere : (xs : List A) → ((x : A) → P x) → All P xs
  All-everywhere [] h = tt
  All-everywhere (x ∷ xs) h = (h x, All-everywhere xs h)

  pub All-select_where : (q : A → Bool) (xs : List A) → All P xs → All P (select_where q xs)
  All-select_where q [] a = tt
  All-select_where q (x ∷ xs) (a, as') = elim (Bool-cases (q x)) [
    | inl hit ↦ rw hit (a, All-select_where q xs as')
    | inr miss ↦ rw miss (All-select_where q xs as')
  ]

module _ {ℓ κ κ'} {A : Type ℓ} (P : A → Type κ) (Q : A → Type κ') where
  pub All-both : (xs : List A) → All P xs → All Q xs → All (λ x. P x × Q x) xs
  All-both [] a b = tt
  All-both (x ∷ xs) (a, as') (b, bs) = ((a, b), All-both xs as' bs)
