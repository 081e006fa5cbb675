-- ===== src/Prelude/Pigeonhole.antt =====
-- Rows with distinct keys, all of them in a set, are no more than the set's members.
use Prim.Native.Nat.{ℕ, ◌+◌, ◌≤◌}
use mathlib.Core.Path.{◌≡◌}
use mathlib.Core.Bool.{Bool, true, false, not}
use mathlib.Core.Logic.{inl, inr}
use mathlib.Core.List.{List, [], ◌∷◌}
use native.Mathlib.Omega.{arith}
use cyber_lab_backend.Prelude.Tests.{Bool-cases, ◌==◌, ==_iff, ==_refl}
use cyber_lab_backend.Prelude.Tables.{length, select_where, update_where, exists_where, count_where}
use cyber_lab_backend.Prelude.Rows.{All, All-map}
use cyber_lab_backend.Prelude.Unique.{no_row_of_count}

module _ {ℓ κ κ'} {A : Type ℓ} (P : A → Type κ) (Q : A → Type κ') where
  pub All-and : (xs : List A) → All P xs → All Q xs → All (λ x. P x × Q x) xs
  All-and [] p q = tt
  All-and (x ∷ xs) (p, ps) (q, qs) = ((p, q), All-and xs ps qs)

  -- An update, with what it needs to know of the rows that it leaves alone.
  pub All-update_split :
      (q : A → Bool) (f : A → A) (xs : List A)
      → ((x : A) → q x ≡ true → P x → Q (f x))
      → ((x : A) → q x ≡ false → P x → Q x)
      → All P xs
      → All Q (update_where q f xs)
  All-update_split q f [] h k a = tt
  All-update_split q f (x ∷ xs) h k (a, as') = elim (Bool-cases (q x)) [
    | inl hit ↦ rw hit (h x hit a, All-update_split q f xs h k as')
    | inr miss ↦ rw miss (k x miss a, All-update_split q f xs h k as')
  ]

abbrev pub is_member : ℕ → List ℕ → Bool
is_member id ids = exists_where (λ x. x == id) ids

abbrev without : ℕ → List ℕ → List ℕ
without id ids = select_where (λ x. not (x == id)) ids

length-without-le : (id : ℕ) (ids : List ℕ) → length (without id ids) ≤ length ids
length-without-le id [] = omega arith
length-without-le id (x ∷ ids) = ground (arith, length-without-le id ids)

length-without :
    (id : ℕ) (ids : List ℕ) → is_member id ids ≡ true → length (without id ids) + 1 ≤ length ids
length-without id [] h = absurd (ground arith)
length-without id (x ∷ ids) h = ground (arith, length-without id ids, length-without-le id ids)

is_member-without :
    (id other : ℕ) (ids : List ℕ)
    → (other == id) ≡ false
    → is_member other ids ≡ true
    → is_member other (without id ids) ≡ true
is_member-without id other [] ne h = h
is_member-without id other (x ∷ ids) ne h =
    ground (arith, is_member-without id other ids ne, ==_iff x id, ==_iff x other)

module _ {ℓ} {A : Type ℓ} (key : A → ℕ) (p : A → Bool) where
  pub count-le-length :
      (rows : List A) (ids : List ℕ)
      → ((id : ℕ) → count_where (λ y. key y == id) rows ≤ 1)
      → All (λ y. p y ≡ true → is_member (key y) ids ≡ true) rows
      → count_where p rows ≤ length ids
  count-le-length [] ids one h = omega arith
  count-le-length (y ∷ rows) ids one (here, later) =
      let rest_one : (id : ℕ) → count_where (λ y. key y == id) rows ≤ 1 = λ id. below id in
      elim (Bool-cases (p y)) [
        | inr miss ↦ rw miss (omega (arith, count-le-length rows ids rest_one later))
        | inl hit ↦
            let others = no_row_of_count (λ z. key z == key y) rows (alone (==_refl (key y))) in
            let kept =
              All-map
                (λ z. ((key z == key y) ≡ false) × (p z ≡ true → is_member (key z) ids ≡ true))
                (λ z. p z ≡ true → is_member (key z) (without (key y) ids) ≡ true) rows
                (λ z h t. is_member-without (key y) (key z) ids h.0 (h.1 t))
                (All-and (λ z. (key z == key y) ≡ false)
                  (λ z. p z ≡ true → is_member (key z) ids ≡ true) rows others later) in
            rw hit (
              omega (
                arith,
                count-le-length rows (without (key y) ids) rest_one kept,
                length-without (key y) ids (here hit),
              ))
      ]
    where
      below : (id : ℕ) → count_where (λ z. key z == id) rows ≤ 1
      below id = let whole = one id in ground (arith, whole)

      alone : (key y == key y) ≡ true → count_where (λ z. key z == key y) rows ≡ 0
      alone self = let whole = one (key y) in ground (arith, whole, self)
