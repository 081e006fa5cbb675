-- ===== src/Runtime/Admission/Settling.antt =====
-- The rule for the loop over the reservations: an invariant of the reservations left, the table and
-- the set of occupied ids.
use cyber_lab_backend.Prelude.{
  ℕ, ◌≡◌, true, false, arith, some, List, [], ◌∷◌, Bool-cases, inl, inr, update_where,
}
use cyber_lab_backend.Schema.{Instance}
use cyber_lab_backend.Intents.{has_id}
use cyber_lab_backend.Inventory.{ManagedRuntimeInventory, add_to_set}
use cyber_lab_backend.Runtime.Admission.{settle, releasable, released, misowned}

module _ (inventory : ManagedRuntimeInventory) (now : ℕ)
    (P : List Instance → List Instance → List ℕ → Type 0)
    (release : (r : Instance) (rest rows : List Instance) (occupied : List ℕ)
      → releasable inventory r ≡ true
      → P (r ∷ rest) rows occupied
      → P rest (update_where (has_id r.id) (released now) rows) occupied)
    (keep : (r : Instance) (rest rows : List Instance) (occupied : List ℕ)
      → releasable inventory r ≡ false
      → P (r ∷ rest) rows occupied
      → P rest rows (add_to_set r.id occupied)) where
  pub settle_induction :
      (reservations rows : List Instance) (occupied : List ℕ) (rows' : List Instance)
      (occupied' : List ℕ)
      → settle inventory now reservations rows occupied ≡ some (rows', occupied')
      → P reservations rows occupied
      → P [] rows' occupied'
  unfolding settle
  settle_induction [] rows occupied rows' occupied' e p =
      let same : rows ≡ rows' = ground arith in
      let same_set : occupied ≡ occupied' = ground arith in rw (← same, ← same_set) p
  settle_induction (r ∷ reservations) rows occupied rows' occupied' e p =
      elim (Bool-cases (misowned inventory r)) [
        | inl bad ↦ absurd (ground arith)
        | inr fine ↦ elim (Bool-cases (releasable inventory r)) [
          | inl gone ↦
              settle_induction reservations (update_where (has_id r.id) (released now) rows)
                occupied rows' occupied' (rw (fine, gone) at e)
                (release r reservations rows occupied gone p)
          | inr held ↦
              settle_induction reservations rows (add_to_set r.id occupied) rows' occupied'
                (rw (fine, held) at e) (keep r reservations rows occupied held p)
        ]
      ]
