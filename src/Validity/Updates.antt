-- ===== src/Validity/Updates.antt =====
-- The updates and inserts under which the lifecycle tables stay sound.
use cyber_lab_backend.Prelude.{
  ℕ, ◌≤◌, ◌≡◌, ◌↔◌, Bool, true, false, List, ◌∷◌, All, count_where, exists_where, update_where,
  count-update-le, count-update, exists-update, All-update-All, All-map, All-everywhere,
  count_eq_zero, arith, ◌==◌, ==_iff, ◌&&◌, and-elim, ◌∙◌, Bool-cases, inl, inr,
}
use cyber_lab_backend.Schema.{
  Instance, Operation, OperationType, in_array, key_eq, type_eq, type_eq_iff, IdempotencyKey,
}
use cyber_lab_backend.Intents.{has_id, active_for, active_statuses, has_operation_id, used_key}
use cyber_lab_backend.Validity.{HoldsInstances, HoldsOperations, WithinLimit, RefersTo}

-- A row's update that keeps its keys and wakes no row up.
pub record Keeps (r s : Instance) : Type 0 where
  pub id : s.id ≡ r.id
  pub user : s.user_id ≡ r.user_id
  pub wakes_none :
      in_array s.status active_statuses ≡ true → in_array r.status active_statuses ≡ true

has_id-Keeps : (id : ℕ) (r s : Instance) → Keeps r s → has_id id s ≡ has_id id r
has_id-Keeps id r s k = rw k.id

active_for-Keeps :
    (u : ℕ) (r s : Instance) → Keeps r s → active_for u s ≡ true → active_for u r ≡ true
active_for-Keeps u r s k h =
    let (same, awake) = and-elim (s.user_id == u) (in_array s.status active_statuses) h in
    rw (← k.user, same, k.wakes_none awake)

abbrev pub KeepsAll : (Instance → Bool) → (Instance → Instance) → List Instance → Type 0
KeepsAll q f = All (λ r. q r ≡ true → Keeps r (f r))

pub keep_everywhere :
    (q : Instance → Bool) (f : Instance → Instance) (rows : List Instance)
    → ((r : Instance) → q r ≡ true → Keeps r (f r))
    → KeepsAll q f rows
keep_everywhere q f rows = All-everywhere (λ r. q r ≡ true → Keeps r (f r)) rows

module _ (q : Instance → Bool) (f : Instance → Instance) (rows : List Instance)
    (keeps : KeepsAll q f rows) where
  has_id-update : (id : ℕ) → All (λ r. q r ≡ true → has_id id (f r) ≡ has_id id r) rows
  has_id-update id =
      All-map (λ r. q r ≡ true → Keeps r (f r)) (λ r. q r ≡ true → has_id id (f r) ≡ has_id id r)
        rows (λ r k h. has_id-Keeps id r (f r) (k h)) keeps

  active_for-update :
      (u : ℕ) → All (λ r. q r ≡ true → active_for u (f r) ≡ true → active_for u r ≡ true) rows
  active_for-update u =
      All-map (λ r. q r ≡ true → Keeps r (f r))
        (λ r. q r ≡ true → active_for u (f r) ≡ true → active_for u r ≡ true) rows
        (λ r k h. active_for-Keeps u r (f r) (k h)) keeps

  pub update-HoldsInstances :
      All (λ r. q r ≡ true → WithinLimit (f r)) rows
      → HoldsInstances rows
      → HoldsInstances (update_where q f rows)
  update-HoldsInstances limits v = record {
    one_id = λ id. omega (arith, v.one_id id, count-update (has_id id) q f rows (has_id-update id));
    one_active = λ u.
        omega
          (arith, v.one_active u, count-update-le (active_for u) q f rows (active_for-update u));
    expiry = All-update-All WithinLimit q f rows limits v.expiry;
  }

  pub update-references :
      (operations : List Operation)
      → All (RefersTo rows) operations
      → All (RefersTo (update_where q f rows)) operations
  update-references operations =
      All-map (RefersTo rows) (RefersTo (update_where q f rows)) operations
        λ o h. exists-update (has_id o.instance_id) q f rows (has_id-update o.instance_id) ∙ h

  pub update-HoldsOperations :
      (operations : List Operation)
      → HoldsOperations rows operations
      → HoldsOperations (update_where q f rows) operations
  update-HoldsOperations operations v = record {
    one_id = v.one_id;
    one_key = v.one_key;
    references = update-references operations v.references;
  }

-- The rows stay within their limits where the update leaves both times alone.
pub limits_kept :
    (q : Instance → Bool) (f : Instance → Instance) (rows : List Instance)
    → ((r : Instance) → WithinLimit r → WithinLimit (f r))
    → HoldsInstances rows
    → All (λ r. q r ≡ true → WithinLimit (f r)) rows
limits_kept q f rows h v =
    All-map WithinLimit (λ r. q r ≡ true → WithinLimit (f r)) rows (λ r w _. h r w) v.expiry

-- A new row under a new id, for a user without an active instance.
pub insert-HoldsInstances :
    (r : Instance) (rows : List Instance)
    → exists_where (has_id r.id) rows ≡ false
    → exists_where (active_for r.user_id) rows ≡ false
    → r.expires_at ≤ r.absolute_expires_at
    → HoldsInstances rows
    → HoldsInstances (r ∷ rows)
insert-HoldsInstances r rows fresh idle limit v = record {
  one_id =
      λ id. ground (arith, count_eq_zero (has_id r.id) rows fresh, v.one_id id, ==_iff r.id id);
  one_active = λ u.
      ground
        (arith, count_eq_zero (active_for r.user_id) rows idle, v.one_active u, ==_iff r.user_id u);
  expiry = (limit, v.expiry);
}

pub insert-references :
    (r : Instance) (rows : List Instance) (operations : List Operation)
    → All (RefersTo rows) operations
    → All (RefersTo (r ∷ rows)) operations
insert-references r rows operations =
    All-map (RefersTo rows) (RefersTo (r ∷ rows)) operations λ o h. ground arith

key_eq_iff : (a b : IdempotencyKey) → (key_eq a b ≡ true) ↔ (a ≡ b)
key_eq_iff a b = ground arith

used_key_same :
    (o : Operation) (u : ℕ) (t : OperationType) (k : IdempotencyKey)
    → used_key u t k o ≡ true
    → (o.user_id ≡ u) × (o.type ≡ t) × (o.idempotency_key ≡ k)
used_key_same o u t k h =
    let (first, key) =
      and-elim ((o.user_id == u) && type_eq o.type t) (key_eq o.idempotency_key k) h in
    let (user, type) = and-elim (o.user_id == u) (type_eq o.type t) first in
    ((==_iff _ _).0 user, (type_eq_iff _ _).0 type, (key_eq_iff _ _).0 key)

count_used_key_zero :
    (o : Operation) (operations : List Operation) (u : ℕ) (t : OperationType) (k : IdempotencyKey)
    → exists_where (used_key o.user_id o.type o.idempotency_key) operations ≡ false
    → used_key u t k o ≡ true
    → count_where (used_key u t k) operations ≡ 0
count_used_key_zero o operations u t k unused h =
    let (user, type, key) = used_key_same o u t k h in
    rw (← user, ← type, ← key)
      (count_eq_zero (used_key o.user_id o.type o.idempotency_key) operations unused)

-- A new operation under a new id and a key that its user has not used for its type.
pub insert-HoldsOperations :
    (rows : List Instance) (o : Operation) (operations : List Operation)
    → exists_where (has_operation_id o.id) operations ≡ false
    → exists_where (used_key o.user_id o.type o.idempotency_key) operations ≡ false
    → RefersTo rows o
    → HoldsOperations rows operations
    → HoldsOperations rows (o ∷ operations)
insert-HoldsOperations rows o operations fresh unused refers v = record {
  one_id = λ id.
      ground (
        arith,
        count_eq_zero (has_operation_id o.id) operations fresh,
        v.one_id id,
        ==_iff o.id id,
      );
  one_key = λ u t k. elim (Bool-cases (used_key u t k o)) [
    | inl hit ↦ rw hit (omega (arith, count_used_key_zero o operations u t k unused hit))
    | inr miss ↦ rw miss (omega (arith, v.one_key u t k))
  ];
  references = (refers, v.references);
}
