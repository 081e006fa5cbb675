-- ===== src/Validity/Steps.antt =====
-- Sound tables stay sound under the updates that the worker's repositories make.
use cyber_lab_backend.Prelude.{
  ◌≡◌, Bool, true, List, All-update, All-everywhere, update_where, count-update,
}
use cyber_lab_backend.Schema.{Instance, Operation}
use cyber_lab_backend.Intents.{has_operation_id, used_key}
use cyber_lab_backend.Validity.{HoldsInstances, HoldsOperations, WithinLimit, RefersTo}
use cyber_lab_backend.Validity.Updates.{
  Keeps, keep_everywhere, limits_kept, update-HoldsInstances, update-HoldsOperations,
}

-- The two tables together.
abbrev pub Sound : List Instance → List Operation → Type 0
Sound rows operations = HoldsInstances rows × HoldsOperations rows operations

module _ (q : Instance → Bool) (f : Instance → Instance)
    (keeps : (r : Instance) → q r ≡ true → Keeps r (f r))
    (limit : (r : Instance) → WithinLimit r → WithinLimit (f r)) where
  pub instances-Sound :
      (rows : List Instance) (operations : List Operation)
      → Sound rows operations
      → Sound (update_where q f rows) operations
  instances-Sound rows operations (v, w) =
      let k = keep_everywhere q f rows keeps in
      (
        update-HoldsInstances q f rows k (limits_kept q f rows limit v) v,
        update-HoldsOperations q f rows k operations w,
      )

-- An update of an operation that keeps its keys.
pub record KeepsKeys (o p : Operation) : Type 0 where
  pub id : p.id ≡ o.id
  pub user : p.user_id ≡ o.user_id
  pub type : p.type ≡ o.type
  pub key : p.idempotency_key ≡ o.idempotency_key
  pub instance : p.instance_id ≡ o.instance_id

module _ (q : Operation → Bool) (f : Operation → Operation)
    (keeps : (o : Operation) → KeepsKeys o (f o)) where
  pub operations-Sound :
      (rows : List Instance) (operations : List Operation)
      → Sound rows operations
      → Sound rows (update_where q f operations)
  operations-Sound rows operations (v, w) = (
    v,
    record {
      one_id = λ id.
          rw
            (count-update (has_operation_id id) q f operations (
              All-everywhere (λ o. q o ≡ true → has_operation_id id (f o) ≡ has_operation_id id o)
                operations (λ o _. rw (keeps o).id)))
            (w.one_id id);
      one_key = λ u t k.
          rw
            (count-update (used_key u t k) q f operations (
              All-everywhere (λ o. q o ≡ true → used_key u t k (f o) ≡ used_key u t k o) operations
                (λ o _. rw ((keeps o).user, (keeps o).type, (keeps o).key))))
            (w.one_key u t k);
      references =
          All-update (RefersTo rows) q f operations (λ o _ h. rw (keeps o).instance h) w.references;
    },
  )
