-- ===== src/Lifecycle/Persistence.antt =====
-- How a row of `instance_operations` may change: what was asked for stays, and a finished operation
-- stays as it is.
use cyber_lab_backend.Prelude.{
  ◌≡◌, refl, Bool, true, false, ◌==◌, ◌∙◌, some, List, ◌∷◌, select_one, update_where, exists_where,
  exists_of_select, select_one-update, arith, Bool-cases, inl, inr, ==_iff,
}
use cyber_lab_backend.Schema.{Operation, OperationStatus}
use cyber_lab_backend.Intents.{has_operation_id}

abbrev pub is_finished : OperationStatus → Bool
is_finished OperationStatus.succeeded = true
is_finished OperationStatus.failed = true
is_finished _ = false

pub record Persists (o p : Operation) : Type 0 where
  pub id : p.id ≡ o.id
  pub instance : p.instance_id ≡ o.instance_id
  pub user : p.user_id ≡ o.user_id
  pub type : p.type ≡ o.type
  pub key : p.idempotency_key ≡ o.idempotency_key
  pub hash : p.request_hash ≡ o.request_hash
  pub finished : is_finished o.status ≡ true → p ≡ o

pub Persists-refl : (o : Operation) → Persists o o
Persists-refl o = record {
  id = refl;
  instance = refl;
  user = refl;
  type = refl;
  key = refl;
  hash = refl;
  finished = λ _. refl;
}

pub Persists-trans : {o p q : Operation} → Persists o p → Persists p q → Persists o q
Persists-trans {o} {p} {q} f g = record {
  id = g.id ∙ f.id;
  instance = g.instance ∙ f.instance;
  user = g.user ∙ f.user;
  type = g.type ∙ f.type;
  key = g.key ∙ f.key;
  hash = g.hash ∙ f.hash;
  finished = λ h. let same = f.finished h in g.finished (rw same h) ∙ same;
}

-- The operation is in the table, as it was or as it has become.
abbrev pub Recorded : Operation → List Operation → Type 0
Recorded o operations =
    (p : Operation) × (select_one (has_operation_id o.id) operations ≡ some p) × Persists o p

pub Recorded-update :
    (o : Operation) (q : Operation → Bool) (f : Operation → Operation) (operations : List Operation)
    → ((x : Operation) → (f x).id ≡ x.id)
    → ((x : Operation) → q x ≡ true → Persists x (f x))
    → Recorded o operations
    → Recorded o (update_where q f operations)
Recorded-update o q f operations same step (p, found, persists) =
    let after =
      select_one-update (has_operation_id o.id) q f operations (λ x _. rw (same x) refl) p found in
    elim (Bool-cases (q p)) [
      | inl hit ↦ (f p, rw after (ground (arith, hit)), Persists-trans persists (step p hit))
      | inr miss ↦ (p, rw after (ground (arith, miss)), persists)
    ]

pub Recorded-insert :
    (o n : Operation) (operations : List Operation)
    → exists_where (has_operation_id n.id) operations ≡ false
    → Recorded o operations
    → Recorded o (n ∷ operations)
Recorded-insert o n operations fresh (p, found, persists) =
    let there = exists_of_select (has_operation_id o.id) operations p found in
    elim (Bool-cases (n.id == o.id)) [
      | inl same ↦ let e = (==_iff n.id o.id).0 same in absurd (ground (arith, there, fresh, e))
      | inr other ↦ (p, rw other found, persists)
    ]
