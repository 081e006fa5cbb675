-- ===== src/Worker/Dispatching.antt =====
-- A dispatch leaves nothing behind.
use cyber_lab_backend.Prelude.{
  ℕ, ◌-◌, ◌≤◌, ◌<◌, ◌≡◌, refl, sym, ◌∙◌, ap, Bool, true, false, ◌||◌, ◌==◌, List, [], ◌∷◌, All,
  All-map, All-update_split, All-everywhere, All-both, is_member, take, length, map, count_where,
  zero, suc, select_where, arith, Bool-cases, inl, inr, ==_iff, ==_refl,
}
use cyber_lab_backend.Schema.{Database, Operation, OperationType}
use cyber_lab_backend.Intents.{has_operation_id}
use cyber_lab_backend.Jobs.{
  stale, is_pending, pending_with, recover_stale_operations, order_by_creation,
  list_pending_operations, mark_queued,
}
use cyber_lab_backend.Jobs.Ordering.{count-order}
use cyber_lab_backend.Actions.{Host, Call, returned, pure}
use cyber_lab_backend.Worker.{Environment}
use cyber_lab_backend.Worker.Queue.{
  enqueue_all, enqueue_pending, dispatch_pending, default_stale_after_ms,
}
use cyber_lab_backend.Worker.Inversion.{
  bind-returned, then-returned, write-returned, query-returned,
}

-- Waiting for a dispatch: pending, or running without a sign of life since the time.
abbrev pub unserved : ℕ → Operation → Bool
unserved before o = is_pending o || stale before o

abbrev ids_of : List (ℕ × OperationType) → List ℕ
ids_of operations = map (λ p. p.0) operations

take-all {ℓ} : {A : Type ℓ} (n : ℕ) (xs : List A) → length (take n xs) < n → take n xs ≡ xs
take-all zero xs h = absurd (omega arith)
take-all (suc n) [] h = refl
take-all (suc n) (x ∷ xs) h = ap (λ rest. x ∷ rest) (take-all n xs (ground (arith, h)))

length-map {ℓ κ} :
    {A : Type ℓ} {B : Type κ} (f : A → B) (xs : List A) → length (map f xs) ≡ length xs
length-map f [] = refl
length-map f (x ∷ xs) = ap suc (length-map f xs)

-- A row of a table has its id among the selected rows, if it is selected.
member_of_count :
    (id : ℕ) (xs : List Operation)
    → 1 ≤ count_where (has_operation_id id) xs
    → is_member id (ids_of (map (λ o. (o.id, o.type)) xs)) ≡ true
member_of_count id [] h = absurd (omega arith)
member_of_count id (x ∷ xs) h = elim (Bool-cases (x.id == id)) [
  | inl hit ↦ ground (arith, hit, ==_iff x.id id, h, ==_refl id)
  | inr miss ↦ let rest = member_of_count id xs in ground (arith, miss, rest, h)
]

all_counted :
    (xs : List Operation)
    → All
        (λ o.
          is_pending o ≡ true
          → 1 ≤ count_where (has_operation_id o.id) (select_where is_pending xs))
        xs
all_counted [] = tt
all_counted (x ∷ xs) = (
  λ waits. ground (arith, waits, ==_refl x.id),
  All-map _ _ xs (λ o counted waits. let rest = counted waits in ground (arith, rest))
      (all_counted xs),
)

-- Each pending operation has its id in the list, if the list is shorter than the limit.
listed :
    (limit : ℕ) (db : Database)
    → length (list_pending_operations limit db) < limit
    → All
        (λ o.
          is_pending o ≡ true → is_member o.id (ids_of (list_pending_operations limit db)) ≡ true)
        db.instance_operations
unfolding list_pending_operations
listed limit db h =
    let pending = order_by_creation (select_where is_pending db.instance_operations) in
    let short : length (take limit pending) < limit =
      rw (← length-map {B = ℕ × OperationType} (λ o. (o.id, o.type)) (take limit pending)) h in
    rw (take-all limit pending short) (
      All-map _ _ db.instance_operations
        (λ o counted waits. member_of_count o.id pending (
          rw (count-order (has_operation_id o.id) (select_where is_pending db.instance_operations))
            (counted waits)))
        (all_counted db.instance_operations))

-- What an operation still is while the operations of the list are to be added.
abbrev Waits : ℕ → List (ℕ × OperationType) → Operation → Type 0
Waits before operations o =
    (is_pending o ≡ true → is_member o.id (ids_of operations) ≡ true) × (stale before o ≡ false)

Waits-served : (before : ℕ) (o : Operation) → Waits before [] o → unserved before o ≡ false
Waits-served before o (waits, fresh) = elim (Bool-cases (is_pending o)) [
  | inl waiting ↦ absurd (ground (arith, waits waiting))
  | inr served ↦ ground (arith, served, fresh)
]

mark_queued-Waits :
    (before id now : ℕ) (type : OperationType) (operations : List (ℕ × OperationType))
    (db : Database)
    → All (Waits before ((id, type) ∷ operations)) db.instance_operations
    → All (Waits before operations) (mark_queued id now db).instance_operations
unfolding mark_queued
mark_queued-Waits before id now type operations db waits =
    All-update_split _ (Waits before operations) (pending_with id) _ db.instance_operations
      (λ o hit w. (λ waiting. absurd (ground (arith, waiting)), refl))
      (λ o miss (listed, fresh). (
        λ waiting.
            let has = listed waiting in
            ground (arith, has, miss, waiting, ==_iff o.id id, ==_iff id o.id),
        fresh,
      ))
      waits

recover-Waits :
    (before now : ℕ) (db : Database)
    → All (λ o. stale before o ≡ false) (recover_stale_operations before now db).instance_operations
unfolding recover_stale_operations
recover-Waits before now db =
    All-update_split (λ o. Unit {0}) _ (stale before) _ db.instance_operations (λ o hit u. refl)
      (λ o miss u. miss) (All-everywhere _ _ λ o. tt)

module _ {W : Type 0} (environment : Environment W)
    (add : ℕ → OperationType → Call W (Unit {0})) where
  quieted :
      {A : Type 0} (m : Call W A) (h h' : Host W) {a : A}
      → ((h : Host W) → (m h).0.db ≡ h.db)
      → m h ≡ (h', returned a)
      → h'.db ≡ h.db
  quieted m h h' quiet e = sym (ap (λ r. r.0.db) e) ∙ quiet h

  enqueue_all-Waits :
      (before now : ℕ) (operations : List (ℕ × OperationType)) (h h' : Host W)
      → ((id : ℕ) (type : OperationType) (h : Host W) → (add id type h).0.db ≡ h.db)
      → enqueue_all environment add now operations h ≡ (h', returned tt)
      → All (Waits before operations) h.db.instance_operations
      → All (Waits before []) h'.db.instance_operations
  unfolding enqueue_all pure
  enqueue_all-Waits before now [] h h' quiet e waits =
      let same : h ≡ h' = ground (arith, e) in rw (← same) waits
  enqueue_all-Waits before now ((id, type) ∷ operations) h h' quiet e waits =
      let (added, adds, rest) = then-returned _ _ h h' tt e in
      let same : added.db ≡ h.db = quieted (add id type) h added (quiet id type) adds in
      enqueue_all-Waits before now operations (record added { db = mark_queued id now added.db }) h'
        quiet (write-returned (mark_queued id now) _ added rest)
        (mark_queued-Waits before id now type operations added.db (rw same waits))

  enqueue_pending-Waits :
      (before limit now count : ℕ) (h h' : Host W)
      → ((id : ℕ) (type : OperationType) (h : Host W) → (add id type h).0.db ≡ h.db)
      → enqueue_pending environment add limit now h ≡ (h', returned count)
      → count < limit
      → All (λ o. stale before o ≡ false) h.db.instance_operations
      → All (Waits before []) h'.db.instance_operations
  unfolding enqueue_pending pure
  enqueue_pending-Waits before limit now count h h' quiet e short fresh =
      let operations = list_pending_operations limit h.db in
      let (enqueued, adds, rest) =
        then-returned (enqueue_all environment add now operations) (pure (length operations)) h h'
          count (query-returned (list_pending_operations limit) _ h e) in
      let counted : length operations ≡ count = ground (arith, rest) in
      let same : enqueued ≡ h' = ground (arith, rest) in
      enqueue_all-Waits before now operations h h' quiet (rw same at adds) (
        All-both _ _ h.db.instance_operations (listed limit h.db (ground (arith, counted, short)))
          fresh)

  -- A dispatch that returns a number below its limit has left no operation behind: none is pending,
  -- and none is running whose last change is over five minutes before the dispatch's reading of the
  -- clock; adding a job to the queue leaves the tables alone.
  pub dispatch_pending-serves :
      (limit now count : ℕ) (h timed h' : Host W)
      → ((id : ℕ) (type : OperationType) (h : Host W) → (add id type h).0.db ≡ h.db)
      → environment.clock h ≡ (timed, returned now)
      → dispatch_pending environment add limit h ≡ (h', returned count)
      → count < limit
      → All (λ o. unserved (now - default_stale_after_ms) o ≡ false) h'.db.instance_operations
  unfolding dispatch_pending
  dispatch_pending-serves limit now count h timed h' quiet clock e short =
      let (first, read, one, rest) = bind-returned _ _ h h' count e in
      let (second, updated_at, two, last) = bind-returned _ _ first h' count rest in
      let same : read ≡ now = ground (arith, one, clock) in
      let before = read - default_stale_after_ms in
      rw (← same) (
        All-map _ _ h'.db.instance_operations (Waits-served before) (
          enqueue_pending-Waits before limit read count
            (record second { db = recover_stale_operations before updated_at second.db }) h' quiet
            (write-returned (recover_stale_operations before updated_at) _ second last) short
            (recover-Waits before updated_at second.db)))
