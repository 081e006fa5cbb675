-- ===== src/Jobs/Ordering.antt =====
-- Which operations the dispatcher is given.
use cyber_lab_backend.Prelude.{
  ℕ, ◌≤◌, ◌≡◌, refl, Bool, leb, List, [], ◌∷◌, All, All-map, take, map, select_where, count_where,
  arith, Bool-cases, inl, inr,
}
use cyber_lab_backend.Schema.{Database, Operation}
use cyber_lab_backend.Jobs.{
  is_pending, insert_by_creation, order_by_creation, list_pending_operations,
}

-- Each operation is created no later than those behind it.
abbrev pub IsOrdered : List Operation → Type 0
IsOrdered [] = Unit {0}
IsOrdered (o ∷ operations) =
    All (λ p. o.created_at ≤ p.created_at) operations × IsOrdered operations

insert-All :
    (P : Operation → Type 0) (o : Operation) (operations : List Operation)
    → P o
    → All P operations
    → All P (insert_by_creation o operations)
unfolding insert_by_creation
insert-All P o [] h hs = (h, tt)
insert-All P o (p ∷ operations) h (here, later) =
    elim (Bool-cases (leb o.created_at p.created_at)) [
      | inl before ↦ rw before (h, (here, later))
      | inr behind ↦ rw behind (here, insert-All P o operations h later)
    ]

insert-IsOrdered :
    (o : Operation) (operations : List Operation)
    → IsOrdered operations
    → IsOrdered (insert_by_creation o operations)
unfolding insert_by_creation
insert-IsOrdered o [] h = (tt, tt)
insert-IsOrdered o (p ∷ operations) (first, rest) =
    elim (Bool-cases (leb o.created_at p.created_at)) [
      | inl before ↦ rw before (
        (
          ground (arith, before),
          All-map (λ x. p.created_at ≤ x.created_at) (λ x. o.created_at ≤ x.created_at) operations
              (λ x h. ground (arith, h, before)) first,
        ),
        (first, rest),
      )
      | inr behind ↦ rw behind (
        insert-All (λ x. p.created_at ≤ x.created_at) o operations (ground (arith, behind)) first,
        insert-IsOrdered o operations rest,
      )
    ]

order-IsOrdered : (operations : List Operation) → IsOrdered (order_by_creation operations)
unfolding order_by_creation
order-IsOrdered [] = tt
order-IsOrdered (o ∷ operations) =
    insert-IsOrdered o (order_by_creation operations) (order-IsOrdered operations)

count-insert :
    (q : Operation → Bool) (o : Operation) (operations : List Operation)
    → count_where q (insert_by_creation o operations) ≡ count_where q (o ∷ operations)
unfolding insert_by_creation
count-insert q o [] = refl
count-insert q o (p ∷ operations) = let rest = count-insert q o operations in ground (arith, rest)

pub count-order :
    (q : Operation → Bool) (operations : List Operation)
    → count_where q (order_by_creation operations) ≡ count_where q operations
unfolding order_by_creation
count-order q [] = refl
count-order q (o ∷ operations) =
    let rest = count-order q operations in
    rw (count-insert q o (order_by_creation operations)) (ground (arith, rest))

-- The dispatcher is given the front, up to the limit, of a list of the pending operations, each as
-- often as the table has it, oldest first.
pub list_pending-IsOrdered :
    (limit : ℕ) (db : Database)
    → (ordered : List Operation) × (list_pending_operations limit db
        ≡ map (λ o. (o.id, o.type)) (take limit ordered))
      × IsOrdered ordered
      × ((q : Operation → Bool)
          → count_where q ordered ≡ count_where q (select_where is_pending db.instance_operations))
unfolding list_pending_operations
list_pending-IsOrdered limit db =
    let pending = select_where is_pending db.instance_operations in
    (order_by_creation pending, refl, order-IsOrdered pending, λ q. count-order q pending)
