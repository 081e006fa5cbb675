-- ===== src/Validity/Queries.antt =====
-- What a query on sound tables returns.
use cyber_lab_backend.Prelude.{
  ℕ, ◌≡◌, Bool, true, some, List, All, select_one, only_row, select_one-key, select_one-holds,
  arith, ==_refl, select_one-update, update_where, ◌∙◌,
}
use cyber_lab_backend.Schema.{Instance}
use cyber_lab_backend.Intents.{has_id, owned_by}
use cyber_lab_backend.Validity.{HoldsInstances}

module _ {rows : List Instance} (v : HoldsInstances rows) (p : Instance → Bool) (r : Instance)
    (narrow : (y : Instance) → p y ≡ true → has_id r.id y ≡ true)
    (found : select_one p rows ≡ some r) where
  -- The row that a query by id returns is the only one under its id.
  pub found_only : All (λ y. has_id r.id y ≡ true → y ≡ r) rows
  found_only = only_row p (has_id r.id) rows r narrow (v.one_id r.id) found

  pub found_by_id : select_one (has_id r.id) rows ≡ some r
  found_by_id = select_one-key p (has_id r.id) rows r narrow (v.one_id r.id) found

pub owned_narrow :
    (rows : List Instance) (u i : ℕ) (r : Instance)
    → select_one (owned_by u i) rows ≡ some r
    → (y : Instance) → owned_by u i y ≡ true
    → has_id r.id y ≡ true
owned_narrow rows u i r found y h =
    let at_r = select_one-holds (owned_by u i) rows r found in ground (arith, at_r, h)

-- `update … where id = … returning`: the row that comes back.
pub updated_by_id :
    (rows : List Instance) (f : Instance → Instance) (r : Instance)
    → ((y : Instance) → (f y).id ≡ y.id)
    → select_one (has_id r.id) rows ≡ some r
    → select_one (has_id r.id) (update_where (has_id r.id) f rows) ≡ some (f r)
updated_by_id rows f r same found =
    select_one-update (has_id r.id) (has_id r.id) f rows (λ y _. rw (same y)) r found
    ∙ (rw (==_refl r.id))
