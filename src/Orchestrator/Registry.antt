-- ===== src/Orchestrator/Registry.antt =====
-- `RuntimeManifestRegistry` of src/orchestrator/runtime-manifests.ts, on manifests that have passed
-- the schema.
use cyber_lab_backend.Prelude.{
  ℕ, ◌≡◌, Bool, false, ◌==◌, ==_refl, if◌then◌else◌, Option, none, some, List, [], ◌∷◌, All,
  exists_where, select_one, arith, Bool-cases, inl, inr,
}
use cyber_lab_backend.Orchestrator.{RuntimeManifest}

abbrev pub is_for : ℕ → RuntimeManifest → Bool
is_for challenge_id m = m.challenge_id == challenge_id

-- `Map.set` under a new key, at the end.
unfoldable pub set_last : RuntimeManifest → List RuntimeManifest → List RuntimeManifest
set_last m [] = m ∷ []
set_last m (n ∷ entries) = n ∷ set_last m entries

-- The loop of the constructor; `none` is the error of a duplicate.
unfoldable pub register :
    List RuntimeManifest → List RuntimeManifest → Option (List RuntimeManifest)
unfolding set_last
register [] entries = some entries
register (m ∷ manifests) entries =
    let rest = register manifests (set_last m entries) in
    if exists_where (is_for m.challenge_id) entries then none else rest

unfoldable pub create_registry : List RuntimeManifest → Option (List RuntimeManifest)
unfolding register
create_registry manifests = register manifests []

unfoldable pub get_manifest : ℕ → List RuntimeManifest → Option RuntimeManifest
get_manifest challenge_id entries = select_one (is_for challenge_id) entries

set_last-finds :
    (m : RuntimeManifest) (entries : List RuntimeManifest)
    → exists_where (is_for m.challenge_id) entries ≡ false
    → select_one (is_for m.challenge_id) (set_last m entries) ≡ some m
unfolding set_last
set_last-finds m [] e = ground (arith, ==_refl m.challenge_id)
set_last-finds m (n ∷ entries) e = let rest = set_last-finds m entries in ground (arith, rest, e)

set_last-keeps :
    (m n : RuntimeManifest) (id : ℕ) (entries : List RuntimeManifest)
    → select_one (is_for id) entries ≡ some n
    → select_one (is_for id) (set_last m entries) ≡ some n
unfolding set_last
set_last-keeps m n id [] e = absurd (ground (arith, e))
set_last-keeps m n id (x ∷ entries) e =
    let rest = set_last-keeps m n id entries in ground (arith, rest, e)

register-keeps :
    (n : RuntimeManifest) (id : ℕ) (manifests entries entries' : List RuntimeManifest)
    → register manifests entries ≡ some entries'
    → select_one (is_for id) entries ≡ some n
    → select_one (is_for id) entries' ≡ some n
unfolding register
register-keeps n id [] entries entries' e found =
    let same : entries ≡ entries' = ground (arith, e) in rw (← same) found
register-keeps n id (m ∷ manifests) entries entries' e found =
    elim (Bool-cases (exists_where (is_for m.challenge_id) entries)) [
      | inl twice ↦ absurd (ground (arith, twice, e))
      | inr fresh ↦
          register-keeps n id manifests (set_last m entries) entries' (ground (arith, fresh, e))
            (set_last-keeps m n id entries found)
    ]

register-finds :
    (manifests entries entries' : List RuntimeManifest)
    → register manifests entries ≡ some entries'
    → All (λ m. select_one (is_for m.challenge_id) entries' ≡ some m) manifests
unfolding register
register-finds [] entries entries' e = tt
register-finds (m ∷ manifests) entries entries' e =
    elim (Bool-cases (exists_where (is_for m.challenge_id) entries)) [
      | inl twice ↦ absurd (ground (arith, twice, e))
      | inr fresh ↦
          let later : register manifests (set_last m entries) ≡ some entries' =
            ground (arith, fresh, e) in
          (
            register-keeps m m.challenge_id manifests (set_last m entries) entries' later
                (set_last-finds m entries fresh),
            register-finds manifests (set_last m entries) entries' later,
          )
    ]

-- A registry that was constructed answers for the challenge of each manifest that it was given with
-- that manifest.
pub get_manifest-create_registry :
    (manifests entries : List RuntimeManifest)
    → create_registry manifests ≡ some entries
    → All (λ m. get_manifest m.challenge_id entries ≡ some m) manifests
unfolding create_registry get_manifest
get_manifest-create_registry manifests entries e = register-finds manifests [] entries e
