-- ===== src/Lifecycle/Evolution.antt =====
-- How a table of instances grows and how its rows advance.
use cyber_lab_backend.Prelude.{
  ◌==◌, All-everywhere, subst, ℕ, ◌≤◌, ◌≡◌, refl, Bool, true, false, not, ◌&&◌, ◌||◌, ltb, arith,
  some, List, [], ◌∷◌, All, update_where, select_one, count_where, count_pos, exists_of_select,
  Bool-cases, inl, inr, ◌∙◌,
}
use cyber_lab_backend.Schema.{Instance, InstanceStatus, status_eq}
use cyber_lab_backend.Intents.{has_id}

abbrev stage : InstanceStatus → ℕ
stage InstanceStatus.pending = 0
stage InstanceStatus.provisioning = 1
stage InstanceStatus.running = 2
stage InstanceStatus.stopping = 3
stage InstanceStatus.stopped = 4
stage InstanceStatus.failed = 4
stage InstanceStatus.expired = 4

-- Forwards only, a terminal status for good, and no failure of an instance that is being stopped.
abbrev pub advances : InstanceStatus → InstanceStatus → Bool
advances s t =
    status_eq s t
    || (ltb (stage s) (stage t)
        && not (status_eq s InstanceStatus.stopping && status_eq t InstanceStatus.failed))

-- What a row may turn into: the same player's run of the same challenge under the same limit, with
-- no shorter a time, at the same stage or further.
pub record Follows (r s : Instance) : Type 0 where
  pub id : s.id ≡ r.id
  pub user : s.user_id ≡ r.user_id
  pub challenge : s.challenge_id ≡ r.challenge_id
  pub created : s.created_at ≡ r.created_at
  pub limit : s.absolute_expires_at ≡ r.absolute_expires_at
  pub time : r.expires_at ≤ s.expires_at
  pub status : advances r.status s.status ≡ true

pub Follows-refl : (r : Instance) → Follows r r
Follows-refl r = record {
  id = refl;
  user = refl;
  challenge = refl;
  created = refl;
  limit = refl;
  time = omega arith;
  status = ground arith;
}

advances_trans :
    (s t u : InstanceStatus) → advances s t ≡ true → advances t u ≡ true → advances s u ≡ true
advances_trans s t u h k = ground arith

pub Follows-trans : {r s t : Instance} → Follows r s → Follows s t → Follows r t
Follows-trans {r} {s} {t} f g = record {
  id = g.id ∙ f.id;
  user = g.user ∙ f.user;
  challenge = g.challenge ∙ f.challenge;
  created = g.created ∙ f.created;
  limit = g.limit ∙ f.limit;
  time = omega arith;
  status = advances_trans r.status s.status t.status f.status g.status;
}

-- A row that a player's spawn has made, or what has become of it.
pub data Evolves : List Instance → List Instance → Type 0 where
  empty : Evolves [] []
  kept :
      {r s : Instance} {rs ss : List Instance}
      → Follows r s
      → Evolves rs ss
      → Evolves (r ∷ rs) (s ∷ ss)
  created : {s : Instance} {rs ss : List Instance} → Evolves rs ss → Evolves rs (s ∷ ss)

pub Evolves-refl : (rs : List Instance) → Evolves rs rs
Evolves-refl [] = empty
Evolves-refl (r ∷ rs) = kept (Follows-refl r) (Evolves-refl rs)

pub Evolves-trans : {rs ss ts : List Instance} → Evolves rs ss → Evolves ss ts → Evolves rs ts
Evolves-trans empty empty = empty
Evolves-trans e (created g) = created (Evolves-trans e g)
Evolves-trans (kept f e) (kept g h) = kept (Follows-trans f g) (Evolves-trans e h)
Evolves-trans (created e) (kept g h) = created (Evolves-trans e h)

pub Evolves-update :
    (q : Instance → Bool) (f : Instance → Instance) (rs : List Instance)
    → All (λ r. q r ≡ true → Follows r (f r)) rs
    → Evolves rs (update_where q f rs)
Evolves-update q f [] h = empty
Evolves-update q f (r ∷ rs) (h, hs) = elim (Bool-cases (q r)) [
  | inl hit ↦ rw hit (kept (h hit) (Evolves-update q f rs hs))
  | inr miss ↦ rw miss (kept (Follows-refl r) (Evolves-update q f rs hs))
]

-- The row under an id, in a later table with unique ids.
pub Evolves-row :
    (id : ℕ) {rs ss : List Instance} (r : Instance)
    → Evolves rs ss
    → count_where (has_id id) ss ≤ 1
    → select_one (has_id id) rs ≡ some r
    → (s : Instance) × (select_one (has_id id) ss ≡ some s) × Follows r s
Evolves-row id r empty one e = absurd (ground arith)
Evolves-row id r (kept {r = x} {s = y} {rs = xs} {ss = ys} f g) one e =
    elim (Bool-cases (x.id == id)) [
      | inl hit ↦
          let same : x ≡ r = ground arith in
          let there : (y.id == id) ≡ true = rw (f.id) hit in
          (y, rw there, subst (λ z. Follows z y) same f)
      | inr miss ↦
          let other : (y.id == id) ≡ false = rw (f.id) miss in
          let (s, found, follows) = Evolves-row id r g (ground arith) (rw miss at e) in
          (s, rw other found, follows)
    ]
Evolves-row id r (created {s = y} {rs = xs} {ss = ys} g) one e =
    let (s, found, follows) = Evolves-row id r g (ground arith) e in
    let below = count_pos (has_id id) ys (exists_of_select (has_id id) ys s found) in
    let other : (y.id == id) ≡ false = ground arith in (s, rw other found, follows)

pub Evolves-everywhere :
    (q : Instance → Bool) (f : Instance → Instance) (rs : List Instance)
    → ((r : Instance) → q r ≡ true → Follows r (f r))
    → Evolves rs (update_where q f rs)
Evolves-everywhere q f rs h =
    Evolves-update q f rs (All-everywhere (λ r. q r ≡ true → Follows r (f r)) rs h)

-- Of an update that leaves the status alone.
pub same_status-Follows :
    (r s : Instance)
    → s.id ≡ r.id
    → s.user_id ≡ r.user_id
    → s.challenge_id ≡ r.challenge_id
    → s.created_at ≡ r.created_at
    → s.absolute_expires_at ≡ r.absolute_expires_at
    → s.expires_at ≡ r.expires_at
    → s.status ≡ r.status
    → Follows r s
same_status-Follows r s i u c d l e t = record {
  id = i;
  user = u;
  challenge = c;
  created = d;
  limit = l;
  time = omega arith;
  status = rw t (Follows-refl r).status;
}

-- Of an update of the status.
pub status-Follows :
    (r s : Instance)
    → s.id ≡ r.id
    → s.user_id ≡ r.user_id
    → s.challenge_id ≡ r.challenge_id
    → s.created_at ≡ r.created_at
    → s.absolute_expires_at ≡ r.absolute_expires_at
    → s.expires_at ≡ r.expires_at
    → advances r.status s.status ≡ true
    → Follows r s
status-Follows r s i u c d l e t = record {
  id = i;
  user = u;
  challenge = c;
  created = d;
  limit = l;
  time = omega arith;
  status = t;
}
