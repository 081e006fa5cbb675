-- ===== src/Worker/Reaching.antt =====
-- Whatever the worker does, and wherever it throws, the tables go through transactions of the system.
use cyber_lab_backend.Prelude.{ℕ, ◌≡◌, refl, Bool, true, false, if◌then◌else◌, Option, none, some}
use cyber_lab_backend.Schema.{Database}
use cyber_lab_backend.Hashing.{HashedText}
use cyber_lab_backend.Lifecycle.Step.{Step, Reach, here, next}
use cyber_lab_backend.Actions.{
  Host, Result, Call, returned, threw, pure, raise, continue, committed, query, write, transact,
  update, ignore, ◌>>=◌, ◌>>◌,
}

module _ (sha256 : HashedText → ℕ) where
  pub Reach-trans : {a b c : Database} → Reach sha256 a b → Reach sha256 b c → Reach sha256 a c
  Reach-trans r here = r
  Reach-trans r (next s t) = next (Reach-trans r s) t

module _ (sha256 : HashedText → ℕ) {W : Type 0} where
  -- Every run goes through steps: its own, and those of others that commit while it waits.
  pub record Reaches {A : Type 0} (m : Call W A) : Type 0 where
    pub run : (h : Host W) → Reach sha256 h.db (m h).0.db

  continue-Reach :
      {A B : Type 0} (db : Database) (f : A → Call W B) (o : Host W × Result A)
      → Reach sha256 db o.0.db
      → ((a : A) → Reaches (f a))
      → Reach sha256 db (continue f o).0.db
  continue-Reach db f (h, returned a) r k = Reach-trans sha256 r ((k a).run h)
  continue-Reach db f (h, threw) r k = r

  pub bind-Reaches :
      {A B : Type 0} {m : Call W A} {f : A → Call W B}
      → Reaches m
      → ((a : A) → Reaches (f a))
      → Reaches (m >>= f)
  unfolding ◌>>=◌
  bind-Reaches {m = m} {f = f} r k = record { run = λ h. continue-Reach h.db f (m h) (r.run h) k }

  pub then-Reaches :
      {B : Type 0} {m : Call W (Unit {0})} {k : Call W B} → Reaches m → Reaches k → Reaches (m >> k)
  unfolding ◌>>◌
  then-Reaches r s = bind-Reaches r (λ _. s)

  pub pure-Reaches : {A : Type 0} (a : A) → Reaches (pure a)
  unfolding pure
  pure-Reaches a = record { run = λ h. here }

  pub raise-Reaches : {A : Type 0} → Reaches (raise {A = A})
  unfolding raise
  raise-Reaches = record { run = λ h. here }

  pub query-Reaches : {A : Type 0} (f : Database → A) → Reaches (query f)
  unfolding query
  query-Reaches f = record { run = λ h. here }

  pub write-Reaches :
      {f : Database → Database} → ((db : Database) → Step sha256 db (f db)) → Reaches (write f)
  unfolding write
  write-Reaches s = record { run = λ h. next here (s h.db) }

  pub update-Reaches :
      {A : Type 0} (f : Database → Database × A)
      → ((db : Database) → Step sha256 db (f db).0)
      → Reaches (update f)
  unfolding update
  update-Reaches f s = record { run = λ h. next here (s h.db) }

  committed-Reach :
      {A : Type 0} (h : Host W) (o : Option (Database × A))
      → ((db : Database) (a : A) → o ≡ some (db, a) → Step sha256 h.db db)
      → Reach sha256 h.db (committed h o).0.db
  committed-Reach h none s = here
  committed-Reach h (some (db, a)) s = next here (s db a refl)

  pub transact-Reaches :
      {A : Type 0} {f : Database → Option (Database × A)}
      → ((db next : Database) (a : A) → f db ≡ some (next, a) → Step sha256 db next)
      → Reaches (transact f)
  unfolding transact
  transact-Reaches {f = f} s = record { run = λ h. committed-Reach h (f h.db) (s h.db) }

  pub ignore-Reaches : {m : Call W (Unit {0})} → Reaches m → Reaches (ignore m)
  unfolding ignore
  ignore-Reaches r = record { run = r.run }

  -- Of a test.
  pub if-Reaches :
      {A : Type 0} (b : Bool) {m k : Call W A}
      → Reaches m
      → Reaches k
      → Reaches (if b then m else k)
  if-Reaches true r s = r
  if-Reaches false r s = s
