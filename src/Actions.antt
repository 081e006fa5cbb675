-- ===== src/Actions.antt =====
-- Asynchronous code that may throw: an action takes the tables and the world outside of them, and
-- leaves both with what it returned. What was written before a throw stays written. The world stands
-- for the Docker host, the queue's server, the clock and the random source, and for whatever other
-- transactions of the system commit while an action waits.
use cyber_lab_backend.Prelude.{Option, none, some}
use cyber_lab_backend.Schema.{Database}

pub record Host (W : Type 0) : Type 0 where
  pub db : Database
  pub world : W

pub data Result (A : Type 0) : Type 0 where
  returned : A → Result A
  threw : Result A

abbrev pub Call : Type 0 → Type 0 → Type 0
Call W A = Host W → Host W × Result A

module _ {W : Type 0} where
  unfoldable pub pure : {A : Type 0} → A → Call W A
  pure a h = (h, returned a)

  unfoldable pub raise : {A : Type 0} → Call W A
  raise h = (h, threw)

  abbrev pub continue : {A B : Type 0} → (A → Call W B) → Host W × Result A → Host W × Result B
  continue f (h, returned a) = f a h
  continue f (h, threw) = (h, threw)

  -- A read of the tables.
  unfoldable pub query : {A : Type 0} → (Database → A) → Call W A
  query f h = (h, returned (f h.db))

  -- A write that cannot fail.
  unfoldable pub write : (Database → Database) → Call W (Unit {0})
  write f h = (record h { db = f h.db }, returned tt)

  abbrev pub committed : {A : Type 0} → Host W → Option (Database × A) → Host W × Result A
  committed h none = (h, threw)
  committed h (some (db, a)) = (record h { db = db }, returned a)

  -- A transaction, which rolls back when it throws.
  unfoldable pub transact : {A : Type 0} → (Database → Option (Database × A)) → Call W A
  transact f h = committed h (f h.db)

  -- A write with an answer.
  unfoldable pub update : {A : Type 0} → (Database → Database × A) → Call W A
  update f h = let (db, a) = f h.db in (record h { db = db }, returned a)

  abbrev swallowed : Host W × Result (Unit {0}) → Host W × Result (Unit {0})
  swallowed (h, r) = (h, returned tt)

  -- `.catch(() => undefined)`
  unfoldable pub ignore : Call W (Unit {0}) → Call W (Unit {0})
  ignore m h = swallowed (m h)

module _ {W : Type 0} where
  abbrev pub rethrown : {A : Type 0} → Call W (Unit {0}) → Host W × Result A → Host W × Result A
  rethrown cleanup (h, returned a) = (h, returned a)
  rethrown cleanup (h, threw) = ((cleanup h).0, threw)

  -- A `catch` that cleans up and throws again.
  unfoldable pub on_throw : {A : Type 0} → Call W (Unit {0}) → Call W A → Call W A
  on_throw cleanup m h = rethrown cleanup (m h)

infixl 5 ◌>>=◌ ◌>>◌
unfoldable pub ◌>>=◌ : {W A B : Type 0} → Call W A → (A → Call W B) → Call W B
◌>>=◌ m f h = continue f (m h)

unfoldable pub ◌>>◌ : {W B : Type 0} → Call W (Unit {0}) → Call W B → Call W B
unfolding ◌>>=◌
m >> k = m >>= λ _. k
