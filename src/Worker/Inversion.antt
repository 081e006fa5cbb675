-- ===== src/Worker/Inversion.antt =====
-- What an action that returned has gone through.
use cyber_lab_backend.Prelude.{◌≡◌, ◌≢◌, refl, Bool, true, false, if◌then◌else◌, arith}
use cyber_lab_backend.Schema.{Database}
use cyber_lab_backend.Actions.{
  Host, Result, Call, returned, threw, raise, continue, query, write, rethrown, on_throw, ◌>>=◌,
  ◌>>◌,
}

module _ {W : Type 0} where
  continue-returned :
      {A B : Type 0} (f : A → Call W B) (o : Host W × Result A) (h' : Host W) (b : B)
      → continue f o ≡ (h', returned b)
      → (h : Host W) × (a : A) × (o ≡ (h, returned a)) × (f a h ≡ (h', returned b))
  continue-returned f (h, returned a) h' b e = (h, a, refl, e)
  continue-returned f (h, threw) h' b e = absurd (ground arith)

  pub bind-returned :
      {A B : Type 0} (m : Call W A) (f : A → Call W B) (h h' : Host W) (b : B)
      → (m >>= f) h ≡ (h', returned b)
      → (mid : Host W) × (a : A) × (m h ≡ (mid, returned a)) × (f a mid ≡ (h', returned b))
  unfolding ◌>>=◌
  bind-returned m f h h' b e = continue-returned f (m h) h' b e

  pub then-returned :
      {B : Type 0} (m : Call W (Unit {0})) (k : Call W B) (h h' : Host W) (b : B)
      → (m >> k) h ≡ (h', returned b)
      → (mid : Host W) × (m h ≡ (mid, returned tt)) × (k mid ≡ (h', returned b))
  unfolding ◌>>◌
  then-returned m k h h' b e =
      let (mid, _, first, rest) = bind-returned m (λ _. k) h h' b e in (mid, first, rest)

  -- A write, and a read, are one step on the tables.
  pub write-returned :
      {B : Type 0} (f : Database → Database) (k : Call W B) (h : Host W) {r : Host W × Result B}
      → (write f >> k) h ≡ r
      → k (record h { db = f h.db }) ≡ r
  unfolding ◌>>◌ ◌>>=◌ write
  write-returned f k h e = e

  pub query-returned :
      {A B : Type 0} (f : Database → A) (k : A → Call W B) (h : Host W) {r : Host W × Result B}
      → (query f >>= k) h ≡ r
      → k (f h.db) h ≡ r
  unfolding ◌>>=◌ query
  query-returned f k h e = e

  -- A branch that would have answered otherwise was not taken.
  pub if-returned :
      {A : Type 0} (b : Bool) (m k : Call W A) (h : Host W) {r : Host W × Result A}
      → m h ≢ r
      → (if b then m else k) h ≡ r
      → (b ≡ false) × (k h ≡ r)
  if-returned true m k h otherwise e = absurd (otherwise e)
  if-returned false m k h otherwise e = (refl, e)

  -- A branch that throws was not taken.
  pub guarded :
      {A : Type 0} (b : Bool) (k : Call W A) (h h' : Host W) (a : A)
      → (if b then k else raise) h ≡ (h', returned a)
      → (b ≡ true) × (k h ≡ (h', returned a))
  unfolding raise
  guarded true k h h' a e = (refl, e)
  guarded false k h h' a e = absurd (ground (arith, e))

  rethrown-returned :
      {A : Type 0} (cleanup : Call W (Unit {0})) (o : Host W × Result A) (h' : Host W) (a : A)
      → rethrown cleanup o ≡ (h', returned a)
      → o ≡ (h', returned a)
  rethrown-returned cleanup (h, returned b) h' a e = e
  rethrown-returned cleanup (h, threw) h' a e = absurd (ground (arith, e))

  pub on_throw-returned :
      {A : Type 0} (cleanup : Call W (Unit {0})) (m : Call W A) (h h' : Host W) (a : A)
      → on_throw cleanup m h ≡ (h', returned a)
      → m h ≡ (h', returned a)
  unfolding on_throw
  on_throw-returned cleanup m h h' a e = rethrown-returned cleanup (m h) h' a e
