-- ===== src/Auth/Scope.antt =====
-- src/auth/require-scope.ts and the claims of src/auth/service-token.ts. The check of a token's
-- signature, issuer, audience and age is the library's (jose), as is the split of the header; what it
-- returns for a token is an argument.
use cyber_lab_backend.Prelude.{ℕ, Bool, not, ◌&&◌, if◌then◌else◌, String, List, exists_where}
use cyber_lab_backend.Schema.{Database}
use cyber_lab_backend.Errors.{Answer, answers, rejects, crashes, unauthorized, forbidden}
use cyber_lab_backend.Auth.Service.{ResolvedSession, validate_service_session}
use text.Mathlib.Text.{◌==◌ as text_eq}

-- The claims of a verified payload; the `scope` claim is given as its parts.
pub record Claims : Type 0 where
  pub subject : ℕ
  pub session_id : ℕ
  pub scopes : List String

abbrev pub includes_scope : String → List String → Bool
includes_scope scope scopes = exists_where (λ s. text_eq s scope) scopes

-- After the live session: the role's scopes, then the verified e-mail where the route asks for it.
abbrev authorize :
    Claims → String → Bool → Database × Answer ResolvedSession → Database × Answer Claims
authorize claims scope verified (db, rejects e) =
    (db, rejects (unauthorized "Invalid or expired token"))
authorize claims scope verified (db, crashes) =
    (db, rejects (unauthorized "Invalid or expired token"))
authorize claims scope verified (db, answers session) =
    if includes_scope scope session.allowed_scopes
    then (if verified && not session.user.email_verified
        then (db, rejects (forbidden "Verify your email before creating an instance"))
        else (db, answers claims))
    else (db, rejects (unauthorized "Invalid or expired token"))

-- What the header holds: no bearer token, one that does not verify, or the claims of one that does.
pub data Bearer : Type 0 where
  no_bearer invalid_token : Bearer
  verified_token : Claims → Bearer

unfoldable pub require_scope :
    (now : ℕ) (token : Bearer) (scope : String) (verified : Bool)
    → Database
    → Database × Answer Claims
require_scope now no_bearer scope verified db =
    (db, rejects (unauthorized "Authentication required"))
require_scope now invalid_token scope verified db =
    (db, rejects (unauthorized "Invalid or expired token"))
require_scope now (verified_token claims) scope verified db =
    if includes_scope scope claims.scopes
    then authorize claims scope verified
        (validate_service_session now claims.subject claims.session_id db)
    else (db, rejects (unauthorized "Invalid or expired token"))
