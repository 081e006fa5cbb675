-- ===== src/Routes/Signing.antt =====
-- src/routes/authentication.ts and src/auth/require-bff.ts: the requests that the frontend makes for a
-- visitor. The rate limit of these routes is the framework's plugin's, and its answer an argument.
use cyber_lab_backend.Prelude.{
  ℕ, ◌≡◌, ◌⊎◌, refl, Bool, true, false, ◌==◌, if◌then◌else◌, Option, none, some, String, arith, inl,
  inr,
}
use cyber_lab_backend.Schema.{Database}
use cyber_lab_backend.Errors.{AppError, Answer, answers, rejects, crashes, unauthorized, forbidden}
use cyber_lab_backend.Errors.Handler.{of_other}
use cyber_lab_backend.Auth.Service.{
  ResolvedSession, login, resolve_session, logout, request_email_verification,
  request_password_reset, confirm_email_verification, confirm_password_reset,
}
use cyber_lab_backend.Routes.{Reply, sent, thrown, refused, unparsed}

-- The routes with the parts of their bodies that the handlers read.
pub data AuthRequest : Type 0 where
  of_login : (email password : String) → AuthRequest
  of_session of_logout of_verification_confirm : (token : ℕ) → AuthRequest
  of_verification_request of_reset_request : (email : String) → AuthRequest
  of_reset_confirm : (token new_password_hash : ℕ) → AuthRequest
  of_signup : AuthRequest

-- A login's body has the new session's token besides; `no_content` is null.
pub data AuthBody : Type 0 where
  logged_in : (session_token : ℕ) → ResolvedSession → AuthBody
  resolved : ResolvedSession → AuthBody
  accepted no_content : AuthBody

-- What the call makes up: ids, a token and the time, and whether the mailer returned.
pub record Drawn : Type 0 where
  pub session_id : ℕ
  pub token_id : ℕ
  pub token : ℕ
  pub now : ℕ
  pub delivered : Bool

abbrev answer_with :
    {A : Type 0}
    → (status_code : ℕ) → (A → AuthBody)
    → Database × Answer A
    → Database × Reply AuthBody
answer_with status_code body (db, answers a) = (db, sent status_code (body a))
answer_with status_code body (db, rejects e) = (db, refused e)
answer_with status_code body (db, crashes) = (db, thrown (of_other false none "crash"))

-- `digest` is the SHA-256 of a text.
module _ (digest : String → ℕ) (bff_auth_secret : String) where
  -- `requireBff` on what follows `Bearer ` in the header, if that is there: the error, if there is one.
  unfoldable pub require_bff : Option String → Option AppError
  require_bff none = some (unauthorized "Authentication required")
  require_bff (some presented) =
      if digest presented == digest bff_auth_secret
      then none
      else some (unauthorized "Invalid BFF credential")

module _ (normalize_email : String → String) (hash_token : ℕ → ℕ)
    (verify_password : (password_hash : ℕ) (password : String) → Bool) where
  unfoldable pub handle_auth : Drawn → AuthRequest → Database → Database × Reply AuthBody
  handle_auth d (of_login email password) db = answer_with 200 (logged_in d.token) (
      login normalize_email hash_token verify_password d.session_id d.token d.now email password db)
  handle_auth d (of_session token) db =
      answer_with 200 resolved
        (resolve_session normalize_email hash_token verify_password d.now token db)
  handle_auth d (of_logout token) db =
      (logout normalize_email hash_token verify_password d.now token db, sent 204 no_content)
  handle_auth d (of_verification_request email) db = (
    request_email_verification normalize_email hash_token verify_password d.token_id d.token d.now
        d.delivered email db,
    sent 202 accepted,
  )
  handle_auth d (of_verification_confirm token) db =
      answer_with 204 (λ u. no_content)
        (confirm_email_verification normalize_email hash_token verify_password d.now token db)
  handle_auth d (of_reset_request email) db = (
    request_password_reset normalize_email hash_token verify_password d.token_id d.token d.now
        d.delivered email db,
    sent 202 accepted,
  )
  handle_auth d (of_reset_confirm token new_password_hash) db =
      answer_with 204 (λ u. no_content)
        (confirm_password_reset normalize_email hash_token verify_password d.now token
          new_password_hash db)
  handle_auth d of_signup db = (db, refused (forbidden "Public signup is closed"))

  -- After the check of the frontend's credential: the body's schema, then the limit, then the handler.
  unfoldable pub after_bff :
      Option AppError
      → Drawn
      → Option AuthRequest
      → (within : Bool) → Database
      → Database × Reply AuthBody
  unfolding handle_auth
  after_bff (some e) d request within db = (db, refused e)
  after_bff none d none within db = (db, unparsed)
  after_bff none d (some request) within db =
      let handled = handle_auth d request db in
      if within then handled else (db, thrown (of_other false (some 429) "limit"))

  unfoldable pub post_auth :
      (digest : String → ℕ) (bff_auth_secret : String)
      → Option String
      → Drawn
      → Option AuthRequest
      → (within : Bool) → Database
      → Database × Reply AuthBody
  unfolding after_bff require_bff
  post_auth digest bff_auth_secret presented d request within db =
      after_bff (require_bff digest bff_auth_secret presented) d request within db

  -- The frontend has shown its credential, in a request that was parsed and within its limit.
  pub record IsTrusted (digest : String → ℕ) (bff_auth_secret : String) (header : Option String)
      (request : Option AuthRequest) (within : Bool) : Type 0 where
    pub presented : String
    pub shown : header ≡ some presented
    pub same : digest presented ≡ digest bff_auth_secret
    pub parsed : AuthRequest
    pub asked : request ≡ some parsed
    pub allowed : within ≡ true

  after_bff-kept :
      (o : Option AppError) (d : Drawn) (request : Option AuthRequest) (within : Bool)
      (db : Database)
      → ((after_bff o d request within db).0 ≡ db)
        ⊎ ((o ≡ none) × (parsed : AuthRequest) × (request ≡ some parsed) × (within ≡ true))
  unfolding after_bff
  after_bff-kept (some e) d request within db = inl refl
  after_bff-kept none d none within db = inl refl
  after_bff-kept none d (some request) true db = inr (refl, request, refl, refl)
  after_bff-kept none d (some request) false db = inl refl

  require_bff-passed :
      (digest : String → ℕ) (bff_auth_secret : String) (header : Option String)
      → require_bff digest bff_auth_secret header ≡ none
      → (presented : String) × (header ≡ some presented)
        × (digest presented ≡ digest bff_auth_secret)
  unfolding require_bff
  require_bff-passed digest secret none e = absurd (ground (arith, e))
  require_bff-passed digest secret (some presented) e = (presented, refl, ground (arith, e))

  -- A request on one of the sign-in routes leaves the tables as they were, or it came with a bearer
  -- text of the digest of the frontend's secret, fits the route's schema and was within the rate
  -- limit.
  pub post_auth-IsTrusted :
      (digest : String → ℕ) (bff_auth_secret : String) (header : Option String) (d : Drawn)
      (request : Option AuthRequest) (within : Bool) (db : Database)
      → ((post_auth digest bff_auth_secret header d request within db).0 ≡ db)
        ⊎ IsTrusted digest bff_auth_secret header request within
  unfolding post_auth
  post_auth-IsTrusted digest secret header d request within db =
      elim (after_bff-kept (require_bff digest secret header) d request within db) [
        | inl kept ↦ inl kept
        | inr (passed, parsed, asked, allowed) ↦
            let (presented, shown, same) = require_bff-passed digest secret header passed in
            inr (record {
              presented = presented;
              shown = shown;
              same = same;
              parsed = parsed;
              asked = asked;
              allowed = allowed;
            })
      ]
