-- ===== src/Auth/Service.antt =====
-- src/services/authentication.ts. The normalisation of an e-mail (`trim`, `toLowerCase`), the hash of
-- a token and the password check are parameters; a token's random value, the ids and the readings of
-- the clock are arguments.
use cyber_lab_backend.Prelude.{
  ℕ, ◌+◌, min, Bool, true, false, not, ◌&&◌, ◌==◌, leb, if◌then◌else◌, is_some, Option, none, some,
  String, List, [], ◌∷◌, ◌++◌,
}
use cyber_lab_backend.Schema.{
  Database, User, Session, AccountRole, player, admin, EmailTokenPurpose, email_verification,
  password_reset, AuditEvent, no_details, of_purpose, is_active_account,
}
use cyber_lab_backend.Errors.{Answer, answers, rejects, unauthorized, invalid_request}
use cyber_lab_backend.Auth.{
  find_account_by_email, create_session, find_session_by_token_hash, find_session_by_id,
  touch_session, revoke_session_by_token_hash, issue_email_token, consume_verification_token,
  consume_password_reset_token, append_audit_event, unrevoked,
}

abbrev pub session_idle_ms : ℕ
session_idle_ms = 2592000000

abbrev pub session_absolute_ms : ℕ
session_absolute_ms = 7776000000

abbrev pub verification_token_ms : ℕ
verification_token_ms = 86400000

abbrev pub password_reset_token_ms : ℕ
password_reset_token_ms = 3600000

pub record TrustedUser : Type 0 where
  pub id : ℕ
  pub email : String
  pub display_name : String
  pub role : AccountRole
  pub email_verified : Bool

pub record ResolvedSession : Type 0 where
  pub session_id : ℕ
  pub user : TrustedUser
  pub allowed_scopes : List String
  pub idle_expires_at : ℕ
  pub absolute_expires_at : ℕ

abbrev pub to_trusted_user : User → TrustedUser
to_trusted_user u = record {
  id = u.id;
  email = u.email;
  display_name = u.display_name;
  role = u.role;
  email_verified = is_some u.email_verified_at;
}

abbrev player_scopes : List String
player_scopes = "profile:read" ∷ "submissions:write" ∷ "instances:read" ∷ "instances:write" ∷ []

abbrev pub scopes_for_role : AccountRole → List String
scopes_for_role player = player_scopes
scopes_for_role admin = player_scopes ++ "admin:write" ∷ []

abbrev account_event : String → ℕ → ℕ → AuditEvent
account_event event_type user_id now = record {
  actor_user_id = some user_id;
  target_user_id = some user_id;
  event_type = event_type;
  correlation_id = none;
  details = no_details;
  created_at = some now;
}

abbrev delivery_event : ℕ → EmailTokenPurpose → ℕ → AuditEvent
delivery_event user_id purpose now = record {
  actor_user_id = none;
  target_user_id = some user_id;
  event_type = "auth.email.delivery_failed";
  correlation_id = none;
  details = of_purpose purpose;
  created_at = some now;
}

abbrev pub is_live : (now : ℕ) → Session → User → Bool
is_live now s u =
    unrevoked s
    && is_active_account u.status
    && not (leb s.idle_expires_at now)
    && not (leb s.absolute_expires_at now)

-- The idle limit that a use at `now` sets.
abbrev pub next_idle : (now : ℕ) → Session → ℕ
next_idle now s = min (now + session_idle_ms) s.absolute_expires_at

unfoldable pub resolve_live_session :
    (now : ℕ) → Option (Session × User) → Database → Database × Answer ResolvedSession
resolve_live_session now none db = (db, rejects (unauthorized "Invalid or expired session"))
resolve_live_session now (some (s, u)) db =
    if is_live now s u
    then (
      touch_session s.id now (next_idle now s) db,
      answers (record {
        session_id = s.id;
        user = to_trusted_user u;
        allowed_scopes = scopes_for_role u.role;
        idle_expires_at = next_idle now s;
        absolute_expires_at = s.absolute_expires_at;
      }),
    )
    else (db, rejects (unauthorized "Invalid or expired session"))

module _ (normalize_email : String → String) (hash_token : ℕ → ℕ)
    (verify_password : (password_hash : ℕ) (password : String) → Bool) where
  abbrev open_session :
      (session_id token now : ℕ) → User → Database → Database × Answer ResolvedSession
  open_session session_id token now u db = (
    append_audit_event (account_event "auth.login.succeeded" u.id now) (
        create_session session_id u.id (hash_token token) now (now + session_idle_ms)
          (now + session_absolute_ms) db),
    answers (record {
      session_id = session_id;
      user = to_trusted_user u;
      allowed_scopes = scopes_for_role u.role;
      idle_expires_at = now + session_idle_ms;
      absolute_expires_at = now + session_absolute_ms;
    }),
  )

  -- The dummy hash that an unknown e-mail is checked against changes the time of the call only.
  unfoldable pub login :
      (session_id token now : ℕ) (email password : String)
      → Database
      → Database × Answer ResolvedSession
  login session_id token now email password db =
      elim (find_account_by_email (normalize_email email) db) [
        | none ↦ (db, rejects (unauthorized "Invalid email or password"))
        | some u ↦
            if verify_password u.password_hash password && is_active_account u.status
            then open_session session_id token now u db
            else (db, rejects (unauthorized "Invalid email or password"))
      ]

  unfoldable pub resolve_session : (now token : ℕ) → Database → Database × Answer ResolvedSession
  unfolding resolve_live_session
  resolve_session now token db =
      resolve_live_session now (find_session_by_token_hash (hash_token token) db) db

  unfoldable pub logout : (now token : ℕ) → Database → Database
  logout now token db = revoke_session_by_token_hash (hash_token token) now "logout" db

  abbrev deliver : Bool → ℕ → EmailTokenPurpose → ℕ → Database → Database
  deliver true user_id purpose now db = db
  deliver false user_id purpose now db = append_audit_event (delivery_event user_id purpose now) db

  -- `delivered` is whether the mailer returned; its failure is recorded and not passed on.
  unfoldable pub request_email_verification :
      (token_id token now : ℕ) (delivered : Bool) (email : String) → Database → Database
  request_email_verification token_id token now delivered email db =
      elim (find_account_by_email (normalize_email email) db) [
        | none ↦ db
        | some u ↦
            if is_active_account u.status && not (is_some u.email_verified_at)
            then deliver delivered u.id email_verification now (
                issue_email_token token_id u.id email_verification (hash_token token) now
                  (now + verification_token_ms) db)
            else db
      ]

  unfoldable pub request_password_reset :
      (token_id token now : ℕ) (delivered : Bool) (email : String) → Database → Database
  request_password_reset token_id token now delivered email db =
      elim (find_account_by_email (normalize_email email) db) [
        | none ↦ db
        | some u ↦
            if is_active_account u.status
            then deliver delivered u.id password_reset now (
                issue_email_token token_id u.id password_reset (hash_token token) now
                  (now + password_reset_token_ms) db)
            else db
      ]

  abbrev acknowledged : String → Database × Bool → Database × Answer (Unit {0})
  acknowledged message (db, true) = (db, answers tt)
  acknowledged message (db, false) = (db, rejects (invalid_request message))

  unfoldable pub confirm_email_verification :
      (now token : ℕ) → Database → Database × Answer (Unit {0})
  confirm_email_verification now token db =
      acknowledged "Invalid or expired verification token"
        (consume_verification_token (hash_token token) now db)

  unfoldable pub confirm_password_reset :
      (now token new_password_hash : ℕ) → Database → Database × Answer (Unit {0})
  confirm_password_reset now token new_password_hash db =
      acknowledged "Invalid or expired password reset token"
        (consume_password_reset_token (hash_token token) new_password_hash now db)

-- `record?.id !== userId`
abbrev belongs_to : ℕ → Option (Session × User) → Bool
belongs_to user_id none = false
belongs_to user_id (some (s, u)) = u.id == user_id

unfoldable pub validate_service_session :
    (now user_id session_id : ℕ) → Database → Database × Answer ResolvedSession
unfolding resolve_live_session
validate_service_session now user_id session_id db =
    let found = find_session_by_id session_id db in
    if belongs_to user_id found
    then resolve_live_session now found db
    else (db, rejects (unauthorized "Invalid or expired token"))
