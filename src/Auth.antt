-- ===== src/Auth.antt =====
-- src/db/auth-repository.ts and src/services/auth-repository.ts: accounts, sessions and e-mail
-- tokens. A method is one transaction; a generated id is an argument. `users` stands for the join
-- with the profiles, of which each user has one.
pub mod Service
pub mod Scope
pub mod Authorization
pub mod Sessions
pub mod Tokens
use cyber_lab_backend.Prelude.{
  ℕ, Bool, true, false, not, ◌&&◌, ◌==◌, ltb, if◌then◌else◌, is_some, Option, none, some, String,
  List, [], ◌∷◌, select_one, update_where, exists_where,
}
use cyber_lab_backend.Schema.{
  Database, User, Session, EmailToken, AccountRole, AccountStatus, EmailTokenPurpose, AuditEvent,
  Details, email_verification, password_reset, purpose_eq,
}
use text.Mathlib.Text.{◌==◌ as text_eq}

abbrev pub has_user_id : ℕ → User → Bool
has_user_id id u = u.id == id

abbrev with_email : String → User → Bool
with_email email u = text_eq u.email email

unfoldable pub find_account_by_email : String → Database → Option User
find_account_by_email email db = select_one (with_email email) db.users

pub record SeedAccountInput : Type 0 where
  pub email : String
  pub password_hash : ℕ
  pub display_name : String
  pub role : AccountRole
  pub verified_at : Option ℕ

pub record SeedAccountResult : Type 0 where
  pub id : ℕ
  pub role : AccountRole
  pub created : Bool

-- The insert, or on a conflict of the e-mail the account that is there.
pub seed_account : (new_id now : ℕ) → SeedAccountInput → Database → Database × SeedAccountResult
seed_account new_id now input db = elim (select_one (with_email input.email) db.users) [
  | some u ↦ (db, record { id = u.id; role = u.role; created = false })
  | none ↦ (
    record db {
      users =
          record {
            id = new_id;
            email = input.email;
            password_hash = input.password_hash;
            display_name = input.display_name;
            role = input.role;
            status = AccountStatus.active;
            email_verified_at = input.verified_at;
            updated_at = now;
          }
          ∷ db.users;
    },
    record { id = new_id; role = input.role; created = true },
  )
]

unfoldable pub create_session :
    (new_id user_id token_hash now idle_expires_at absolute_expires_at : ℕ) → Database → Database
create_session new_id user_id token_hash now idle_expires_at absolute_expires_at db = record db {
  sessions =
      record {
        id = new_id;
        user_id = user_id;
        token_hash = token_hash;
        created_at = now;
        last_seen_at = now;
        idle_expires_at = idle_expires_at;
        absolute_expires_at = absolute_expires_at;
        revoked_at = none;
        revocation_reason = none;
      }
      ∷ db.sessions;
}

-- The inner join with the session's account.
abbrev with_account : List User → Option Session → Option (Session × User)
with_account users none = none
with_account users (some s) = elim (select_one (has_user_id s.user_id) users) [
  | none ↦ none
  | some u ↦ some (s, u)
]

abbrev pub has_token_hash : ℕ → Session → Bool
has_token_hash hash s = s.token_hash == hash

abbrev pub has_session_id : ℕ → Session → Bool
has_session_id id s = s.id == id

pub find_session_by_token_hash : ℕ → Database → Option (Session × User)
find_session_by_token_hash hash db =
    with_account db.users (select_one (has_token_hash hash) db.sessions)

unfoldable pub find_session_by_id : ℕ → Database → Option (Session × User)
find_session_by_id id db = with_account db.users (select_one (has_session_id id) db.sessions)

abbrev pub unrevoked : Session → Bool
unrevoked s = not (is_some s.revoked_at)

unfoldable pub touch_session : (session_id now idle_expires_at : ℕ) → Database → Database
touch_session session_id now idle_expires_at db = record db {
  sessions =
      update_where (λ s. has_session_id session_id s && unrevoked s)
        (λ s. record s { last_seen_at = now; idle_expires_at = idle_expires_at }) db.sessions;
}

abbrev pub revoked_row : ℕ → String → Session → Session
revoked_row now reason s = record s { revoked_at = some now; revocation_reason = some reason }

pub revoke_session_by_token_hash : (token_hash now : ℕ) → String → Database → Database
revoke_session_by_token_hash token_hash now reason db = record db {
  sessions =
      update_where (λ s. has_token_hash token_hash s && unrevoked s) (revoked_row now reason)
        db.sessions;
}

abbrev pub session_of : ℕ → Session → Bool
session_of user_id s = (s.user_id == user_id) && unrevoked s

pub revoke_sessions_for_user : (user_id now : ℕ) → String → Database → Database
revoke_sessions_for_user user_id now reason db = record db {
  sessions = update_where (session_of user_id) (revoked_row now reason) db.sessions;
}

abbrev pub open_token : ℕ → EmailTokenPurpose → EmailToken → Bool
open_token user_id purpose t =
    (t.user_id == user_id) && purpose_eq t.purpose purpose && not (is_some t.consumed_at)

-- The open tokens of the user for the purpose are used up, and the new one is inserted.
pub issue_email_token :
    (new_id user_id : ℕ) → EmailTokenPurpose → (token_hash now expires_at : ℕ) → Database → Database
issue_email_token new_id user_id purpose token_hash now expires_at db = record db {
  email_tokens =
      record {
        id = new_id;
        user_id = user_id;
        purpose = purpose;
        token_hash = token_hash;
        created_at = now;
        expires_at = expires_at;
        consumed_at = none;
      }
      ∷ update_where (open_token user_id purpose) (λ t. record t { consumed_at = some now })
          db.email_tokens;
}

abbrev pub usable : (token_hash : ℕ) → EmailTokenPurpose → (now : ℕ) → EmailToken → Bool
usable token_hash purpose now t =
    (t.token_hash == token_hash)
    && purpose_eq t.purpose purpose
    && not (is_some t.consumed_at)
    && ltb now t.expires_at

abbrev pub consumed : ℕ → EmailToken → EmailToken
consumed now t = record t { consumed_at = some now }

pub consume_verification_token : (token_hash now : ℕ) → Database → Database × Bool
consume_verification_token token_hash now db =
    elim (select_one (usable token_hash email_verification now) db.email_tokens) [
      | none ↦ (db, false)
      | some t ↦ (
        record db {
          email_tokens =
              update_where (usable token_hash email_verification now) (consumed now)
                db.email_tokens;
          users =
              update_where (has_user_id t.user_id)
                (λ u. record u { email_verified_at = some now; updated_at = now }) db.users;
        },
        true,
      )
    ]

unfoldable pub consume_password_reset_token :
    (token_hash password_hash now : ℕ) → Database → Database × Bool
consume_password_reset_token token_hash password_hash now db =
    elim (select_one (usable token_hash password_reset now) db.email_tokens) [
      | none ↦ (db, false)
      | some t ↦ (
        record db {
          email_tokens =
              update_where (usable token_hash password_reset now) (consumed now) db.email_tokens;
          users =
              update_where (has_user_id t.user_id)
                (λ u. record u { password_hash = password_hash; updated_at = now }) db.users;
          sessions =
              update_where (session_of t.user_id) (revoked_row now "password_reset") db.sessions;
        },
        true,
      )
    ]

unfoldable pub append_audit_event : AuditEvent → Database → Database
append_audit_event event db = record db { audit_events = event ∷ db.audit_events }
