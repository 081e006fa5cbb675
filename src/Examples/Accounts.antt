-- ===== src/Examples/Accounts.antt =====
-- Sessions, tokens and scopes on the small database.
use cyber_lab_backend.Prelude.{
  ℕ, ◌+◌, ◌≡◌, refl, Bool, true, ◌==◌, none, some, String, [], ◌∷◌, is_some, min, arith,
}
use cyber_lab_backend.Schema.{Database, User, Session, EmailToken, player, password_reset}
use cyber_lab_backend.Errors.{answers, rejects, unauthorized}
use cyber_lab_backend.Auth.{
  find_session_by_id, touch_session, consume_password_reset_token, find_account_by_email,
  create_session, append_audit_event,
}
use cyber_lab_backend.Auth.Service.{
  ResolvedSession, login, logout, resolve_session, confirm_password_reset, validate_service_session,
  resolve_live_session, is_live, scopes_for_role, to_trusted_user, session_idle_ms,
  session_absolute_ms,
}
use cyber_lab_backend.Auth.Scope.{Claims, verified_token, includes_scope, require_scope}
use cyber_lab_backend.Auth.Authorization.{require_scope-answers}
use cyber_lab_backend.Auth.Sessions.{resolve_session-login, resolve_session-logout}
use cyber_lab_backend.Routes.Signing.{of_login, Drawn, IsTrusted, post_auth, post_auth-IsTrusted}
use cyber_lab_backend.Prelude.{◌⊎◌}
use cyber_lab_backend.Examples.{start, alice}

abbrev as_is : String → String
as_is email = email

abbrev successor : ℕ → ℕ
successor n = n + 1

abbrev accepts : ℕ → String → Bool
accepts password_hash password = password_hash == 99

abbrev session : Session
session = record {
  id = 61;
  user_id = 7;
  token_hash = 501;
  created_at = 1000;
  last_seen_at = 1000;
  idle_expires_at = 9000;
  absolute_expires_at = 20000;
  revoked_at = none;
  revocation_reason = none;
}

abbrev token : EmailToken
token = record {
  id = 71;
  user_id = 7;
  purpose = password_reset;
  token_hash = 601;
  created_at = 1000;
  expires_at = 9000;
  consumed_at = none;
}

abbrev pub signed_in : Database
signed_in = record start { sessions = session ∷ []; email_tokens = token ∷ [] }

abbrev claims : Claims
claims = record { subject = 7; session_id = 61; scopes = "instances:write" ∷ [] }

authorized : Database
unfolding require_scope validate_service_session resolve_live_session find_session_by_id
    touch_session
authorized = (require_scope 2000 (verified_token claims) "instances:write" true signed_in).0

require_scope-answers_example :
    (verified_token claims ≡ verified_token claims)
    × (includes_scope "instances:write" claims.scopes ≡ true)
    × ((s : Session) × (u : User) × (find_session_by_id claims.session_id signed_in ≡ some (s, u))
        × (u.id ≡ claims.subject)
        × (is_live 2000 s u ≡ true)
        × (includes_scope "instances:write" (scopes_for_role u.role) ≡ true)
        × (true ≡ true → is_some u.email_verified_at ≡ true))
unfolding authorized require_scope validate_service_session resolve_live_session find_session_by_id
    touch_session
require_scope-answers_example =
    require_scope-answers 2000 (verified_token claims) "instances:write" true signed_in authorized
      claims refl

-- The session's token is 500.
resolve_session-logout_example :
    let gone = logout as_is successor accepts 3000 500 signed_in in
    resolve_session as_is successor accepts 4000 500 gone
    ≡ (gone, rejects (unauthorized "Invalid or expired session"))
resolve_session-logout_example =
    resolve_session-logout as_is successor accepts 3000 4000 500 signed_in

opened : ResolvedSession
opened = record {
  session_id = 62;
  user = to_trusted_user alice;
  allowed_scopes = scopes_for_role player;
  idle_expires_at = 1000 + session_idle_ms;
  absolute_expires_at = 1000 + session_absolute_ms;
}

logged_in : Database
unfolding login find_account_by_email create_session append_audit_event
logged_in = (login as_is successor accepts 62 800 1000 "alice@example.org" "secret" start).0

resolve_session-login_example :
    (resolve_session as_is successor accepts 5000 800 logged_in).1
    ≡ answers (record opened {
      idle_expires_at = min (5000 + session_idle_ms) opened.absolute_expires_at;
    })
unfolding opened logged_in login find_account_by_email create_session append_audit_event
resolve_session-login_example =
    resolve_session-login as_is successor accepts 62 800 1000 5000 "alice@example.org" "secret"
      start logged_in opened (λ id. ground arith) refl (omega arith)

reset : Database
unfolding confirm_password_reset consume_password_reset_token
reset = (confirm_password_reset as_is successor accepts 2000 600 77 signed_in).0

abbrev text_digest : String → ℕ
text_digest text = 5

abbrev drawn : Drawn
drawn = record { session_id = 62; token_id = 72; token = 600; now = 4000; delivered = true }

post_auth-IsTrusted_example :
    ((post_auth as_is successor accepts text_digest "secret"
        (some "secret")
        drawn
        (some (of_login "alice@example.org" "password"))
        true
        signed_in).0
      ≡ signed_in)
    ⊎ IsTrusted as_is successor accepts text_digest "secret"
        (some "secret")
        (some (of_login "alice@example.org" "password"))
        true
post_auth-IsTrusted_example =
    post_auth-IsTrusted as_is successor accepts text_digest "secret" (some "secret") drawn
      (some (of_login "alice@example.org" "password")) true signed_in
