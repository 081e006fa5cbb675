-- ===== src/Auth/Authorization.antt =====
-- What an authorised request has shown.
use cyber_lab_backend.Prelude.{
  ℕ, ◌≡◌, refl, Bool, true, is_some, some, String, arith, Option-cases, inl, inr, ==_iff,
}
use cyber_lab_backend.Schema.{Database, Session, User}
use cyber_lab_backend.Errors.{answers}
use cyber_lab_backend.Auth.{find_session_by_id}
use cyber_lab_backend.Auth.Service.{
  is_live, scopes_for_role, resolve_live_session, validate_service_session,
}
use cyber_lab_backend.Auth.Scope.{
  Claims, Bearer, no_bearer, invalid_token, verified_token, includes_scope, require_scope,
}

-- A request that is let through carried a valid token whose claims are returned, and the token's
-- session is that of its subject, is not revoked and within both limits, its account is active, the
-- token and the account's role both have the scope, and the e-mail is verified if that is required.
pub require_scope-answers :
    (now : ℕ) (token : Bearer) (scope : String) (verified : Bool) (db next : Database) (c : Claims)
    → require_scope now token scope verified db ≡ (next, answers c)
    → (token ≡ verified_token c)
      × (includes_scope scope c.scopes ≡ true)
      × ((s : Session) × (u : User) × (find_session_by_id c.session_id db ≡ some (s, u))
          × (u.id ≡ c.subject)
          × (is_live now s u ≡ true)
          × (includes_scope scope (scopes_for_role u.role) ≡ true)
          × (verified ≡ true → is_some u.email_verified_at ≡ true))
unfolding require_scope validate_service_session resolve_live_session
require_scope-answers now no_bearer scope verified db next c e = absurd (ground arith)
require_scope-answers now invalid_token scope verified db next c e = absurd (ground arith)
require_scope-answers now (verified_token claims) scope verified db next c e =
    elim (Option-cases (find_session_by_id claims.session_id db)) [
      | inl missing ↦ absurd (ground (arith, missing))
      | inr ((s, u), found) ↦
          let same : claims ≡ c = ground (arith, found) in
          rw (← same) (
            refl,
            ground (arith, found),
            (
              s,
              u,
              found,
              ground (arith, found, ==_iff u.id claims.subject),
              ground (arith, found),
              ground (arith, found),
              λ v. ground (arith, found, v),
            ),
          )
    ]
