-- ===== src/Auth/Sessions.antt =====
-- The life of a session: what it takes to be resolved, and what ends it.
use cyber_lab_backend.Prelude.{
  ℕ, ◌+◌, ◌≤◌, ◌<◌, ◌≡◌, refl, Bool, true, false, ◌&&◌, min, some, String, List, [], ◌∷◌,
  select_one, update_where, count_where, exists_where, arith, Option-cases, Bool-cases, inl, inr,
  ==_refl, count_pos,
}
use cyber_lab_backend.Schema.{Database, Session, User, is_active_account}
use cyber_lab_backend.Errors.{answers, rejects, unauthorized}
use cyber_lab_backend.Auth.{
  find_session_by_token_hash, has_token_hash, has_user_id, with_email, unrevoked, revoked_row,
  revoke_session_by_token_hash, create_session, append_audit_event, find_account_by_email,
}
use cyber_lab_backend.Auth.Service.{
  resolve_live_session, resolve_session, login, logout, session_idle_ms, ResolvedSession,
}

-- Each account has its own id: an account that is found is found by its id.
found_by_own_id :
    (p : User → Bool) (users : List User) (u : User)
    → count_where (has_user_id u.id) users ≤ 1
    → select_one p users ≡ some u
    → (select_one (has_user_id u.id) users ≡ some u)
      × (exists_where (has_user_id u.id) users ≡ true)
found_by_own_id p [] u one e = absurd (ground arith)
found_by_own_id p (y ∷ users) u one e = elim (Bool-cases (p y)) [
  | inl hit ↦ let same : y ≡ u = ground (arith, hit) in rw (same, ==_refl u.id) (refl, refl)
  | inr miss ↦
      let (found, there) = found_by_own_id p users u (omega arith) (ground (arith, miss)) in
      let many = count_pos (has_user_id u.id) users there in ground (arith, found, there, many, one)
]

revoked-select_one :
    (hash now : ℕ) (reason : String) (sessions : List Session) (s : Session)
    → select_one
        (has_token_hash hash)
        (update_where (λ s. has_token_hash hash s && unrevoked s) (revoked_row now reason) sessions)
      ≡ some s
    → unrevoked s ≡ false
revoked-select_one hash now reason [] s e = absurd (ground arith)
revoked-select_one hash now reason (r ∷ sessions) s e = elim (Bool-cases (has_token_hash hash r)) [
  | inr other ↦ revoked-select_one hash now reason sessions s (ground (arith, other))
  | inl hit ↦ elim (Bool-cases (unrevoked r)) [
    | inl live ↦ ground (arith, hit, live)
    | inr dead ↦ ground (arith, hit, dead)
  ]
]

module _ (normalize_email : String → String) (hash_token : ℕ → ℕ)
    (verify_password : (password_hash : ℕ) (password : String) → Bool) where
  -- After a logout, the token resolves no session at any time: the answer is the refusal and
  -- nothing is written.
  pub resolve_session-logout :
      (now later token : ℕ) (db : Database)
      → let gone = logout normalize_email hash_token verify_password now token db in
        resolve_session normalize_email hash_token verify_password later token gone
        ≡ (gone, rejects (unauthorized "Invalid or expired session"))
  unfolding logout resolve_session resolve_live_session revoke_session_by_token_hash
      find_session_by_token_hash
  resolve_session-logout now later token db =
      elim (Option-cases (select_one (has_token_hash (hash_token token)) rows)) [
        | inl missing ↦ rw missing refl
        | inr (s, found) ↦
            let dead = revoked-select_one (hash_token token) now "logout" db.sessions s found in
            elim (Option-cases (select_one (has_user_id s.user_id) db.users)) [
              | inl nobody ↦ ground (arith, found, nobody)
              | inr (u, owner) ↦ ground (arith, found, owner, dead)
            ]
      ]
    where
      rows : List Session
      rows =
          update_where (λ s. has_token_hash (hash_token token) s && unrevoked s)
            (revoked_row now "logout") db.sessions

  -- After a login, where each account has its own id, the login's token resolves the same session
  -- of the same account with the same scopes at every time before the idle limit of the login, and
  -- the new idle limit is the later time plus the idle time but at most the absolute limit.
  pub resolve_session-login :
      (session_id token now later : ℕ) (email password : String) (db next : Database)
      (opened : ResolvedSession)
      → ((id : ℕ) → count_where (has_user_id id) db.users ≤ 1)
      → login normalize_email hash_token verify_password session_id token now email password db
        ≡ (next, answers opened)
      → later < now + session_idle_ms
      → (resolve_session normalize_email hash_token verify_password later token next).1
        ≡ answers (record opened {
          idle_expires_at = min (later + session_idle_ms) opened.absolute_expires_at;
        })
  unfolding login resolve_session resolve_live_session create_session append_audit_event
      find_session_by_token_hash find_account_by_email
  resolve_session-login session_id token now later email password db next opened one e soon =
      let hash = hash_token token in
      elim (Option-cases (select_one (with_email (normalize_email email)) db.users)) [
        | inl missing ↦ absurd (ground (arith, missing))
        | inr (u, found) ↦
            elim (Bool-cases
              (verify_password u.password_hash password && is_active_account u.status)) [
                | inr wrong ↦ absurd (ground (arith, found, wrong))
                | inl right ↦
                    let owner : select_one (has_user_id u.id) db.users ≡ some u =
                      (found_by_own_id (with_email (normalize_email email)) db.users u (one u.id)
                        found).0 in
                    ground (arith, found, right, owner, ==_refl hash)
              ]
      ]
