-- ===== src/Routes/Authorized.antt =====
-- What a route's answer shows of the request.
use cyber_lab_backend.Prelude.{
  ℕ, ◌≡◌, ◌≢◌, refl, ap, Bool, true, false, Option, some, String, arith, Bool-cases, inl, inr,
}
use cyber_lab_backend.Schema.{Database, IdempotencyKey}
use cyber_lab_backend.Hashing.{HashedText}
use cyber_lab_backend.Errors.{Answer, answers, rejects, crashes}
use cyber_lab_backend.Errors.Handler.{Thrown}
use cyber_lab_backend.Auth.Scope.{Bearer, Claims, require_scope}
use cyber_lab_backend.RateLimiter.{Buckets, consume}
use cyber_lab_backend.Service.{MutationView, create}
use cyber_lab_backend.Submissions.{InstanceFlagContext, SubmitFlagResult, submit}
use cyber_lab_backend.Routes.{
  Api, Reply, sent, thrown, Times, reply_of, limited, authorize, served, refusing, post_instances,
  post_submissions,
}

module _ (maximum window : ℕ) where
  -- A request that was let through: its token, and its share of the limit, if that was asked for.
  pub record LetThrough (times : Times) (scope : String) (rate_limit verified_email : Bool)
      (token : Bearer) (api : Api) (claims : Claims) (mid : Api) : Type 0 where
    pub authorized :
        require_scope times.authorized_at token scope verified_email api.db
        ≡ (mid.db, answers claims)
    pub within :
        rate_limit ≡ true
        → (consume maximum window times.limited_at claims.subject api.buckets).1 ≡ true

  limited-sent :
      (now : ℕ) (rate_limit : Bool) (buckets : Buckets) (o : Database × Answer Claims) (mid : Api)
      (status_code : ℕ) (claims : Claims)
      → limited maximum window now rate_limit buckets o ≡ (mid, sent status_code claims)
      → (o ≡ (mid.db, answers claims))
        × (rate_limit ≡ true → (consume maximum window now claims.subject buckets).1 ≡ true)
  unfolding limited
  limited-sent now rate_limit buckets (db, rejects e) mid s claims h = absurd (ground (arith, h))
  limited-sent now rate_limit buckets (db, crashes) mid s claims h = absurd (ground (arith, h))
  limited-sent now rate_limit buckets (db, answers c) mid s claims h =
      elim (Bool-cases rate_limit) [
        | inr free ↦
            let same : c ≡ claims = ground (arith, rw free at h) in
            let tables : db ≡ mid.db = ground (arith, rw free at h) in
            (rw (same, tables) refl, λ asks. absurd (ground (arith, asks, free)))
        | inl asks ↦ elim (Bool-cases (consume maximum window now c.subject buckets).1) [
          | inl let_in ↦
              let same : c ≡ claims = ground (arith, rw (asks, let_in) at h) in
              let tables : db ≡ mid.db = ground (arith, rw (asks, let_in) at h) in
              (rw (same, tables) refl, λ asked. rw (← same) let_in)
          | inr over ↦ absurd (ground (arith, rw (asks, over) at h))
        ]
      ]

answered-sent :
    {A : Type 0} (status_code s : ℕ) (api : Api) (db : Database) (o : Answer A) (next : Api) (a : A)
    → ◌≡◌ {A = Api × Reply A} (record api { db = db }, reply_of status_code o) (next, sent s a)
    → ◌≡◌ {A = Database × Answer A} (db, o) (next.db, answers a) × (s ≡ status_code)
answered-sent status_code s api db (answers b) next a h =
    let same : b ≡ a = ground (arith, h) in
    let tables : db ≡ next.db = ap (λ r. r.0.db) h in (rw (same, tables) refl, ground (arith, h))
answered-sent status_code s api db (rejects e) next a h = absurd (ground (arith, h))
answered-sent status_code s api db crashes next a h = absurd (ground (arith, h))

served-sent :
    {A : Type 0} (status_code s : ℕ) (handler : Claims → Database → Database × Answer A)
    (o : Api × Reply Claims) (next : Api) (a : A)
    → served status_code handler o ≡ (next, sent s a)
    → (mid : Api) × (s' : ℕ) × (claims : Claims) × (o ≡ (mid, sent s' claims))
      × (handler claims mid.db ≡ (next.db, answers a))
      × (s ≡ status_code)
unfolding served
served-sent status_code s handler (api, thrown e) next a h = absurd (ground (arith, h))
served-sent status_code s handler (api, sent s' claims) next a h =
    let (answered, status) =
      answered-sent status_code s api (handler claims api.db).0 (handler claims api.db).1 next a
        h in
    (api, s', claims, refl, answered, status)

refusing-sent :
    {A : Type 0} (e : Thrown) (o : Api × Reply Claims) (next : Api) (s : ℕ) (a : A)
    → refusing (thrown e) o ≢ (next, sent s a)
unfolding refusing
refusing-sent e (api, thrown e') next s a h = ground (arith, h)
refusing-sent e (api, sent s' claims) next s a h = ground (arith, h)

module _ (maximum window : ℕ) where
  authorize-LetThrough :
      (times : Times) (scope : String) (rate_limit verified_email : Bool) (token : Bearer)
      (api mid : Api) (s : ℕ) (claims : Claims)
      → authorize maximum window times scope rate_limit verified_email token api
        ≡ (mid, sent s claims)
      → LetThrough maximum window times scope rate_limit verified_email token api claims mid
  unfolding authorize
  authorize-LetThrough times scope rate_limit verified_email token api mid s claims h =
      let (authorized, within) =
        limited-sent maximum window times.limited_at rate_limit api.buckets
          (require_scope times.authorized_at token scope verified_email api.db) mid s claims h in
      record { authorized = authorized; within = within }

  -- A request to create an instance that is answered with a mutation carried a token whose session
  -- is authorized for the scope instances:write with a verified e-mail, was within the player's
  -- rate limit, and was answered with 202 by the service's creation for the token's subject, on the
  -- tables that the authorization left.
  pub post_instances-LetThrough :
      (sha256 : HashedText → ℕ) (build_url : ℕ → String → String) (public_base_url : Option String)
      (available : Bool) (instance_id operation_id : ℕ) (times : Times) (request_id : String)
      (token : Bearer) (challenge_id : ℕ) (key : IdempotencyKey) (api next : Api) (s : ℕ)
      (view : MutationView)
      → post_instances maximum window sha256 build_url public_base_url available instance_id
          operation_id times request_id token
          (some (challenge_id, key))
          api
        ≡ (next, sent s view)
      → (mid : Api) × (claims : Claims) × LetThrough maximum window times "instances:write" true
          true token api claims mid
        × (create sha256 build_url public_base_url instance_id operation_id times.served_at
              (record {
                user_id = claims.subject;
                challenge_id = challenge_id;
                idempotency_key = key;
                correlation_id = some request_id;
              })
              mid.db
            ≡ (next.db, answers view))
        × (s ≡ 202)
  unfolding post_instances
  post_instances-LetThrough sha256 build_url public_base_url true instance_id operation_id times
        request_id token challenge_id key api next s view h =
      let (mid, s', claims, authorized, created, status) = served-sent 202 s _ _ next view h in
      (
        mid,
        claims,
        authorize-LetThrough times _ _ _ token api mid s' claims authorized,
        created,
        status,
      )
  post_instances-LetThrough sha256 build_url public_base_url false instance_id operation_id times
        request_id token challenge_id key api next s view h =
      absurd (refusing-sent _ _ next s view h)

  -- A flag submission that is answered with a result carried a token whose session is authorized
  -- for the scope submissions:write, was within the player's rate limit, and was answered with 200
  -- by the submission service for the token's subject, on the tables that the authorization left.
  pub post_submissions-LetThrough :
      (derive : InstanceFlagContext → String) (trim : String → String) (available : Bool)
      (submission_id solve_id looked_up : ℕ) (times : Times) (request_id : String) (token : Bearer)
      (challenge_id instance_id : ℕ) (flag : String) (api next : Api) (s : ℕ)
      (result : SubmitFlagResult)
      → post_submissions maximum window derive trim available submission_id solve_id looked_up times
          request_id token
          (some (challenge_id, instance_id, flag))
          api
        ≡ (next, sent s result)
      → (mid : Api) × (claims : Claims) × LetThrough maximum window times "submissions:write" true
          false token api claims mid
        × (submit derive trim submission_id solve_id looked_up times.served_at
              (record {
                user_id = claims.subject;
                challenge_id = challenge_id;
                instance_id = instance_id;
                flag = flag;
                correlation_id = some request_id;
              })
              mid.db
            ≡ (next.db, answers result))
        × (s ≡ 200)
  unfolding post_submissions
  post_submissions-LetThrough derive trim true submission_id solve_id looked_up times request_id
        token challenge_id instance_id flag api next s result h =
      let (mid, s', claims, authorized, recorded, status) = served-sent 200 s _ _ next result h in
      (
        mid,
        claims,
        authorize-LetThrough times _ _ _ token api mid s' claims authorized,
        recorded,
        status,
      )
  post_submissions-LetThrough derive trim false submission_id solve_id looked_up times request_id
        token challenge_id instance_id flag api next s result h =
      absurd (refusing-sent _ _ next s result h)
