-- ===== src/Routes.antt =====
-- src/routes/instances.ts and src/routes/submissions.ts: the requests on instances and flags. A
-- request has passed the framework's parsing; `none` for its parts means that the schema refuses
-- them, which happens after the authorization. The services may be absent.
pub mod Authorized
pub mod Signing
use cyber_lab_backend.Prelude.{
  ℕ, Bool, true, false, not, ◌&&◌, if◌then◌else◌, Option, none, some, String, List, [], ◌∷◌,
}
use cyber_lab_backend.Schema.{Database, IdempotencyKey}
use cyber_lab_backend.Hashing.{HashedText}
use cyber_lab_backend.Errors.{
  AppError, Answer, answers, rejects, crashes, rate_limited, not_implemented, invalid_request,
}
use cyber_lab_backend.Errors.Handler.{Thrown, of_app, of_other}
use cyber_lab_backend.Auth.Scope.{Bearer, Claims, require_scope}
use cyber_lab_backend.RateLimiter.{Buckets, consume}
use cyber_lab_backend.Service.{
  CreateRequest, InstanceRequest, MutationView, InstanceView, create, get, extend_instance,
  destroy_instance,
}
use cyber_lab_backend.Submissions.{InstanceFlagContext, SubmitInput, SubmitFlagResult, submit}

-- The tables and the limiter's buckets.
pub record Api : Type 0 where
  pub db : Database
  pub buckets : Buckets

-- What a route sends, or throws to the error handler.
pub data Reply (A : Type 0) : Type 0 where
  sent : (status_code : ℕ) → A → Reply A
  thrown : Thrown → Reply A

abbrev pub refused : {A : Type 0} → AppError → Reply A
refused e = thrown (of_app e)

-- A throw of the framework's validation.
abbrev pub unparsed : {A : Type 0} → Reply A
unparsed = thrown (of_other true (some 400) "validation")

-- The readings of the clock: by the session's check, the limiter, and the service.
pub record Times : Type 0 where
  pub authorized_at : ℕ
  pub limited_at : ℕ
  pub served_at : ℕ

abbrev pub reply_of : {A : Type 0} → (status_code : ℕ) → Answer A → Reply A
reply_of status_code (answers a) = sent status_code a
reply_of status_code (rejects e) = refused e
reply_of status_code crashes = thrown (of_other false none "crash")

-- `authorize`: the identity of the token's subject, after the limiter where the route asks for it.
module _ (maximum window : ℕ) where
  unfoldable pub limited :
      (now : ℕ) → Bool → Buckets → Database × Answer Claims → Api × Reply Claims
  limited now rate_limit buckets (db, rejects e) =
      (record { db = db; buckets = buckets }, refused e)
  limited now rate_limit buckets (db, crashes) =
      (record { db = db; buckets = buckets }, thrown (of_other false none "crash"))
  limited now rate_limit buckets (db, answers claims) =
      let taken = consume maximum window now claims.subject buckets in
      if rate_limit
      then (
        record { db = db; buckets = taken.0 },
        if taken.1 then sent 200 claims else refused (rate_limited "Too many requests"),
      )
      else (record { db = db; buckets = buckets }, sent 200 claims)

  unfoldable pub authorize :
      Times
      → (scope : String) (rate_limit verified_email : Bool) → Bearer
      → Api
      → Api × Reply Claims
  unfolding limited
  authorize times scope rate_limit verified_email token api =
      limited times.limited_at rate_limit api.buckets
        (require_scope times.authorized_at token scope verified_email api.db)

-- The handler after the authorization, on the tables that it left.
unfoldable pub served :
    {A : Type 0}
    → (status_code : ℕ) → (Claims → Database → Database × Answer A)
    → Api × Reply Claims
    → Api × Reply A
served status_code handler (api, thrown e) = (api, thrown e)
served status_code handler (api, sent s claims) =
    let (db, answer) = handler claims api.db in
    (record api { db = db }, reply_of status_code answer)

-- `null` and absent services, and requests that the schema or the handler refuses.
unfoldable pub refusing : {A : Type 0} → Reply A → Api × Reply Claims → Api × Reply A
refusing reply (api, thrown e) = (api, thrown e)
refusing reply (api, sent s claims) = (api, reply)

abbrev unavailable : {A : Type 0} → Reply A
unavailable = refused (not_implemented "Instance lifecycle is unavailable")

module _ (maximum window : ℕ) (sha256 : HashedText → ℕ) (build_url : ℕ → String → String)
    (public_base_url : Option String) (available : Bool) where
  -- The body's challenge and the header's key.
  unfoldable pub post_instances :
      (instance_id operation_id : ℕ)
      → Times
      → (request_id : String) → Bearer
      → Option (ℕ × IdempotencyKey)
      → Api
      → Api × Reply MutationView
  post_instances instance_id operation_id times request_id token none api =
      refusing unparsed (authorize maximum window times "instances:write" true true token api)
  post_instances instance_id operation_id times request_id token (some (challenge_id, key)) api =
      let authorized = authorize maximum window times "instances:write" true true token api in
      if available
      then served 202
          (λ claims.
            create sha256 build_url public_base_url instance_id operation_id times.served_at
              (record {
                user_id = claims.subject;
                challenge_id = challenge_id;
                idempotency_key = key;
                correlation_id = some request_id;
              }))
          authorized
      else refusing unavailable authorized

  unfoldable pub get_instance : Times → Bearer → Option ℕ → Api → Api × Reply InstanceView
  get_instance times token none api =
      refusing unparsed (authorize maximum window times "instances:read" false false token api)
  get_instance times token (some instance_id) api =
      let authorized = authorize maximum window times "instances:read" false false token api in
      if available
      then served 200
          (λ claims db. (db, get sha256 build_url public_base_url claims.subject instance_id db))
          authorized
      else refusing unavailable authorized

  -- An action on the instance of the path, under the header's key, without a body.
  unfoldable pub act :
      (ℕ → InstanceRequest → Database → Database × Answer MutationView)
      → Times
      → (request_id : String) → Bearer
      → Option (ℕ × IdempotencyKey)
      → (has_body : Bool) → Api
      → Api × Reply MutationView
  act action times request_id token none has_body api =
      refusing unparsed (authorize maximum window times "instances:write" false false token api)
  act action times request_id token (some (instance_id, key)) has_body api =
      let authorized = authorize maximum window times "instances:write" false false token api in
      if has_body
      then refusing (refused (invalid_request "Request body must be empty")) authorized
      else if available
      then served 202
          (λ claims. action times.served_at (record {
            user_id = claims.subject;
            instance_id = instance_id;
            idempotency_key = key;
            correlation_id = some request_id;
          }))
          authorized
      else refusing unavailable authorized

  unfoldable pub post_extend :
      (operation_id : ℕ)
      → Times
      → (request_id : String) → Bearer
      → Option (ℕ × IdempotencyKey)
      → (has_body : Bool) → Api
      → Api × Reply MutationView
  unfolding act
  post_extend operation_id = act (extend_instance sha256 build_url public_base_url operation_id)

  unfoldable pub delete_instance :
      (operation_id : ℕ)
      → Times
      → (request_id : String) → Bearer
      → Option (ℕ × IdempotencyKey)
      → (has_body : Bool) → Api
      → Api × Reply MutationView
  unfolding act
  delete_instance operation_id =
      act (destroy_instance sha256 build_url public_base_url operation_id)

-- The body's challenge, instance and flag.
module _ (maximum window : ℕ) (derive : InstanceFlagContext → String) (trim : String → String)
    (available : Bool) where
  unfoldable pub post_submissions :
      (submission_id solve_id looked_up : ℕ)
      → Times
      → (request_id : String) → Bearer
      → Option (ℕ × ℕ × String)
      → Api
      → Api × Reply SubmitFlagResult
  post_submissions submission_id solve_id looked_up times request_id token none api =
      refusing unparsed (authorize maximum window times "submissions:write" true false token api)
  post_submissions submission_id solve_id looked_up times request_id token
        (some (challenge_id, instance_id, flag)) api =
      let authorized = authorize maximum window times "submissions:write" true false token api in
      if available
      then served 200
          (λ claims. submit derive trim submission_id solve_id looked_up times.served_at (record {
            user_id = claims.subject;
            challenge_id = challenge_id;
            instance_id = instance_id;
            flag = flag;
            correlation_id = some request_id;
          }))
          authorized
      else refusing (refused (not_implemented "Dynamic submissions require the instance lifecycle"))
          authorized
