-- ===== src/Errors/Handler.antt =====
-- src/plugins/error-handler.ts: the one place where an error becomes an answer of the API.
use cyber_lab_backend.Prelude.{
  ℕ, ◌≤◌, ◌<◌, ◌≡◌, ◌⊎◌, inl, inr, refl, ap, Bool, true, false, not, ◌&&◌, ◌==◌, leb, ltb,
  if◌then◌else◌, or_else, Option, String, arith, Bool-cases,
}
use cyber_lab_backend.Errors.{
  ErrorCode, code_not_found, code_invalid_request, code_rate_limited, code_internal_error, AppError,
}

-- What a handler may throw: an error of the application, or another one, with whether the framework's
-- validation has raised it, and the status that it carries.
pub data Thrown : Type 0 where
  of_app : AppError → Thrown
  of_other : (validation : Bool) (status_code : Option ℕ) (message : String) → Thrown

pub record ErrorBody : Type 0 where
  pub code : ErrorCode
  pub message : String
  pub correlation_id : String

pub record Classified : Type 0 where
  pub status_code : ℕ
  pub code : ErrorCode
  pub message : String
  pub expected : Bool

-- By the status alone.
pub classify_status : ℕ → Classified
classify_status status_code =
    if status_code == 429
    then record {
      status_code = status_code;
      code = code_rate_limited;
      message = "Too many requests";
      expected = true;
    }
    else if leb 400 status_code && ltb status_code 500
    then record {
      status_code = status_code;
      code = code_invalid_request;
      message = "Request could not be processed";
      expected = true;
    }
    else record {
      status_code = 500;
      code = code_internal_error;
      message = "Internal server error";
      expected = false;
    }

pub classify : Thrown → Classified
unfolding classify_status
classify (of_app e) = record {
  status_code = e.status_code;
  code = e.code;
  message = e.message;
  expected = true;
}
classify (of_other true status_code message) = record {
  status_code = 400;
  code = code_invalid_request;
  message = "Request validation failed";
  expected = true;
}
classify (of_other false status_code message) = classify_status (or_else status_code 500)

pub record Response : Type 0 where
  pub status_code : ℕ
  pub body : ErrorBody
  pub logged_as_error : Bool

-- The error handler: the reply, and which of the two levels logs it.
pub handle_error : Thrown → (request_id : String) → Response
unfolding classify
handle_error e request_id =
    let c = classify e in
    record {
      status_code = c.status_code;
      body = record { code = c.code; message = c.message; correlation_id = request_id };
      logged_as_error = not c.expected;
    }

abbrev pub not_found_response : (request_id : String) → Response
not_found_response request_id = record {
  status_code = 404;
  body = record { code = code_not_found; message = "Route not found"; correlation_id = request_id };
  logged_as_error = false;
}

-- A refusal with a status of the client's, or the one answer to a defect.
abbrev pub IsClosed : Response → Type 0
IsClosed r =
    ((400 ≤ r.status_code) × (r.status_code < 500) × (r.logged_as_error ≡ false))
    ⊎ ((r.status_code ≡ 500)
        × (r.body.code ≡ code_internal_error)
        × (r.body.message ≡ "Internal server error")
        × (r.logged_as_error ≡ true))

classify_status-cases :
    (s : ℕ)
    → ((400 ≤ (classify_status s).status_code)
        × ((classify_status s).status_code < 500)
        × ((classify_status s).expected ≡ true))
      ⊎ (classify_status s ≡ record {
        status_code = 500;
        code = code_internal_error;
        message = "Internal server error";
        expected = false;
      })
unfolding classify_status
classify_status-cases s = elim (Bool-cases (s == 429)) [
  | inl limited ↦ inl (ground (arith, limited), ground (arith, limited), ground (arith, limited))
  | inr other ↦ elim (Bool-cases (leb 400 s && ltb s 500)) [
    | inl client ↦ inl (
      ground (arith, other, client),
      ground (arith, other, client),
      ground (arith, other, client),
    )
    | inr server ↦ inr (rw (other, server) refl)
  ]
]

-- An error that is not the application's own is answered either with a status from 400 to 499 and
-- logged as a rejection, or with the status 500, the code of an internal error and a fixed message
-- and logged as an error; and the answer does not depend on the error's message.
pub handle_error-IsClosed :
    (validation : Bool) (status_code : Option ℕ) (message message' request_id : String)
    → IsClosed (handle_error (of_other validation status_code message) request_id)
      × (handle_error (of_other validation status_code message) request_id
          ≡ handle_error (of_other validation status_code message') request_id)
unfolding handle_error classify
handle_error-IsClosed true status_code message message' request_id =
    (inl (omega arith, omega arith, refl), refl)
handle_error-IsClosed false status_code message message' request_id = (
  elim (classify_status-cases (or_else status_code 500)) [
    | inl (low, high, expected) ↦ inl (low, high, ground (arith, expected))
    | inr same ↦ inr (
      ap (λ c. c.status_code) same,
      ap (λ c. c.code) same,
      ap (λ c. c.message) same,
      ap (λ c. not c.expected) same,
    )
  ],
  refl,
)
