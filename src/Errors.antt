-- ===== src/Errors.antt =====
-- src/lib/errors.ts: the errors whose message and status a client may see, and the answer of a
-- service, which returns, throws such an error, or throws another one (answered by a generic 500).
pub mod Handler
use cyber_lab_backend.Prelude.{ℕ, String}

pub data ErrorCode : Type 0 where
  code_unauthorized code_forbidden code_not_found code_conflict : ErrorCode
  code_invalid_request code_rate_limited code_not_implemented code_internal_error : ErrorCode

pub record AppError : Type 0 where
  pub code : ErrorCode
  pub status_code : ℕ
  pub message : String

abbrev pub unauthorized : String → AppError
unauthorized m = record { code = code_unauthorized; status_code = 401; message = m }

abbrev pub forbidden : String → AppError
forbidden m = record { code = code_forbidden; status_code = 403; message = m }

abbrev pub not_found : String → AppError
not_found m = record { code = code_not_found; status_code = 404; message = m }

abbrev pub conflict : String → AppError
conflict m = record { code = code_conflict; status_code = 409; message = m }

abbrev pub invalid_request : String → AppError
invalid_request m = record { code = code_invalid_request; status_code = 400; message = m }

abbrev pub rate_limited : String → AppError
rate_limited m = record { code = code_rate_limited; status_code = 429; message = m }

abbrev pub not_implemented : String → AppError
not_implemented m = record { code = code_not_implemented; status_code = 501; message = m }

pub data Answer (A : Type 0) : Type 0 where
  answers : A → Answer A
  rejects : AppError → Answer A
  crashes : Answer A
