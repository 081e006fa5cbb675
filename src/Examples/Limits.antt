-- ===== src/Examples/Limits.antt =====
-- Scoring and the limiter on the small database.
use cyber_lab_backend.Prelude.{◌≡◌, refl, true, none, [], ◌∷◌, arith}
use cyber_lab_backend.Scoring.{SubmissionInput, record_submission}
use cyber_lab_backend.Scoring.Conservation.{IsFair, record_submission-IsFair}
use cyber_lab_backend.RateLimiter.{RateBucket, Buckets, set_bucket}
use cyber_lab_backend.RateLimiter.Windows.{let_through, let_through-window}
use cyber_lab_backend.Examples.{start}

abbrev right_answer : SubmissionInput
right_answer = record {
  user_id = 7;
  challenge_id = 3;
  instance_id = 11;
  correct = true;
  correlation_id = none;
  now = 5000;
}

start-IsFair : IsFair start
start-IsFair = record { one_solve = λ u c. omega arith; agree = λ u c. refl }

-- A first solve.
record_submission-IsFair_example : IsFair (record_submission 31 41 right_answer start).0
record_submission-IsFair_example =
    record_submission-IsFair 31 41 right_answer start start-IsFair refl

abbrev bucket : RateBucket
bucket = record { started_at = 100; count = 2 }

abbrev buckets : Buckets
buckets = set_bucket 7 bucket (λ _. none)

-- Of three calls within the window, two are let through under a maximum of four.
let_through-window_example : let_through 4 1000 7 (101 ∷ 500 ∷ 900 ∷ []) buckets ≡ 2
let_through-window_example =
    let_through-window 4 1000 7 (101 ∷ 500 ∷ 900 ∷ []) buckets bucket refl (omega arith)
      (omega arith) (omega arith, (omega arith, (omega arith, tt)))
