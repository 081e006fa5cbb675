-- ===== src/Scoring.antt =====
-- src/db/scoring-repository.ts: one transaction, from the tables to the next ones. The ids that the
-- database makes up are arguments.
pub mod Conservation
pub mod Awards
use cyber_lab_backend.Prelude.{
  ℕ, ◌+◌, Bool, true, false, ◌&&◌, ◌==◌, if◌then◌else◌, Option, none, some, String, List, [], ◌∷◌,
  select_one, update_where, exists_where,
}
use cyber_lab_backend.Schema.{Database, Challenge, Submission, Solve, AuditEvent, of_submission}

pub record SubmissionInput : Type 0 where
  pub user_id : ℕ
  pub challenge_id : ℕ
  pub instance_id : ℕ
  pub correct : Bool
  pub correlation_id : Option String
  pub now : ℕ

pub record ScoringResult : Type 0 where
  pub submission_id : ℕ
  pub correct : Bool
  pub points_awarded : ℕ
  pub first_solve : Bool

abbrev pub published_with : ℕ → Challenge → Bool
published_with id c = (c.id == id) && c.published

abbrev pub has_submission_id : ℕ → Submission → Bool
has_submission_id id s = s.id == id

abbrev pub solved_by : (user_id challenge_id : ℕ) → Solve → Bool
solved_by user_id challenge_id s = (s.user_id == user_id) && (s.challenge_id == challenge_id)

abbrev new_submission : ℕ → SubmissionInput → Submission
new_submission id input = record {
  id = id;
  user_id = input.user_id;
  challenge_id = input.challenge_id;
  instance_id = input.instance_id;
  correct = input.correct;
  points_awarded = 0;
  created_at = input.now;
}

abbrev new_solve : (id submission_id points : ℕ) → SubmissionInput → Solve
new_solve id submission_id points input = record {
  id = id;
  user_id = input.user_id;
  challenge_id = input.challenge_id;
  first_submission_id = submission_id;
  points = points;
  solved_at = input.now;
}

-- Whether the insert `on conflict do nothing` into `solves` adds a row.
abbrev pub first_solve : SubmissionInput → List Solve → Bool
first_solve input solves =
    if exists_where (solved_by input.user_id input.challenge_id) solves
    then false
    else input.correct

abbrev scoring_event : (points : ℕ) → Bool → SubmissionInput → AuditEvent
scoring_event points first input = record {
  actor_user_id = some input.user_id;
  target_user_id = none;
  event_type = if input.correct then "submission.correct" else "submission.incorrect";
  correlation_id = input.correlation_id;
  details = of_submission input.challenge_id input.instance_id first points;
  created_at = some input.now;
}

-- The rows of a first solve, and of any other submission.
score :
    (submission_id solve_id : ℕ) → SubmissionInput → Challenge → Database → Database × ScoringResult
score submission_id solve_id input challenge db =
    let submissions = new_submission submission_id input ∷ db.submissions in
    if first_solve input db.solves
    then (
      record db {
        submissions =
            update_where (has_submission_id submission_id)
              (λ s. record s { points_awarded = challenge.points }) submissions;
        solves = new_solve solve_id submission_id challenge.points input ∷ db.solves;
        audit_events = scoring_event challenge.points true input ∷ db.audit_events;
      },
      record {
        submission_id = submission_id;
        correct = input.correct;
        points_awarded = challenge.points;
        first_solve = true;
      },
    )
    else (
      record db {
        submissions = submissions;
        audit_events = scoring_event 0 false input ∷ db.audit_events;
      },
      record {
        submission_id = submission_id;
        correct = input.correct;
        points_awarded = 0;
        first_solve = false;
      },
    )

unfoldable pub record_submission :
    (submission_id solve_id : ℕ) → SubmissionInput → Database → Database × Option ScoringResult
unfolding score
record_submission submission_id solve_id input db =
    elim (select_one (published_with input.challenge_id) db.challenges) [
      | none ↦ (db, none)
      | some challenge ↦
          let (next, result) = score submission_id solve_id input challenge db in
          (next, some result)
    ]
