-- ===== src/Scoring/Awards.antt =====
-- What a recorded submission is awarded.
use cyber_lab_backend.Prelude.{
  ℕ, ◌≡◌, true, if◌then◌else◌, some, select_one, exists_where, arith, Option-cases, Bool-cases, inl,
  inr, ==_refl,
}
use cyber_lab_backend.Schema.{Database, Challenge}
use cyber_lab_backend.Scoring.{
  SubmissionInput, ScoringResult, record_submission, score, published_with, solved_by, first_solve,
}

-- The result, and what is in the tables afterwards.
pub record IsAwarded (input : SubmissionInput) (db next : Database) (result : ScoringResult)
    : Type 0 where
  pub challenge : Challenge
  pub published : select_one (published_with input.challenge_id) db.challenges ≡ some challenge
  pub correct : result.correct ≡ input.correct
  pub points : result.points_awarded ≡ (
      if exists_where (solved_by input.user_id input.challenge_id) db.solves
      then 0
      else if input.correct
      then challenge.points
      else 0)
  pub instances : next.instances ≡ db.instances
  pub solved :
      input.correct ≡ true
      → exists_where (solved_by input.user_id input.challenge_id) next.solves ≡ true

pub record_submission-IsAwarded :
    (submission_id solve_id : ℕ) (input : SubmissionInput) (db next : Database)
    (result : ScoringResult)
    → record_submission submission_id solve_id input db ≡ (next, some result)
    → IsAwarded input db next result
unfolding record_submission score
record_submission-IsAwarded submission_id solve_id input db next result e =
    elim (Option-cases (select_one (published_with input.challenge_id) db.challenges)) [
      | inl unpublished ↦ absurd (ground (arith, unpublished))
      | inr (c, found) ↦ elim (Bool-cases (first_solve input db.solves)) [
        | inl first ↦ record {
          challenge = c;
          published = found;
          correct = ground (arith, found, first);
          points = ground (arith, found, first);
          instances = ground (arith, found, first);
          solved =
              λ h. ground (arith, found, first, ==_refl input.user_id, ==_refl input.challenge_id);
        }
        | inr again ↦ record {
          challenge = c;
          published = found;
          correct = ground (arith, found, again);
          points = ground (arith, found, again);
          instances = ground (arith, found, again);
          solved = λ h. ground (arith, found, again, h);
        }
      ]
    ]
