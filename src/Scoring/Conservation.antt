-- ===== src/Scoring/Conservation.antt =====
-- Points are awarded once for a player and a challenge, and the two tables agree on them.
use cyber_lab_backend.Prelude.{
  ℕ, ◌+◌, ◌≤◌, ◌≡◌, refl, Bool, true, false, ◌&&◌, ◌==◌, if◌then◌else◌, List, [], ◌∷◌, select_one,
  update_where, exists_where, count_where, arith, Option-cases, Bool-cases, inl, inr, count_eq_zero,
  ==_refl, ==_iff, and-elim,
}
use cyber_lab_backend.Schema.{Database, Challenge, Submission, Solve}
use cyber_lab_backend.Scoring.{
  SubmissionInput, record_submission, score, first_solve, published_with, has_submission_id,
  solved_by,
}

abbrev pub submitted_by : (user_id challenge_id : ℕ) → Submission → Bool
submitted_by user_id challenge_id s = (s.user_id == user_id) && (s.challenge_id == challenge_id)

-- What the submissions of a player for a challenge were awarded.
abbrev pub awarded : (user_id challenge_id : ℕ) → List Submission → ℕ
awarded u c [] = 0
awarded u c (s ∷ submissions) =
    (if submitted_by u c s then s.points_awarded else 0) + awarded u c submissions

-- What the player's solves of the challenge are worth.
abbrev pub solved_points : (user_id challenge_id : ℕ) → List Solve → ℕ
solved_points u c [] = 0
solved_points u c (s ∷ solves) =
    (if solved_by u c s then s.points else 0) + solved_points u c solves

-- One solve for a player and a challenge at most (`solves_user_challenge_unique`), and the points
-- of the submissions are the points of the solves.
pub record IsFair (db : Database) : Type 0 where
  pub one_solve : (u c : ℕ) → count_where (solved_by u c) db.solves ≤ 1
  pub agree : (u c : ℕ) → awarded u c db.submissions ≡ solved_points u c db.solves

update_none :
    (q : Submission → Bool) (f : Submission → Submission) (rows : List Submission)
    → exists_where q rows ≡ false
    → update_where q f rows ≡ rows
update_none q f [] h = refl
update_none q f (s ∷ rows) h = ground (arith, update_none q f rows)

unsolved_count :
    (input : SubmissionInput) (solves : List Solve) (u c : ℕ)
    → first_solve input solves ≡ true
    → ((input.user_id == u) && (input.challenge_id == c)) ≡ true
    → count_where (solved_by u c) solves ≡ 0
unsolved_count input solves u c first same =
    let (user, challenge) = and-elim (input.user_id == u) (input.challenge_id == c) same in
    rw (← (==_iff input.user_id u).0 user, ← (==_iff input.challenge_id c).0 challenge)
      (count_eq_zero (solved_by input.user_id input.challenge_id) solves (ground (arith, first)))

module _ (submission_id solve_id : ℕ) (input : SubmissionInput) (challenge : Challenge)
    (db : Database) (fair : IsFair db)
    (fresh : exists_where (has_submission_id submission_id) db.submissions ≡ false) where
  score-IsFair : IsFair (score submission_id solve_id input challenge db).0
  unfolding score
  score-IsFair = elim (Bool-cases (first_solve input db.solves)) [
    | inr again ↦ rw again (record {
      one_solve = fair.one_solve;
      agree = λ u c. let before = fair.agree u c in ground (arith, before);
    })
    | inl first ↦ rw first (record {
      one_solve = λ u c.
          let before = fair.one_solve u c in
          ground (arith, before, unsolved_count input db.solves u c first);
      agree = λ u c.
          let before = fair.agree u c in
          rw
            (
              ==_refl submission_id,
              update_none (has_submission_id submission_id)
                  (λ s. record s { points_awarded = challenge.points }) db.submissions fresh,
            )
            (ground (arith, before));
    })
  ]

-- A recorded submission under a new id keeps that each player has at most one solve of a challenge,
-- and that for every player and challenge the points of the submissions sum up to the points of the
-- solves.
pub record_submission-IsFair :
    (submission_id solve_id : ℕ) (input : SubmissionInput) (db : Database)
    → IsFair db
    → exists_where (has_submission_id submission_id) db.submissions ≡ false
    → IsFair (record_submission submission_id solve_id input db).0
unfolding record_submission
record_submission-IsFair submission_id solve_id input db fair fresh =
    elim (Option-cases (select_one (published_with input.challenge_id) db.challenges)) [
      | inl missing ↦ rw (missing, record_submission) fair
      | inr (challenge, found) ↦
          rw (found, record_submission)
            (score-IsFair submission_id solve_id input challenge db fair fresh)
    ]
