-- ===== src/Submissions/Awards.antt =====
-- What a submission is awarded.
use cyber_lab_backend.Prelude.{
  ℕ, ◌≡◌, ◌∙◌, refl, true, ◌==◌, if◌then◌else◌, some, String, select_one, exists_where, arith,
  Option-cases, Bool-cases, inl, inr, ==_iff,
}
use cyber_lab_backend.Schema.{Database, Challenge}
use cyber_lab_backend.Errors.{answers}
use cyber_lab_backend.Intents.{find_owned_running_instance}
use cyber_lab_backend.Scoring.{ScoringResult, record_submission, published_with, solved_by}
use cyber_lab_backend.Scoring.Awards.{record_submission-IsAwarded}
use cyber_lab_backend.Submissions.{
  InstanceFlagContext, SubmitInput, SubmitFlagResult, context_of, verify, scored, submit,
}

module _ (derive : InstanceFlagContext → String) (trim : String → String) where
  -- An answer comes from the scoring transaction, for a running instance of the challenge.
  submit-recorded :
      (submission_id solve_id looked_up now : ℕ) (input : SubmitInput) (db next : Database)
      (r : SubmitFlagResult)
      → submit derive trim submission_id solve_id looked_up now input db ≡ (next, answers r)
      → (result : ScoringResult) × (record_submission submission_id solve_id
            (scored derive trim now input)
            db
          ≡ (next, some result))
        × (find_owned_running_instance db input.user_id input.instance_id looked_up
            ≡ some input.challenge_id)
        × (r.correct ≡ result.correct)
        × (r.points ≡ result.points_awarded)
  unfolding submit
  submit-recorded submission_id solve_id looked_up now input db next r e =
      elim (Option-cases
        (find_owned_running_instance db input.user_id input.instance_id looked_up)) [
          | inl missing ↦ absurd (ground (arith, missing))
          | inr (c, running) ↦ elim (Bool-cases (c == input.challenge_id)) [
            | inr other ↦ absurd (ground (arith, running, other))
            | inl same ↦
                let own = (==_iff c input.challenge_id).0 same in
                let outcome =
                  record_submission submission_id solve_id (scored derive trim now input) db in
                elim (Option-cases outcome.1) [
                  | inl unpublished ↦ absurd (ground (arith, running, same, unpublished))
                  | inr (result, recorded) ↦ (
                    result,
                    ground (arith, running, same, recorded),
                    rw (← own) running,
                    ground (arith, running, same, recorded),
                    ground (arith, running, same, recorded),
                  )
                ]
          ]
        ]

  -- An answered submission names an instance that runs, has not run out, belongs to the player and
  -- is of the challenge, which is published; it is correct as the flag of that instance says, and
  -- is awarded the challenge's points if it is correct and the player had not solved the challenge,
  -- and nothing otherwise; the instances are left alone.
  pub submit-answers :
      (submission_id solve_id looked_up now : ℕ) (input : SubmitInput) (db next : Database)
      (r : SubmitFlagResult)
      → submit derive trim submission_id solve_id looked_up now input db ≡ (next, answers r)
      → (challenge : Challenge) × (select_one (published_with input.challenge_id) db.challenges
          ≡ some challenge)
        × (find_owned_running_instance db input.user_id input.instance_id looked_up
            ≡ some input.challenge_id)
        × (r.correct ≡ verify derive trim (context_of input) input.flag)
        × (r.points ≡ (
            if exists_where (solved_by input.user_id input.challenge_id) db.solves
            then 0
            else if r.correct
            then challenge.points
            else 0))
        × (next.instances ≡ db.instances)
  submit-answers submission_id solve_id looked_up now input db next r e =
      let (result, recorded, running, correct, points) =
        submit-recorded submission_id solve_id looked_up now input db next r e in
      let awarded =
        record_submission-IsAwarded submission_id solve_id (scored derive trim now input) db next
          result recorded in
      (
        awarded.challenge,
        awarded.published,
        running,
        correct ∙ awarded.correct,
        rw (correct ∙ awarded.correct) (points ∙ awarded.points),
        awarded.instances,
      )

  -- Once a player has submitted the right flag of an instance of a challenge, an answered
  -- submission of the player for the challenge, of any instance, is awarded nothing in tables that
  -- have kept the player's solve of the challenge.
  pub submit_again :
      (submission_id solve_id looked_up now : ℕ) (input : SubmitInput) (db next : Database)
      (r : SubmitFlagResult) (later_submission later_solve later_looked_up later_now : ℕ)
      (again : SubmitInput) (mid last : Database) (s : SubmitFlagResult)
      → submit derive trim submission_id solve_id looked_up now input db ≡ (next, answers r)
      → r.correct ≡ true
      → (exists_where (solved_by input.user_id input.challenge_id) next.solves ≡ true
          → exists_where (solved_by input.user_id input.challenge_id) mid.solves ≡ true)
      → again.user_id ≡ input.user_id
      → again.challenge_id ≡ input.challenge_id
      → submit derive trim later_submission later_solve later_looked_up later_now again mid
        ≡ (last, answers s)
      → s.points ≡ 0
  submit_again submission_id solve_id looked_up now input db next r later_submission later_solve
        later_looked_up later_now again mid last s e right kept user challenge e' =
      let (result, recorded, _, correct, _) =
        submit-recorded submission_id solve_id looked_up now input db next r e in
      let first =
        record_submission-IsAwarded submission_id solve_id (scored derive trim now input) db next
          result recorded in
      let there = kept (first.solved (ground (arith, first.correct, correct, right))) in
      let (_, _, _, _, points, _) =
        submit-answers later_submission later_solve later_looked_up later_now again mid last s e' in
      points ∙ rw (user, challenge, there) refl
