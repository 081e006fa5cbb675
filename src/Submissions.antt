-- ===== src/Submissions.antt =====
-- src/services/submissions.ts and the check of src/services/instance-flags.ts. The derivation of a
-- flag (an HMAC) and `trim` are parameters; a player's instance is found as
-- `InstanceLifecycleService.findOwnedInstance` finds it. The two readings of the clock are arguments.
pub mod Awards
pub mod Policy
use cyber_lab_backend.Prelude.{
  ℕ, Bool, true, false, ◌==◌, if◌then◌else◌, Option, none, some, String,
}
use cyber_lab_backend.Schema.{Database}
use cyber_lab_backend.Errors.{Answer, answers, rejects, not_found}
use cyber_lab_backend.Intents.{find_owned_running_instance}
use cyber_lab_backend.Scoring.{SubmissionInput, ScoringResult, record_submission}
use text.Mathlib.Text.{◌==◌ as text_eq}

pub record InstanceFlagContext : Type 0 where
  pub user_id : ℕ
  pub challenge_id : ℕ
  pub instance_id : ℕ

pub record SubmitInput : Type 0 where
  pub user_id : ℕ
  pub challenge_id : ℕ
  pub instance_id : ℕ
  pub flag : String
  pub correlation_id : Option String

-- `recorded` and `source` are constants of the answer.
pub record SubmitFlagResult : Type 0 where
  pub correct : Bool
  pub points : ℕ

-- `input.correlationId ? { correlationId } : {}`
abbrev truthy : Option String → Option String
truthy none = none
truthy (some id) = if text_eq id "" then none else some id

-- `!instance || instance.challengeId !== challengeId`, negated.
abbrev resolves : ℕ → Option ℕ → Bool
resolves challenge_id none = false
resolves challenge_id (some found) = found == challenge_id

abbrev pub context_of : SubmitInput → InstanceFlagContext
context_of input = record {
  user_id = input.user_id;
  challenge_id = input.challenge_id;
  instance_id = input.instance_id;
}

module _ (derive : InstanceFlagContext → String) (trim : String → String) where
  -- Buffers of one length that are equal are equal texts.
  abbrev pub flag_matches : (submitted expected : String) → Bool
  flag_matches submitted expected = text_eq (trim submitted) expected

  abbrev pub verify : InstanceFlagContext → String → Bool
  verify context submitted = flag_matches submitted (derive context)

  abbrev pub scored : (now : ℕ) → SubmitInput → SubmissionInput
  scored now input = record {
    user_id = input.user_id;
    challenge_id = input.challenge_id;
    instance_id = input.instance_id;
    correct = verify (context_of input) input.flag;
    correlation_id = truthy input.correlation_id;
    now = now;
  }

  abbrev answered : Database × Option ScoringResult → Database × Answer SubmitFlagResult
  answered (db, none) = (db, rejects (not_found "Challenge not found"))
  answered (db, some result) =
      (db, answers (record { correct = result.correct; points = result.points_awarded }))

  unfoldable pub submit :
      (submission_id solve_id looked_up now : ℕ)
      → SubmitInput
      → Database
      → Database × Answer SubmitFlagResult
  submit submission_id solve_id looked_up now input db =
      if resolves input.challenge_id
        (find_owned_running_instance db input.user_id input.instance_id looked_up)
      then answered (record_submission submission_id solve_id (scored now input) db)
      else (db, rejects (not_found "Challenge instance not found"))
