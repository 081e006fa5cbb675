-- ===== src/Examples/Flags.antt =====
-- The flag of a running instance, submitted twice.
use cyber_lab_backend.Prelude.{
  ◌≡◌, ◌↔◌, ◌==◌, refl, true, false, none, some, String, [], ◌∷◌, if◌then◌else◌, select_one,
  exists_where,
}
use cyber_lab_backend.Schema.{Database, Challenge, Instance, InstanceStatus}
use cyber_lab_backend.Intents.{find_owned_running_instance}
use cyber_lab_backend.Scoring.{record_submission, published_with, solved_by}
use cyber_lab_backend.Submissions.{
  InstanceFlagContext, SubmitInput, SubmitFlagResult, context_of, verify, submit,
}
use cyber_lab_backend.Submissions.Policy.{
  WelcomeLabConfig, welcome_lab_public_flag, InstanceFlagService, create_submission_flag_policy,
  create_runtime_flag_deriver, dynamic_flags, deriver_with, welcome_flag,
  create_submission_flag_policy-mirrors,
}
use cyber_lab_backend.Submissions.Awards.{submit-answers, submit_again}
use cyber_lab_backend.Examples.{start}

abbrev pub derived : InstanceFlagContext → String
derived context = "CTF{flag}"

abbrev pub trimmed : String → String
trimmed text = text

abbrev running_row : Instance
running_row = record {
  id = 11;
  user_id = 7;
  challenge_id = 3;
  node_id = some 5;
  status = InstanceStatus.running;
  route_key = some 70;
  container_id = some 80;
  network_id = some 81;
  failure_code = none;
  created_at = 1000;
  updated_at = 2000;
  started_at = some 2000;
  expires_at = 3601000;
  absolute_expires_at = 7201000;
  stopped_at = none;
}

abbrev pub playing : Database
playing = record start { instances = running_row ∷ [] }

abbrev answer : SubmitInput
answer = record {
  user_id = 7;
  challenge_id = 3;
  instance_id = 11;
  flag = "CTF{flag}";
  correlation_id = none;
}

abbrev pub won : SubmitFlagResult
won = record { correct = true; points = 50 }

abbrev repeated : SubmitFlagResult
repeated = record { correct = true; points = 0 }

solved : Database
unfolding submit record_submission find_owned_running_instance
solved = (submit derived trimmed 31 41 5000 5001 answer playing).0

solved_again : Database
unfolding solved submit record_submission find_owned_running_instance
solved_again = (submit derived trimmed 32 42 6000 6001 answer solved).0

submit-answers_example :
    (c : Challenge) × (select_one (published_with 3) playing.challenges ≡ some c)
    × (find_owned_running_instance playing 7 11 5000 ≡ some 3)
    × (true ≡ verify derived trimmed (context_of answer) "CTF{flag}")
    × (50
        ≡ (if exists_where (solved_by 7 3) playing.solves then 0 else if true then c.points else 0))
    × (solved.instances ≡ playing.instances)
unfolding solved submit record_submission find_owned_running_instance
submit-answers_example =
    submit-answers derived trimmed 31 41 5000 5001 answer playing solved won refl

submit_again_example : repeated.points ≡ 0
unfolding solved solved_again submit record_submission find_owned_running_instance
submit_again_example =
    submit_again derived trimmed 31 41 5000 5001 answer playing solved won 32 42 6000 6001 answer
      solved solved_again repeated refl refl (λ h. h) refl refl refl

-- The welcome challenge is the fourth, and its test policy is enabled.
abbrev welcome : WelcomeLabConfig
welcome = record { test_enabled = true; flag = some welcome_lab_public_flag }

abbrev injected : InstanceFlagContext → String
injected context = if context.challenge_id == 4 then welcome_lab_public_flag else derived context

abbrev policy : InstanceFlagService
policy = record { derive = injected; verifies = verify injected trimmed }

create_submission_flag_policy-mirrors_example :
    (inject : InstanceFlagContext → String) × (create_runtime_flag_deriver 4 derived 32 welcome
      ≡ some inject)
    × ((context : InstanceFlagContext) (submitted : String)
        → (policy.verifies context submitted ≡ true) ↔ (trimmed submitted ≡ inject context))
    × ((context : InstanceFlagContext)
        → (context.challenge_id == 4) ≡ false
        → inject context ≡ derived context)
unfolding create_submission_flag_policy create_runtime_flag_deriver dynamic_flags deriver_with
    welcome_flag
create_submission_flag_policy-mirrors_example =
    create_submission_flag_policy-mirrors 4 derived trimmed 32 welcome policy refl
