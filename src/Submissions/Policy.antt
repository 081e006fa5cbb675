-- ===== src/Submissions/Policy.antt =====
-- src/services/runtime-flags.ts, with the derivation of src/services/instance-flags.ts: the flag that
-- the worker puts into a container, and the one that the API accepts. `hmac` is the digest under the
-- secret, as the text of a flag; the secret is given by its length in bytes.
use cyber_lab_backend.Prelude.{
  ℕ, ◌≡◌, ◌↔◌, refl, ap, sym, ◌∙◌, Bool, true, false, not, ◌&&◌, ◌==◌, ltb, if◌then◌else◌, and_then,
  and_then-some, Option, none, some, String, arith,
}
use cyber_lab_backend.Submissions.{InstanceFlagContext, verify}
use text.Mathlib.Text.{◌==◌ as text_eq}
use text.Mathlib.TextEquality.{eq_iff}

pub record WelcomeLabConfig : Type 0 where
  pub test_enabled : Bool
  pub flag : Option String

abbrev pub welcome_lab_public_flag : String
welcome_lab_public_flag = "FLAG{WELCOME_TO_CISCO_FAMILY}"

pub record InstanceFlagService : Type 0 where
  pub derive : InstanceFlagContext → String
  pub verifies : InstanceFlagContext → String → Bool

-- The id of the welcome challenge is a parameter.
module _ (welcome_challenge_id : ℕ) (hmac : InstanceFlagContext → String) where
  -- The constructor of `HmacInstanceFlagService`, and its `derive`.
  unfoldable pub dynamic_flags : (secret_bytes : ℕ) → Option (InstanceFlagContext → String)
  dynamic_flags secret_bytes = if ltb secret_bytes 32 then none else some hmac

  -- The welcome flag while its test policy is enabled; `none` in it stands for `undefined`.
  unfoldable pub welcome_flag : WelcomeLabConfig → Option String
  welcome_flag welcome = if welcome.test_enabled then welcome.flag else none

  abbrev is_public : Option String → Bool
  is_public none = false
  is_public (some flag) = text_eq flag welcome_lab_public_flag

  abbrev shared_or : Option String → (InstanceFlagContext → String) → InstanceFlagContext → String
  shared_or none dynamic context = dynamic context
  shared_or (some flag) dynamic context =
      if context.challenge_id == welcome_challenge_id then flag else dynamic context

  -- What is derived, once the HMAC service is there.
  unfoldable pub deriver_with :
      WelcomeLabConfig → (InstanceFlagContext → String) → Option (InstanceFlagContext → String)
  unfolding welcome_flag
  deriver_with welcome dynamic =
      if welcome.test_enabled && not (is_public (welcome_flag welcome))
      then none
      else some (shared_or (welcome_flag welcome) dynamic)

  unfoldable pub create_runtime_flag_deriver :
      (secret_bytes : ℕ) → WelcomeLabConfig → Option (InstanceFlagContext → String)
  unfolding dynamic_flags deriver_with
  create_runtime_flag_deriver secret_bytes welcome =
      and_then (dynamic_flags secret_bytes) (deriver_with welcome)

  abbrev policy_of :
      (trim : String → String) → (InstanceFlagContext → String) → Option InstanceFlagService
  policy_of trim runtime = some (record { derive = runtime; verifies = verify runtime trim })

  unfoldable pub create_submission_flag_policy :
      (trim : String → String) (secret_bytes : ℕ) → WelcomeLabConfig → Option InstanceFlagService
  unfolding create_runtime_flag_deriver
  create_submission_flag_policy trim secret_bytes welcome =
      and_then (create_runtime_flag_deriver secret_bytes welcome) (policy_of trim)

  shared_or-other :
      (o : Option String) (dynamic : InstanceFlagContext → String) (context : InstanceFlagContext)
      → (context.challenge_id == welcome_challenge_id) ≡ false
      → shared_or o dynamic context ≡ dynamic context
  shared_or-other none dynamic context other = refl
  shared_or-other (some flag) dynamic context other = rw other refl

  deriver-hmac :
      (secret_bytes : ℕ) (welcome : WelcomeLabConfig) (inject : InstanceFlagContext → String)
      → create_runtime_flag_deriver secret_bytes welcome ≡ some inject
      → (context : InstanceFlagContext) → (context.challenge_id == welcome_challenge_id) ≡ false
      → inject context ≡ hmac context
  unfolding create_runtime_flag_deriver dynamic_flags deriver_with
  deriver-hmac secret_bytes welcome inject e context other =
      let (dynamic, keyed, rest) =
        and_then-some (dynamic_flags secret_bytes) (deriver_with welcome) inject e in
      let same : hmac ≡ dynamic = ground (arith, keyed) in
      let made : shared_or (welcome_flag welcome) dynamic ≡ inject = ground (arith, rest) in
      ap (λ f. f context) (sym made)
      ∙ (shared_or-other (welcome_flag welcome) dynamic context other
          ∙ ap (λ f. f context) (sym same))

  -- Where the API's flag policy can be constructed, the worker's deriver can be from the same
  -- secret and configuration, the policy accepts exactly the texts that without surrounding white
  -- space are the flag that the deriver injects, and for every other challenge than the welcome
  -- challenge that flag is the instance's HMAC.
  pub create_submission_flag_policy-mirrors :
      (trim : String → String) (secret_bytes : ℕ) (welcome : WelcomeLabConfig)
      (policy : InstanceFlagService)
      → create_submission_flag_policy trim secret_bytes welcome ≡ some policy
      → (inject : InstanceFlagContext → String) × (create_runtime_flag_deriver secret_bytes welcome
          ≡ some inject)
        × ((context : InstanceFlagContext) (submitted : String)
            → (policy.verifies context submitted ≡ true) ↔ (trim submitted ≡ inject context))
        × ((context : InstanceFlagContext)
            → (context.challenge_id == welcome_challenge_id) ≡ false
            → inject context ≡ hmac context)
  unfolding create_submission_flag_policy
  create_submission_flag_policy-mirrors trim secret_bytes welcome policy e =
      let (inject, made, rest) =
        and_then-some (create_runtime_flag_deriver secret_bytes welcome) (policy_of trim) policy
          e in
      let same : record { derive = inject; verifies = verify inject trim } ≡ policy =
        ground (arith, rest) in
      (
        inject,
        made,
        λ context submitted. rw (← same) (eq_iff (trim submitted) (inject context)),
        deriver-hmac secret_bytes welcome inject made,
      )
