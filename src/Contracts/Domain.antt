-- ===== src/Contracts/Domain.antt =====
-- src/gsrr_slice01/contracts.py: what a run is given (definition, grant, policy) and the instruction that it dispatches.
use gsrr_agent_harness.Prelude.{ℕ, ℕ_discrete, String, String-discrete, Bool, Option, List}
use gsrr_agent_harness.Contracts.Values.{Scalar, Scalar-discrete, Sequence, Sequence-discrete}

pub record Definition : Type 0 where
  pub definition_id : String
  pub definition_version : ℕ
  pub object_id : String
  pub source_state : String
  pub target_state : String
  pub capability_id : String
  pub implementation_id : String
  pub required_effects : List String
  pub forbidden_effects : List String
  pub postconditions : List String
  pub evidence_rules : List String
  pub constraints : List String

unfoldable pub Definition-discrete : Discrete Definition
unfolding ℕ_discrete String-discrete
Definition-discrete = hlevel (ℕ_discrete, String-discrete)

pub record AuthorityEvidence : Type 0 where
  pub evidence_id : String
  pub issuer_id : String
  pub actor_id : String
  pub object_id : String
  pub capability : String
  pub implementation_id : String
  pub definition_version : Scalar
  pub source_authority_version : Scalar
  pub active : Option Bool
  pub scope : String
  pub human_required : Bool
  pub subject_ref : Option String
  pub policy_ref : Option String
  pub decision : Option String
  pub human_issuer : Option String

unfoldable pub AuthorityEvidence-discrete : Discrete AuthorityEvidence
unfolding Scalar-discrete String-discrete
AuthorityEvidence-discrete = hlevel (Scalar-discrete, String-discrete)

pub record RetryPolicy : Type 0 where
  pub policy_id : String
  pub policy_version : Scalar
  pub retry_enabled : Scalar
  pub allowed_failure_classes : Sequence
  pub max_attempts : Scalar
  pub repeated_failure_threshold_or_null : Scalar

unfoldable pub RetryPolicy-discrete : Discrete RetryPolicy
unfolding Scalar-discrete Sequence-discrete String-discrete
RetryPolicy-discrete = hlevel (Scalar-discrete, Sequence-discrete, String-discrete)

pub record FixedInput : Type 0 where
  pub object_id : String
  pub source_state : String
  pub target_state : String
  pub expected_observation_version : Scalar

unfoldable pub FixedInput-discrete : Discrete FixedInput
unfolding Scalar-discrete String-discrete
FixedInput-discrete = hlevel (Scalar-discrete, String-discrete)

pub record Step : Type 0 where
  pub capability_id : String
  pub implementation_id : String
  pub fixed_input : FixedInput

unfoldable pub Step-discrete : Discrete Step
unfolding FixedInput-discrete String-discrete
Step-discrete = hlevel (FixedInput-discrete, String-discrete)

pub record DispatchPayload : Type 0 where
  pub object_id : String
  pub source_state : String
  pub target_state : String
  pub expected_observation_version : Scalar
  pub capability_id : String
  pub implementation_id : String
  pub plan_id : String
  pub envelope_id : String
  pub commit_id : String
  pub idempotency_key : String
  pub invocation_id : String

unfoldable pub DispatchPayload-discrete : Discrete DispatchPayload
unfolding Scalar-discrete String-discrete
DispatchPayload-discrete = hlevel (Scalar-discrete, String-discrete)
