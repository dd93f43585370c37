-- ===== src/Contracts/Plans.antt =====
-- src/gsrr_slice01/contracts.py: the artifacts from the envelope to the commit.
use gsrr_agent_harness.Prelude.{ℕ, ℕ_discrete, String, String-discrete, Bool, List}
use gsrr_agent_harness.Contracts.Enums.{Gate, Gate-discrete, Mode, Mode-discrete}
use gsrr_agent_harness.Contracts.Values.{Check, Check-discrete, Artifact, Artifact-discrete}
use gsrr_agent_harness.Contracts.Domain.{
  Step, Step-discrete, DispatchPayload, DispatchPayload-discrete,
}

pub record ExecutionEnvelope : Type 0 where
  pub artifact : Artifact
  pub open artifact use *
  pub envelope_id : String
  pub approval_id : String
  pub transition_id : String
  pub object_id : String
  pub source_state : String
  pub target_state : String
  pub source_authority_version : ℕ
  pub source_observation_version : ℕ
  pub definition_ref : String
  pub authority_evidence_refs : List String
  pub required_effects : List String
  pub forbidden_effects : List String
  pub required_capability : String
  pub allowed_implementation_ids : List String
  pub postconditions : List String
  pub reconciliation_requirements : List String
  pub execution_constraints : List String
  pub envelope_check_results : List Check
  pub fixture_boundary_ref : String

unfoldable pub ExecutionEnvelope-discrete : Discrete ExecutionEnvelope
unfolding ℕ_discrete Artifact-discrete Check-discrete String-discrete
ExecutionEnvelope-discrete = hlevel (ℕ_discrete, Artifact-discrete, Check-discrete, String-discrete)

pub record ExecutionPlan : Type 0 where
  pub artifact : Artifact
  pub open artifact use *
  pub plan_id : String
  pub envelope_id : String
  pub transition_id : String
  pub object_id : String
  pub source_authority_version : ℕ
  pub source_observation_version : ℕ
  pub steps : List Step
  pub accepted_envelope_obligations_ref : String
  pub sufficiency_policy_ref : String
  pub unresolved_fields : List String
  pub attempt_id : String
  pub realization_mode : Mode

unfoldable pub ExecutionPlan-discrete : Discrete ExecutionPlan
unfolding ℕ_discrete Artifact-discrete Mode-discrete Step-discrete String-discrete
ExecutionPlan-discrete =
    hlevel (ℕ_discrete, Artifact-discrete, Mode-discrete, Step-discrete, String-discrete)

pub record PlanValidationResult : Type 0 where
  pub artifact : Artifact
  pub open artifact use *
  pub plan_validation_id : String
  pub plan_id : String
  pub envelope_id : String
  pub approval_id : String
  pub checked_authority_version : ℕ
  pub checked_observation_version : ℕ
  pub authority_evidence_refs : List String
  pub check_results : List Check
  pub disposition : Gate
  pub reasons : List String
  pub attempt_id : String

unfoldable pub PlanValidationResult-discrete : Discrete PlanValidationResult
unfolding ℕ_discrete Artifact-discrete Check-discrete Gate-discrete String-discrete
PlanValidationResult-discrete =
    hlevel (ℕ_discrete, Artifact-discrete, Check-discrete, Gate-discrete, String-discrete)

pub record RealizationCommit : Type 0 where
  pub artifact : Artifact
  pub open artifact use *
  pub commit_id : String
  pub transition_id : String
  pub object_id : String
  pub source_state_version : ℕ
  pub source_observation_version : ℕ
  pub target_state : String
  pub execution_envelope_id : String
  pub execution_plan_id : String
  pub plan_validation_id : String
  pub authority_evidence_refs : List String
  pub idempotency_key : String
  pub required_postconditions : List String
  pub reconciliation_obligation : List String
  pub status : String
  pub event_ref : String
  pub definition_ref : String
  pub actor_id : String
  pub capability_id : String
  pub implementation_id : String
  pub dispatch_payload : DispatchPayload
  pub attempt_id : String

unfoldable pub RealizationCommit-discrete : Discrete RealizationCommit
unfolding ℕ_discrete Artifact-discrete DispatchPayload-discrete String-discrete
RealizationCommit-discrete =
    hlevel (ℕ_discrete, Artifact-discrete, DispatchPayload-discrete, String-discrete)

pub record CapabilityDescriptor : Type 0 where
  pub artifact : Artifact
  pub open artifact use *
  pub descriptor_id : String
  pub capability_id : String
  pub implementation_id : String
  pub descriptor_version : ℕ
  pub input_contract_ref : String
  pub expected_effects : List String
  pub forbidden_effects : List String
  pub authority_requirements : String
  pub idempotency_posture : String
  pub fixture_boundary_ref : String
  pub action_observation_contract_ref : String
  pub supported_realization_modes : List Mode
  pub owns_internal_planning_by_mode : List (Mode × Bool)
  pub supports_reconciliation_evidence : Bool

unfoldable pub CapabilityDescriptor-discrete : Discrete CapabilityDescriptor
unfolding ℕ_discrete Artifact-discrete Mode-discrete String-discrete
CapabilityDescriptor-discrete =
    hlevel (ℕ_discrete, Artifact-discrete, Mode-discrete, String-discrete)
