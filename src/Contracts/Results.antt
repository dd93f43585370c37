-- ===== src/Contracts/Results.antt =====
-- src/gsrr_slice01/contracts.py: the artifacts from the execution to the projection, and the trace events.
use gsrr_agent_harness.Prelude.{ℕ, ℕ_discrete, String, String-discrete, Bool, Option, List}
use gsrr_agent_harness.Contracts.Enums.{
  Report, Report-discrete, Outcome, Outcome-discrete, Decision, Decision-discrete,
}
use gsrr_agent_harness.Contracts.Values.{Check, Check-discrete, Artifact, Artifact-discrete}
use gsrr_agent_harness.Contracts.Attempts.{ControlPayload, ControlPayload-discrete}

pub record ExecutionResult : Type 0 where
  pub artifact : Artifact
  pub open artifact use *
  pub result_id : String
  pub commit_id : String
  pub plan_id : String
  pub capability_id : String
  pub implementation_id : String
  pub object_id : String
  pub expected_observation_version : ℕ
  pub dispatch_started : Bool
  pub reported_status : Report
  pub error_or_null : Option String
  pub idempotency_key : String
  pub event_ref : String
  pub invocation_id : String
  pub dispatched_payload_ref : String
  pub action_interval_ref : Option String

unfoldable pub ExecutionResult-discrete : Discrete ExecutionResult
unfolding ℕ_discrete Artifact-discrete Report-discrete String-discrete
ExecutionResult-discrete = hlevel (ℕ_discrete, Artifact-discrete, Report-discrete, String-discrete)

pub record ReconciliationResult : Type 0 where
  pub artifact : Artifact
  pub open artifact use *
  pub reconciliation_id : String
  pub commit_id : String
  pub approval_id : String
  pub result_id : String
  pub before_snapshot_id : String
  pub observed_snapshot_ref : Option String
  pub object_id : String
  pub authority_version_checked : Option ℕ
  pub observed_version : Option ℕ
  pub observed_predecessor_version : Option ℕ
  pub observed_commit_id : Option String
  pub checks : List Check
  pub required_effect_findings : List String
  pub forbidden_effect_findings : List String
  pub postcondition_findings : List String
  pub outcome : Outcome
  pub unresolved_fields : List String
  pub sufficiency_policy_ref : String
  pub action_interval_ref : Option String
  pub fixture_boundary_ref : String
  pub completeness_findings : List String
  pub invocation_binding_checks : List Check

unfoldable pub ReconciliationResult-discrete : Discrete ReconciliationResult
unfolding ℕ_discrete Artifact-discrete Check-discrete Outcome-discrete String-discrete
ReconciliationResult-discrete =
    hlevel (ℕ_discrete, Artifact-discrete, Check-discrete, Outcome-discrete, String-discrete)

pub record ProjectionDecision : Type 0 where
  pub artifact : Artifact
  pub open artifact use *
  pub projection_id : String
  pub transition_id : String
  pub reconciliation_id : String
  pub commit_id : String
  pub object_id : String
  pub plan_ref : String
  pub envelope_ref : String
  pub definition_ref : String
  pub initial_and_current_snapshot_refs : List String
  pub expected_authority_version : ℕ
  pub current_authority_version_or_null : Option ℕ
  pub reconciled_observation_version : Option ℕ
  pub current_observation_version_or_null : Option ℕ
  pub action_interval_ref : Option String
  pub target_state : String
  pub authority_evidence_refs : List String
  pub checks : List Check
  pub final_decision : Decision
  pub reason_codes : List String
  pub reasons : List String
  pub write_outcome : String
  pub authoritative_state_changed : Bool
  pub projected_authority_version_or_null : Option ℕ
  pub retention_ref : String
  pub journal_record_status : String

unfoldable pub ProjectionDecision-discrete : Discrete ProjectionDecision
unfolding ℕ_discrete Artifact-discrete Check-discrete Decision-discrete String-discrete
ProjectionDecision-discrete =
    hlevel (ℕ_discrete, Artifact-discrete, Check-discrete, Decision-discrete, String-discrete)

pub record RuntimeEvent : Type 0 where
  pub artifact : Artifact
  pub open artifact use *
  pub event_id : String
  pub event_type : String
  pub sequence : ℕ
  pub causation_id_or_null : Option String
  pub actor_or_component : String
  pub object_id : String
  pub transition_id_or_null : Option String
  pub commit_id_or_null : Option String
  pub source_authority_version_or_null : Option ℕ
  pub observed_version_or_null : Option ℕ
  pub artifact_refs : List String
  pub outcome : String
  pub reason_codes : List String
  pub visibility : String
  pub attempt_id_or_null : Option String
  pub parent_transition_id_or_null : Option String
  pub attempt_number_or_null : Option ℕ
  pub prior_attempt_id_or_null : Option String
  pub retry_policy_ref_or_null : Option String
  pub control_payload_or_null : Option ControlPayload

unfoldable pub RuntimeEvent-discrete : Discrete RuntimeEvent
unfolding ℕ_discrete Artifact-discrete ControlPayload-discrete String-discrete
RuntimeEvent-discrete =
    hlevel (ℕ_discrete, Artifact-discrete, ControlPayload-discrete, String-discrete)
