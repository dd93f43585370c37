-- ===== src/Samples.antt =====
-- Sample artifacts of one run of src/gsrr_slice01, for the tests.
use gsrr_agent_harness.Prelude.{String, true, [], ◌∷◌}
use gsrr_agent_harness.Contracts.Values.{Artifact, Scalar}
use gsrr_agent_harness.Contracts.Enums.{Gate}
use gsrr_agent_harness.Contracts.Domain.{RetryPolicy}
use gsrr_agent_harness.Contracts.Defaults.{default_definition, default_policy}
use gsrr_agent_harness.Contracts.Planning.{ApprovedTransition}
use gsrr_agent_harness.Contracts.Plans.{ExecutionEnvelope}

abbrev pub artifact_by : String → Artifact
artifact_by producer = record {
  run_id = "run-1";
  correlation_id = "run-1";
  producer = producer;
  artifact_version = "v0_1";
}

-- A policy that allows one retry.
abbrev pub retry_once : RetryPolicy
retry_once = record default_policy { retry_enabled = Scalar.bool true; max_attempts = Scalar.int 2 }

abbrev pub approval : ApprovedTransition
approval = record {
  artifact = artifact_by "DASA";
  approval_id = "run-1:approval:7";
  transition_id = "run-1:transition:5";
  validation_id = "run-1:validation:6";
  object_id = "DOC-001";
  source_authority_version = 1;
  source_observation_version = 1;
  target_state = "REVIEW";
  actor_id = "USER-001";
  authority_evidence_refs = "grant-1" ∷ [];
  definition_ref = default_definition.definition_id;
  authority_check_results = [];
  disposition = Gate.pass;
}

abbrev pub envelope : ExecutionEnvelope
envelope = record {
  artifact = artifact_by "GSRR_SLICE_01";
  envelope_id = "run-1:envelope:8";
  approval_id = "run-1:approval:7";
  transition_id = "run-1:transition:5";
  object_id = "DOC-001";
  source_state = "DRAFT";
  target_state = "REVIEW";
  source_authority_version = 1;
  source_observation_version = 1;
  definition_ref = default_definition.definition_id;
  authority_evidence_refs = "grant-1" ∷ [];
  required_effects = default_definition.required_effects;
  forbidden_effects = default_definition.forbidden_effects;
  required_capability = default_definition.capability_id;
  allowed_implementation_ids = default_definition.implementation_id ∷ [];
  postconditions = default_definition.postconditions;
  reconciliation_requirements = default_definition.evidence_rules;
  execution_constraints = default_definition.constraints;
  envelope_check_results = [];
  fixture_boundary_ref = "fixture-boundary";
}
