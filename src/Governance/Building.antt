-- ===== src/Governance/Building.antt =====
-- src/gsrr_slice01/governance.py: the registered capability, the envelope of an approval, and the plans
-- that the instruction builder makes, its defects included.
use gsrr_agent_harness.Prelude.{
  ℕ, ◌+◌, String, Bool, true, false, not, ◌&&◌, Option, none, some, List, [], ◌∷◌, ◌==◌, string_eq,
  nat_eq, if◌then◌else◌,
}
use gsrr_agent_harness.Exec.{Error, Exec, pure, raise, gets, raise_if, ◌>>=◌, ◌>>◌}
use gsrr_agent_harness.Shared.{Shared, in_journal, own_modify}
use gsrr_agent_harness.Contracts.Values.{Check, Scalar}
use gsrr_agent_harness.Contracts.Enums.{Mode}
use gsrr_agent_harness.Contracts.Domain.{Definition, FixedInput, Step}
use gsrr_agent_harness.Contracts.Effects.{ObservedState}
use gsrr_agent_harness.Contracts.Planning.{
  ApprovedTransition, AuthoritativeStateSnapshot, CandidateTransition,
}
use gsrr_agent_harness.Contracts.Plans.{CapabilityDescriptor, ExecutionEnvelope, ExecutionPlan}
use gsrr_agent_harness.Contracts.Record.{Record}
use gsrr_agent_harness.Journal.Defs.{Journal, common, new_id, retain}
use gsrr_agent_harness.Governance.Checks.{profile, check, is_gate_pass}

abbrev pub built_descriptor : Definition → Journal → CapabilityDescriptor
built_descriptor d j = record {
  artifact = common "CAPABILITY_REGISTRY" j;
  descriptor_id = "descriptor-1";
  capability_id = d.capability_id;
  implementation_id = d.implementation_id;
  descriptor_version = 1;
  input_contract_ref = "fixed-input-contract";
  expected_effects = d.required_effects;
  forbidden_effects = d.forbidden_effects;
  authority_requirements = "authority-contract";
  idempotency_posture = "RUN_LOCAL_ONCE";
  fixture_boundary_ref = "fixture-boundary";
  action_observation_contract_ref = "action-observation-contract";
  supported_realization_modes = Mode.explicit_plan ∷ Mode.delegated_realization ∷ [];
  owns_internal_planning_by_mode =
      (Mode.explicit_plan, false) ∷ (Mode.delegated_realization, true) ∷ [];
  supports_reconciliation_evidence = true;
}

unfoldable pub descriptor : Definition → Exec Journal CapabilityDescriptor
descriptor d = do
  built ← gets (built_descriptor d)
  retain built.descriptor_id (Record.descriptor built)
  pure built

unfoldable pub derivable :
    ApprovedTransition
    → CandidateTransition
    → Definition
    → AuthoritativeStateSnapshot
    → ObservedState
    → Bool
derivable approval transition d before observed =
    is_gate_pass approval.disposition
    && transition.target_state == d.target_state
    && approval.transition_id == transition.transition_id
    && approval.source_authority_version == before.authority_version
    && approval.source_observation_version == observed.observation_version

abbrev pub derivation_checks :
    ApprovedTransition
    → CandidateTransition
    → Definition
    → AuthoritativeStateSnapshot
    → ObservedState
    → List Check
derivation_checks approval transition d before observed =
    check "ENVELOPE_DERIVATION" (some (derivable approval transition d before observed))
      (approval.approval_id ∷ transition.transition_id ∷ before.snapshot_id ∷ observed.snapshot_id
        ∷ [])
      "recompute complete bounds from original approval and fixture"
    ∷ []

-- `any(c.result != "PASS" for c in checks)`
abbrev pub any_not_pass : List Check → Bool
any_not_pass [] = false
any_not_pass (c ∷ rest) = if not (c.result == "PASS") then true else any_not_pass rest

abbrev pub built_envelope :
    ApprovedTransition
    → CandidateTransition
    → Definition
    → AuthoritativeStateSnapshot
    → ObservedState
    → List Check
    → String
    → Journal
    → ExecutionEnvelope
built_envelope approval transition d before observed checks ref j = record {
  artifact = common "GSRR_SLICE_01" j;
  envelope_id = ref;
  approval_id = approval.approval_id;
  transition_id = transition.transition_id;
  object_id = d.object_id;
  source_state = d.source_state;
  target_state = d.target_state;
  source_authority_version = before.authority_version;
  source_observation_version = observed.observation_version;
  definition_ref = d.definition_id;
  authority_evidence_refs = approval.authority_evidence_refs;
  required_effects = d.required_effects;
  forbidden_effects = d.forbidden_effects;
  required_capability = d.capability_id;
  allowed_implementation_ids = d.implementation_id ∷ [];
  postconditions = d.postconditions;
  reconciliation_requirements = d.evidence_rules;
  execution_constraints = d.constraints;
  envelope_check_results = checks;
  fixture_boundary_ref = "fixture-boundary";
}

unfoldable pub envelope :
    ApprovedTransition
    → CandidateTransition
    → Definition
    → AuthoritativeStateSnapshot
    → ObservedState
    → Exec Journal ExecutionEnvelope
envelope approval transition d before observed = do
  let checks = derivation_checks approval transition d before observed
  raise_if (any_not_pass checks) (Error.value_error "invalid envelope derivation")
  ref ← new_id "envelope"
  e ← gets (built_envelope approval transition d before observed checks ref)
  retain e.envelope_id (Record.envelope e)
  pure e

-- The fixed input of the plan's step; three defects change it.
abbrev pub fixed_input : ExecutionEnvelope → String → FixedInput
fixed_input e defect =
    let fixed : FixedInput = record {
      object_id = e.object_id;
      source_state = e.source_state;
      target_state = e.target_state;
      expected_observation_version = Scalar.int e.source_observation_version;
    } in
    if defect == "target"
    then record fixed { target_state = "APPROVED" }
    else if defect == "object"
    then record fixed { object_id = "OTHER" }
    else if defect == "source"
    then record fixed { expected_observation_version = Scalar.bool true }
    else fixed

-- `xs[0]`
unfoldable pub first : List String → Exec Journal String
first [] = raise (Error.index_error "tuple index out of range")
first (x ∷ _) = pure x

abbrev pub plan_step : ExecutionEnvelope → String → String → Step
plan_step e implementation defect =
    let step : Step = record {
      capability_id = e.required_capability;
      implementation_id = implementation;
      fixed_input = fixed_input e defect;
    } in
    if defect == "implementation" then record step { implementation_id = "unregistered" } else step

abbrev pub plan_producer : Mode → String
plan_producer Mode.explicit_plan = "PLANNER"
plan_producer Mode.delegated_realization = "GSRR_SLICE_01"

abbrev pub built_plan :
    ExecutionEnvelope → String → Mode → String → Step → String → Journal → ExecutionPlan
built_plan e attempt_id mode defect step ref j = record {
  artifact = common (plan_producer mode) j;
  plan_id = ref;
  envelope_id = e.envelope_id;
  transition_id = e.transition_id;
  object_id = e.object_id;
  source_authority_version = e.source_authority_version;
  source_observation_version = e.source_observation_version;
  steps = if defect == "extra_step" then step ∷ step ∷ [] else step ∷ [];
  accepted_envelope_obligations_ref = if defect == "obligations" then "" else e.envelope_id;
  sufficiency_policy_ref = profile;
  unresolved_fields = if defect == "obligations" then "obligations" ∷ [] else [];
  attempt_id = attempt_id;
  realization_mode = mode;
}

unfoldable pub build_instruction :
    ExecutionEnvelope → String → Mode → String → Exec Journal (Option ExecutionPlan)
build_instruction e attempt_id mode defect = if defect == "infeasible" then pure none else (do
  implementation ← first e.allowed_implementation_ids
  ref ← new_id "plan"
  p ← gets (built_plan e attempt_id mode defect (plan_step e implementation defect) ref)
  retain p.plan_id (Record.plan p)
  pure (some p))

pub record ExplicitPlanner : Type 0 where
  pub calls : ℕ

abbrev pub count_call : ExplicitPlanner → ExplicitPlanner
count_call s = record { calls = s.calls + 1 }

unfoldable pub propose :
    ExecutionEnvelope → String → String → Exec (Shared ExplicitPlanner) (Option ExecutionPlan)
propose e attempt_id defect = do
  own_modify count_call
  in_journal (build_instruction e attempt_id Mode.explicit_plan defect)
