-- ===== src/Governance/Validation.antt =====
-- src/gsrr_slice01/governance.py: `validate_plan`.
use gsrr_agent_harness.Prelude.{
  String, Bool, true, false, not, ◌&&◌, ◌||◌, none, some, List, [], ◌∷◌, any, ◌==◌, string_eq,
  nat_eq, Eq, eq_of_discrete, decide, if◌then◌else◌,
}
use gsrr_agent_harness.Exec.{Exec, pure, gets, ◌>>=◌, ◌>>◌}
use gsrr_agent_harness.Contracts.Values.{Check, Scalar}
use gsrr_agent_harness.Contracts.Enums.{Gate, Mode, Mode-discrete}
use gsrr_agent_harness.Contracts.Domain.{Definition, Step, Step-discrete}
use gsrr_agent_harness.Contracts.Planning.{ApprovedTransition}
use gsrr_agent_harness.Contracts.Plans.{
  CapabilityDescriptor, ExecutionEnvelope, ExecutionPlan, PlanValidationResult,
}
use gsrr_agent_harness.Contracts.Record.{Record, same_record, plain_step}
use gsrr_agent_harness.Journal.Defs.{Journal, common, new_id, get, retain}
use gsrr_agent_harness.Retry.Lifecycle.{is_empty}
use gsrr_agent_harness.Governance.Checks.{profile, check, strings_eq, is_gate_pass}

-- `m and n`: `n` is run only if `m` returns True.
unfoldable pub and_then : {S : Type 0} → Exec S Bool → Exec S Bool → Exec S Bool
and_then m n = do b ← m; if b then n else pure false

-- `journal.get(ref) == value`
unfoldable pub is_retained : String → Record → Exec Journal Bool
is_retained ref value = do retained ← get ref; pure (same_record retained value)

instance abbrev pub mode_eq : Eq Mode
mode_eq = eq_of_discrete Mode-discrete

unfoldable pub Ownership-discrete : Discrete (List (Mode × Bool))
unfolding Mode-discrete
Ownership-discrete = hlevel Mode-discrete

instance abbrev pub ownership_eq : Eq (List (Mode × Bool))
ownership_eq = eq_of_discrete Ownership-discrete

-- The one step that the envelope and the definition allow.
abbrev pub expected_step : ExecutionEnvelope → Definition → Step
expected_step e d = record {
  capability_id = d.capability_id;
  implementation_id = d.implementation_id;
  fixed_input = record {
    object_id = e.object_id;
    source_state = e.source_state;
    target_state = e.target_state;
    expected_observation_version = Scalar.int e.source_observation_version;
  };
}

-- `a == b`, of two steps
unfoldable pub same_step : Step → Step → Bool
same_step a b = decide (Step-discrete (plain_step a) (plain_step b))

-- `type(v) is int`
abbrev pub is_an_int : Scalar → Bool
is_an_int (Scalar.int n) = true
is_an_int (Scalar.negative n) = true
is_an_int _ = false

-- One step, the expected one, whose version is an integer and no truth value.
abbrev pub is_expected : List Step → Step → Bool
is_expected (step ∷ []) expected =
    same_step step expected && is_an_int step.fixed_input.expected_observation_version
is_expected _ expected = false

unfoldable pub plan_matches : ExecutionPlan → ExecutionEnvelope → Definition → String → Bool
plan_matches p e d attempt_id =
    is_expected p.steps (expected_step e d)
    && p.envelope_id == e.envelope_id
    && p.transition_id == e.transition_id
    && p.object_id == e.object_id
    && p.attempt_id == attempt_id
    && p.source_authority_version == e.source_authority_version
    && p.source_observation_version == e.source_observation_version
    && p.accepted_envelope_obligations_ref == e.envelope_id
    && p.sufficiency_policy_ref == profile

unfoldable pub capability_matches :
    ExecutionPlan → ExecutionEnvelope → Definition → CapabilityDescriptor → Bool
capability_matches p e d cap =
    any (λ mode. mode == p.realization_mode) cap.supported_realization_modes
    && any (λ ref. ref == cap.implementation_id) e.allowed_implementation_ids
    && (cap.capability_id == e.required_capability && e.required_capability == d.capability_id)
    && cap.input_contract_ref == "fixed-input-contract"
    && cap.authority_requirements == "authority-contract"
    && cap.idempotency_posture == "RUN_LOCAL_ONCE"
    && cap.action_observation_contract_ref == "action-observation-contract"
    && cap.expected_effects == e.required_effects
    && cap.forbidden_effects == e.forbidden_effects
    && cap.supports_reconciliation_evidence
    && cap.owns_internal_planning_by_mode
      == ((Mode.explicit_plan, false) ∷ (Mode.delegated_realization, true) ∷ [])
    && (cap.fixture_boundary_ref == e.fixture_boundary_ref
        && e.fixture_boundary_ref == "fixture-boundary")

unfoldable pub envelope_matches : ExecutionEnvelope → Definition → ApprovedTransition → Bool
envelope_matches e d approval =
    e.required_effects == d.required_effects
    && e.forbidden_effects == d.forbidden_effects
    && e.postconditions == d.postconditions
    && e.reconciliation_requirements == d.evidence_rules
    && e.execution_constraints == d.constraints
    && is_gate_pass approval.disposition

-- `exact`: the four records are retained as they are, and then the tests on their fields.
unfoldable pub exact_plan :
    ExecutionPlan
    → ExecutionEnvelope
    → ApprovedTransition
    → Definition
    → CapabilityDescriptor
    → String
    → Exec Journal Bool
exact_plan p e approval d cap attempt_id = and_then (is_retained p.plan_id (Record.plan p)) (
    and_then (is_retained e.envelope_id (Record.envelope e)) (
      and_then (is_retained approval.approval_id (Record.approval approval)) (
        and_then (is_retained cap.descriptor_id (Record.descriptor cap)) (
          pure (
            plan_matches p e d attempt_id
            && capability_matches p e d cap
            && envelope_matches e d approval)))))

abbrev pub is_missing : ExecutionPlan → Bool
is_missing p = not (is_empty p.unresolved_fields) || p.accepted_envelope_obligations_ref == ""

abbrev pub plan_gate : Bool → Bool → Gate
plan_gate missing exact = if missing then Gate.held else if exact then Gate.pass else Gate.refused

abbrev pub plan_check :
    ExecutionPlan → ExecutionEnvelope → ApprovedTransition → CapabilityDescriptor → Bool → Check
plan_check p e approval cap exact =
    check "PLAN_ENVELOPE" (if is_missing p then none else some exact)
      (p.plan_id ∷ e.envelope_id ∷ approval.approval_id ∷ cap.descriptor_id ∷ [])
      (if is_missing p
        then "missing complete obligations"
        else "exact immutable capability contract")

abbrev pub built_validation :
    ExecutionPlan
    → ExecutionEnvelope
    → ApprovedTransition
    → Check
    → Gate
    → String
    → String
    → Journal
    → PlanValidationResult
built_validation p e approval c disposition attempt_id ref j = record {
  artifact = common "DASA" j;
  plan_validation_id = ref;
  plan_id = p.plan_id;
  envelope_id = e.envelope_id;
  approval_id = approval.approval_id;
  checked_authority_version = e.source_authority_version;
  checked_observation_version = e.source_observation_version;
  authority_evidence_refs = e.authority_evidence_refs;
  check_results = c ∷ [];
  disposition = disposition;
  reasons = c.reason ∷ [];
  attempt_id = attempt_id;
}

unfoldable pub validate_plan :
    ExecutionPlan
    → ExecutionEnvelope
    → ApprovedTransition
    → Definition
    → CapabilityDescriptor
    → String
    → Exec Journal PlanValidationResult
validate_plan p e approval d cap attempt_id = do
  exact ← exact_plan p e approval d cap attempt_id
  ref ← new_id "plan-validation"
  v ← gets (
      built_validation p e approval (plan_check p e approval cap exact)
        (plan_gate (is_missing p) exact) attempt_id ref)
  retain v.plan_validation_id (Record.plan_validation v)
  pure v
