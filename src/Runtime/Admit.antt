-- ===== src/Runtime/Admit.antt =====
-- src/gsrr_slice01/runtime.py: `binding` and `admit`.
use gsrr_agent_harness.Prelude.{
  String, Bool, not, ◌&&◌, none, some, List, [], ◌∷◌, concat, ◌==◌, string_eq,
}
use gsrr_agent_harness.Exec.{Error, pure, raise, gets, modify, raise_if, ◌>>=◌, ◌>>◌}
use gsrr_agent_harness.Shared.{in_journal}
use gsrr_agent_harness.Contracts.Domain.{Step, DispatchPayload}
use gsrr_agent_harness.Contracts.Attempts.{Attempt}
use gsrr_agent_harness.Contracts.Planning.{StructuredIntent, ApprovedTransition}
use gsrr_agent_harness.Contracts.Plans.{
  ExecutionEnvelope, ExecutionPlan, PlanValidationResult, RealizationCommit,
}
use gsrr_agent_harness.Contracts.Record.{Record}
use gsrr_agent_harness.Journal.Defs.{Journal, common, new_id, retain}
use gsrr_agent_harness.Journal.Event
use gsrr_agent_harness.Journal.Event.{EventCall, event}
use gsrr_agent_harness.Retry.Defs.{current}
use gsrr_agent_harness.Retry.Lifecycle.{put, need, admission}
use gsrr_agent_harness.Governance.Checks.{is_gate_pass}
use gsrr_agent_harness.Governance.Validation.{is_retained}
use gsrr_agent_harness.Runtime.Defs.{
  Binding, Call, in_supervisor, get_run, set_run, get_faults, get_supervisor,
}

-- `steps[0]`
unfoldable pub first_step : List Step → Call Step
first_step [] = raise (Error.index_error "tuple index out of range")
first_step (step ∷ _) = pure step

abbrev pub built_binding :
    ApprovedTransition
    → StructuredIntent
    → ExecutionEnvelope
    → ExecutionPlan
    → PlanValidationResult
    → Step
    → Binding
built_binding a i e p v step = record {
  actor_id = a.actor_id;
  intent_id = i.intent_id;
  transition_id = e.transition_id;
  object_id = e.object_id;
  source_authority_version = e.source_authority_version;
  source_observation_version = e.source_observation_version;
  definition_ref = e.definition_ref;
  approval_id = e.approval_id;
  envelope_id = e.envelope_id;
  plan_id = p.plan_id;
  plan_validation_id = v.plan_validation_id;
  capability_id = step.capability_id;
  implementation_id = step.implementation_id;
  realization_mode = p.realization_mode;
}

unfoldable pub binding : Call Binding
binding = do
  r ← get_run (λ r. r)
  a ← need r.approval
  i ← need r.intent
  e ← need r.envelope
  p ← need r.plan
  v ← need r.plan_validation
  step ← first_step p.steps
  pure (built_binding a i e p v step)

abbrev pub payload_of : Step → ExecutionPlan → ExecutionEnvelope → String → String → DispatchPayload
payload_of step p e commit_id key = record {
  object_id = step.fixed_input.object_id;
  source_state = step.fixed_input.source_state;
  target_state = step.fixed_input.target_state;
  expected_observation_version = step.fixed_input.expected_observation_version;
  capability_id = step.capability_id;
  implementation_id = step.implementation_id;
  plan_id = p.plan_id;
  envelope_id = e.envelope_id;
  commit_id = commit_id;
  idempotency_key = key;
  invocation_id = commit_id;
}

abbrev pub built_commit :
    Step
    → ExecutionPlan
    → ExecutionEnvelope
    → PlanValidationResult
    → ApprovedTransition
    → Attempt
    → String
    → String
    → String
    → Journal
    → RealizationCommit
built_commit step p e v a attempt commit_id event_id key j = record {
  artifact = common "GSRR_SLICE_01" j;
  commit_id = commit_id;
  transition_id = e.transition_id;
  object_id = e.object_id;
  source_state_version = e.source_authority_version;
  source_observation_version = e.source_observation_version;
  target_state = e.target_state;
  execution_envelope_id = e.envelope_id;
  execution_plan_id = p.plan_id;
  plan_validation_id = v.plan_validation_id;
  authority_evidence_refs = e.authority_evidence_refs;
  idempotency_key = key;
  required_postconditions = e.postconditions;
  reconciliation_obligation = e.reconciliation_requirements;
  status = "COMMITTED";
  event_ref = event_id;
  definition_ref = e.definition_ref;
  actor_id = a.actor_id;
  capability_id = step.capability_id;
  implementation_id = step.implementation_id;
  dispatch_payload = payload_of step p e commit_id key;
  attempt_id = attempt.attempt_id;
}

-- The test that the validation binds exactly the active plan.
unfoldable pub binds :
    ExecutionPlan → PlanValidationResult → ExecutionEnvelope → ApprovedTransition → Attempt → Bool
binds p v e a attempt =
    v.plan_id == p.plan_id
    && v.envelope_id == e.envelope_id
    && v.approval_id == a.approval_id
    && p.envelope_id == e.envelope_id
    && (p.attempt_id == v.attempt_id && v.attempt_id == attempt.attempt_id)

-- The guards of `admit`.
unfoldable pub guard_admission : Call (Unit {0})
guard_admission = do
  failing ← get_faults (λ f. f.commit_retention_failure)
  raise_if failing (Error.retention_error "commit/event retention unavailable")
  r ← get_run (λ r. r)
  p ← need r.plan
  plan_kept ← in_journal (is_retained p.plan_id (Record.plan p))
  raise_if (not plan_kept) (Error.retention_error "immutable plan changed")
  v ← need r.plan_validation
  validation_kept ← in_journal (is_retained v.plan_validation_id (Record.plan_validation v))
  raise_if (not validation_kept) (Error.retention_error "immutable validation changed")
  raise_if (not (is_gate_pass v.disposition)) (Error.retention_error "plan not validated")
  e ← need r.envelope
  a ← need r.approval
  attempt ← need (← get_supervisor current)
  raise_if (not (binds p v e a attempt))
      (Error.retention_error "validation does not bind this exact active plan")

abbrev pub set_commit_ref : String → Journal → Journal
set_commit_ref commit_id j = record j { commit_ref = some commit_id }

abbrev pub commit_event : RealizationCommit → ExecutionEnvelope → Attempt → String → EventCall
commit_event c e attempt event_id = record (Event.event_call "TransitionCommitted") {
  refs = c.commit_id ∷ [];
  attempt = some attempt;
  transition = some e.transition_id;
  commit = some c.commit_id;
  source_version = some e.source_authority_version;
  observed_version = some e.source_observation_version;
  event_id = some event_id;
}

-- The retention of the commit, of its payload and of its event.
unfoldable pub retain_commit :
    RealizationCommit → ExecutionEnvelope → Attempt → String → Call (Unit {0})
retain_commit c e attempt event_id = do
  in_journal (retain c.commit_id (Record.commit c))
  in_journal (modify (set_commit_ref c.commit_id))
  in_journal (retain (concat (c.commit_id ∷ ":payload" ∷ [])) (Record.payload c.dispatch_payload))
  in_journal (event (commit_event c e attempt event_id))
  pure tt

unfoldable pub enter_index : String → Call (Unit {0})
enter_index key = do
  request ← need (← get_run (λ r. r.request))
  bound ← binding
  set_run (λ r. record r {
    index = put key (record { request = request; binding = bound; result = none }) r.index;
  })

unfoldable pub admit : String → Call (Unit {0})
admit key = do
  guard_admission
  in_supervisor admission
  r ← get_run (λ r. r)
  e ← need r.envelope
  p ← need r.plan
  cid ← in_journal (new_id "commit")
  eid ← in_journal (new_id "event")
  step ← first_step p.steps
  v ← need r.plan_validation
  a ← need r.approval
  attempt ← need (← get_supervisor current)
  c ← in_journal (gets (built_commit step p e v a attempt cid eid key))
  retain_commit c e attempt eid
  set_run (λ r. record r { commit = some c })
  enter_index key
