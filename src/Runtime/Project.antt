-- ===== src/Runtime/Project.antt =====
-- src/gsrr_slice01/reconciliation.py: `project`, the one place from which authority is published; Judging
-- holds the judgement that it publishes.
mod Judging
unfoldable pub use Judging.*
use gsrr_agent_harness.Prelude.{
  ◌+◌, String, Bool, true, false, not, ◌&&◌, Option, none, some, [], ◌∷◌, length, last, ◌==◌,
  string_eq, if◌then◌else◌,
}
use mathlib.Core.Option
use gsrr_agent_harness.Exec.{Error, pure, raise, gets, ◌>>=◌, ◌>>◌}
use gsrr_agent_harness.Shared.{in_journal, own_gets}
use gsrr_agent_harness.Contracts.Enums.{Control, Decision, decision_value}
use gsrr_agent_harness.Contracts.Domain.{RetryPolicy}
use gsrr_agent_harness.Contracts.Attempts.{Attempt}
use gsrr_agent_harness.Contracts.Plans.{ExecutionEnvelope, RealizationCommit}
use gsrr_agent_harness.Contracts.Results.{ReconciliationResult, ProjectionDecision, RuntimeEvent}
use gsrr_agent_harness.Journal.Defs.{Journal, common, new_id, reserve}
use gsrr_agent_harness.Journal.Publish.{publish}
use gsrr_agent_harness.Retry.Defs.{current}
use gsrr_agent_harness.Retry.Lifecycle.{need}
use gsrr_agent_harness.Runtime.Defs.{Run, Call, get_run, get_faults, get_supervisor}
use gsrr_agent_harness.Runtime.Start.{stop}

abbrev pub write_outcome_of : Bool → Bool → String
write_outcome_of failed applied =
    if failed then "FAILED" else if applied then "APPLIED" else "NOT_ATTEMPTED"

abbrev pub built_decision :
    ReconciliationResult
    → ExecutionEnvelope
    → RealizationCommit
    → String
    → Bool
    → Bool
    → Judgement
    → String
    → Journal
    → ProjectionDecision
built_decision r e c retention failed unavailable g ref j =
    let applied = is_project g.decision in
    record {
      artifact = common "PROJECTOR" j;
      projection_id = ref;
      transition_id = e.transition_id;
      reconciliation_id = r.reconciliation_id;
      commit_id = c.commit_id;
      object_id = e.object_id;
      plan_ref = c.execution_plan_id;
      envelope_ref = e.envelope_id;
      definition_ref = e.definition_ref;
      initial_and_current_snapshot_refs = g.refs;
      expected_authority_version = e.source_authority_version;
      current_authority_version_or_null = g.authority;
      reconciled_observation_version = r.observed_version;
      current_observation_version_or_null = g.observation;
      action_interval_ref = r.action_interval_ref;
      target_state = e.target_state;
      authority_evidence_refs = e.authority_evidence_refs;
      checks = g.checks;
      final_decision = g.decision;
      reason_codes = g.reason ∷ [];
      reasons = g.reason ∷ [];
      write_outcome = write_outcome_of failed applied;
      authoritative_state_changed = applied;
      projected_authority_version_or_null =
          if applied then some (j.aggregate.authority_version + 1) else none;
      retention_ref = retention;
      journal_record_status = if unavailable then "UNAVAILABLE" else "RECORDED";
    }

abbrev pub projection_event_type : Decision → String
projection_event_type Decision.project = "StateProjected"
projection_event_type Decision.hold_projection = "TransitionHeld"
projection_event_type Decision.do_not_project = "TransitionRefused"

abbrev pub built_projection_event :
    ProjectionDecision
    → ReconciliationResult
    → ExecutionEnvelope
    → Judgement
    → RuntimeEvent
    → Attempt
    → Option RetryPolicy
    → String
    → Journal
    → RuntimeEvent
built_projection_event d r e g cause a policy ref j = record {
  artifact = common "EVENT_JOURNAL" j;
  event_id = ref;
  event_type = projection_event_type g.decision;
  sequence = length j.aggregate.events + 1;
  causation_id_or_null = some cause.event_id;
  actor_or_component = "PROJECTOR";
  object_id = e.object_id;
  transition_id_or_null = some e.transition_id;
  commit_id_or_null = some d.commit_id;
  source_authority_version_or_null = some e.source_authority_version;
  observed_version_or_null = r.observed_version;
  artifact_refs = d.projection_id ∷ r.reconciliation_id ∷ d.retention_ref ∷ [];
  outcome = decision_value g.decision;
  reason_codes = g.reason ∷ [];
  visibility = "INTERNAL_BOUNDED_TRACE";
  attempt_id_or_null = some a.attempt_id;
  parent_transition_id_or_null = some e.transition_id;
  attempt_number_or_null = some a.attempt_number;
  prior_attempt_id_or_null = a.prior_attempt_id;
  retry_policy_ref_or_null = Option.map (λ p. p.policy_id) policy;
  control_payload_or_null = none;
}

-- `events[-1]`
unfoldable pub last_event : Option RuntimeEvent → Call RuntimeEvent
last_event none = raise (Error.index_error "tuple index out of range")
last_event (some e) = pure e

-- The event of the publication, left out where its fault makes it unavailable.
unfoldable pub projection_event :
    Bool
    → ProjectionDecision
    → ReconciliationResult
    → ExecutionEnvelope
    → Judgement
    → Call (Option RuntimeEvent)
projection_event true d r e g = pure none
projection_event false d r e g = do
  ref ← in_journal (new_id "event")
  cause ← last_event (← in_journal (gets (λ j. last j.aggregate.events)))
  a ← need (← get_supervisor current)
  policy ← own_gets (λ s. s.policy)
  event ← in_journal (gets (built_projection_event d r e g cause a policy ref))
  pure (some event)

unfoldable pub stop_unless_applied : ProjectionDecision → Judgement → Call (Unit {0})
stop_unless_applied d g = if is_project g.decision then pure tt else (do
  stop (if is_hold g.decision then Control.hold_ambiguous else Control.fail_nonretryable) g.reason
      (d.projection_id ∷ [])
  pure tt)

-- From the settled judgement on.
unfoldable pub publish_judgement :
    ReconciliationResult
    → Option ExecutionEnvelope
    → RealizationCommit
    → String
    → Bool
    → Bool
    → Judgement
    → Call (Option ProjectionDecision)
publish_judgement r envelope c retention failed unavailable g = do
  ref ← in_journal (new_id "projection")
  e ← need envelope
  d ← in_journal (gets (built_decision r e c retention failed unavailable g ref))
  event ← projection_event unavailable d r e g
  in_journal (publish d event (if is_project g.decision then some e.target_state else none))
  stop_unless_applied d g
  pure (some d)

-- In the slot that is reserved.
unfoldable pub project_into :
    ReconciliationResult
    → Option ExecutionEnvelope
    → RealizationCommit
    → String
    → Call (Option ProjectionDecision)
project_into r envelope c retention = do
  before ← need (← get_run (λ r. r.before))
  g ← judge_outcome r before.snapshot_id r.outcome
  fault ← get_faults (λ f. f.publication_fault)
  let failed = publication_fails g.decision fault
  publish_judgement r envelope c retention failed (failed && fault == "event") (settled fault g)

-- On the attributes that the runtime has when it calls.
unfoldable pub project_run : Run → Call (Option ProjectionDecision)
project_run run = do
  retention ← in_journal (new_id "outcome-slot")
  r ← need run.reconciliation
  c ← need run.commit
  unavailable ← get_faults (λ f. f.retention_unavailable)
  reserved ← in_journal (reserve retention (r.reconciliation_id ∷ c.commit_id ∷ []) unavailable)
  if not reserved
      then (do
        stop Control.hold_ambiguous "OUTCOME_RETENTION_UNAVAILABLE" (r.reconciliation_id ∷ [])
        pure none)
      else project_into r run.envelope c retention

unfoldable pub project : Call (Option ProjectionDecision)
project = do run ← get_run (λ r. r); project_run run
