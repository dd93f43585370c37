-- ===== src/Runtime/Dispatch/Execution.antt =====
-- src/gsrr_slice01/runtime.py: the one invocation of a commit, within `dispatch`.
use gsrr_agent_harness.Prelude.{
  ℕ, String, Bool, true, false, Option, none, some, List, [], ◌∷◌, concat, string_eq, if◌then◌else◌,
}
use gsrr_agent_harness.Exec.{pure, gets, modify, except_value, ◌>>=◌, ◌>>◌}
use gsrr_agent_harness.Shared.{in_journal, own_gets, own_modify}
use gsrr_agent_harness.Contracts.Enums.{Control, Report, report_value, Outcome, outcome_value}
use gsrr_agent_harness.Contracts.Domain.{FixedInput}
use gsrr_agent_harness.Contracts.Effects.{ObservedState}
use gsrr_agent_harness.Contracts.Plans.{ExecutionPlan, RealizationCommit}
use gsrr_agent_harness.Contracts.Results.{ExecutionResult}
use gsrr_agent_harness.Contracts.Record.{Record}
use gsrr_agent_harness.Journal.Defs.{Journal, common, new_id, retain}
use gsrr_agent_harness.Journal.Event
use gsrr_agent_harness.Journal.Event.{EventCall, event}
use gsrr_agent_harness.Retry.Defs.{current}
use gsrr_agent_harness.Retry.Lifecycle.{is_empty, need}
use gsrr_agent_harness.Fixture.Defs.{ActionRequest}
use gsrr_agent_harness.Fixture.Provider.{open_interval, apply, close_interval}
use gsrr_agent_harness.Fixture.Observe.{observe}
use gsrr_agent_harness.Fixture.Capability.{Capability, invoke}
use gsrr_agent_harness.Reconciliation.Reconcile.{reconcile}
use gsrr_agent_harness.Runtime.Defs.{
  request_eq, RunResult, binding_eq, Call, in_supervisor, in_provider, in_capability, get_run,
  set_run, get_faults, get_supervisor,
}
use gsrr_agent_harness.Runtime.Start.{result, stop}
use gsrr_agent_harness.Runtime.Inject.{set_posture, inject}
use gsrr_agent_harness.Runtime.Admit.{first_step}
use gsrr_agent_harness.Runtime.Project.{project}
use gsrr_agent_harness.Runtime.Dispatch.Index.{finish_index}

-- `for action in port.requests: self.provider.apply(...)`
unfoldable pub apply_all : List ActionRequest → FixedInput → Bool → Call (Unit {0})
apply_all [] fixed diagnostic = pure tt
apply_all (action ∷ rest) fixed diagnostic = do
  in_provider (apply action fixed diagnostic)
  apply_all rest fixed diagnostic

-- What the invocation reported, with the text of its ValueError.
abbrev pub Reported : Type 0
Reported = Report × Option String

abbrev pub clear_port : Capability → Capability
clear_port s = record s { requests = [] }

-- `port = RequestPort()` and the guarded call of `invoke`
unfoldable pub invoke_capability : ExecutionPlan → FixedInput → Call Reported
invoke_capability p fixed = do
  faults ← get_faults (λ f. f)
  in_capability (modify clear_port)
  except_value
      (do status ← in_capability (invoke p.realization_mode fixed faults); pure (status, none))
      (λ why. (Report.failure, some why))

abbrev pub posture_after : Report → Bool → String
posture_after Report.unknown idle = "UNKNOWN"
posture_after report idle = if idle then "NONE_ESTABLISHED" else "OCCURRED"

abbrev pub built_execution :
    RealizationCommit
    → Report
    → Option String
    → String
    → String
    → String
    → Journal
    → ExecutionResult
built_execution c status error interval event_id ref j = record {
  artifact = common "EXECUTOR" j;
  result_id = ref;
  commit_id = c.commit_id;
  plan_id = c.execution_plan_id;
  capability_id = c.capability_id;
  implementation_id = c.implementation_id;
  object_id = c.object_id;
  expected_observation_version = c.source_observation_version;
  dispatch_started = true;
  reported_status = status;
  error_or_null = error;
  idempotency_key = c.idempotency_key;
  event_ref = event_id;
  invocation_id = c.commit_id;
  dispatched_payload_ref = concat (c.commit_id ∷ ":payload" ∷ []);
  action_interval_ref = some interval;
}

abbrev pub is_success : Report → Bool
is_success Report.success = true
is_success _ = false

abbrev pub is_unknown_status : Report → Bool
is_unknown_status Report.unknown = true
is_unknown_status _ = false

-- The claim, and the opening of the provider's interval.
unfoldable pub claim_dispatch : RealizationCommit → Call (Unit {0})
claim_dispatch c = do
  set_run (λ r. record r { dispatch_claims = c.idempotency_key ∷ r.dispatch_claims })
  in_journal (
      retain (concat (c.commit_id ∷ ":dispatch-claim" ∷ []))
        (Record.strings (c.commit_id ∷ c.idempotency_key ∷ [])))
  in_supervisor (own_modify (set_posture "POSSIBLE"))
  in_provider (open_interval c.commit_id)

-- The requested actions, the end of the interval, and the posture that they leave.
unfoldable pub apply_requests : ExecutionPlan → FixedInput → Report → Call String
apply_requests p fixed status = do
  requests ← own_gets (λ s. s.capability.requests)
  diagnostic ← get_faults (λ f. f.allow_invalid_writes)
  apply_all requests fixed diagnostic
  interval ← in_provider close_interval
  idle ← own_gets (λ s. is_empty s.provider.actions)
  in_supervisor (own_modify (set_posture (posture_after status idle)))
  pure interval

unfoldable pub retain_execution :
    RealizationCommit → Report → Option String → String → Call ExecutionResult
retain_execution c status error interval = do
  eid ← in_journal (new_id "event")
  ref ← in_journal (new_id "result")
  x ← in_journal (gets (built_execution c status error interval eid ref))
  set_run (λ r. record r { execution = some x })
  in_journal (retain x.result_id (Record.execution x))
  a ← get_supervisor current
  in_journal (
      event (record (Event.event_call "ExecutionCompleted") {
        refs = x.result_id ∷ [];
        outcome = report_value status;
        attempt = a;
        commit = some c.commit_id;
        event_id = some eid;
      }))
  pure x

unfoldable pub stop_unless_success : ExecutionResult → Report → Call (Unit {0})
stop_unless_success x status = if is_success status then pure tt else (do
  stop (if is_unknown_status status then Control.hold_ambiguous else Control.fail_nonretryable)
      (concat ("EXECUTION_" ∷ report_value status ∷ [])) (x.result_id ∷ [])
  pure tt)

abbrev pub observed_version_of : Option ObservedState → Option ℕ
observed_version_of none = none
observed_version_of (some o) = some o.observation_version

abbrev pub set_observed_version : Option ℕ → Journal → Journal
set_observed_version version j = record j { observed_version = version }

abbrev pub is_reconciled : Outcome → Bool
is_reconciled Outcome.reconciled_success = true
is_reconciled _ = false

-- From the observation to the projection.
unfoldable pub conclude_dispatch : ExecutionResult → Call RunResult
conclude_dispatch x = do
  inject "post_execution"
  fault ← get_faults (λ f. f.observation_fault)
  observed ← in_provider (observe fault false)
  set_run (λ r. record r { observed = observed })
  in_journal (modify (set_observed_version (observed_version_of observed)))
  run ← get_run (λ r. r)
  e ← need run.envelope
  before ← need run.before
  baseline ← need run.baseline
  version ← in_journal (gets (λ j. j.aggregate.authority_version))
  r ← in_journal (reconcile e before baseline x observed version)
  set_run (λ s. record s { reconciliation = some r })
  a ← get_supervisor current
  in_journal (
      event
        (record (Event.event_call
          (if is_reconciled r.outcome then "TransitionReconciled" else "ReconciliationFailed")) {
            refs = r.reconciliation_id ∷ [];
            outcome = outcome_value r.outcome;
            attempt = a;
          }))
  d ← project
  set_run (λ s. record s { projection = d })
  finish_index (← result "COMPLETED")

-- The invocation of a commit whose payload is bound and whose state is fresh.
unfoldable pub execute : RealizationCommit → Call RunResult
execute c = do
  claim_dispatch c
  p ← need (← get_run (λ r. r.plan))
  step ← first_step p.steps
  (status, error) ← invoke_capability p step.fixed_input
  interval ← apply_requests p step.fixed_input status
  x ← retain_execution c status error interval
  stop_unless_success x status
  conclude_dispatch x
