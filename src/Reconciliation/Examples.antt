-- ===== src/Reconciliation/Examples.antt =====
-- A concrete reconciliation that succeeds.
use gsrr_agent_harness.Prelude.{
  ◌≡◌, refl, none, some, [], ◌∷◌, true, false, decide, String-discrete,
}
use gsrr_agent_harness.Exec.{Result, ◌>>=◌}
use gsrr_agent_harness.Contracts.Enums.{Outcome, Report}
use gsrr_agent_harness.Contracts.Effects.{Action, Action-discrete, ObservedState}
use gsrr_agent_harness.Contracts.Planning.{AuthoritativeStateSnapshot}
use gsrr_agent_harness.Contracts.Results.{ExecutionResult, ReconciliationResult}
use gsrr_agent_harness.Contracts.Record.{Record, Record-discrete, comparable, same_record}
use gsrr_agent_harness.Journal.Defs.{
  Journal, new_journal, new_id, id_text, lookup, or_key_error, get, is_null, keep_record, retain,
}
use gsrr_agent_harness.Samples.{artifact_by, envelope}
use gsrr_agent_harness.Governance.Validation.{is_retained}
use gsrr_agent_harness.Reconciliation.Evidence.{
  is_forbidden, forbidden_of, counts, is_logged, is_complete, attribution, is_stale, is_identity,
  is_target,
}
use gsrr_agent_harness.Reconciliation.Reconcile.{
  findings_of, built_reconciliation, outcome_of, conclude, reconcile,
}
use gsrr_agent_harness.Reconciliation.Closed.{IsClosed}
use gsrr_agent_harness.Reconciliation.Agreed.{IsAgreed}
use gsrr_agent_harness.Reconciliation.Effect.{IsEffect}
use gsrr_agent_harness.Reconciliation.Success.{reconcile-IsEffect}

abbrev action : Action
action = record {
  sequence = 1;
  invocation_id = "run-1:commit:11";
  object_id = "DOC-001";
  action_kind = "STATE";
  requested_value = "REVIEW";
  applied = true;
  before_state = "DRAFT";
  after_state = "REVIEW";
  before_exists = true;
  after_exists = true;
  before_digest = "fixture-content-digest";
  after_digest = "fixture-content-digest";
  before_version = 1;
  after_version = 2;
  reason = none;
}

abbrev baseline : ObservedState
baseline = record {
  snapshot_id = "run-1:observation:2";
  provider_id = "STATE_PROVIDER";
  object_id = "DOC-001";
  state = "DRAFT";
  exists = true;
  content_digest = "fixture-content-digest";
  observation_version = 1;
  predecessor_version = none;
  commit_id = none;
  read_sequence = 1;
  action_log_ref = none;
  interval_start = none;
  interval_end = none;
  interval_closed = none;
  complete_for_invocation = none;
  fixture_boundary_ref = "fixture-boundary";
  actions = none;
  conflicting = false;
  conflicting_snapshot_ref = none;
}

abbrev after : ObservedState
after = record baseline {
  snapshot_id = "run-1:observation:14";
  state = "REVIEW";
  observation_version = 2;
  predecessor_version = some 1;
  commit_id = some "run-1:commit:11";
  read_sequence = 3;
  action_log_ref = some "run-1:commit:11:interval";
  interval_start = some 0;
  interval_end = some 1;
  interval_closed = some true;
  complete_for_invocation = some true;
  actions = some (action ∷ []);
}

abbrev before : AuthoritativeStateSnapshot
before = record {
  artifact = artifact_by "STATE_PROVIDER";
  snapshot_id = "run-1:authority:3";
  provider_id = "STATE_PROVIDER";
  object_id = "DOC-001";
  state = "DRAFT";
  authority_version = 1;
  observed_baseline_ref = "run-1:observation:2";
  exists = true;
  content_digest = "fixture-content-digest";
  definition_ref = "domain.document-review.fixture.v0_1";
  read_sequence = 2;
}

abbrev execution : ExecutionResult
execution = record {
  artifact = artifact_by "EXECUTION_RUNTIME";
  result_id = "run-1:execution:13";
  commit_id = "run-1:commit:11";
  plan_id = "run-1:plan:9";
  capability_id = "SUBMIT_FOR_REVIEW";
  implementation_id = "fixture.submit_for_review.v0_1";
  object_id = "DOC-001";
  expected_observation_version = 1;
  dispatch_started = true;
  reported_status = Report.success;
  error_or_null = none;
  idempotency_key = "run-1:key";
  event_ref = "run-1:event:12";
  invocation_id = "run-1:commit:11";
  dispatched_payload_ref = "run-1:payload";
  action_interval_ref = some "run-1:commit:11:interval";
}

-- The journal with the interval's actions.
abbrev executed : Journal
executed =
    let j = new_journal "run-1" in
    record j {
      serial = 14;
      aggregate = record j.aggregate {
        records = ("run-1:commit:11:interval", Record.actions (action ∷ [])) ∷ [];
      };
    }

abbrev result : ReconciliationResult
result =
    built_reconciliation envelope before execution (some after) 1
      (findings_of envelope before baseline execution (some after) 1 true (false, false))
      "run-1:reconciliation:15" executed

reconciled :
    reconcile envelope before baseline execution (some after) 1 executed
    ≡ (Result.ok result, (reconcile envelope before baseline execution (some after) 1 executed).1)
unfolding reconcile is_complete counts is_logged is_retained get or_key_error lookup same_record
    comparable Record-discrete Action-discrete String-discrete decide attribution conclude new_id
    id_text retain keep_record is_null ◌>>=◌
reconciled = refl

succeeded : result.outcome ≡ Outcome.reconciled_success
unfolding outcome_of forbidden_of is_forbidden is_stale is_identity is_target
succeeded = refl

reconcile-IsEffect_example :
    (o : ObservedState) × (some after ≡ some o)
    × IsEffect envelope before baseline execution o 1
    × IsClosed execution o executed
    × IsAgreed o executed
reconcile-IsEffect_example =
    reconcile-IsEffect envelope before baseline execution (some after) 1 executed
      (reconcile envelope before baseline execution (some after) 1 executed).1 result reconciled
      succeeded
