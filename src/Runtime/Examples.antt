-- ===== src/Runtime/Examples.antt =====
-- The theorems on the runtime, at one run: a request to submit the document for review, under the
-- default grant and a policy that allows one retry.
use gsrr_agent_harness.Prelude.{◌≡◌, ◌≢◌, ◌≤◌, refl, none, some, List, [], ◌∷◌, string_eq}
use gsrr_agent_harness.Shared.{Shared}
use gsrr_agent_harness.Samples.{artifact_by, retry_once, approval, envelope}
use gsrr_agent_harness.Contracts.Defaults.{default_grant}
use gsrr_agent_harness.Contracts.Enums.{Mode, Control}
use gsrr_agent_harness.Journal.Replay.{first_authority, authority_of, replay}
use gsrr_agent_harness.Retry.Lifecycle.{find, fresh_attempt}
use gsrr_agent_harness.Retry.Invariant.{IsScope}
use gsrr_agent_harness.Fixture.Defs.{FixtureFaults, no_faults}
use gsrr_agent_harness.Runtime.Defs.{Runtime, Binding, default_request}
use gsrr_agent_harness.Runtime.Start.{bare_runtime}
use gsrr_agent_harness.Runtime.Realize.{realize, run}
use gsrr_agent_harness.Runtime.Delegated.{realize-delegated}
use gsrr_agent_harness.Runtime.Starting.{new_runtime}
use gsrr_agent_harness.Runtime.Calls.{Method, calls}
use gsrr_agent_harness.Runtime.Always.{runtime-IsScope, single_invocation, runtime_keeps_records}
use gsrr_agent_harness.Runtime.Again.{dispatch-claimed}
use gsrr_agent_harness.Exec.{Result}
use gsrr_agent_harness.Runtime.Retrieved.{finish_index-lookup}
use gsrr_agent_harness.Runtime.Dispatch
use gsrr_agent_harness.Runtime.Dispatch.{bare_result, finish_index, Presented, dispatch}
use gsrr_agent_harness.Contracts.Domain.{DispatchPayload}
use gsrr_agent_harness.Contracts.Values.{Scalar}
use gsrr_agent_harness.Contracts.Plans.{RealizationCommit}
use gsrr_agent_harness.Contracts.Record.{Record}
use gsrr_agent_harness.Journal.Defs.{lookup}
use gsrr_agent_harness.Runtime.Replayed.{runtime-replay}
use gsrr_agent_harness.Runtime.Once.{run-run}

-- A first plan with a step too many, and a foreign writer just before the final read.
abbrev hard_faults : FixtureFaults
hard_faults = record no_faults {
  plan_defects = "extra_step" ∷ [];
  injections = ("final", "observation") ∷ [];
}

-- A run, and what a caller may try after it.
abbrev session : List Method
session =
    Method.run_call 3 default_request "key-1" none
    ∷ Method.dispatch_call none
    ∷ Method.run_call 3 default_request "key-2" none
    ∷ Method.project_call
    ∷ []

abbrev fresh_runtime : Shared Runtime
fresh_runtime = bare_runtime "run-1" none (some default_grant) (some retry_once) hard_faults

runtime-IsScope_example :
    IsScope
      (calls session (
        new_runtime "run-1" none (some default_grant) (some retry_once) hard_faults)).own.supervisor
runtime-IsScope_example =
    runtime-IsScope "run-1" none (some default_grant) (some retry_once) hard_faults session

single_invocation_example :
    (calls session (
      new_runtime "run-1" none
        (some default_grant)
        (some retry_once)
        hard_faults)).own.provider.invocation_count
    ≤ 1
single_invocation_example =
    single_invocation "run-1" none (some default_grant) (some retry_once) hard_faults session

runtime-replay_example :
    replay
      (calls session (
        new_runtime "run-1" none
          (some default_grant)
          (some retry_once)
          hard_faults)).journal.aggregate.records
      first_authority
    ≡ authority_of
        (calls session (
          new_runtime "run-1" none
            (some default_grant)
            (some retry_once)
            hard_faults)).journal.aggregate
runtime-replay_example =
    runtime-replay "run-1" none (some default_grant) (some retry_once) hard_faults session
      (refl, tt)

run-run_example :
    (run 3 default_request "key-2" none (
      calls
        (Method.dispatch_call none ∷ [])
        (run 3 default_request "key-1" none fresh_runtime).1)).1
    ≡ calls (Method.dispatch_call none ∷ []) (run 3 default_request "key-1" none fresh_runtime).1
unfolding find
run-run_example =
    run-run 3 3 default_request default_request "key-1" "key-2" none none
      (Method.dispatch_call none ∷ []) fresh_runtime refl

abbrev authority_rule : Record
authority_rule = Record.strings ("SUPPLIED_FIXTURE_RULE_OR_IDENTITY" ∷ "AUTHORITY" ∷ [])

abbrev ruled_runtime : Shared Runtime
ruled_runtime = record fresh_runtime {
  journal = record fresh_runtime.journal {
    aggregate = record fresh_runtime.journal.aggregate {
      records = ("AUTHORITY", authority_rule) ∷ [];
    };
  };
}

runtime_keeps_records_example :
    lookup "AUTHORITY" (calls session ruled_runtime).journal.aggregate.records ≡ some authority_rule
unfolding lookup
runtime_keeps_records_example = runtime_keeps_records ruled_runtime session "AUTHORITY" refl

abbrev payload : DispatchPayload
payload = record {
  object_id = "DOC-001";
  source_state = "DRAFT";
  target_state = "REVIEW";
  expected_observation_version = Scalar.int 1;
  capability_id = "SUBMIT_FOR_REVIEW";
  implementation_id = "fixture.submit_for_review.v0_1";
  plan_id = "run-1:plan:12";
  envelope_id = "run-1:envelope:8";
  commit_id = "run-1:commit:20";
  idempotency_key = "key-1";
  invocation_id = "run-1:commit:20";
}

abbrev commit : RealizationCommit
commit = record {
  artifact = artifact_by "GSRR_SLICE_01";
  commit_id = "run-1:commit:20";
  transition_id = "run-1:transition:5";
  object_id = "DOC-001";
  source_state_version = 1;
  source_observation_version = 1;
  target_state = "REVIEW";
  execution_envelope_id = "run-1:envelope:8";
  execution_plan_id = "run-1:plan:12";
  plan_validation_id = "run-1:plan-validation:13";
  authority_evidence_refs = "grant-1" ∷ [];
  idempotency_key = "key-1";
  required_postconditions = [];
  reconciliation_obligation = [];
  status = "COMMITTED";
  event_ref = "run-1:event:21";
  definition_ref = "definition-1";
  actor_id = "USER-001";
  capability_id = "SUBMIT_FOR_REVIEW";
  implementation_id = "fixture.submit_for_review.v0_1";
  dispatch_payload = payload;
  attempt_id = "run-1:attempt:1";
}

-- A runtime whose commit has been claimed, and not yet reconciled.
abbrev claimed_runtime : Shared Runtime
claimed_runtime = record fresh_runtime {
  own = record fresh_runtime.own {
    run = record fresh_runtime.own.run { commit = some commit; dispatch_claims = "key-1" ∷ [] };
  };
}

-- With another payload than the commit's.
dispatch-claimed_example :
    (dispatch
      (some (Presented.typed (record payload { target_state = "APPROVED" })))
      claimed_runtime).1
    ≡ claimed_runtime
dispatch-claimed_example =
    dispatch-claimed (some (Presented.typed (record payload { target_state = "APPROVED" })))
      claimed_runtime refl refl

-- With an entry for the commit's key, and no result yet.
abbrev bound : Binding
bound = record {
  actor_id = "USER-001";
  intent_id = "request-1";
  transition_id = "run-1:transition:5";
  object_id = "DOC-001";
  source_authority_version = 1;
  source_observation_version = 1;
  definition_ref = "definition-1";
  approval_id = "run-1:approval:7";
  envelope_id = "run-1:envelope:8";
  plan_id = "run-1:plan:12";
  plan_validation_id = "run-1:plan-validation:13";
  capability_id = "SUBMIT_FOR_REVIEW";
  implementation_id = "fixture.submit_for_review.v0_1";
  realization_mode = Mode.explicit_plan;
}

abbrev indexed_runtime : Shared Runtime
indexed_runtime = record claimed_runtime {
  own = record claimed_runtime.own {
    run = record claimed_runtime.own.run {
      index = ("key-1", record { request = default_request; binding = bound; result = none }) ∷ [];
    };
  };
}

finish_index-lookup_example :
    (Dispatch.lookup "key-1" default_request none
      (finish_index (bare_result "COMPLETED" Control.pass) indexed_runtime).1).0
    ≡ Result.ok (bare_result "HISTORICAL_RETRIEVAL" Control.pass)
unfolding find
finish_index-lookup_example =
    finish_index-lookup (bare_result "COMPLETED" Control.pass) indexed_runtime refl refl

-- With an approved envelope and an attempt that is running.
abbrev planning_runtime : Shared Runtime
planning_runtime = record indexed_runtime {
  own = record indexed_runtime.own {
    supervisor = record indexed_runtime.own.supervisor {
      attempts = fresh_attempt "run-1:attempt:1" 1 none ∷ [];
    };
    run = record indexed_runtime.own.run {
      request = some default_request;
      approval = some approval;
      envelope = some envelope;
    };
  };
}

realize-delegated_example :
    (realize 1 "key-1" (some Mode.delegated_realization) planning_runtime).0 ≢ Result.ok none
realize-delegated_example = realize-delegated 0 "key-1" planning_runtime
