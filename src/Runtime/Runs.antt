-- ===== src/Runtime/Runs.antt =====
-- Tests: a run that publishes, and what is called after it.
use gsrr_agent_harness.Prelude.{◌+◌, ◌≤◌, ◌≡◌, ◌≢◌, Option, none, some, List, [], ◌∷◌, arith}
use gsrr_agent_harness.Shared.{Shared, in_journal}
use gsrr_agent_harness.Samples.{retry_once}
use gsrr_agent_harness.Contracts.Defaults.{default_grant}
use gsrr_agent_harness.Journal.Defs.{new_id}
use gsrr_agent_harness.Journal.Replay.{publications}
use gsrr_agent_harness.Journal.Versions.{version_of}
use gsrr_agent_harness.Fixture.Defs.{FixtureFaults, no_faults}
use gsrr_agent_harness.Runtime.Defs.{Runtime, default_request}
use gsrr_agent_harness.Runtime.Starting.{new_runtime}
use gsrr_agent_harness.Runtime.Calls.{Method, calls}
use gsrr_agent_harness.Runtime.Projected.{single_projection}
use gsrr_agent_harness.Exec.{Result}
use gsrr_agent_harness.Contracts.Enums.{Mode}
use gsrr_agent_harness.Runtime.Realize.{realize, run}
use gsrr_agent_harness.Contracts.Enums.{Decision}
use gsrr_agent_harness.Contracts.Results.{ProjectionDecision}
use gsrr_agent_harness.Runtime.Project.{project}
use gsrr_agent_harness.Runtime.Justified.{IsSound, project-IsSound}
use gsrr_agent_harness.Runtime.Ending.{realize-ends, run-ends}
use gsrr_agent_harness.Runtime.Unique.{new_id-fresh}

-- A run, and a caller who asks for a second one and for a second projection.
abbrev asked_again : List Method
asked_again =
    Method.run_call 3 default_request "key-1" none
    ∷ Method.project_call
    ∷ Method.run_call 3 default_request "key-2" none
    ∷ Method.project_call
    ∷ []

abbrev started_runtime : Shared Runtime
started_runtime = new_runtime "run-1" none (some default_grant) (some retry_once) no_faults

abbrev one_defect : FixtureFaults
one_defect = record no_faults { plan_defects = "extra_step" ∷ [] }

single_projection_example :
    (publications (calls asked_again started_runtime).journal.aggregate.records ≤ 1)
    × (version_of (calls asked_again started_runtime).journal
        ≡ 1 + publications (calls asked_again started_runtime).journal.aggregate.records)
single_projection_example =
    single_projection "run-1" none (some default_grant) (some retry_once) no_faults asked_again tt

new_id-fresh_example :
    (in_journal
      (new_id "plan")
      (calls asked_again (in_journal (new_id "plan") started_runtime).1)).0
    ≢ (in_journal (new_id "plan") started_runtime).0
new_id-fresh_example = new_id-fresh started_runtime "plan" "plan" asked_again

-- Two attempts are allowed, and the first plan is refused.
realize-ends_example :
    (realize 2 "key-1" (some Mode.explicit_plan) (
      calls
        (Method.prepare_call default_request ∷ [])
        (new_runtime "run-1" none (some default_grant) (some retry_once) one_defect))).0
    ≢ Result.ok none
realize-ends_example =
    realize-ends "run-1" none (some default_grant) (some retry_once) one_defect
      (Method.prepare_call default_request ∷ []) 2 "key-1" (some Mode.explicit_plan) (omega arith)

run-ends_example :
    (run 2 default_request "key-1" none
      (calls [] (new_runtime "run-1" none (some default_grant) (some retry_once) one_defect))).0
    ≢ Result.ok none
run-ends_example =
    run-ends "run-1" none (some default_grant) (some retry_once) one_defect [] 2 default_request
      "key-1" none (omega arith)

-- The state that a run has left, reconciled, with the authority as it was before the publication, so
-- that the projector is asked for the run's publication again, and decides PROJECT.
abbrev unpublished_run : Shared Runtime
unpublished_run =
    let s = calls (Method.run_call 3 default_request "key-1" none ∷ []) started_runtime in
    record s {
      journal = record s.journal {
        aggregate = record s.journal.aggregate { authority_state = "DRAFT"; authority_version = 1 };
      };
    }

-- The final decision of a call of the projector, where there is one.
abbrev final_decision_of : Result (Option ProjectionDecision) → Option Decision
final_decision_of (Result.ok (some d)) = some d.final_decision
final_decision_of r = none

-- It evaluates to `some Decision.project`.
abbrev decided_again : Option Decision
decided_again = final_decision_of (project unpublished_run).0

project-IsSound_example : IsSound unpublished_run.own.run (project unpublished_run).0
project-IsSound_example = project-IsSound unpublished_run
