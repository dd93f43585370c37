-- ===== src/Runtime/Start.antt =====
-- src/gsrr_slice01/runtime.py: the construction of a runtime, `retain_grant`, `stop` and `result`.
use gsrr_agent_harness.Prelude.{
  String, true, Option, none, some, List, [], ◌∷◌, ◌==◌, string_eq, if◌then◌else◌,
}
use gsrr_agent_harness.Exec.{pure, ◌>>=◌, ◌>>◌}
use gsrr_agent_harness.Shared.{Shared, in_journal}
use gsrr_agent_harness.Contracts.Enums.{Control}
use gsrr_agent_harness.Contracts.Values.{Check}
use gsrr_agent_harness.Contracts.Domain.{Definition, AuthorityEvidence, RetryPolicy}
use gsrr_agent_harness.Contracts.Defaults.{default_definition}
use gsrr_agent_harness.Contracts.Record.{Record}
use gsrr_agent_harness.Journal.Defs.{new_journal, new_id, retain}
use gsrr_agent_harness.Retry.Defs.{new_supervisor, retain_policy}
use gsrr_agent_harness.Retry.Lifecycle.{fail}
use gsrr_agent_harness.Fixture.Defs.{FixtureFaults, new_provider}
use gsrr_agent_harness.Fixture.Capability.{new_capability}
use gsrr_agent_harness.Governance.Checks.{profile}
use gsrr_agent_harness.Governance.Building.{descriptor}
use gsrr_agent_harness.Runtime.Defs.{
  RunResult, Run, Runtime, Call, in_supervisor, get_supervisor, get_run, set_run,
}

-- `definition or Definition()`
abbrev pub or_default : Option Definition → Definition
or_default none = default_definition
or_default (some d) = d

abbrev pub new_run : Definition → Option AuthorityEvidence → Run
new_run d grant = record {
  definition = d;
  original_definition = d;
  grant = grant;
  cap_descriptor = none;
  request = none;
  control = Control.pass;
  before = none;
  baseline = none;
  intent = none;
  transition = none;
  approval = none;
  envelope = none;
  plan = none;
  plan_validation = none;
  commit = none;
  execution = none;
  reconciliation = none;
  projection = none;
  observed = none;
  plans = [];
  validations = [];
  index = [];
  dispatch_claims = [];
  injected = [];
  current_read_fault = "";
}

-- The objects of a new runtime, before `__init__` retains anything.
abbrev pub bare_runtime :
    String
    → Option Definition
    → Option AuthorityEvidence
    → Option RetryPolicy
    → FixtureFaults
    → Shared Runtime
bare_runtime run_id definition grant policy faults = record {
  journal = new_journal run_id;
  own = record {
    faults = faults;
    policy = policy;
    supervisor = new_supervisor policy;
    provider = new_provider;
    capability = new_capability;
    planner = record { calls = 0 };
    run = new_run (or_default definition) grant;
  };
}

unfoldable pub retain_human_policy : Option String → Call (Unit {0})
retain_human_policy none = pure tt
retain_human_policy (some ref) =
    if ref == ""
    then pure tt
    else (do in_journal (retain ref (Record.strings ("SUPPLIED_HUMAN_POLICY" ∷ []))); pure tt)

unfoldable pub retain_evidence : Option AuthorityEvidence → Call (Unit {0})
retain_evidence none = pure tt
retain_evidence (some g) = do
  in_journal (retain g.evidence_id (Record.grant g))
  retain_human_policy g.policy_ref

unfoldable pub retain_grant : Call (Unit {0})
retain_grant = do g ← get_run (λ r. r.grant); retain_evidence g

-- The rules and identities that `__init__` retains.
abbrev pub supplied_refs : List String
supplied_refs =
    profile ∷ "selection-policy" ∷ "environment" ∷ "fixture-boundary" ∷ "fixed-input-contract"
    ∷ "authority-contract" ∷ "action-observation-contract" ∷ "STATE_PROVIDER" ∷ "USER-001"
    ∷ "fixture-issuer" ∷ "fixture-human-issuer" ∷ "SUBMIT_FOR_REVIEW"
    ∷ "fixture.submit_for_review.v0_1" ∷ "PLAN_ENVELOPE" ∷ "AUTHORITY" ∷ "HUMAN_SUBJECT"
    ∷ "ENVELOPE_DERIVATION" ∷ "FRESH_STATE" ∷ "NO_ADMISSION_OR_EFFECT" ∷ "ACTION_COMPLETENESS"
    ∷ "NO_FORBIDDEN_ACTION" ∷ "CURRENT_AUTHORITY" ∷ "ATTRIBUTION" ∷ "TARGET_POSTCONDITIONS"
    ∷ "INVOCATION_BINDING" ∷ "FINAL_READ" ∷ "TRANSITION_VALIDITY" ∷ "DOC-001" ∷ []

unfoldable pub retain_supplied : List String → Call (Unit {0})
retain_supplied [] = pure tt
retain_supplied (ref ∷ rest) = do
  in_journal (retain ref (Record.strings ("SUPPLIED_FIXTURE_RULE_OR_IDENTITY" ∷ ref ∷ [])))
  retain_supplied rest

-- What `__init__` does after its assignments.
unfoldable pub init : Call (Unit {0})
init = do
  d ← get_run (λ r. r.definition)
  in_journal (retain d.definition_id (Record.definition d))
  retain_grant
  retain_supplied supplied_refs
  cap ← in_journal (descriptor d)
  set_run (λ r. record r { cap_descriptor = some cap })
  policy ← get_supervisor (λ s. s.policy)
  in_supervisor (retain_policy policy)

-- `result(disposition)`
unfoldable pub result : String → Call RunResult
result disposition = get_run λ r. record {
  disposition = disposition;
  control = r.control;
  commit = r.commit;
  execution = r.execution;
  reconciliation = r.reconciliation;
  projection = r.projection;
}

unfoldable pub stop : Control → String → List String → Call RunResult
stop control reason refs = do
  set_run (λ r. record r { control = control })
  in_supervisor (fail control reason refs true)
  result "TERMINAL"

-- `record_checks`, whose tuple has one reference
unfoldable pub record_checks : List Check → Call String
record_checks checks = do
  ref ← in_journal (new_id "checks")
  in_journal (retain ref (Record.checks checks))
  pure ref
