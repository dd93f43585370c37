-- ===== src/Fixture/Defs.antt =====
-- src/gsrr_slice01/fixture.py: requests, faults, the effect view and the provider's state.
use gsrr_agent_harness.Prelude.{ℕ, String, Bool, true, false, Option, none, List, []}
use gsrr_agent_harness.Contracts.Effects.{Action}
use gsrr_agent_harness.Contracts.Enums.{Report}

pub record ActionRequest : Type 0 where
  pub kind : String
  pub value : String
  pub object_id : String

pub record FixtureFaults : Type 0 where
  pub injections : List (String × String)
  pub candidate_count : ℕ
  pub selection_unknown : Bool
  pub missing_intent : Bool
  pub missing_profile : Bool
  pub initial_read_missing : Bool
  pub plan_defects : List String
  pub actions : Option (List ActionRequest)
  pub allow_invalid_writes : Bool
  pub reported_status : Report
  pub provider_raises : Bool
  pub observation_fault : String
  pub publication_fault : String
  pub retention_unavailable : Bool
  pub commit_retention_failure : Bool
  pub failure_evidence_missing : Bool
  pub scheduling_failure : Bool
  pub payload_substitution : String
  pub delegated_planning_failure : Bool

-- `FixtureFaults()`
abbrev pub no_faults : FixtureFaults
no_faults = record {
  injections = [];
  candidate_count = 1;
  selection_unknown = false;
  missing_intent = false;
  missing_profile = false;
  initial_read_missing = false;
  plan_defects = [];
  actions = none;
  allow_invalid_writes = false;
  reported_status = Report.success;
  provider_raises = false;
  observation_fault = "";
  publication_fault = "";
  retention_unavailable = false;
  commit_retention_failure = false;
  failure_evidence_missing = false;
  scheduling_failure = false;
  payload_substitution = "";
  delegated_planning_failure = false;
}

pub record EffectView : Type 0 where
  pub state : String
  pub exists : Bool
  pub digest : String
  pub version : ℕ
  pub predecessor : Option ℕ
  pub commit_id : Option String

-- `EffectView()`
abbrev pub new_view : EffectView
new_view = record {
  state = "DRAFT";
  exists = true;
  digest = "fixture-content-digest";
  version = 1;
  predecessor = none;
  commit_id = none;
}

pub record Provider : Type 0 where
  pub view : EffectView
  pub actions : List Action
  pub read_count : ℕ
  pub invocation_count : ℕ
  pub current_invocation : Option String
  pub closed : Bool
  pub interval_start : ℕ

-- `Provider(journal)`
abbrev pub new_provider : Provider
new_provider = record {
  view = new_view;
  actions = [];
  read_count = 0;
  invocation_count = 0;
  current_invocation = none;
  closed = false;
  interval_start = 0;
}
