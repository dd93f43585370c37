-- ===== src/Runtime/Prepare.antt =====
-- src/gsrr_slice01/runtime.py: `prepare`, from the request to the bound envelope. Selection and Approval
-- hold its last steps.
mod Approval
mod Selection
unfoldable pub use Approval.*
unfoldable pub use Selection.*
use gsrr_agent_harness.Prelude.{
  String, Bool, true, false, not, ◌||◌, Option, none, some, [], ◌∷◌, if◌then◌else◌,
}
use gsrr_agent_harness.Exec.{Error, gets, modify, raise_if, ◌>>=◌, ◌>>◌}
use gsrr_agent_harness.Shared.{in_journal, own_gets}
use gsrr_agent_harness.Contracts.Enums.{Control}
use gsrr_agent_harness.Contracts.Domain.{Definition, RetryPolicy}
use gsrr_agent_harness.Contracts.Defaults.{valid}
use gsrr_agent_harness.Contracts.Effects.{ObservedState}
use gsrr_agent_harness.Contracts.Planning.{
  StructuredIntent, AuthoritativeStateSnapshot, CandidateTransition,
}
use gsrr_agent_harness.Contracts.Record.{Record}
use gsrr_agent_harness.Journal.Defs.{Journal, common, new_id, retain}
use gsrr_agent_harness.Journal.Event
use gsrr_agent_harness.Retry.Lifecycle.{is_empty, start, need}
use gsrr_agent_harness.Fixture.Observe.{observe, snapshot}
use gsrr_agent_harness.Governance.Checks.{profile}
use gsrr_agent_harness.Runtime.Defs.{
  Request, Call, in_supervisor, in_provider, get_run, set_run, get_faults, get_supervisor,
}
use gsrr_agent_harness.Runtime.Inject.{inject}

abbrev pub built_transition :
    Request
    → Definition
    → StructuredIntent
    → AuthoritativeStateSnapshot
    → ObservedState
    → String
    → Journal
    → CandidateTransition
built_transition request d i before baseline ref j = record {
  artifact = common "GSRR_SLICE_01" j;
  transition_id = ref;
  intent_id = i.intent_id;
  snapshot_id = before.snapshot_id;
  object_id = request.object_id;
  source_state = before.state;
  source_authority_version = before.authority_version;
  source_observation_version = baseline.observation_version;
  target_state = request.target_state;
  definition_ref = d.definition_id;
  rationale = "supplied bounded objective";
  unresolved_fields = [];
}

-- The three assignments to the journal's references.
abbrev pub refer :
    CandidateTransition → AuthoritativeStateSnapshot → ObservedState → Journal → Journal
refer t before baseline j = record j {
  transition_ref = some t.transition_id;
  source_version = some before.authority_version;
  observed_version = some baseline.observation_version;
}

-- From the first reading on.
unfoldable pub propose_transition : Request → ObservedState → Call Bool
propose_transition request baseline = do
  d ← get_run (λ r. r.definition)
  before ← in_provider (snapshot d baseline)
  set_run (λ r. record r { before = some before })
  ref ← in_journal (new_id "transition")
  i ← need (← get_run (λ r. r.intent))
  t ← in_journal (gets (built_transition request d i before baseline ref))
  set_run (λ r. record r { transition = some t })
  in_journal (retain t.transition_id (Record.transition t))
  in_journal (modify (refer t before baseline))
  select request t before baseline

unfoldable pub with_baseline : Request → Option ObservedState → Call Bool
with_baseline request none = refuse Control.hold_ambiguous "MISSING_INITIAL_STATE" []
with_baseline request (some baseline) = propose_transition request baseline

unfoldable pub read_baseline : Request → Call Bool
read_baseline request = do
  inject "initial"
  missing ← get_faults (λ f. f.initial_read_missing)
  baseline ← in_provider (observe (if missing then "missing" else "") true)
  set_run (λ r. record r { baseline = baseline })
  with_baseline request baseline

abbrev pub built_intent : Request → Bool → Journal → StructuredIntent
built_intent request missing j = record {
  artifact = common "GSRR_SLICE_01" j;
  intent_id = request.request_id;
  actor_id = if missing then "" else request.actor_id;
  object_type = "Document";
  object_id = request.object_id;
  objective = "Submit document for review";
  requested_target_state = request.target_state;
  unresolved_fields = if missing then "actor_id" ∷ [] else [];
  sufficiency_policy_ref = profile;
}

unfoldable pub structure : Request → Call Bool
structure request = do
  missing ← get_faults (λ f. f.missing_intent)
  i ← in_journal (gets (built_intent request missing))
  set_run (λ r. record r { intent = some i })
  in_journal (retain i.intent_id (Record.intent i))
  report "IntentStructured" (i.intent_id ∷ [])
  no_profile ← get_faults (λ f. f.missing_profile)
  if not (is_empty i.unresolved_fields) || no_profile
      then refuse Control.hold_ambiguous "MISSING_INPUT_OR_PROFILE" (i.intent_id ∷ [])
      else read_baseline request

abbrev pub is_valid_policy : Option RetryPolicy → Bool
is_valid_policy none = false
is_valid_policy (some p) = valid p

-- What follows the start of the initial attempt.
unfoldable pub check_policy : Request → Call Bool
check_policy request = do
  policy ← own_gets (λ s. s.policy)
  if not (is_valid_policy policy)
      then refuse Control.hold_ambiguous "INVALID_RETRY_POLICY" []
      else structure request

unfoldable pub prepare : Request → Call Bool
prepare request = do
  attempts ← get_supervisor (λ s. s.attempts)
  raise_if (not (is_empty attempts)) (Error.retention_error "request already prepared")
  set_run (λ r. record r { request = some request })
  in_supervisor start
  check_policy request
