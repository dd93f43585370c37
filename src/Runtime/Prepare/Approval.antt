-- ===== src/Runtime/Prepare/Approval.antt =====
-- src/gsrr_slice01/runtime.py: `prepare`, from the grant's check on.
use gsrr_agent_harness.Prelude.{
  String, Bool, true, false, not, none, some, List, [], ◌∷◌, string_eq, nat_eq, if◌then◌else◌,
}
use gsrr_agent_harness.Exec.{pure, gets, ◌>>=◌, ◌>>◌}
use gsrr_agent_harness.Shared.{in_journal}
use gsrr_agent_harness.Contracts.Values.{Check}
use gsrr_agent_harness.Contracts.Enums.{Control, Gate}
use gsrr_agent_harness.Contracts.Domain.{Definition}
use gsrr_agent_harness.Contracts.Effects.{ObservedState}
use gsrr_agent_harness.Contracts.Planning.{
  AuthoritativeStateSnapshot, CandidateTransition, ApprovedTransition,
}
use gsrr_agent_harness.Contracts.Results.{RuntimeEvent}
use gsrr_agent_harness.Contracts.Record.{Record}
use gsrr_agent_harness.Journal.Defs.{Journal, common, new_id, retain}
use gsrr_agent_harness.Journal.Event
use gsrr_agent_harness.Journal.Event.{EventCall, event}
use gsrr_agent_harness.Retry.Defs.{current}
use gsrr_agent_harness.Retry.Lifecycle.{bind, need}
use gsrr_agent_harness.Retry.Eligibility.{is_pass}
use gsrr_agent_harness.Governance.Grants.{grant_check}
use gsrr_agent_harness.Governance.Building.{envelope}
use gsrr_agent_harness.Runtime.Defs.{Request, Call, in_supervisor, get_run, set_run, get_supervisor}
use gsrr_agent_harness.Runtime.Start.{stop, record_checks}

-- `self.stop(...)`, then `return False`
unfoldable pub refuse : Control → String → List String → Call Bool
refuse control reason refs = do stop control reason refs; pure false

-- `self.journal.event(event_type, refs, attempt=self.supervisor.current)`
unfoldable pub report : String → List String → Call RuntimeEvent
report event_type refs = do
  a ← get_supervisor current
  in_journal (event (record (Event.event_call event_type) { refs = refs; attempt = a }))

abbrev pub built_approval :
    Request
    → Definition
    → CandidateTransition
    → AuthoritativeStateSnapshot
    → ObservedState
    → String
    → List Check
    → String
    → String
    → Journal
    → ApprovedTransition
built_approval request d t before baseline validation_id checks evidence_id ref j = record {
  artifact = common "DASA" j;
  approval_id = ref;
  transition_id = t.transition_id;
  validation_id = validation_id;
  object_id = request.object_id;
  source_authority_version = before.authority_version;
  source_observation_version = baseline.observation_version;
  target_state = request.target_state;
  actor_id = request.actor_id;
  authority_evidence_refs = evidence_id ∷ [];
  definition_ref = d.definition_id;
  authority_check_results = checks;
  disposition = Gate.pass;
}

-- From the grant's check on.
unfoldable pub approve :
    Request
    → CandidateTransition
    → AuthoritativeStateSnapshot
    → ObservedState
    → String
    → List Check
    → Call Bool
approve request t before baseline validation_id checks = do
  d ← get_run (λ r. r.definition)
  ref ← in_journal (new_id "approval")
  g ← need (← get_run (λ r. r.grant))
  a ←
      in_journal
        (gets (built_approval request d t before baseline validation_id checks g.evidence_id ref))
  set_run (λ r. record r { approval = some a })
  in_journal (retain a.approval_id (Record.approval a))
  report "TransitionAuthorized" (a.approval_id ∷ [])
  e ← in_journal (envelope a t d before baseline)
  set_run (λ r. record r { envelope = some e })
  in_supervisor (bind a e)
  pure true

unfoldable pub authorize :
    Request → CandidateTransition → AuthoritativeStateSnapshot → ObservedState → String → Call Bool
authorize request t before baseline validation_id = do
  r ← get_run (λ r. r)
  i ← need r.intent
  let (authority, checks) =
      grant_check r.grant r.definition before.authority_version i.intent_id none
  if not (is_pass authority)
      then (do
        ref ← record_checks checks
        refuse authority "AUTHORITY_REQUIRED" (validation_id ∷ ref ∷ []))
      else approve request t before baseline validation_id checks
