-- ===== src/Runtime/Prepare/Selection.antt =====
-- src/gsrr_slice01/runtime.py: `prepare`, from the candidates to the transition's validation.
use gsrr_agent_harness.Prelude.{
  ℕ, String, Bool, not, ◌&&◌, none, some, List, [], ◌∷◌, length, ltb, ◌==◌, string_eq, nat_eq,
  if◌then◌else◌,
}
use gsrr_agent_harness.Exec.{pure, gets, ◌>>=◌, ◌>>◌}
use gsrr_agent_harness.Shared.{in_journal}
use gsrr_agent_harness.Contracts.Enums.{Control, Gate}
use gsrr_agent_harness.Contracts.Domain.{Definition}
use gsrr_agent_harness.Contracts.Effects.{ObservedState}
use gsrr_agent_harness.Contracts.Planning.{
  AuthoritativeStateSnapshot, CandidateTransition, CandidateSelection, TransitionValidationResult,
}
use gsrr_agent_harness.Contracts.Record.{Record}
use gsrr_agent_harness.Journal.Defs.{Journal, common, new_id, retain}
use gsrr_agent_harness.Governance.Checks.{profile, check}
use gsrr_agent_harness.Runtime.Defs.{Request, Call, get_run, get_faults}
use gsrr_agent_harness.Runtime.Prepare.Approval.{refuse, report, authorize}

-- `valid`: the allowed edge and its preconditions.
unfoldable pub is_valid_request : Request → AuthoritativeStateSnapshot → ObservedState → Bool
is_valid_request request before baseline =
    request.actor_id == "USER-001"
    && request.object_id == "DOC-001"
    && request.target_state == "REVIEW"
    && (before.state == baseline.state && baseline.state == "DRAFT")
    && baseline.exists
    && before.exists
    && baseline.content_digest == before.content_digest

abbrev pub built_transition_validation :
    Bool
    → Definition
    → CandidateTransition
    → AuthoritativeStateSnapshot
    → ObservedState
    → String
    → Journal
    → TransitionValidationResult
built_transition_validation ok d t before baseline ref j = record {
  artifact = common "DASA" j;
  validation_id = ref;
  transition_id = t.transition_id;
  snapshot_id = before.snapshot_id;
  definition_ref = d.definition_id;
  checked_authority_version = before.authority_version;
  checked_observation_version = baseline.observation_version;
  check_results =
      check "TRANSITION_VALIDITY" (some ok) (t.transition_id ∷ [])
        "allowed edge and complete preconditions"
      ∷ [];
  disposition = if ok then Gate.pass else Gate.refused;
  reasons = "fixture edge" ∷ [];
}

unfoldable pub validate_transition :
    Request → CandidateTransition → AuthoritativeStateSnapshot → ObservedState → Call Bool
validate_transition request t before baseline = do
  d ← get_run (λ r. r.definition)
  let ok = is_valid_request request before baseline
  ref ← in_journal (new_id "validation")
  v ← in_journal (gets (built_transition_validation ok d t before baseline ref))
  in_journal (retain v.validation_id (Record.validation v))
  if not ok
      then refuse Control.fail_nonretryable "INVALID_REQUESTED_WHAT" (v.validation_id ∷ [])
      else (do
        report "TransitionValidated" (v.validation_id ∷ [])
        authorize request t before baseline v.validation_id)

-- `candidates`; a fault adds a second candidate, or takes the only one away.
unfoldable pub candidates_of : ℕ → CandidateTransition → Call (List String)
candidates_of count t =
    if count == 0
    then pure []
    else if ltb 1 count
    then (do
      ref ← in_journal (new_id "transition")
      in_journal (retain ref (Record.transition (record t { transition_id = ref })))
      pure (t.transition_id ∷ ref ∷ []))
    else pure (t.transition_id ∷ [])

abbrev pub built_selection :
    Bool → Bool → List String → CandidateTransition → String → Journal → CandidateSelection
built_selection eligible unknown candidates t ref j = record {
  artifact = common "PCPK" j;
  selection_id = ref;
  considered_transition_ids = candidates;
  selected_transition_id_or_null = if eligible then some t.transition_id else none;
  selection_policy_ref = "selection-policy";
  environment_ref = "environment";
  selection_eligible = if unknown then none else some eligible;
  disposition = if eligible then "SELECTED" else "NO_SELECTION";
  reasons = "supplied one-candidate predicate" ∷ [];
  unresolved_fields = if eligible then [] else "selection" ∷ [];
  sufficiency_policy_ref = profile;
}

unfoldable pub select :
    Request → CandidateTransition → AuthoritativeStateSnapshot → ObservedState → Call Bool
select request t before baseline = do
  count ← get_faults (λ f. f.candidate_count)
  candidates ← candidates_of count t
  unknown ← get_faults (λ f. f.selection_unknown)
  let eligible = length candidates == 1 && not unknown
  ref ← in_journal (new_id "selection")
  x ← in_journal (gets (built_selection eligible unknown candidates t ref))
  in_journal (retain x.selection_id (Record.selection x))
  if not eligible then refuse Control.hold_ambiguous "NO_SELECTION" (x.selection_id ∷ []) else (do
    report "CandidateSelected" (x.selection_id ∷ [])
    validate_transition request t before baseline)
