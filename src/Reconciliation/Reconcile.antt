-- ===== src/Reconciliation/Reconcile.antt =====
-- src/gsrr_slice01/reconciliation.py: `reconcile`.
use gsrr_agent_harness.Prelude.{
  ℕ, String, Bool, true, false, not, ◌&&◌, ◌||◌, Option, none, some, List, [], ◌∷◌, ◌==◌, string_eq,
  if◌then◌else◌,
}
use mathlib.Core.Option
use gsrr_agent_harness.Exec.{Exec, pure, gets, ◌>>=◌, ◌>>◌}
use gsrr_agent_harness.Contracts.Values.{Check}
use gsrr_agent_harness.Contracts.Enums.{Outcome}
use gsrr_agent_harness.Contracts.Effects.{ObservedState}
use gsrr_agent_harness.Contracts.Planning.{AuthoritativeStateSnapshot}
use gsrr_agent_harness.Contracts.Plans.{ExecutionEnvelope}
use gsrr_agent_harness.Contracts.Results.{ExecutionResult, ReconciliationResult}
use gsrr_agent_harness.Contracts.Record.{Record}
use gsrr_agent_harness.Journal.Defs.{Journal, common, new_id, retain}
use gsrr_agent_harness.Retry.Lifecycle.{is_empty}
use gsrr_agent_harness.Governance.Checks.{profile, check}
use gsrr_agent_harness.Reconciliation.Evidence.{
  is_failure, is_unknown_report, forbidden_of, actions_of, is_complete, attribution, unresolved_of,
  is_stale, is_identity, is_target,
}

-- What the tests found.
pub record Findings : Type 0 where
  pub forbidden : List String
  pub failed : Bool
  pub complete : Bool
  pub unresolved : List String
  pub ambiguous : Bool
  pub stale : Bool
  pub identity : Bool
  pub target : Bool

unfoldable pub outcome_of : Findings → Outcome
outcome_of f =
    if not (is_empty f.forbidden) || f.failed
    then Outcome.reconciliation_failed
    else if f.stale
    then Outcome.stale_state
    else if f.ambiguous
    then Outcome.reconciliation_ambiguous
    else if not (is_empty f.unresolved)
    then Outcome.unresolved
    else if not f.identity || not f.target
    then Outcome.reconciliation_failed
    else Outcome.reconciled_success

abbrev pub conflict_refs : Option String → List String
conflict_refs none = []
conflict_refs (some ref) = if ref == "" then [] else ref ∷ []

abbrev pub evidence_refs : ExecutionResult → Option ObservedState → List String
evidence_refs result none = result.result_id ∷ []
evidence_refs result (some o) =
    result.result_id ∷ o.snapshot_id ∷ conflict_refs o.conflicting_snapshot_ref

abbrev pub reconciliation_checks : Findings → List String → List Check
reconciliation_checks f refs =
    check "ACTION_COMPLETENESS" (if f.complete then some true else none) refs
      "provider-owned closed interval"
    ∷ check "NO_FORBIDDEN_ACTION"
        (if not (is_empty f.forbidden) then some false else if f.complete then some true else none)
        refs "all requested actions, including denied actions"
    ∷ check "CURRENT_AUTHORITY" (some (not f.stale)) refs
        "original authority and own observation lineage"
    ∷ check "ATTRIBUTION" (if f.ambiguous then none else some true) refs
        "conflicting/unknown attribution"
    ∷ check "TARGET_POSTCONDITIONS" (if f.complete && not f.ambiguous then some f.target else none)
        refs "independent state and complete required effect"
    ∷ []

abbrev pub built_reconciliation :
    ExecutionEnvelope
    → AuthoritativeStateSnapshot
    → ExecutionResult
    → Option ObservedState
    → ℕ
    → Findings
    → String
    → Journal
    → ReconciliationResult
built_reconciliation e before result observed authority_version f ref j =
    let refs = evidence_refs result observed in
    record {
      artifact = common "RECONCILER" j;
      reconciliation_id = ref;
      commit_id = result.commit_id;
      approval_id = e.approval_id;
      result_id = result.result_id;
      before_snapshot_id = before.snapshot_id;
      observed_snapshot_ref = Option.map (λ o. o.snapshot_id) observed;
      object_id = e.object_id;
      authority_version_checked = some authority_version;
      observed_version = Option.map (λ o. o.observation_version) observed;
      observed_predecessor_version = Option.bind observed (λ o. o.predecessor_version);
      observed_commit_id = Option.bind observed (λ o. o.commit_id);
      checks = reconciliation_checks f refs;
      required_effect_findings =
          (if f.target then "TARGET_MATCH" else "TARGET_NOT_ESTABLISHED") ∷ [];
      forbidden_effect_findings = f.forbidden;
      postcondition_findings =
          (if f.identity then "IDENTITY_MATCH" else "IDENTITY_NOT_ESTABLISHED") ∷ [];
      outcome = outcome_of f;
      unresolved_fields = f.unresolved;
      sufficiency_policy_ref = profile;
      action_interval_ref = Option.bind observed (λ o. o.action_log_ref);
      fixture_boundary_ref = e.fixture_boundary_ref;
      completeness_findings = (if f.complete then "COMPLETE" else "UNRESOLVED") ∷ [];
      invocation_binding_checks =
          check "INVOCATION_BINDING" (some f.identity) refs "exact invocation" ∷ [];
    }

abbrev pub findings_of :
    ExecutionEnvelope
    → AuthoritativeStateSnapshot
    → ObservedState
    → ExecutionResult
    → Option ObservedState
    → ℕ
    → Bool
    → Bool × Bool
    → Findings
findings_of e before baseline result observed authority_version complete (ambiguous, missing) =
    record {
      forbidden = forbidden_of e (actions_of observed);
      failed = is_failure result.reported_status;
      complete = complete;
      unresolved = unresolved_of complete observed missing;
      ambiguous = ambiguous;
      stale = is_stale before baseline result observed authority_version;
      identity = is_identity e result observed;
      target = is_target e baseline result observed;
    }

-- The retention of the result that the findings make.
unfoldable pub conclude :
    ExecutionEnvelope
    → AuthoritativeStateSnapshot
    → ExecutionResult
    → Option ObservedState
    → ℕ
    → Findings
    → Exec Journal ReconciliationResult
conclude e before result observed authority_version f = do
  ref ← new_id "reconciliation"
  r ← gets (built_reconciliation e before result observed authority_version f ref)
  retain r.reconciliation_id (Record.reconciliation r)
  pure r

unfoldable pub reconcile :
    ExecutionEnvelope
    → AuthoritativeStateSnapshot
    → ObservedState
    → ExecutionResult
    → Option ObservedState
    → ℕ
    → Exec Journal ReconciliationResult
reconcile e before baseline result observed authority_version = do
  complete ← is_complete result observed
  attributed ← attribution (is_unknown_report result.reported_status) observed
  conclude e before result observed authority_version
      (findings_of e before baseline result observed authority_version complete attributed)
