-- ===== src/Runtime/Project/Judging.antt =====
-- src/gsrr_slice01/reconciliation.py: what `project` judges before it publishes.
use gsrr_agent_harness.Prelude.{
  ℕ, String, Bool, true, false, ◌&&◌, ◌||◌, Option, none, some, List, [], ◌∷◌, ◌++◌, ◌==◌,
  string_eq, if◌then◌else◌,
}
use mathlib.Core.Option
use gsrr_agent_harness.Exec.{pure, ◌>>=◌, ◌>>◌}
use gsrr_agent_harness.Contracts.Values.{Check}
use gsrr_agent_harness.Contracts.Enums.{Control, control_value, Outcome, outcome_value, Decision}
use gsrr_agent_harness.Contracts.Effects.{ObservedState}
use gsrr_agent_harness.Contracts.Planning.{AuthoritativeStateSnapshot}
use gsrr_agent_harness.Contracts.Results.{ReconciliationResult}
use gsrr_agent_harness.Governance.Checks.{check}
use gsrr_agent_harness.Runtime.Defs.{Call}
use gsrr_agent_harness.Runtime.Inject.{inject}
use gsrr_agent_harness.Runtime.Fresh.{Freshness, fresh}

-- What is known once the final read is done, or left out.
pub record Judgement : Type 0 where
  pub decision : Decision
  pub reason : String
  pub checks : List Check
  pub refs : List String
  pub authority : Option ℕ
  pub observation : Option ℕ

abbrev pub unread : Decision → String → String → ReconciliationResult → String → Judgement
unread decision reason note r before_id = record {
  decision = decision;
  reason = reason;
  checks = r.checks ++ check "FINAL_READ" none (r.reconciliation_id ∷ []) note ∷ [];
  refs = before_id ∷ [];
  authority = none;
  observation = none;
}

abbrev pub control_decision : Control → Decision
control_decision Control.fail_nonretryable = Decision.do_not_project
control_decision Control.human_authorization_required = Decision.do_not_project
control_decision Control.pass = Decision.project
control_decision _ = Decision.hold_projection

abbrev pub snapshot_refs : Option ObservedState → Option AuthoritativeStateSnapshot → List String
snapshot_refs none none = []
snapshot_refs none (some s) = s.snapshot_id ∷ []
snapshot_refs (some o) none = o.snapshot_id ∷ []
snapshot_refs (some o) (some s) = o.snapshot_id ∷ s.snapshot_id ∷ []

-- The judgement of the final read.
abbrev pub final_judgement : ReconciliationResult → String → Freshness → Judgement
final_judgement r before_id f = record {
  decision = control_decision f.control;
  reason = control_value f.control;
  checks = r.checks ++ f.checks;
  refs = before_id ∷ snapshot_refs f.observed f.snapshot;
  authority = Option.map (λ s. s.authority_version) f.snapshot;
  observation = Option.map (λ o. o.observation_version) f.observed;
}

-- The chain of tests on the reconciliation's outcome.
unfoldable pub judge_outcome : ReconciliationResult → String → Outcome → Call Judgement
judge_outcome r before_id Outcome.reconciled_success = do
  inject "final"
  f ← fresh true false
  pure (final_judgement r before_id f)
judge_outcome r before_id Outcome.reconciliation_failed = pure (
    unread Decision.do_not_project "RECONCILIATION_FAILED" "NOT_EVALUATED: failed reconciliation" r
      before_id)
judge_outcome r before_id outcome = pure (
    unread Decision.hold_projection (outcome_value outcome)
      "NOT_EVALUATED: non-success reconciliation" r before_id)

abbrev pub is_project : Decision → Bool
is_project Decision.project = true
is_project _ = false

abbrev pub is_hold : Decision → Bool
is_hold Decision.hold_projection = true
is_hold _ = false

-- `failed`
abbrev pub publication_fails : Decision → String → Bool
publication_fails decision fault =
    is_project decision && (fault == "write" || fault == "event" || fault == "publication")

-- The judgement that a publication fault leaves.
abbrev pub settled : String → Judgement → Judgement
settled fault g =
    if publication_fails g.decision fault
    then record g { decision = Decision.do_not_project; reason = "PUBLICATION_FAILED" }
    else g
