-- ===== src/Reconciliation/Outcome.antt =====
-- src/gsrr_slice01/reconciliation.py: the precedence of the outcomes, and what makes a success.
use gsrr_agent_harness.Prelude.{
  ℕ, String, ◌≡◌, refl, Bool, true, false, Option, none, some, List, [], ◌∷◌, inl, inr, Bool-cases,
  arith, string_eq, nat_eq,
}
use gsrr_agent_harness.Exec.{Result, pure, gets}
use gsrr_agent_harness.Exec.Invert.{>>=-eq-ok}
use gsrr_agent_harness.Contracts.Enums.{Outcome}
use gsrr_agent_harness.Contracts.Effects.{ObservedState}
use gsrr_agent_harness.Contracts.Planning.{AuthoritativeStateSnapshot}
use gsrr_agent_harness.Contracts.Plans.{ExecutionEnvelope}
use gsrr_agent_harness.Contracts.Results.{ExecutionResult, ReconciliationResult}
use gsrr_agent_harness.Contracts.Record.{Record}
use gsrr_agent_harness.Journal.Defs.{Journal, new_id, retain}
use gsrr_agent_harness.Retry.Lifecycle.{is_empty}
use gsrr_agent_harness.Reconciliation.Evidence.{find_record, judge, attribution}
use gsrr_agent_harness.Reconciliation.Reconcile.{Findings, outcome_of, conclude}

-- The findings of a success.
pub record IsClean (f : Findings) : Type 0 where
  pub forbidden : f.forbidden ≡ []
  pub failed : f.failed ≡ false
  pub stale : f.stale ≡ false
  pub ambiguous : f.ambiguous ≡ false
  pub unresolved : f.unresolved ≡ []
  pub identity : f.identity ≡ true
  pub target : f.target ≡ true

is_empty-eq_nil : (xs : List String) → is_empty xs ≡ true → xs ≡ []
is_empty-eq_nil [] h = refl
is_empty-eq_nil (x ∷ xs) h = cc

outcome_flags :
    (f : Findings)
    → outcome_of f ≡ Outcome.reconciled_success
    → (is_empty f.forbidden ≡ true)
      × (f.failed ≡ false)
      × (f.stale ≡ false)
      × (f.ambiguous ≡ false)
      × (is_empty f.unresolved ≡ true)
      × (f.identity ≡ true)
      × (f.target ≡ true)
unfolding outcome_of
outcome_flags f h = ground arith

pub outcome_of-IsClean : (f : Findings) → outcome_of f ≡ Outcome.reconciled_success → IsClean f
outcome_of-IsClean f h =
    let (forbidden, failed, stale, ambiguous, unresolved, identity, target) = outcome_flags f h in
    record {
      forbidden = is_empty-eq_nil f.forbidden forbidden;
      failed = failed;
      stale = stale;
      ambiguous = ambiguous;
      unresolved = is_empty-eq_nil f.unresolved unresolved;
      identity = identity;
      target = target;
    }

pub conclude-outcome :
    (e : ExecutionEnvelope) (before : AuthoritativeStateSnapshot) (result : ExecutionResult)
    (observed : Option ObservedState) (authority_version : ℕ) (f : Findings) (s : Journal)
    {r : ReconciliationResult} {t : Journal}
    → conclude e before result observed authority_version f s ≡ (Result.ok r, t)
    → r.outcome ≡ outcome_of f
unfolding conclude pure gets outcome_of
conclude-outcome e before result observed authority_version f s h =
    let (ref, _, h1) = >>=-eq-ok (new_id "reconciliation") _ s h in
    let (v, built, h2) = >>=-eq-ok (gets _) _ _ h1 in
    let (_, _, h3) = >>=-eq-ok (retain _ _) _ _ h2 in cc (built, h3)

-- An unknown report stays ambiguous.
judge-ambiguous :
    (o : ObservedState) (alternate : Option Record) (s : Journal) {p : Bool × Bool} {t : Journal}
    → judge true o alternate s ≡ (Result.ok p, t)
    → p.0 ≡ true
unfolding judge pure
judge-ambiguous o none s h = cc
judge-ambiguous o (some r) s h = cc

pub attribution-ambiguous :
    (observed : Option ObservedState) (s : Journal) {p : Bool × Bool} {t : Journal}
    → attribution true observed s ≡ (Result.ok p, t)
    → p.0 ≡ true
unfolding attribution pure judge find_record
attribution-ambiguous none s h = cc
attribution-ambiguous (some o) s h = elim (Bool-cases o.conflicting) [
  | inl conflict ↦
      let (alternate, _, judged) =
        >>=-eq-ok (find_record o.conflicting_snapshot_ref) (judge true o) s (rw conflict at h) in
      judge-ambiguous o alternate _ judged
  | inr agreeing ↦ cc (rw agreeing at h)
]
