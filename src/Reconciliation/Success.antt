-- ===== src/Reconciliation/Success.antt =====
-- src/gsrr_slice01/reconciliation.py: what a reconciliation that succeeds is sure to have seen.
use gsrr_agent_harness.Prelude.{
  ℕ, ◌≡◌, sym, ap, subst, ◌∙◌, Bool, true, false, Option, some, [], inl, inr, Bool-cases, string_eq,
  nat_eq,
}
use gsrr_agent_harness.Exec.{Result}
use gsrr_agent_harness.Exec.Invert.{>>=-eq-ok}
use gsrr_agent_harness.Contracts.Enums.{Outcome}
use gsrr_agent_harness.Contracts.Effects.{ObservedState}
use gsrr_agent_harness.Contracts.Planning.{AuthoritativeStateSnapshot}
use gsrr_agent_harness.Contracts.Plans.{ExecutionEnvelope}
use gsrr_agent_harness.Contracts.Results.{ExecutionResult, ReconciliationResult}
use gsrr_agent_harness.Journal.Defs.{Journal}
use gsrr_agent_harness.Reconciliation.Evidence.{
  is_unknown_report, is_complete, attribution, unresolved_of,
}
use gsrr_agent_harness.Reconciliation.Agreed.{
  IsAgreed, attribution-IsAgreed, unresolved_of_present, is_complete-unchanged,
}
use gsrr_agent_harness.Reconciliation.Reconcile.{findings_of, reconcile}
use gsrr_agent_harness.Reconciliation.Outcome.{
  outcome_of-IsClean, conclude-outcome, attribution-ambiguous,
}
use gsrr_agent_harness.Reconciliation.Closed.{
  IsClosed, is_complete-IsClosed, unresolved_of_complete,
}
use gsrr_agent_harness.Reconciliation.Effect.{IsEffect, clean-IsEffect}

-- A report that the findings of a success rest on is not unknown.
known_report :
    (result : ExecutionResult) (observed : Option ObservedState) (s : Journal) {p : Bool × Bool}
    {t : Journal}
    → attribution (is_unknown_report result.reported_status) observed s ≡ (Result.ok p, t)
    → p.0 ≡ false
    → is_unknown_report result.reported_status ≡ false
known_report result observed s {p} {t} h clear =
    elim (Bool-cases (is_unknown_report result.reported_status)) [
      | inl unknown ↦ absurd (
          cc (
            attribution-ambiguous observed s
                (subst (λ (b : Bool). attribution b observed s ≡ (Result.ok p, t)) unknown h),
            clear,
          ))
      | inr known ↦ known
    ]

returned_pair :
    {A : Type 0} (r : Result A × Journal) {a : A} → r.0 ≡ Result.ok a → r ≡ (Result.ok a, r.1)
returned_pair (x, u) e = ap (λ y. (y, u)) e

-- An attribution that is not ambiguous, and lacks no evidence, has resolved the conflict.
agreed :
    (result : ExecutionResult) (observed : Option ObservedState) (o : ObservedState) (s : Journal)
    (complete : Bool) (attributed : Bool × Bool)
    → observed ≡ some o
    → is_unknown_report result.reported_status ≡ false
    → (attribution
        (is_unknown_report result.reported_status)
        observed
        (is_complete result observed s).1).0
      ≡ Result.ok attributed
    → attributed.0 ≡ false
    → unresolved_of complete observed attributed.1 ≡ []
    → IsAgreed o s
agreed result observed o s complete attributed e known judged clear resolved =
    let same = (is_complete-unchanged result observed).at s in
    let m = attribution false (some o) in
    let read : (m s).0 ≡ Result.ok attributed =
      rw (sym e, sym known)
        (subst
          (λ (u : Journal).
            (attribution (is_unknown_report result.reported_status) observed u).0
            ≡ Result.ok attributed)
          same judged) in
    attribution-IsAgreed o s (returned_pair (m s) read) clear (
      unresolved_of_present complete o attributed.1 (
        subst (λ (x : Option ObservedState). unresolved_of complete x attributed.1 ≡ []) e
          resolved))

-- Where `reconcile` returns RECONCILED_SUCCESS, the report was SUCCESS, the authority is still at the
-- version of the snapshot before, the result is of the envelope's object and of an invocation with the
-- commit's id, and there is an observation: by STATE_PROVIDER, of the envelope's object at the envelope's
-- boundary, which exists in the envelope's target state, with the baseline's content, one version after
-- the baseline's, by this commit, and with exactly one action, which carries this commit's id, was applied
-- from the baseline's version to the next, and is not a forbidden one; and its action interval is closed
-- and complete for the invocation, counts as many actions as are listed, and has the result's log, under
-- which the journal holds exactly the listed actions, to Python's `==`; and where it reports a conflict,
-- the journal holds the observation that it names, of another version or alike in state, digest and
-- existence.
pub reconcile-IsEffect :
    (e : ExecutionEnvelope) (before : AuthoritativeStateSnapshot) (baseline : ObservedState)
    (result : ExecutionResult) (observed : Option ObservedState) (n : ℕ) (s t : Journal)
    (r : ReconciliationResult)
    → reconcile e before baseline result observed n s ≡ (Result.ok r, t)
    → r.outcome ≡ Outcome.reconciled_success
    → (o : ObservedState) × (observed ≡ some o)
      × IsEffect e before baseline result o n
      × IsClosed result o s
      × IsAgreed o s
unfolding reconcile
reconcile-IsEffect e before baseline result observed n s t r h success =
    let (complete, held, h1) = >>=-eq-ok (is_complete result observed) _ s h in
    let u = (is_complete result observed s).1 in
    let m = attribution (is_unknown_report result.reported_status) observed in
    let (attributed, judged, h2) = >>=-eq-ok m _ u h1 in
    let f = findings_of e before baseline result observed n complete attributed in
    let outcome = conclude-outcome e before result observed n f (m u).1 h2 in
    let clean = outcome_of-IsClean f (sym outcome ∙ success) in
    let known = known_report result observed u (returned_pair (m u) judged) clean.ambiguous in
    let (o, e', effect) =
      clean-IsEffect e before baseline result observed n complete attributed clean known in
    let whole = unresolved_of_complete complete observed attributed.1 clean.unresolved in
    let returned : (is_complete result (some o) s).0 ≡ Result.ok true =
      subst (λ (x : Option ObservedState). (is_complete result x s).0 ≡ Result.ok true) e'
        (held ∙ ap Result.ok whole) in
    (
      o,
      e',
      effect,
      is_complete-IsClosed result o s returned,
      agreed result observed o s complete attributed e' known judged clean.ambiguous
          clean.unresolved,
    )
