-- ===== src/Runtime/Justified.antt =====
-- src/gsrr_slice01/reconciliation.py: what `project` needs to decide PROJECT.
use gsrr_agent_harness.Prelude.{
  String, ◌≡◌, ◌≢◌, ◌⊎◌, inl, inr, refl, Bool, true, false, not, ◌&&◌, Option, none, some, ◌==◌,
  string_eq, if◌then◌else◌,
}
use gsrr_agent_harness.Exec.{Result, raise, gets, pure, ◌>>=◌}
use gsrr_agent_harness.Exec.Triple.{
  Ends, Triple, Triple-weaken, Triple-bind, Triple-pure, Triple-pre, Triple-if,
}
use gsrr_agent_harness.Shared.{Shared, in_journal, own_gets}
use gsrr_agent_harness.Contracts.Enums.{Outcome, Decision}
use gsrr_agent_harness.Contracts.Plans.{ExecutionEnvelope, RealizationCommit}
use gsrr_agent_harness.Contracts.Results.{ReconciliationResult, ProjectionDecision}
use gsrr_agent_harness.Journal.Defs.{Journal}
use gsrr_agent_harness.Retry.Lifecycle.{need}
use gsrr_agent_harness.Runtime.Defs.{Run, Runtime, Call, get_run}
use gsrr_agent_harness.Runtime.Project.{
  Judgement, judge_outcome, settled, publication_fails, built_decision, publish_judgement,
  project_into, project_run, project,
}

abbrev pub Any : Shared Runtime → Type 0
Any s = Unit {0}

-- Nothing is said of a call.
pub any_call : {A : Type 0} {P : Shared Runtime → Type 0} (m : Call A) → Triple P m (λ a. Any) Any
any_call {A = A} m = record { at = λ s h. ends (m s) }
  where
    ends : (r : Result A × Shared Runtime) → Ends (λ a. Any) Any r
    ends (Result.ok a, t) = tt
    ends (Result.err e, t) = tt

-- What is known whatever the state is outlasts a call, and serves what follows.
carry : {A C : Type 0} (m : Call A) → Triple (λ s. C) m (λ a s. C) Any
carry {A = A} {C = C} m = record { at = λ s c. ends c (m s) }
  where
    ends : C → (r : Result A × Shared Runtime) → Ends (λ a s. C) Any r
    ends c (Result.ok a, t) = c
    ends c (Result.err e, t) = tt

pub knowing :
    {A C : Type 0} {Q : A → Shared Runtime → Type 0} (m : Call A)
    → (C → Triple Any m Q Any)
    → Triple (λ s. C) m Q Any
knowing m k = record { at = λ s c. (k c).at s tt }

-- A judgement to project was made of a reconciled success.
abbrev IsEarned : Outcome → Judgement → Type 0
IsEarned outcome g = g.decision ≡ Decision.project → outcome ≡ Outcome.reconciled_success

judge_outcome-IsEarned :
    (r : ReconciliationResult) (before_id : String) (outcome : Outcome)
    → Triple Any (judge_outcome r before_id outcome) (λ g s. IsEarned outcome g) Any
unfolding judge_outcome
judge_outcome-IsEarned r before_id Outcome.reconciled_success =
    Triple-bind _ _ (any_call _)
      λ _. Triple-bind _ _ (any_call _) λ f. Triple-pre _ (λ s h e. refl) (Triple-pure _)
judge_outcome-IsEarned r before_id Outcome.reconciliation_failed =
    Triple-pre _ (λ s h e. absurd (cc)) (Triple-pure _)
judge_outcome-IsEarned r before_id outcome = Triple-pre _ (λ s h e. absurd (cc)) (Triple-pure _)

settled-IsEarned :
    (fault : String) (outcome : Outcome) (g : Judgement)
    → IsEarned outcome g
    → IsEarned outcome (settled fault g)
settled-IsEarned fault outcome g h = go (publication_fails g.decision fault)
  where
    go :
        (b : Bool)
        → IsEarned outcome (
            if b
            then record g { decision = Decision.do_not_project; reason = "PUBLICATION_FAILED" }
            else g)
    go true e = absurd (cc)
    go false e = h e

-- The decision, where there is one, is a PROJECT only of this reconciliation's success.
abbrev IsJustifiedBy : ReconciliationResult → Option ProjectionDecision → Type 0
IsJustifiedBy r none = Unit {0}
IsJustifiedBy r (some d) =
    d.final_decision ≡ Decision.project
    → (r.outcome ≡ Outcome.reconciled_success) × (d.reconciliation_id ≡ r.reconciliation_id)

built :
    {A : Type 0} (f : Journal → A) (Q : A → Type 0)
    → ((j : Journal) → Q (f j))
    → Triple Any (in_journal (gets f)) (λ a s. Q a) Any
unfolding in_journal gets
built f Q h = record { at = λ s _. h s.journal }

publish_judgement-IsJustifiedBy :
    (r : ReconciliationResult) (envelope : Option ExecutionEnvelope) (c : RealizationCommit)
    (retention : String) (failed unavailable : Bool) (g : Judgement)
    → IsEarned r.outcome g
    → Triple Any
        (publish_judgement r envelope c retention failed unavailable g)
        (λ d s. IsJustifiedBy r d)
        Any
unfolding publish_judgement
publish_judgement-IsJustifiedBy r envelope c retention failed unavailable g earned =
    Triple-bind _ _ (any_call _) λ ref. Triple-bind _ _ (any_call _) λ e.
      Triple-bind _ _
        (built (built_decision r e c retention failed unavailable g ref)
          (λ d. IsJustifiedBy r (some d)) (λ j e. (earned e, refl)))
        λ d. Triple-bind _ _ (carry _) λ event.
          Triple-bind _ _ (carry _) λ _. Triple-bind _ _ (carry _) λ _. Triple-pure (some d)

project_into-IsJustifiedBy :
    (r : ReconciliationResult) (envelope : Option ExecutionEnvelope) (c : RealizationCommit)
    (retention : String)
    → Triple Any (project_into r envelope c retention) (λ d s. IsJustifiedBy r d) Any
unfolding project_into
project_into-IsJustifiedBy r envelope c retention = Triple-bind _ _ (any_call _) λ run.
    Triple-bind _ _ (any_call _) λ before.
      Triple-bind _ _ (judge_outcome-IsEarned r before.snapshot_id r.outcome) λ g.
        Triple-bind _ _ (carry _) λ fault. knowing _ λ earned.
          publish_judgement-IsJustifiedBy r envelope c retention
            (publication_fails g.decision fault)
            (publication_fails g.decision fault && fault == "event") (settled fault g)
            (settled-IsEarned fault r.outcome g earned)

-- The decision, where there is one, is a PROJECT only of the success of the run's own reconciliation.
abbrev IsJustified : Run → Option ProjectionDecision → Type 0
IsJustified run d = (r : ReconciliationResult) × (run.reconciliation ≡ some r) × IsJustifiedBy r d

needed : {A : Type 0} (o : Option A) → Triple Any (need o) (λ a s. o ≡ some a) Any
unfolding need raise pure
needed none = record { at = λ s h. tt }
needed (some a) = record { at = λ s h. refl }

project_run-IsJustified : (run : Run) → Triple Any (project_run run) (λ d s. IsJustified run d) Any
unfolding project_run
project_run-IsJustified run = Triple-bind _ _ (any_call _) λ retention.
    Triple-bind _ _ (needed run.reconciliation) λ r. Triple-bind _ _ (carry _) λ c.
      Triple-bind _ _ (carry _) λ unavailable. Triple-bind _ _ (carry _) λ reserved. knowing _ λ e.
        Triple-if (not reserved) _ _
          (λ _.
            Triple-bind _ _ (any_call _) λ _. Triple-pre _ (λ s h. (r, e, tt)) (Triple-pure none))
          (λ _.
            Triple-weaken _ (λ s h. h) (λ d s h. (r, e, h)) (λ s h. h)
              (project_into-IsJustifiedBy r run.envelope c retention))

-- What the projector gives back: a decision is no PROJECT, or the run's reconciliation has succeeded and
-- is the one that the decision names.
abbrev pub IsSound : Run → Result (Option ProjectionDecision) → Type 0
IsSound run (Result.err e) = Unit {0}
IsSound run (Result.ok none) = Unit {0}
IsSound run (Result.ok (some d)) =
    (d.final_decision ≢ Decision.project)
    ⊎ ((r : ReconciliationResult) × (run.reconciliation ≡ some r)
        × (r.outcome ≡ Outcome.reconciled_success)
        × (d.reconciliation_id ≡ r.reconciliation_id))

decision-IsSound :
    (run : Run) (d : ProjectionDecision) (decision : Decision)
    → d.final_decision ≡ decision
    → IsJustified run (some d)
    → IsSound run (Result.ok (some d))
decision-IsSound run d Decision.project e (r, known, justified) =
    let (won, named) = justified e in inr (r, known, won, named)
decision-IsSound run d Decision.hold_projection e h = inl (λ p. cc)
decision-IsSound run d Decision.do_not_project e h = inl (λ p. cc)

-- Whatever state the projector is called in: where it returns a decision, the decision is no PROJECT, or
-- the run's reconciliation has the outcome RECONCILED_SUCCESS and is the one that the decision names.
pub project-IsSound : (s : Shared Runtime) → IsSound s.own.run (project s).0
unfolding project get_run own_gets ◌>>=◌
project-IsSound s = go (project s) ((project_run-IsJustified s.own.run).at s tt)
  where
    go :
        (x : Result (Option ProjectionDecision) × Shared Runtime)
        → Ends (λ d t. IsJustified s.own.run d) Any x
        → IsSound s.own.run x.0
    go (Result.err e, t) h = tt
    go (Result.ok none, t) h = tt
    go (Result.ok (some d), t) h = decision-IsSound s.own.run d d.final_decision refl h
