-- ===== src/Runtime/Judged.antt =====
-- src/gsrr_slice01/runtime.py and reconciliation.py: the final read passes at the version of the state
-- before, and at no other.
use gsrr_agent_harness.Prelude.{
  ℕ, String, ◌≡◌, refl, sym, ◌∙◌, Bool, true, false, not, not-false, ◌&&◌, Option, none, some, List,
  ◌==◌, nat_eq, nat_beq_eq, string_eq,
}
use gsrr_agent_harness.Exec.{pure, raise, gets}
use gsrr_agent_harness.Exec.Keeps.{preserving, Keeps}
use gsrr_agent_harness.Exec.Triple.{
  Triple, Triple-bind, Triple-pure, Triple-keeps, Triple-weaken, Triple-pre, Triple-if,
  Triple-given,
}
use gsrr_agent_harness.Shared.{Shared, own_gets}
use gsrr_agent_harness.Contracts.Values.{Check}
use gsrr_agent_harness.Contracts.Enums.{Control, Outcome}
use gsrr_agent_harness.Contracts.Effects.{ObservedState}
use gsrr_agent_harness.Contracts.Planning.{AuthoritativeStateSnapshot}
use gsrr_agent_harness.Contracts.Results.{ReconciliationResult}
use gsrr_agent_harness.Retry.Defs.{Supervisor}
use gsrr_agent_harness.Retry.Lifecycle.{need}
use gsrr_agent_harness.Governance.Validation.{and_then}
use gsrr_agent_harness.Governance.Journaled.{and_then-Keeps}
use gsrr_agent_harness.Runtime.Defs.{Run, Runtime, Call, get_run}
use gsrr_agent_harness.Runtime.Fresh.{same_state, fresh_authority, fresh_observed, fresh}
use gsrr_agent_harness.Runtime.Project.{control_decision, is_project, judge_outcome}
use gsrr_agent_harness.Runtime.Parts.{steady_rules, get_run-Steady, observe-Steady, inject-Steady}
use gsrr_agent_harness.Runtime.Steps.{
  same_history-Steady, fresh_authority-Steady, effect_checks_of-Steady,
}
use gsrr_agent_harness.Runtime.Founded.{Founded, Held, Held-Stable, Held-snapshot}

-- A state before, if there is one, that was read at version 1.
abbrev Based : Option AuthoritativeStateSnapshot → Type 0
Based none = Unit
Based (some b) = b.authority_version ≡ 1

Founded-Based : (b : Option AuthoritativeStateSnapshot) (s : Supervisor) → Founded b s → Based b
Founded-Based none s h = tt
Founded-Based (some b) s h = h.0

need-Based :
    {P : Shared Runtime → Type 0} (b : Option AuthoritativeStateSnapshot)
    → Based b
    → Triple P (need b) (λ a s. P s × (a.authority_version ≡ 1)) P
unfolding need raise pure
need-Based none h = record { at = λ s p. p }
need-Based (some b) h = record { at = λ s p. (p, h) }

and_then-Triple :
    {P : Shared Runtime → Type 0} (R : Type 0) (m k : Call Bool)
    → Triple P m (λ b s. P s × (b ≡ true → R)) P
    → Triple P k (λ _. P) P
    → Triple P (and_then m k) (λ b s. P s × (b ≡ true → R)) P
unfolding and_then
and_then-Triple R m k first second = Triple-bind _ _ first λ b.
    Triple-if b _ _
      (λ e. record {
        at = λ s h.
            (Triple-weaken k (λ s p. p) (λ _ s p. (p, λ _. h.1 e)) (λ s p. p) second).at s h.0;
      })
      (λ e. Triple-pre _ (λ s h. (h.0, λ e. cc)) (Triple-pure false))

left_true : (a b : Bool) → a && b ≡ true → a ≡ true
left_true true b e = refl
left_true false b e = e

equal_versions : (a b : ℕ) (same : Bool) {n : ℕ} → a ≡ n → b ≡ 1 → (a == b && same) ≡ true → n ≡ 1
equal_versions a b same p q e = sym p ∙ nat_beq_eq a b (left_true (a == b) same e) ∙ q

abbrev Decides : ℕ → Control → Type 0
Decides n control = is_project (control_decision control) ≡ true → n ≡ 1

module _ (n : ℕ) where
  Kept :
      {A : Type 0} (m : Call A)
      → Keeps (preserving (Held n)) m
      → Triple (Held n) m (λ a. Held n) (Held n)
  Kept m k = Triple-keeps m k

  same_state-Held :
      (final : Bool) (o : ObservedState) (a : AuthoritativeStateSnapshot) (r : Run)
      → a.authority_version ≡ n
      → Based r.before
      → Triple
          (Held n)
          (same_state final o a r)
          (λ same s. Held n s × (same ≡ true → n ≡ 1))
          (Held n)
  unfolding same_state
  same_state-Held final o a r e based =
      let k = Held-Stable n in
      and_then-Triple (n ≡ 1) _ _
        (Triple-bind _ _ (need-Based r.before based) λ b. Triple-given λ q.
          Triple-pre _ (λ s h. (h, equal_versions a.authority_version b.authority_version _ e q))
            (Triple-pure _))
        (Triple-keeps _ (search (and_then-Keeps, steady_rules) depth 12))

  fresh_authority-Held :
      (retry : Bool) (checks : List Check) (o : ObservedState) (a : AuthoritativeStateSnapshot)
      (c : Check) (r : Run)
      → n ≡ 1
      → Triple
          (Held n)
          (fresh_authority retry checks o a c r)
          (λ f s. Held n s × Decides n f.control)
          (Held n)
  fresh_authority-Held retry checks o a c r e =
      Triple-weaken _ (λ s h. h) (λ f s h. (h, λ _. e)) (λ s h. h)
        (Triple-keeps _ (fresh_authority-Steady retry checks o a c r _ (Held-Stable n)))

  get_run-Held : Triple (Held n) (get_run (λ r. r)) (λ r s. Held n s × Based r.before) (Held n)
  unfolding get_run own_gets gets
  get_run-Held = record { at = λ s h. (h, Founded-Based s.own.run.before s.own.supervisor h.0.1) }

  fresh_observed-Held :
      (final retry : Bool) (checks : List Check) (o : Option ObservedState)
      → Triple
          (Held n)
          (fresh_observed final retry checks o)
          (λ f s. Held n s × Decides n f.control)
          (Held n)
  unfolding fresh_observed
  fresh_observed-Held final retry checks none = Triple-pre _ (λ s h. (h, λ e. cc)) (Triple-pure _)
  fresh_observed-Held final retry checks (some o) =
      let k = Held-Stable n in
      Triple-bind _ _ (Kept _ (get_run-Steady _ _ k)) λ d.
        Triple-bind _ _ (Held-snapshot n d o) λ a. Triple-given λ e.
          Triple-bind _ _ get_run-Held λ r. Triple-given λ based.
            Triple-bind _ _
              (and_then-Triple (n ≡ 1) _ _ (same_state-Held final o a r e based)
                (Triple-keeps _ (same_history-Steady final o r _ k)))
              λ same. Triple-given λ equal.
                Triple-if (not same) _ _ (λ _. Triple-pre _ (λ s h. (h, λ e. cc)) (Triple-pure _))
                  (λ e. fresh_authority-Held retry checks o a _ r (equal (not-false same e)))

  fresh-Held :
      (final retry : Bool)
      → Triple (Held n) (fresh final retry) (λ f s. Held n s × Decides n f.control) (Held n)
  unfolding fresh
  fresh-Held final retry =
      let k = Held-Stable n in
      Triple-bind _ _ (Kept _ (effect_checks_of-Steady retry _ k)) λ checks.
        Triple-bind _ _ (Kept _ (get_run-Steady _ _ k)) λ fault.
          Triple-bind _ _ (Kept _ (observe-Steady fault (not final) _ k))
            λ o. fresh_observed-Held final retry checks o

  -- The judgement is to project only where the version is still 1.
  pub judge_outcome-Held :
      (r : ReconciliationResult) (before_id : String) (outcome : Outcome)
      → Triple
          (Held n)
          (judge_outcome r before_id outcome)
          (λ g s. Held n s × (is_project g.decision ≡ true → n ≡ 1))
          (Held n)
  unfolding judge_outcome
  judge_outcome-Held r before_id Outcome.reconciled_success =
      Triple-bind _ _ (Kept _ (inject-Steady "final" _ (Held-Stable n)))
        λ _. Triple-bind _ _ (fresh-Held true false) λ f. Triple-pure _
  judge_outcome-Held r before_id Outcome.reconciliation_failed =
      Triple-pre _ (λ s h. (h, λ e. cc)) (Triple-pure _)
  judge_outcome-Held r before_id outcome = Triple-pre _ (λ s h. (h, λ e. cc)) (Triple-pure _)
