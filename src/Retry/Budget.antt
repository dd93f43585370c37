-- ===== src/Retry/Budget.antt =====
-- src/gsrr_slice01/retry.py: where the circuit stays closed, one more attempt is within the budget.
use gsrr_agent_harness.Prelude.{
  ℕ, ◌+◌, ◌≤◌, String, ◌≡◌, refl, sym, subst, Bool, true, false, Option, none, some, [], ◌∷◌, ◌++◌,
  arith, length, last, length-append, ◌==◌, string_eq,
}
use gsrr_agent_harness.Exec.{pure, raise}
use gsrr_agent_harness.Exec.Triple.{
  Triple, Triple-if, Triple-bind, Triple-pure, Triple-weaken, Triple-pre,
}
use gsrr_agent_harness.Shared.{Shared}
use gsrr_agent_harness.Contracts.Values.{Scalar}
use gsrr_agent_harness.Contracts.Domain.{RetryPolicy}
use gsrr_agent_harness.Contracts.Attempts.{Attempt, ScopeLedger}
use gsrr_agent_harness.Retry.Defs.{Supervisor}
use gsrr_agent_harness.Retry.Lifecycle.{fresh_attempt}
use gsrr_agent_harness.Retry.Eligibility.{at_least, or_type_error, over_threshold, exhausted}
use gsrr_agent_harness.Retry.Successor.{allocated}
use gsrr_agent_harness.Retry.Frame.{IsSteady}
use gsrr_agent_harness.Retry.Chain.{Chained-append}
use gsrr_agent_harness.Retry.Invariant.{Counts, limit, budget, IsScope, IsScope-steady}

-- The last attempt is terminal, and `l` is the scope's ledger.
pub record IsDue (a : Attempt) (l : ScopeLedger) (s : Supervisor) : Type 0 where
  pub scope : IsScope s
  pub ledger : some l ≡ s.ledger
  pub last_attempt : last s.attempts ≡ some a
  pub closed : a.terminal ≡ true

module _ (a : Attempt) (l : ScopeLedger) where
  pub IsDue-steady : IsSteady (IsDue a l)
  IsDue-steady c s h = record {
    scope = IsScope-steady c s h.scope;
    ledger = h.ledger;
    last_attempt = h.last_attempt;
    closed = h.closed;
  }

-- The budget leaves room: `attempts_created >= max_attempts` is false.
abbrev pub Room : RetryPolicy → ScopeLedger → Type 0
Room p l = at_least l.attempts_created p.max_attempts ≡ some false

-- Where the count is below the policy's bound, one more attempt is within the budget.
room-budget : (bound : Scalar) (n : ℕ) → at_least n bound ≡ some false → 1 ≤ n → n + 1 ≤ limit bound
room-budget Scalar.null n h g = cc
room-budget (Scalar.bool true) n h g = ground arith
room-budget (Scalar.bool false) n h g = ground arith
room-budget (Scalar.int m) n h g = ground arith
room-budget (Scalar.negative m) n h g = cc
room-budget (Scalar.text t) n h g = cc

pub allocated-IsScope :
    (a : Attempt) (l : ScopeLedger) (p : RetryPolicy) (ref : String) (s : Supervisor)
    → (IsDue a l s × (some p ≡ s.policy)) × Room p l
    → IsScope (allocated l (fresh_attempt ref (l.attempts_created + 1) (some a.attempt_id)) s)
allocated-IsScope a l p ref s h =
    let new = fresh_attempt ref (l.attempts_created + 1) (some a.attempt_id) in
    let c =
      subst (λ (x : Option ScopeLedger). Counts x s.attempts) (sym h.0.0.ledger)
        h.0.0.scope.counts in
    let longer = length-append s.attempts (new ∷ []) in
    record {
      chain =
          Chained-append none 0 s.attempts a new h.0.0.last_attempt h.0.0.closed (omega arith) refl
            h.0.0.scope.chain;
      counts = (omega arith, omega arith);
      bounded =
          subst (λ (x : Option RetryPolicy). length (s.attempts ++ new ∷ []) ≤ budget x) h.0.1
            (subst (λ (k : ℕ). k ≤ limit p.max_attempts) (sym longer)
              (room-budget p.max_attempts (length s.attempts)
                (subst (λ (k : ℕ). at_least k p.max_attempts ≡ some false) c.0 h.1) c.1));
    }

-- A test that neither reads nor writes the state leaves what is said of it.
or_type_error-Triple :
    {P E : Shared Supervisor → Type 0} (o : Option Bool)
    → ((s : Shared Supervisor) → P s → E s)
    → Triple P (or_type_error o) (λ b s. P s × (o ≡ some b)) E
unfolding or_type_error raise pure
or_type_error-Triple none e = record { at = e }
or_type_error-Triple (some b) e = record { at = λ s h. (h, refl) }

over_threshold-Triple :
    {P E : Shared Supervisor → Type 0} (failures : ℕ) (threshold : Scalar)
    → ((s : Shared Supervisor) → P s → E s)
    → Triple P (over_threshold failures threshold) (λ b. P) E
unfolding over_threshold pure
over_threshold-Triple failures Scalar.null e = record { at = λ s h. h }
over_threshold-Triple failures t e =
    Triple-weaken _ (λ s h. h) (λ b s h. h.0) (λ s h. h)
      (or_type_error-Triple (at_least failures t) e)

-- Where the circuit does not open, there is room for one more attempt.
pub exhausted-Triple :
    {P E : Shared Supervisor → Type 0} (p : RetryPolicy) (l : ScopeLedger) (failures : ℕ)
    → ((s : Shared Supervisor) → P s → E s)
    → Triple P (exhausted p l failures) (λ b s. P s × (b ≡ false → Room p l)) E
unfolding exhausted
exhausted-Triple {P} {E} p l failures e =
    Triple-if (l.circuit_state == "OPEN") _ _
      (λ _. Triple-pre _ (λ s h. (h, λ f. cc)) (Triple-pure true))
      (λ _.
        Triple-bind _ _ (or_type_error-Triple (at_least l.attempts_created p.max_attempts) e)
          λ full.
            Triple-if full _ _ (λ _. Triple-pre _ (λ s h. (h.0, λ f. cc)) (Triple-pure true))
              (λ below.
                Triple-weaken _ (λ s h. h) (λ b s h. (h.0, λ _. cc (h.1, below))) (λ s h. h)
                  (over_threshold-Triple
                    {P = λ s. P s × (at_least l.attempts_created p.max_attempts ≡ some full)}
                    failures p.repeated_failure_threshold_or_null (λ s h. e s h.0))))
