-- ===== src/Retry/Starting.antt =====
-- src/gsrr_slice01/retry.py: `start` and `bind` keep the supervisor's invariant.
use gsrr_agent_harness.Prelude.{
  String, ◌≡◌, refl, sym, ◌∙◌, Bool, false, not, Option, none, some, List, [], ◌∷◌, arith, last,
}
use gsrr_agent_harness.Exec.{Exec, gets, ◌>>=◌}
use gsrr_agent_harness.Exec.Triple.{Triple, Triple-bind, Triple-raise_if, Triple-keeps, Triple-pre}
use gsrr_agent_harness.Shared.{own_gets, in_journal, in_journal-own, frame, read, write}
use gsrr_agent_harness.Contracts.Attempts.{Attempt, ScopeLedger}
use gsrr_agent_harness.Contracts.Planning.{ApprovedTransition}
use gsrr_agent_harness.Contracts.Plans.{ExecutionEnvelope}
use gsrr_agent_harness.Journal.Defs.{Journal, new_id, retain}
use gsrr_agent_harness.Retry.Defs.{Supervisor, current}
use gsrr_agent_harness.Retry.Lifecycle.{
  bind_scope, policy_text, is_empty, is_some, need, first_ledger, set_bound, set_ledger, start,
  bind, set_attempts, fresh_attempt,
}
use gsrr_agent_harness.Retry.Invariant.{Counts, IsScope, one-le-budget}
use gsrr_agent_harness.Retry.Rules.{I, need-Triple, length-last, scope_rules}

Counts-first :
    (l : Option ScopeLedger) (xs : List Attempt) (a : Attempt)
    → Counts l xs
    → not (is_empty xs) ≡ false
    → Counts l (a ∷ [])
Counts-first none xs a h e = omega arith
Counts-first (some l) [] a h e = absurd (omega arith)
Counts-first (some l) (x ∷ xs) a h e = cc

-- The first attempt, put into a supervisor that has none.
first-IsScope :
    (attempts : List Attempt) (ref : String) (s : Supervisor)
    → (IsScope s × (attempts ≡ s.attempts)) × (not (is_empty attempts) ≡ false)
    → IsScope (set_attempts (fresh_attempt ref 1 none ∷ []) s)
first-IsScope attempts ref s h = record {
  chain = (refl, refl, tt, tt);
  counts =
      Counts-first s.ledger s.attempts (fresh_attempt ref 1 none) h.0.0.counts (rw h.0.1 at h.1);
  bounded = one-le-budget s.policy;
}

pub start-Triple : Triple I start (λ a. I) I
unfolding start
start-Triple = Triple-bind _ _ (read IsScope IsScope (λ s. s.attempts)) λ attempts.
    let P : Supervisor → Type 0 =
      λ o. (IsScope o × (attempts ≡ o.attempts)) × (not (is_empty attempts) ≡ false) in
    Triple-bind _ _ (Triple-raise_if _ _ (λ s h. h.0)) λ _.
      Triple-bind _ _
        (frame P IsScope (in_journal (new_id "attempt")) (in_journal-own P (new_id "attempt"))
          (λ o h. h.0.0))
        λ ref.
          Triple-bind _ _
            (write P IsScope IsScope (set_attempts (fresh_attempt ref 1 none ∷ []))
              (first-IsScope attempts ref))
            λ _. Triple-keeps _ (search scope_rules)

Counts-bound :
    (xs : List Attempt) (ref policy : String) (a : Attempt)
    → Counts none xs
    → last xs ≡ some a
    → Counts (some (first_ledger ref policy a.attempt_id)) xs
Counts-bound xs ref policy a h e = let some_attempt = length-last xs e in (omega arith, omega arith)

-- A bound approval and envelope, in a supervisor without a scope.
abbrev Unbound : Supervisor → Type 0
Unbound s = IsScope s × (s.ledger ≡ none)

is_some-eq-false : {A : Type 0} (o : Option A) → is_some o ≡ false → o ≡ none
is_some-eq-false none h = refl
is_some-eq-false (some a) h = cc

set_bound-Unbound :
    (approval : ApprovedTransition) (envelope : ExecutionEnvelope) (bound : Bool) (s : Supervisor)
    → (IsScope s × (bound ≡ is_some s.ledger)) × (bound ≡ false)
    → Unbound (set_bound approval envelope s)
set_bound-Unbound approval envelope bound s h = (
  record { chain = h.0.0.chain; counts = h.0.0.counts; bounded = h.0.0.bounded },
  is_some-eq-false s.ledger (sym h.0.1 ∙ h.1),
)

first_ledger-IsScope :
    (ref policy : String) (a : Attempt) (s : Supervisor)
    → Unbound s × (last s.attempts ≡ some a)
    → IsScope (set_ledger (first_ledger ref policy a.attempt_id) s)
first_ledger-IsScope ref policy a s h = record {
  chain = h.0.0.chain;
  counts = Counts-bound s.attempts ref policy a (rw h.0.1 at h.0.0.counts) h.1;
  bounded = h.0.0.bounded;
}

Unbound-step :
    {A : Type 0} (m : Exec Journal A)
    → Triple (λ s. Unbound s.own) (in_journal m) (λ a s. Unbound s.own) I
Unbound-step m = frame Unbound IsScope (in_journal m) (in_journal-own Unbound m) (λ o h. h.0)

bind_scope-Triple :
    (approval : ApprovedTransition) (envelope : ExecutionEnvelope) (ref policy : String)
    (a : Attempt)
    → Triple
        (λ s. Unbound s.own × (last s.own.attempts ≡ some a))
        (bind_scope approval envelope ref policy a)
        (λ u. I)
        I
unfolding bind_scope
bind_scope-Triple approval envelope ref policy a =
    Triple-bind _ _
      (write (λ o. Unbound o × (last o.attempts ≡ some a)) IsScope IsScope
        (set_ledger (first_ledger ref policy a.attempt_id)) (first_ledger-IsScope ref policy a))
      λ _. Triple-keeps _ (search scope_rules)

-- From the reads of the policy and of the current attempt on.
bind_current-Triple :
    (approval : ApprovedTransition) (envelope : ExecutionEnvelope) (ref : String)
    → Triple
        (λ s. Unbound s.own)
        (own_gets policy_text >>= λ policy.
          own_gets current >>= λ now. need now >>= bind_scope approval envelope ref policy)
        (λ u. I)
        I
bind_current-Triple approval envelope ref =
    Triple-bind _ _ (read Unbound IsScope policy_text) λ policy.
      Triple-bind _ _ (read (λ o. Unbound o × (policy ≡ policy_text o)) IsScope current) λ now.
        Triple-bind _ _ (need-Triple now (λ s h. h.0.0.0)) λ a.
          Triple-pre _ (λ s h. (h.0.0.0, sym h.0.1 ∙ h.1))
            (bind_scope-Triple approval envelope ref policy a)

pub bind-Triple :
    (approval : ApprovedTransition) (envelope : ExecutionEnvelope)
    → Triple I (bind approval envelope) (λ u. I) I
unfolding bind
bind-Triple approval envelope =
    Triple-bind _ _ (read IsScope IsScope (λ s. is_some s.ledger)) λ bound.
      Triple-bind _ _ (Triple-raise_if _ _ (λ s h. h.0)) λ _.
        Triple-bind _ _
          (write (λ o. (IsScope o × (bound ≡ is_some o.ledger)) × (bound ≡ false)) IsScope Unbound
            (set_bound approval envelope) (set_bound-Unbound approval envelope bound))
          λ _. Triple-bind _ _ (Unbound-step (new_id "scope")) λ ref.
            Triple-bind _ _ (Unbound-step (gets (λ j. j.run_id))) λ run.
              Triple-bind _ _ (Unbound-step (retain ref _))
                λ _. bind_current-Triple approval envelope ref
