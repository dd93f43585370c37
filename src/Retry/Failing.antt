-- ===== src/Retry/Failing.antt =====
-- src/gsrr_slice01/retry.py: `fail` and `admission` keep the supervisor's invariant.
use gsrr_agent_harness.Prelude.{
  String, ◌≡◌, refl, sym, Bool, true, false, if◌then◌else◌, Option, none, some, List, arith, length,
  last,
}
use gsrr_agent_harness.Exec.Triple.{
  Triple, Triple-if, Triple-bind, Triple-raise_if, Triple-keeps, Triple-pre,
}
use gsrr_agent_harness.Shared.{read, write}
use gsrr_agent_harness.Contracts.Enums.{Control}
use gsrr_agent_harness.Contracts.Attempts.{Attempt, ScopeLedger}
use gsrr_agent_harness.Retry.Defs.{Supervisor, current, set_control}
use gsrr_agent_harness.Retry.Lifecycle.{
  deactivated, replace_last, terminated, set_failure_ref, fail_current, admitted, release_scope,
  set_ledger, fail, fail_attempt, admission, admit_scope, set_attempts,
}
use gsrr_agent_harness.Retry.Invariant.{Counts, IsScope}
use gsrr_agent_harness.Retry.Chain.{Chained-replace_last, length-replace_last}
use gsrr_agent_harness.Retry.Rules.{
  I, need-Triple, ledger-IsScope, scope_rules, IsScope-remember, IsScope-emit, IsScope-journal,
}

Counts-length :
    (l : Option ScopeLedger) (xs ys : List Attempt)
    → length ys ≡ length xs
    → Counts l xs
    → Counts l ys
Counts-length none xs ys e h = omega arith
Counts-length (some l) xs ys e h = omega arith

-- The current attempt, made terminal.
terminated-IsScope :
    (failure_class : String) (a : Attempt) (s : Supervisor)
    → IsScope s × (last s.attempts ≡ some a)
    → IsScope (set_attempts (replace_last (terminated failure_class a) s.attempts) s)
terminated-IsScope failure_class a s h =
    let b = terminated failure_class a in
    let same = length-replace_last s.attempts a b h.1 in
    let bounded = h.0.bounded in
    record {
      chain = Chained-replace_last none 0 s.attempts a b h.1 refl refl h.0.chain;
      counts = Counts-length s.ledger s.attempts (replace_last b s.attempts) same h.0.counts;
      bounded = omega arith;
    }

release_scope-Triple :
    (l : Option ScopeLedger) → Triple (λ s. I s × (l ≡ s.own.ledger)) (release_scope l) (λ u. I) I
unfolding release_scope
release_scope-Triple none = Triple-pre _ (λ s h. h.0) (Triple-keeps _ (search scope_rules))
release_scope-Triple (some l) =
    Triple-bind _ _
      (write (λ o. IsScope o × (some l ≡ o.ledger)) IsScope IsScope (set_ledger (deactivated l))
        (λ s. ledger-IsScope l (deactivated l) s refl))
      λ _. Triple-keeps _ IsScope-remember

recorded-IsScope :
    (retained : Bool) (a e : String) (s : Supervisor)
    → IsScope s
    → IsScope ((if retained then set_failure_ref a e else set_control Control.hold_ambiguous) s)
recorded-IsScope true a e s h = record { chain = h.chain; counts = h.counts; bounded = h.bounded }
recorded-IsScope false a e s h = record { chain = h.chain; counts = h.counts; bounded = h.bounded }

fail_attempt-Triple :
    (control : Control) (failure_class : String) (refs : List String) (retained : Bool)
    (a : Attempt)
    → Triple
        (λ s. I s × (last s.own.attempts ≡ some a))
        (fail_attempt control failure_class refs retained a)
        (λ u. I)
        I
unfolding fail_attempt
fail_attempt-Triple control failure_class refs retained a =
    Triple-bind _ _
      (write (λ o. IsScope o × (last o.attempts ≡ some a)) IsScope IsScope _
        (terminated-IsScope failure_class a))
      λ _. Triple-bind _ _ (Triple-keeps _ (IsScope-journal _)) λ _.
        Triple-bind _ _ (read IsScope IsScope (λ s. s.ledger)) λ l.
          Triple-bind _ _ (release_scope-Triple l) λ _.
            Triple-bind _ _ (Triple-keeps _ (IsScope-emit _)) λ event.
              write IsScope IsScope IsScope _
                (recorded-IsScope retained a.attempt_id event.event_id)

fail_current-Triple :
    (control : Control) (failure_class : String) (refs : List String) (retained : Bool)
    (now : Option Attempt)
    → Triple
        (λ s. I s × (now ≡ current s.own))
        (fail_current control failure_class refs retained now)
        (λ u. I)
        I
fail_current-Triple control failure_class refs retained none =
    Triple-pre _ (λ s h. h.0) (Triple-keeps _ (search scope_rules))
fail_current-Triple control failure_class refs retained (some a) =
    Triple-if a.terminal _ _ (λ _. Triple-pre _ (λ s h. h.0) (Triple-keeps _ (search scope_rules)))
      (λ _.
        Triple-pre _ (λ s h. (h.0, sym h.1))
          (fail_attempt-Triple control failure_class refs retained a))

pub fail-Triple :
    (control : Control) (failure_class : String) (refs : List String) (retained : Bool)
    → Triple I (fail control failure_class refs retained) (λ u. I) I
unfolding fail
fail-Triple control failure_class refs retained =
    Triple-bind _ _ (read IsScope IsScope current)
      λ now. fail_current-Triple control failure_class refs retained now

admit_scope-Triple :
    (l : Option ScopeLedger) → Triple (λ s. I s × (l ≡ s.own.ledger)) (admit_scope l) (λ u. I) I
unfolding admit_scope
admit_scope-Triple none = Triple-pre _ (λ s h. h.0) (Triple-keeps _ (search scope_rules))
admit_scope-Triple (some l) =
    Triple-bind _ _ (read (λ o. IsScope o × (some l ≡ o.ledger)) IsScope current) λ now.
      Triple-bind _ _ (need-Triple now (λ s h. h.0.0)) λ a.
        Triple-bind _ _ (Triple-raise_if _ _ (λ s h. h.0.0.0)) λ _.
          Triple-bind _ _
            (Triple-pre _ (λ s h. h.0.0.0)
              (write (λ o. IsScope o × (some l ≡ o.ledger)) IsScope IsScope
                (set_ledger (admitted l)) (λ s. ledger-IsScope l (admitted l) s refl)))
            λ _. Triple-keeps _ IsScope-remember

pub admission-Triple : Triple I admission (λ u. I) I
unfolding admission
admission-Triple = Triple-bind _ _ (read IsScope IsScope (λ s. s.ledger)) λ l. admit_scope-Triple l
