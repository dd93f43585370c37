-- ===== src/Runtime/Again.antt =====
-- src/gsrr_slice01/runtime.py: what is called again changes nothing: a further `run`, and a further
-- `dispatch` of a commit that has been claimed.
use gsrr_agent_harness.Prelude.{
  ℕ, String, ◌≡◌, refl, sym, ap, ◌∙◌, subst, Bool, true, false, not, Option, none, some, List, [],
  ◌∷◌, string_eq, if◌then◌else◌,
}
use gsrr_agent_harness.Exec.{Result, ◌>>=◌, pure}
use gsrr_agent_harness.Exec.Keeps.{Order, Keeps, Keeps-gets, keeps_rules}
use gsrr_agent_harness.Shared.{Shared, own_gets}
use gsrr_agent_harness.Contracts.Enums.{Control}
use gsrr_agent_harness.Contracts.Domain.{Step}
use gsrr_agent_harness.Contracts.Plans.{RealizationCommit}
use gsrr_agent_harness.Retry.Lifecycle.{is_some, find, need}
use gsrr_agent_harness.Retry.Journaled.{need-Keeps}
use gsrr_agent_harness.Retry.Begun.{HasAttempt}
use gsrr_agent_harness.Runtime.Defs.{
  Request, RunResult, Binding, RetainedRequest, Run, Runtime, Call, get_run, get_supervisor,
}
use gsrr_agent_harness.Runtime.Admit.{first_step, binding}
use gsrr_agent_harness.Runtime.Dispatch.{
  bare_result, entry_of, index_at, lookup, Presented, is_rebound, or_else, dispatch_again,
  dispatch_new, is_claimed_key, dispatch,
}
use gsrr_agent_harness.Runtime.Start.{result}
use gsrr_agent_harness.Runtime.Prepare.{prepare}
use gsrr_agent_harness.Runtime.Realize.{realize, run_new, run}

-- The order of the states that are the same.
abbrev same : Order (Shared Runtime)
same = record { le = λ s t. t ≡ s; le_refl = λ s. refl; le_trans = λ s t u p q. q ∙ p }

run_same : {A : Type 0} (f : Run → A) → Keeps same (get_run f)
unfolding get_run own_gets
run_same f = Keeps-gets _

entry_same : (key : String) (entry : Option RetainedRequest) → Keeps same (entry_of key entry)
unfolding entry_of
entry_same key none = search keeps_rules
entry_same key (some entry) = search keeps_rules

index_same : (key : String) → Keeps same (index_at key)
unfolding index_at
index_same key = search (keeps_rules, run_same, entry_same)

lookup_same :
    (key : String) (request : Request) (given : Option Binding)
    → Keeps same (lookup key request given)
unfolding lookup
lookup_same key request given = search (keeps_rules, run_same, index_same)

step_same : (steps : List Step) → Keeps same (first_step steps)
unfolding first_step
step_same [] = search keeps_rules
step_same (step ∷ rest) = search keeps_rules

binding_same : Keeps same binding
unfolding binding
binding_same = search (keeps_rules, run_same, need-Keeps, step_same) depth 18

or_else_same : (b : Bool) (m : Call Bool) → Keeps same m → Keeps same (or_else b m)
unfolding or_else
or_else_same true m k = search keeps_rules
or_else_same false m k = k

rebound_same : (key : String) → Keeps same (is_rebound key)
unfolding is_rebound
rebound_same key = search (keeps_rules, binding_same, index_same) depth 7

again_same :
    (c : RealizationCommit) (presented : Option Presented) → Keeps same (dispatch_again c presented)
unfolding dispatch_again
again_same c presented =
    search (keeps_rules, or_else_same, rebound_same, run_same, need-Keeps, lookup_same) depth 14

-- What `dispatch` does with the commit that it has read.
abbrev dispatch_of : Option Presented → RealizationCommit → Call RunResult
dispatch_of presented c = do
  claimed ← get_run (λ r. is_claimed_key c.idempotency_key r.dispatch_claims)
  if claimed then dispatch_again c presented else dispatch_new c presented

chosen_again :
    (presented : Option Presented) (s : Shared Runtime) (commit : Option RealizationCommit)
    {c : RealizationCommit}
    → commit ≡ some c
    → is_claimed_key c.idempotency_key s.own.run.dispatch_claims ≡ true
    → ((need commit >>= dispatch_of presented) s).1 ≡ s
unfolding need pure get_run own_gets ◌>>=◌
chosen_again presented s commit {c} e claimed =
    subst (λ (o : Option RealizationCommit). ((need o >>= dispatch_of presented) s).1 ≡ s) (sym e)
      (subst
        (λ (b : Bool).
          ((if b then dispatch_again c presented else dispatch_new c presented) s).1 ≡ s)
        (sym claimed) ((again_same c presented).at s))

-- A `dispatch`, of whatever payload, in a state whose commit's idempotency key has been claimed, leaves
-- the state as it is, whether it returns or raises: nothing is invoked, retained or decided again.
pub dispatch-claimed :
    (presented : Option Presented) (s : Shared Runtime) {c : RealizationCommit}
    → s.own.run.commit ≡ some c
    → is_claimed_key c.idempotency_key s.own.run.dispatch_claims ≡ true
    → (dispatch presented s).1 ≡ s
unfolding dispatch get_run own_gets need pure ◌>>=◌
dispatch-claimed presented s {c} e claimed = chosen_again presented s s.own.run.commit e claimed

-- A scope that has begun is not begun again.
run_new-HasAttempt :
    (rounds : ℕ) (request : Request) (key : String) (s : Shared Runtime)
    → HasAttempt s.own.supervisor
    → run_new rounds request key s
      ≡ (Result.ok (some (bare_result "NO_SCOPE_RESET" Control.fail_nonretryable)), s)
unfolding run_new get_supervisor own_gets pure ◌>>=◌
run_new-HasAttempt rounds request key s h =
    subst
      (λ (b : Bool).
        (if not b then pure (some (bare_result "NO_SCOPE_RESET" Control.fail_nonretryable)) else (do
          prepared ← prepare request
          if not prepared
              then (do r ← result "TERMINAL"; pure (some r))
              else realize rounds key (some request.mode)))
          s
        ≡ (Result.ok (some (bare_result "NO_SCOPE_RESET" Control.fail_nonretryable)), s))
      (sym h) refl

found_again :
    (key : String) (request : Request) (given : Option Binding)
    → Keeps same (lookup key request given >>= λ r. pure (some r))
found_again key request given = search (keeps_rules, lookup_same)

-- A run in a state that has an attempt, with any arguments, leaves the state as it is.
pub run-HasAttempt :
    (rounds : ℕ) (request : Request) (key : String) (given : Option Binding) (s : Shared Runtime)
    → HasAttempt s.own.supervisor
    → (run rounds request key given s).1 ≡ s
unfolding run get_run own_gets ◌>>=◌
run-HasAttempt rounds request key given s h = go (is_some (find key s.own.run.index))
  where
    go :
        (known : Bool)
        → ((if known
              then (lookup key request given >>= λ r. pure (some r))
              else run_new rounds request key)
            s).1
          ≡ s
    go true = (found_again key request given).at s
    go false = ap (λ p. p.1) (run_new-HasAttempt rounds request key s h)
