-- ===== src/Runtime/Once.antt =====
-- src/gsrr_slice01/runtime.py: one `run` uses its scope up.
use gsrr_agent_harness.Prelude.{
  ℕ, String, ◌≡◌, refl, sym, subst, Bool, not, Option, none, some, List, if◌then◌else◌,
}
use gsrr_agent_harness.Exec.{Result, pure, gets, modify, ◌>>=◌}
use gsrr_agent_harness.Exec.Keeps.{keeps_rules}
use gsrr_agent_harness.Exec.Triple.{
  Ends, Ends-either, Triple, Triple-bind, Triple-raise_when, Triple-keeps, Triple-pre, Triple-pure,
  Triple-if,
}
use gsrr_agent_harness.Shared.{Shared, own_gets, own_modify}
use gsrr_agent_harness.Contracts.Attempts.{Attempt}
use gsrr_agent_harness.Retry.Defs.{Supervisor}
use gsrr_agent_harness.Retry.Lifecycle.{is_empty, is_some, find, start}
use gsrr_agent_harness.Retry.Begun.{HasAttempt, not-eq-true, start_begins}
use gsrr_agent_harness.Runtime.Defs.{
  Request, Binding, RetainedRequest, Run, Runtime, get_run, set_run, get_supervisor, in_supervisor,
}
use gsrr_agent_harness.Runtime.Start.{result}
use gsrr_agent_harness.Runtime.Prepare.{prepare}
use gsrr_agent_harness.Runtime.Dispatch.{lookup}
use gsrr_agent_harness.Runtime.Realize.{realize, run_new, run}
use gsrr_agent_harness.Runtime.Frames.{supervised}
use gsrr_agent_harness.Runtime.Stable.{Lasting}
use gsrr_agent_harness.Runtime.Frames
use gsrr_agent_harness.Runtime.Preparing.{propose_transition-Keeps, check_policy-Keeps}
use gsrr_agent_harness.Runtime.Steps.{result-Steady}
use gsrr_agent_harness.Runtime.Realizing.{realize-Lasting}
use gsrr_agent_harness.Runtime.Calls.{Method, calls, calls_keep}
use gsrr_agent_harness.Runtime.Invariants.{begun-Stable, begun-Pivotal}
use gsrr_agent_harness.Runtime.Again.{run-HasAttempt}

abbrev Any : Shared Runtime → Type 0
Any s = Unit {0}

abbrev Begun : Shared Runtime → Type 0
Begun s = HasAttempt s.own.supervisor

read_attempts :
    Triple Any (get_supervisor (λ s. s.attempts)) (λ xs s. xs ≡ s.own.supervisor.attempts) Begun
unfolding get_supervisor own_gets gets
read_attempts = record { at = λ s h. refl }

started : Triple Any (in_supervisor start) (λ a. Begun) Begun
unfolding in_supervisor
started = record {
  at = λ s h.
      let t : Shared Supervisor = record { journal = s.journal; own = s.own.supervisor } in
      ends (start t).0 s (start t).1 (start_begins t);
}
  where
    ends :
        (r : Result Attempt) (s : Shared Runtime) (t : Shared Supervisor)
        → HasAttempt t.own
        → Ends
            (λ a. Begun)
            Begun
            (r, record { journal = t.journal; own = record s.own { supervisor = t.own } })
    ends (Result.ok a) s t h = h
    ends (Result.err e) s t h = h

assigned : (f : Run → Run) → Triple Any (set_run f) (λ u. Any) Begun
unfolding set_run own_modify modify
assigned f = record { at = λ s h. tt }

prepare-Begun : (request : Request) → Triple Any (prepare request) (λ ready. Begun) Begun
unfolding prepare
prepare-Begun request = Triple-bind _ _ read_attempts λ attempts.
    Triple-bind _ _
      (Triple-raise_when (not (is_empty attempts)) _
        (λ e s h. rw (sym h) (not-eq-true (is_empty attempts) e)))
      λ _. Triple-bind _ _ (Triple-pre _ (λ s h. tt) (assigned _)) λ _. Triple-bind _ _ started λ _.
        Triple-keeps _ (
          check_policy-Keeps (supervised HasAttempt) begun-Stable
            (propose_transition-Keeps (supervised HasAttempt) begun-Stable
              (Frames.set_run-supervised HasAttempt))
            request)

realize_prepared :
    (rounds : ℕ) (request : Request) (key : String) (prepared : Bool)
    → Lasting (
        if not prepared
        then (do r ← result "TERMINAL"; pure (some r))
        else realize rounds key (some request.mode))
realize_prepared rounds request key prepared o k w =
    search (keeps_rules, result-Steady, realize-Lasting) depth 7

run_new-Begun :
    (rounds : ℕ) (request : Request) (key : String)
    → Triple Any (run_new rounds request key) (λ r. Begun) Begun
unfolding run_new
run_new-Begun rounds request key = Triple-bind _ _ read_attempts λ attempts.
    Triple-if (not (is_empty attempts)) _ _
      (λ e. Triple-pre _ (λ s h. rw (sym h) (not-eq-true (is_empty attempts) e)) (Triple-pure _))
      (λ e. Triple-bind _ _ (Triple-pre _ (λ s h. tt) (prepare-Begun request)) λ prepared.
        Triple-keeps _ (
          realize_prepared rounds request key prepared (supervised HasAttempt) begun-Stable
            begun-Pivotal))

-- Whatever a run returns or raises, there is an attempt after it, where its key was not in the index.
run-Begun :
    (rounds : ℕ) (request : Request) (key : String) (given : Option Binding) (s : Shared Runtime)
    → find key s.own.run.index ≡ none
    → Begun (run rounds request key given s).1
unfolding run get_run own_gets ◌>>=◌
run-Begun rounds request key given s e =
    subst
      (λ (o : Option RetainedRequest).
        Begun
          ((if is_some o
              then (lookup key request given >>= λ r. pure (some r))
              else run_new rounds request key)
            s).1)
      (sym e)
      (Ends-either Begun (run_new rounds request key s)
        ((run_new-Begun rounds request key).at s tt))

-- In any state, once `run` has been called with a key that was not in the index, and has returned or
-- raised, and after any further calls of the runtime's methods: another `run`, with any request, key,
-- binding and number of rounds, changes nothing of the state; no attempt is made, nothing is retained,
-- committed, dispatched or published again.
pub run-run :
    (rounds again : ℕ) (request other : Request) (key key' : String) (given given' : Option Binding)
    (ms : List Method) (s : Shared Runtime)
    → find key s.own.run.index ≡ none
    → (run again other key' given' (calls ms (run rounds request key given s).1)).1
      ≡ calls ms (run rounds request key given s).1
run-run rounds again request other key key' given given' ms s e =
    let t = (run rounds request key given s).1 in
    run-HasAttempt again other key' given' (calls ms t) (
      calls_keep (supervised HasAttempt) begun-Stable begun-Pivotal ms t
        (run-Begun rounds request key given s e))
