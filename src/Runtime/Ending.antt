-- ===== src/Runtime/Ending.antt =====
-- src/gsrr_slice01/runtime.py: `realize` and `run` end within as many rounds as the policy allows attempts.
use gsrr_agent_harness.Prelude.{
  ℕ, zero, suc, ◌+◌, ◌≤◌, String, ◌≡◌, ◌≢◌, refl, sym, subst, true, false, not, not-false, Option,
  none, some, List, [], ◌∷◌, length, last, arith,
}
use gsrr_agent_harness.Exec.{Result, pure, raise, gets}
use gsrr_agent_harness.Exec.Triple.{
  Ends, Triple, Triple-bind, Triple-pure, Triple-keeps, Triple-pre, Triple-if, Triple-given,
}
use gsrr_agent_harness.Shared.{Shared, own_gets}
use gsrr_agent_harness.Contracts.Enums.{Mode}
use gsrr_agent_harness.Contracts.Domain.{Definition, AuthorityEvidence, RetryPolicy}
use gsrr_agent_harness.Contracts.Attempts.{Attempt}
use gsrr_agent_harness.Contracts.Plans.{ExecutionEnvelope}
use gsrr_agent_harness.Retry.Defs.{current}
use gsrr_agent_harness.Retry.Lifecycle.{is_empty, need}
use gsrr_agent_harness.Retry.Invariant.{IsScope, budget}
use gsrr_agent_harness.Fixture.Defs.{FixtureFaults}
use gsrr_agent_harness.Runtime.Defs.{Request, RunResult, Binding, Runtime, Call, get_supervisor}
use gsrr_agent_harness.Runtime.Realize.{
  Round, after_round, plan_loop, is_realizable, realize, run_new, run,
}
use gsrr_agent_harness.Runtime.Parts.{get_run-Steady, get_supervisor-Steady}
use gsrr_agent_harness.Runtime.Steps.{result-Steady}
use gsrr_agent_harness.Runtime.Dispatching.{lookup-Steady}
use gsrr_agent_harness.Runtime.Realizing.{
  commit_plan-Lasting, realize_mode-Steady, realize-Lasting, run-Lasting,
}
use gsrr_agent_harness.Runtime.Stable.{Lasting, prepare-Lasting}
use gsrr_agent_harness.Runtime.Frames.{supervised}
use gsrr_agent_harness.Runtime.Invariants.{IsScope-Stable, IsScope-Pivotal}
use gsrr_agent_harness.Runtime.Starting.{new_runtime}
use gsrr_agent_harness.Runtime.Calls.{Method, calls}
use gsrr_agent_harness.Runtime.Always.{runtime-IsScope}
use gsrr_agent_harness.Runtime.Scheduling.{Sound-Stable, Sound-Pivotal, runtime-Sound}
use gsrr_agent_harness.Runtime.Rounds.{
  RunSound, RunCounted, Went, sound_call, counted_call, plan_round-Went,
}

module _ (p : Option RetryPolicy) where
  -- A loop that has run out of rounds has made an attempt in each.
  abbrev RanOut : ℕ → Option RunResult → Shared Runtime → Type 0
  RanOut n none s = RunSound p s × (n ≤ length s.own.supervisor.attempts)
  RanOut n (some r) s = RunSound p s

  lasting_call :
      {A : Type 0} (m : Call A) → Lasting m → Triple (RunSound p) m (λ a. RunSound p) (RunSound p)
  lasting_call m k = Triple-keeps m (k _ (Sound-Stable p) (Sound-Pivotal p))

  after_round-RanOut :
      (n k : ℕ) (key : String) (rest : Call (Option RunResult)) (round : Round)
      → Triple (RunCounted p (suc k)) rest (RanOut n) (RunSound p)
      → Triple (Went p k round) (after_round key rest round) (RanOut n) (RunSound p)
  unfolding after_round
  after_round-RanOut n k key rest Round.again h = h
  after_round-RanOut n k key rest Round.passed h =
      Triple-bind _ _ (lasting_call _ (commit_plan-Lasting key)) λ r. Triple-pure (some r)
  after_round-RanOut n k key rest (Round.returned r) h = Triple-pure (some r)

  plan_loop-RanOut :
      (rounds n k : ℕ) (key : String) (mode : Mode)
      → n ≤ k + rounds
      → Triple (RunCounted p k) (plan_loop rounds key mode) (RanOut n) (RunSound p)
  unfolding plan_loop
  plan_loop-RanOut zero n k key mode le =
      Triple-pre _ (λ s h. (h.0, reached h.1)) (Triple-pure none)
    where
      reached : {m : ℕ} → m ≡ k → n ≤ m
      reached e = omega arith
  plan_loop-RanOut (suc rounds) n k key mode le =
      Triple-bind _ _ (plan_round-Went p k mode) λ round.
        after_round-RanOut n k key _ round
          (plan_loop-RanOut rounds n (suc k) key mode (omega arith))

  read_current :
      (k : ℕ)
      → Triple
          (RunCounted p k)
          (get_supervisor current)
          (λ o s. RunCounted p k s × (o ≡ current s.own.supervisor))
          (RunSound p)
  unfolding get_supervisor own_gets gets
  read_current k = record { at = λ s h. (h, refl) }

  one_attempt : (xs : List Attempt) {a : Attempt} → some a ≡ last xs → 1 ≤ length xs
  one_attempt [] e = cc
  one_attempt (x ∷ xs) e = omega arith

  needed :
      (k : ℕ) (o : Option Attempt)
      → Triple
          (λ s. RunCounted p k s × (o ≡ current s.own.supervisor))
          (need o)
          (λ a s. RunCounted p k s × (1 ≤ k))
          (RunSound p)
  unfolding need raise pure
  needed k none = record { at = λ s h. h.0.0 }
  needed k (some a) = record {
    at = λ s h. (h.0, rw (sym h.0.1) (one_attempt s.own.supervisor.attempts h.1));
  }

  is_realizable-Counted :
      (k : ℕ) (e : Option ExecutionEnvelope)
      → Triple
          (RunCounted p k)
          (is_realizable e)
          (λ ready s. RunCounted p k s × (ready ≡ true → 1 ≤ k))
          (RunSound p)
  unfolding is_realizable
  is_realizable-Counted k none = Triple-pre _ (λ s h. (h, λ e. cc)) (Triple-pure false)
  is_realizable-Counted k (some e) =
      Triple-bind _ _ (read_current k)
        λ o. Triple-bind _ _ (needed k o) λ a. Triple-pre _ (λ s h. (h.0, λ e. h.1)) (Triple-pure _)

  realize-Counted :
      (k rounds : ℕ) (key : String) (mode : Option Mode)
      → Triple (RunCounted p k) (realize rounds key mode) (RanOut (suc rounds)) (RunSound p)
  unfolding realize
  realize-Counted k rounds key mode = Triple-bind _ _ (counted_call p k _ (get_run-Steady _)) λ e.
      Triple-bind _ _ (is_realizable-Counted k e) λ ready. Triple-given λ some_attempt.
        Triple-if (not ready) _ _
          (λ _.
            Triple-pre _ (λ s h. h.0)
              (Triple-bind _ _ (sound_call p _ (result-Steady "TERMINAL"))
                λ r. Triple-pure (some r)))
          (λ q.
            let le = some_attempt (not-false ready q) in
            Triple-bind _ _ (counted_call p k _ (realize_mode-Steady mode))
              λ m. plan_loop-RanOut rounds (suc rounds) k key m (omega arith))

  realize-RanOut :
      (rounds : ℕ) (key : String) (mode : Option Mode)
      → Triple (RunSound p) (realize rounds key mode) (RanOut (suc rounds)) (RunSound p)
  realize-RanOut rounds key mode = record {
    at = λ s h. (realize-Counted (length s.own.supervisor.attempts) rounds key mode).at s (h, refl);
  }

  run_new-RanOut :
      (rounds : ℕ) (request : Request) (key : String)
      → Triple (RunSound p) (run_new rounds request key) (RanOut (suc rounds)) (RunSound p)
  unfolding run_new
  run_new-RanOut rounds request key =
      Triple-bind _ _ (sound_call p _ (get_supervisor-Steady _)) λ attempts.
        Triple-if (not (is_empty attempts)) _ _ (λ _. Triple-pure (some _))
          λ _. Triple-bind _ _ (lasting_call _ (prepare-Lasting request)) λ prepared.
            Triple-if (not prepared) _ _
              (λ _.
                Triple-bind _ _ (sound_call p _ (result-Steady "TERMINAL"))
                  λ r. Triple-pure (some r))
              (λ _. realize-RanOut rounds key (some request.mode))

  run-RanOut :
      (rounds : ℕ) (request : Request) (key : String) (given : Option Binding)
      → Triple (RunSound p) (run rounds request key given) (RanOut (suc rounds)) (RunSound p)
  unfolding run
  run-RanOut rounds request key given = Triple-bind _ _ (sound_call p _ (get_run-Steady _)) λ known.
      Triple-if known _ _
        (λ _.
          Triple-bind _ _ (sound_call p _ (lookup-Steady key request given))
            λ r. Triple-pure (some r))
        (λ _. run_new-RanOut rounds request key)

  -- The scope bounds the attempts, so that there were no more rounds than the policy allows attempts.
  ended :
      (rounds : ℕ) (x : Result (Option RunResult) × Shared Runtime)
      → Ends (RanOut (suc rounds)) (RunSound p) x
      → IsScope x.1.own.supervisor
      → budget p ≤ rounds
      → x.0 ≢ Result.ok none
  ended rounds (Result.ok none, t) h scope le =
      let bounded = subst (λ q. length t.own.supervisor.attempts ≤ budget q) h.0.1 scope.bounded in
      absurd (over h.1 bounded le)
    where
      over : {a b c : ℕ} → suc c ≤ a → a ≤ b → b ≤ c → ⊥
      over f g h = omega arith
  ended rounds (Result.ok (some r), t) h scope le = λ e. cc
  ended rounds (Result.err x, t) h scope le = λ e. cc

-- A new runtime, with any run id, definition, grant, policy and faults, after any calls of its methods, in
-- any order and with any arguments: a `realize` with at least as many rounds as the policy allows
-- attempts (its `max_attempts`, and at least one), in either mode, gives a result or raises. It does not
-- run out of rounds.
pub realize-ends :
    (run_id : String) (definition : Option Definition) (grant : Option AuthorityEvidence)
    (policy : Option RetryPolicy) (faults : FixtureFaults) (ms : List Method) (rounds : ℕ)
    (key : String) (mode : Option Mode)
    → budget policy ≤ rounds
    → (realize rounds key mode (calls ms (new_runtime run_id definition grant policy faults))).0
      ≢ Result.ok none
realize-ends run_id definition grant policy faults ms rounds key mode le =
    let s = calls ms (new_runtime run_id definition grant policy faults) in
    ended policy rounds (realize rounds key mode s)
      ((realize-RanOut policy rounds key mode).at s
        (runtime-Sound run_id definition grant policy faults ms))
      ((realize-Lasting rounds key mode (supervised IsScope) IsScope-Stable IsScope-Pivotal).at s
        (runtime-IsScope run_id definition grant policy faults ms))
      le

-- A new runtime, with any run id, definition, grant, policy and faults, after any calls of its methods, in
-- any order and with any arguments: a `run` with at least as many rounds as the policy allows attempts
-- (its `max_attempts`, and at least one), with any request, key and binding, gives a result or raises. It
-- does not run out of rounds.
pub run-ends :
    (run_id : String) (definition : Option Definition) (grant : Option AuthorityEvidence)
    (policy : Option RetryPolicy) (faults : FixtureFaults) (ms : List Method) (rounds : ℕ)
    (request : Request) (key : String) (given : Option Binding)
    → budget policy ≤ rounds
    → (run rounds request key given
        (calls ms (new_runtime run_id definition grant policy faults))).0
      ≢ Result.ok none
run-ends run_id definition grant policy faults ms rounds request key given le =
    let s = calls ms (new_runtime run_id definition grant policy faults) in
    ended policy rounds (run rounds request key given s)
      ((run-RanOut policy rounds request key given).at s
        (runtime-Sound run_id definition grant policy faults ms))
      ((run-Lasting rounds request key given (supervised IsScope) IsScope-Stable IsScope-Pivotal).at
        s (runtime-IsScope run_id definition grant policy faults ms))
      le
