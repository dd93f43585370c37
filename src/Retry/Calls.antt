-- ===== src/Retry/Calls.antt =====
-- src/gsrr_slice01/retry.py: the supervisor under any sequence of calls of its methods, each with any
-- arguments; an exception ends a call, and the next call finds the state that it left.
use gsrr_agent_harness.Prelude.{◌≤◌, String, Bool, Option, List, [], ◌∷◌, arith}
use gsrr_agent_harness.Exec.{Exec, pure, ◌>>◌}
use gsrr_agent_harness.Exec.Keeps.{Keeps, Keeps-bind, Keeps-pure}
use gsrr_agent_harness.Exec.Triple.{Keeps-triple}
use gsrr_agent_harness.Shared.{Shared}
use gsrr_agent_harness.Contracts.Enums.{Mode, Control}
use gsrr_agent_harness.Contracts.Domain.{RetryPolicy}
use gsrr_agent_harness.Contracts.Planning.{ApprovedTransition}
use gsrr_agent_harness.Contracts.Plans.{ExecutionEnvelope}
use gsrr_agent_harness.Journal.Defs.{Journal}
use gsrr_agent_harness.Retry.Defs.{Supervisor, new_supervisor}
use gsrr_agent_harness.Retry.Lifecycle.{start, bind, fail, admission}
use gsrr_agent_harness.Retry.Successor.{successor}
use gsrr_agent_harness.Retry.Frame.{owned}
use gsrr_agent_harness.Retry.Invariant.{IsScope, budget}
use gsrr_agent_harness.Retry.Starting.{start-Triple, bind-Triple}
use gsrr_agent_harness.Retry.Failing.{fail-Triple, admission-Triple}
use gsrr_agent_harness.Retry.Allocation.{successor-Triple}

pub data Method : Type 0 where
  start_call admission_call : Method
  bind_call : ApprovedTransition → ExecutionEnvelope → Method
  fail_call : Control → String → List String → Bool → Method
  successor_call : String → Mode → Control → List String → Bool → Method

unfoldable pub call : Method → Exec (Shared Supervisor) (Unit {0})
call Method.start_call = do start; pure tt
call Method.admission_call = admission
call (Method.bind_call approval envelope) = bind approval envelope
call (Method.fail_call control failure_class refs retained) =
    fail control failure_class refs retained
call (Method.successor_call prior mode fresh checks scheduling_failure) = do
  successor prior mode fresh checks scheduling_failure
  pure tt

-- The state after the calls, whatever each of them returns or raises.
unfoldable pub calls : List Method → Shared Supervisor → Shared Supervisor
calls [] s = s
calls (m ∷ ms) s = calls ms (call m s).1

call-IsScope : (m : Method) → Keeps (owned IsScope) (call m)
unfolding call
call-IsScope Method.start_call = Keeps-bind _ _ (Keeps-triple start start-Triple) λ _. Keeps-pure tt
call-IsScope Method.admission_call = Keeps-triple admission admission-Triple
call-IsScope (Method.bind_call approval envelope) =
    Keeps-triple (bind approval envelope) (bind-Triple approval envelope)
call-IsScope (Method.fail_call control failure_class refs retained) =
    Keeps-triple (fail control failure_class refs retained)
      (fail-Triple control failure_class refs retained)
call-IsScope (Method.successor_call prior mode fresh checks scheduling_failure) =
    Keeps-bind _ _
      (Keeps-triple (successor prior mode fresh checks scheduling_failure)
        (successor-Triple prior mode fresh checks scheduling_failure))
      λ _. Keeps-pure tt

calls-keep : (ms : List Method) (s : Shared Supervisor) → IsScope s.own → IsScope (calls ms s).own
unfolding calls
calls-keep [] s h = h
calls-keep (m ∷ ms) s h = calls-keep ms (call m s).1 ((call-IsScope m).at s h)

-- A new supervisor, over whatever journal and with whatever policy, whose methods are then called in
-- any order, any number of times, with any arguments, and whether the calls return or raise, is always
-- in scope: its attempts are numbered from 1 without a gap, each names the one before it, all but the
-- last are terminal; the scope's ledger, where there is one, counts exactly the attempts; and there are no
-- more attempts than the `max_attempts` of the supervisor's policy, or than one, where that is less than
-- one or no number.
pub calls-IsScope :
    (policy : Option RetryPolicy) (j : Journal) (ms : List Method)
    → IsScope (calls ms (record { journal = j; own = new_supervisor policy })).own
calls-IsScope policy j ms =
    calls-keep ms (record { journal = j; own = new_supervisor policy })
      (record { chain = tt; counts = omega arith; bounded = within policy })
  where
    within : (p : Option RetryPolicy) → 0 ≤ budget p
    within p = omega arith
