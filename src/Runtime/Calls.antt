-- ===== src/Runtime/Calls.antt =====
-- src/gsrr_slice01/runtime.py: the runtime under any sequence of calls of its methods, each with any
-- arguments; an exception ends a call, and the next call finds the state that it left.
use gsrr_agent_harness.Prelude.{ℕ, String, Bool, Option, List, [], ◌∷◌}
use gsrr_agent_harness.Exec.{pure, ◌>>◌}
use gsrr_agent_harness.Exec.Keeps.{Order, keeps_rules}
use gsrr_agent_harness.Shared.{Shared}
use gsrr_agent_harness.Contracts.Enums.{Mode, Control}
use gsrr_agent_harness.Runtime.Defs.{Request, Binding, Runtime, Call}
use gsrr_agent_harness.Runtime.Start.{stop}
use gsrr_agent_harness.Runtime.Inject.{inject}
use gsrr_agent_harness.Runtime.Fresh.{fresh}
use gsrr_agent_harness.Runtime.Prepare.{prepare}
use gsrr_agent_harness.Runtime.Admit.{admit}
use gsrr_agent_harness.Runtime.Project.{project}
use gsrr_agent_harness.Runtime.Dispatch.{Presented, dispatch, lookup}
use gsrr_agent_harness.Runtime.Realize.{realize, run}
use gsrr_agent_harness.Runtime.Stable.{Stable, Pivotal, Lasting, project-Lasting, prepare-Lasting}
use gsrr_agent_harness.Runtime.Steps.{stop-Steady, fresh-Steady, admit-Steady}
use gsrr_agent_harness.Runtime.Dispatching.{dispatch-Lasting, lookup-Steady}
use gsrr_agent_harness.Runtime.Realizing.{realize-Lasting, run-Lasting}

pub data Method : Type 0 where
  prepare_call : Request → Method
  realize_call : ℕ → String → Option Mode → Method
  admit_call : String → Method
  dispatch_call : Option Presented → Method
  lookup_call : String → Request → Option Binding → Method
  run_call : ℕ → Request → String → Option Binding → Method
  stop_call : Control → String → List String → Method
  inject_call : String → Method
  fresh_call : Bool → Bool → Method
  project_call : Method

-- A call, its result forgotten.
unfoldable pub call : Method → Call (Unit {0})
call (Method.prepare_call request) = do prepare request; pure tt
call (Method.realize_call rounds key mode) = do realize rounds key mode; pure tt
call (Method.admit_call key) = admit key
call (Method.dispatch_call presented) = do dispatch presented; pure tt
call (Method.lookup_call key request given) = do lookup key request given; pure tt
call (Method.run_call rounds request key given) = do run rounds request key given; pure tt
call (Method.stop_call control why refs) = do stop control why refs; pure tt
call (Method.inject_call seam) = inject seam
call (Method.fresh_call final retry) = do fresh final retry; pure tt
call Method.project_call = do project; pure tt

-- The state after the calls, whatever each of them returns or raises.
unfoldable pub calls : List Method → Shared Runtime → Shared Runtime
calls [] s = s
calls (m ∷ ms) s = calls ms (call m s).1

call-Lasting : (m : Method) → Lasting (call m)
unfolding call
call-Lasting (Method.prepare_call request) o k w = search (keeps_rules, prepare-Lasting)
call-Lasting (Method.realize_call rounds key mode) o k w = search (keeps_rules, realize-Lasting)
call-Lasting (Method.admit_call key) o k w = admit-Steady key o k
call-Lasting (Method.dispatch_call presented) o k w = search (keeps_rules, dispatch-Lasting)
call-Lasting (Method.lookup_call key request given) o k w = search (keeps_rules, lookup-Steady)
call-Lasting (Method.run_call rounds request key given) o k w = search (keeps_rules, run-Lasting)
call-Lasting (Method.stop_call control why refs) o k w = search (keeps_rules, stop-Steady)
call-Lasting (Method.inject_call seam) o k w = k.at_inject seam
call-Lasting (Method.fresh_call final retry) o k w = search (keeps_rules, fresh-Steady)
call-Lasting Method.project_call o k w = search (keeps_rules, project-Lasting)

-- Calls keep an order that the parts keep.
pub calls_keep :
    (o : Order (Shared Runtime))
    → Stable o
    → Pivotal o
    → (ms : List Method) (s : Shared Runtime) → o.le s (calls ms s)
unfolding calls
calls_keep o k w [] s = o.le_refl s
calls_keep o k w (m ∷ ms) s =
    o.le_trans s (call m s).1 (calls ms (call m s).1) ((call-Lasting m o k w).at s)
      (calls_keep o k w ms (call m s).1)
