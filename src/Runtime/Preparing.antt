-- ===== src/Runtime/Preparing.antt =====
-- src/gsrr_slice01/runtime.py: `prepare`, from what keeps the order where the state before is assigned.
use gsrr_agent_harness.Prelude.{Option, none, some}
use gsrr_agent_harness.Exec.Keeps.{Order, Keeps}
use gsrr_agent_harness.Shared.{Shared}
use gsrr_agent_harness.Contracts.Effects.{ObservedState}
use gsrr_agent_harness.Retry.Lifecycle.{start}
use gsrr_agent_harness.Runtime.Defs.{Request, Run, Runtime, in_supervisor, set_run}
use gsrr_agent_harness.Runtime.Prepare.{
  propose_transition, with_baseline, read_baseline, structure, check_policy, prepare,
}
use gsrr_agent_harness.Runtime.Stable.{Stable}
use gsrr_agent_harness.Runtime.Parts.{steady_rules, observe-Steady, snapshot-Steady, refer-Steady}
use gsrr_agent_harness.Runtime.Steps.{refuse-Steady, report-Steady, select-Steady}

module _ (o : Order (Shared Runtime)) (k : Stable o) where
  -- Where every assignment keeps the order, that of the state before does.
  pub propose_transition-Keeps :
      ((f : Run → Run) → Keeps o (set_run f))
      → (request : Request) (baseline : ObservedState)
      → Keeps o (propose_transition request baseline)
  unfolding propose_transition
  propose_transition-Keeps assign request baseline =
      search (steady_rules, snapshot-Steady, refer-Steady, select-Steady) depth 26

module _ (o : Order (Shared Runtime)) (k : Stable o)
    (pivot : (request : Request) (baseline : ObservedState)
      → Keeps o (propose_transition request baseline)) where
  with_baseline-Keeps :
      (request : Request) (baseline : Option ObservedState)
      → Keeps o (with_baseline request baseline)
  unfolding with_baseline
  with_baseline-Keeps request none = search refuse-Steady
  with_baseline-Keeps request (some baseline) = pivot request baseline

  read_baseline-Keeps : (request : Request) → Keeps o (read_baseline request)
  unfolding read_baseline
  read_baseline-Keeps request = search (steady_rules, observe-Steady, with_baseline-Keeps) depth 12

  structure-Keeps : (request : Request) → Keeps o (structure request)
  unfolding structure
  structure-Keeps request =
      search (steady_rules, report-Steady, refuse-Steady, read_baseline-Keeps) depth 20

  pub check_policy-Keeps : (request : Request) → Keeps o (check_policy request)
  unfolding check_policy
  check_policy-Keeps request = search (steady_rules, refuse-Steady, structure-Keeps) depth 9

  pub prepare-Keeps :
      Keeps o (in_supervisor start) → (request : Request) → Keeps o (prepare request)
  unfolding prepare
  prepare-Keeps at_start request = search (steady_rules, check_policy-Keeps) depth 16
