-- ===== src/Runtime/Parts/Providing.antt =====
-- src/gsrr_slice01/runtime.py: the runtime's calls of the provider.
use gsrr_agent_harness.Prelude.{String, Bool}
use gsrr_agent_harness.Contracts.Domain.{FixedInput, Definition}
use gsrr_agent_harness.Contracts.Effects.{ObservedState}
use gsrr_agent_harness.Fixture.Defs.{ActionRequest}
use gsrr_agent_harness.Fixture.Provider.{open_interval, apply, close_interval}
use gsrr_agent_harness.Fixture.Observe.{observe, snapshot}
use gsrr_agent_harness.Fixture.Once.{
  open_interval-once, apply-once, close_interval-once, observe-once, snapshot-once,
}
use gsrr_agent_harness.Fixture.Journaled.{
  open_interval-JournaledIn, apply-JournaledIn, close_interval-JournaledIn, observe-JournaledIn,
  snapshot-JournaledIn,
}
use gsrr_agent_harness.Runtime.Defs.{in_provider}
use gsrr_agent_harness.Runtime.Stable.{Steady}

pub open_interval-Steady : (commit_id : String) → Steady (in_provider (open_interval commit_id))
open_interval-Steady c o k =
    k.core.at_provider _
      (record { once = open_interval-once c; journal = open_interval-JournaledIn c })

pub apply-Steady :
    (r : ActionRequest) (fixed : FixedInput) (diagnostic : Bool)
    → Steady (in_provider (apply r fixed diagnostic))
apply-Steady r fixed diagnostic o k = k.core.at_provider _ (record {
  once = apply-once r fixed diagnostic;
  journal = apply-JournaledIn r fixed diagnostic;
})

pub close_interval-Steady : Steady (in_provider close_interval)
close_interval-Steady o k =
    k.core.at_provider _
      (record { once = close_interval-once; journal = close_interval-JournaledIn })

pub observe-Steady :
    (fault : String) (initial : Bool) → Steady (in_provider (observe fault initial))
observe-Steady fault initial o k =
    k.core.at_provider _
      (record { once = observe-once fault initial; journal = observe-JournaledIn fault initial })

pub snapshot-Steady : (d : Definition) (x : ObservedState) → Steady (in_provider (snapshot d x))
snapshot-Steady d x o k =
    k.core.at_provider _ (record { once = snapshot-once d x; journal = snapshot-JournaledIn d x })
