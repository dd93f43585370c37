-- ===== src/Fixture/Journaled.antt =====
-- src/gsrr_slice01/fixture.py: the provider's methods, `external_change` left out, change the journal
-- by basic calls alone.
use gsrr_agent_harness.Prelude.{String, Bool, Option, none, some}
use gsrr_agent_harness.Exec.Keeps.{keeps_rules}
use gsrr_agent_harness.Contracts.Domain.{FixedInput, Definition}
use gsrr_agent_harness.Contracts.Effects.{ObservedState}
use gsrr_agent_harness.Journal.Sharing.{JournaledIn, sharing_rules}
use gsrr_agent_harness.Fixture.Defs.{ActionRequest}
use gsrr_agent_harness.Fixture.Provider.{open_interval, apply_in, apply_at, apply, close_interval}
use gsrr_agent_harness.Fixture.Observe.{with_conflict, observe, snapshot}

pub open_interval-JournaledIn : (commit_id : String) → JournaledIn (open_interval commit_id)
unfolding open_interval
open_interval-JournaledIn commit_id q b = search sharing_rules depth 9

apply_in-JournaledIn :
    (request : ActionRequest) (fixed : FixedInput) (diagnostic : Bool) (invocation : String)
    → JournaledIn (apply_in request fixed diagnostic invocation)
unfolding apply_in
apply_in-JournaledIn request fixed diagnostic invocation q b = search sharing_rules depth 14

apply_at-JournaledIn :
    (request : ActionRequest) (fixed : FixedInput) (diagnostic : Bool) (now : Option String)
    (closed : Bool)
    → JournaledIn (apply_at request fixed diagnostic now closed)
unfolding apply_at
apply_at-JournaledIn request fixed diagnostic none closed q b = search keeps_rules
apply_at-JournaledIn request fixed diagnostic (some invocation) closed q b =
    search (keeps_rules, apply_in-JournaledIn) depth 7

pub apply-JournaledIn :
    (request : ActionRequest) (fixed : FixedInput) (diagnostic : Bool)
    → JournaledIn (apply request fixed diagnostic)
unfolding apply
apply-JournaledIn request fixed diagnostic q b =
    search (sharing_rules, apply_at-JournaledIn) depth 9

pub close_interval-JournaledIn : JournaledIn close_interval
unfolding close_interval
close_interval-JournaledIn q b = search sharing_rules depth 14

with_conflict-JournaledIn :
    (fault : String) (o : ObservedState) → JournaledIn (with_conflict fault o)
unfolding with_conflict
with_conflict-JournaledIn fault o q b = search sharing_rules depth 9

pub observe-JournaledIn : (fault : String) (initial : Bool) → JournaledIn (observe fault initial)
unfolding observe
observe-JournaledIn fault initial q b = search (sharing_rules, with_conflict-JournaledIn) depth 16

pub snapshot-JournaledIn : (d : Definition) (o : ObservedState) → JournaledIn (snapshot d o)
unfolding snapshot
snapshot-JournaledIn d o q b = search sharing_rules depth 16
