-- ===== src/Runtime/Always.antt =====
-- src/gsrr_slice01/runtime.py: what every runtime has, from its construction on, whatever is called, in
-- whatever order, and whatever is injected.
use gsrr_agent_harness.Prelude.{
  ℕ, String, ◌≡◌, ◌≤◌, refl, Option, none, some, List, arith, Extends-refl,
}
use gsrr_agent_harness.Exec.Keeps.{Order, Keeps, Keeps-modify, keeps_rules}
use gsrr_agent_harness.Shared.{Shared, in_journal-journal, own_modify-journal, journal_order}
use gsrr_agent_harness.Contracts.Domain.{Definition, AuthorityEvidence, RetryPolicy}
use gsrr_agent_harness.Contracts.Record.{Record}
use gsrr_agent_harness.Journal.Defs.{Journal, lookup}
use gsrr_agent_harness.Journal.Basic.{target_of}
use gsrr_agent_harness.Journal.Growth.{history-Basic}
use gsrr_agent_harness.Journal.Lookup.{lookup-Extends}
use gsrr_agent_harness.Journal.History.{IsLater, history, publish-history}
use gsrr_agent_harness.Retry.Lifecycle.{set_ledger}
use gsrr_agent_harness.Retry.Invariant.{IsScope, budget}
use gsrr_agent_harness.Retry.Journaled.{remember_ledger-JournaledIn}
use gsrr_agent_harness.Fixture.Defs.{FixtureFaults, Provider}
use gsrr_agent_harness.Fixture.Effect.{Claims}
use gsrr_agent_harness.Fixture.Observe.{external_change, change_authority}
use gsrr_agent_harness.Fixture.Once.{IsOnce}
use gsrr_agent_harness.Runtime.Defs.{Runtime}
use gsrr_agent_harness.Runtime.Frames
use gsrr_agent_harness.Runtime.Frames.{supervised, provided}
use gsrr_agent_harness.Runtime.Stable.{Stable, Pivotal}
use gsrr_agent_harness.Runtime.Start.{bare_runtime}
use gsrr_agent_harness.Runtime.Seams.{inject_kind-Keeps, inject-Keeps}
use gsrr_agent_harness.Runtime.Starting.{init-Steady, new_runtime}
use gsrr_agent_harness.Runtime.Calls.{Method, calls, calls_keep}
use gsrr_agent_harness.Runtime.Invariants.{
  IsScope-Stable, IsScope-Pivotal, IsOnce-Stable, IsOnce-Pivotal, journal-Core, journal-Pivotal,
  inject_admission-Keeps,
}

-- What a new runtime's parts keep, every runtime has.
module _ (o : Order (Shared Runtime)) (k : Stable o) (w : Pivotal o) where
  pub always :
      (run_id : String) (definition : Option Definition) (grant : Option AuthorityEvidence)
      (policy : Option RetryPolicy) (faults : FixtureFaults) (ms : List Method)
      → o.le
          (bare_runtime run_id definition grant policy faults)
          (calls ms (new_runtime run_id definition grant policy faults))
  unfolding new_runtime
  always run_id definition grant policy faults ms =
      let bare = bare_runtime run_id definition grant policy faults in
      o.le_trans bare (new_runtime run_id definition grant policy faults) _
        ((init-Steady o k).at bare)
        (calls_keep o k w ms (new_runtime run_id definition grant policy faults))

zero-le-budget : (p : Option RetryPolicy) → 0 ≤ budget p
zero-le-budget p = omega arith

-- A new runtime, with any run id, definition, grant, policy and faults, whose methods are then called in
-- any order, any number of times, with any arguments, and whether the calls return or raise, has a
-- supervisor in scope: its attempts are numbered from 1 without a gap, each names the one before it, all
-- but the last are terminal; the ledger, where there is one, counts exactly the attempts; and there
-- are no more of them than the `max_attempts` of the supervisor's policy, or than one, where that is less
-- than one or no number.
pub runtime-IsScope :
    (run_id : String) (definition : Option Definition) (grant : Option AuthorityEvidence)
    (policy : Option RetryPolicy) (faults : FixtureFaults) (ms : List Method)
    → IsScope (calls ms (new_runtime run_id definition grant policy faults)).own.supervisor
runtime-IsScope run_id definition grant policy faults ms =
    always (supervised IsScope) IsScope-Stable IsScope-Pivotal run_id definition grant policy faults
      ms (record { chain = tt; counts = omega arith; bounded = zero-le-budget policy })

Claims-le : (now : Option String) (n : ℕ) → Claims now n → n ≤ 1
Claims-le none n h = omega arith
Claims-le (some c) n h = omega arith

-- A new runtime, with any run id, definition, grant, policy and faults, whose methods are then called in
-- any order, any number of times, with any arguments, and whether the calls return or raise, invokes the
-- provider once at most.
pub single_invocation :
    (run_id : String) (definition : Option Definition) (grant : Option AuthorityEvidence)
    (policy : Option RetryPolicy) (faults : FixtureFaults) (ms : List Method)
    → (calls ms (new_runtime run_id definition grant policy faults)).own.provider.invocation_count
      ≤ 1
single_invocation run_id definition grant policy faults ms =
    let p = (calls ms (new_runtime run_id definition grant policy faults)).own.provider in
    Claims-le p.current_invocation p.invocation_count (
      always (provided IsOnce) IsOnce-Stable IsOnce-Pivotal run_id definition grant policy faults ms
        refl)

change_authority-history : (s : Journal) → IsLater s (change_authority s)
change_authority-history s = record {
  same_run = refl;
  serials = omega arith;
  records = Extends-refl s.aggregate.records;
  events = Extends-refl s.aggregate.events;
}

external_change-history :
    (kind : String) → Keeps (journal_order {S = Provider} history) (external_change kind)
unfolding external_change
external_change-history kind =
    search
      (
        keeps_rules,
        in_journal-journal history,
        Keeps-modify {o = history} change_authority change_authority-history,
        own_modify-journal history,
      )
      depth 9

pub history-Stable : Stable (journal_order history)
history-Stable = record {
  core = journal-Core history history-Basic;
  at_inject = inject-Keeps (journal_order history) (journal-Core history history-Basic) λ kind.
      inject_kind-Keeps (journal_order history) (journal-Core history history-Basic) kind
        (Frames.in_provider-journal history _ (external_change-history kind))
        (inject_admission-Keeps (journal_order history) kind
          (λ l. Frames.in_supervisor-journal history _ (own_modify-journal history (set_ledger l)))
          (Frames.in_supervisor-journal history _
            (remember_ledger-JournaledIn history history-Basic)));
}

pub history-Pivotal : Pivotal (journal_order history)
history-Pivotal =
    journal-Pivotal history history-Basic (λ d e. publish-history d e (target_of d)) history-Stable

-- Whatever state a runtime is in, and whatever is then called, in any order, with any arguments, and
-- however the calls end: a record that the journal holds under a reference is still the one that is found
-- under it.
pub runtime_keeps_records :
    (s : Shared Runtime) (ms : List Method) (ref : String) {r : Record}
    → lookup ref s.journal.aggregate.records ≡ some r
    → lookup ref (calls ms s).journal.aggregate.records ≡ some r
runtime_keeps_records s ms ref h =
    let later = calls_keep (journal_order history) history-Stable history-Pivotal ms s in
    lookup-Extends ref s.journal.aggregate.records (calls ms s).journal.aggregate.records
      later.records h
