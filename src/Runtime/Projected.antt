-- ===== src/Runtime/Projected.antt =====
-- src/gsrr_slice01/runtime.py, reconciliation.py and journal.py: how often a run publishes.
use gsrr_agent_harness.Prelude.{ℕ, ◌+◌, ◌≤◌, String, ◌≡◌, sym, ap, ◌∙◌, Option, List, arith}
use gsrr_agent_harness.Contracts.Domain.{Definition, AuthorityEvidence, RetryPolicy}
use gsrr_agent_harness.Journal.Replay.{first_authority, publications, replay-publications}
use gsrr_agent_harness.Journal.Versions.{version_of}
use gsrr_agent_harness.Fixture.Defs.{FixtureFaults}
use gsrr_agent_harness.Runtime.Starting.{new_runtime}
use gsrr_agent_harness.Runtime.Calls.{Method, calls}
use gsrr_agent_harness.Runtime.Replayed.{IsSealed, runtime-replay}
use gsrr_agent_harness.Runtime.Advanced.{runtime-Advanced, version_bound}

counted : (v p : ℕ) → v ≤ 2 → 1 + p ≡ v → (p ≤ 1) × (v ≡ 1 + p)
counted v p le e = (omega arith, omega arith)

-- A new runtime, with any run id, definition, grant and policy, and with any faults that inject no change
-- of the authority, whose methods are then called in any order, any number of times, with any arguments,
-- and whether the calls return or raise: its journal retains one decision that publishes a state at most,
-- and the authority's version is 1, or 2 once there is that decision.
pub single_projection :
    (run_id : String) (definition : Option Definition) (grant : Option AuthorityEvidence)
    (policy : Option RetryPolicy) (faults : FixtureFaults) (ms : List Method)
    → IsSealed faults
    → (publications
          (calls ms (new_runtime run_id definition grant policy faults)).journal.aggregate.records
        ≤ 1)
      × (version_of (calls ms (new_runtime run_id definition grant policy faults)).journal
          ≡ 1
            + publications
                (calls ms
                  (new_runtime run_id definition grant policy faults)).journal.aggregate.records)
single_projection run_id definition grant policy faults ms sealed =
    let s = calls ms (new_runtime run_id definition grant policy faults) in
    let xs = s.journal.aggregate.records in
    counted (version_of s.journal) (publications xs)
      (version_bound s (runtime-Advanced run_id definition grant policy faults ms sealed))
      (sym (replay-publications xs first_authority)
        ∙ ap (λ a. a.version) (runtime-replay run_id definition grant policy faults ms sealed))
