-- ===== src/Runtime/Replayed.antt =====
-- src/gsrr_slice01/runtime.py and src/gsrr_slice01/reconciliation.py: where the authority comes from.
use gsrr_agent_harness.Prelude.{
  String, ◌≡◌, refl, Bool, true, false, Option, List, [], ◌∷◌, ◌==◌, string_eq, All,
}
use gsrr_agent_harness.Exec.{Exec, modify, gets, ◌>>=◌}
use gsrr_agent_harness.Exec.Keeps.{Order, preserving, Keeps, Keeps-if, keeps_rules}
use gsrr_agent_harness.Shared.{
  Shared, in_journal, own_gets, own_modify, own_modify-journal, journal_order,
}
use gsrr_agent_harness.Contracts.Domain.{Definition, AuthorityEvidence, RetryPolicy}
use gsrr_agent_harness.Journal.Replay.{
  first_authority, authority_of, replay, IsReplayed, replayed, replay-Basic, publish-replayed,
}
use gsrr_agent_harness.Retry.Defs.{Supervisor}
use gsrr_agent_harness.Retry.Journaled.{remember_ledger-JournaledIn}
use gsrr_agent_harness.Fixture.Defs.{FixtureFaults, Provider}
use gsrr_agent_harness.Fixture.Observe.{external_change}
use gsrr_agent_harness.Runtime.Defs.{
  Runtime, in_supervisor, in_provider, in_planner, in_capability, set_run, get_faults,
}
use gsrr_agent_harness.Runtime.Inject.{inject, inject_kind}
use gsrr_agent_harness.Runtime.Stable.{Owned, Core, Stable, Pivotal}
use gsrr_agent_harness.Runtime.Pivots.{loose-Pivotal}
use gsrr_agent_harness.Runtime.Seams.{inject_kind-Keeps, inject_all-Keeps}
use gsrr_agent_harness.Runtime.Starting.{new_runtime}
use gsrr_agent_harness.Runtime.Calls.{Method, calls}
use gsrr_agent_harness.Runtime.Invariants.{inject_admission-Keeps}
use gsrr_agent_harness.Runtime.Always.{always}

-- No injection changes the authority behind the projector's back.
abbrev pub IsSealed : FixtureFaults → Type 0
IsSealed faults = All (λ e. (e.1 == "authority") ≡ false) faults.injections

abbrev Sealed : Shared Runtime → Type 0
Sealed s = IsSealed s.own.faults × IsReplayed s.journal

abbrev sealed : Order (Shared Runtime)
sealed = preserving Sealed

sealed_owned :
    {A : Type 0} (m : Exec (Shared Supervisor) A) → Owned m → Keeps sealed (in_supervisor m)
unfolding in_supervisor
sealed_owned m k = record {
  at = λ s h. (
    h.0,
    (k.journal replayed replay-Basic).at (record { journal = s.journal; own = s.own.supervisor })
        h.1,
  );
}

sealed-Core : Core sealed
unfolding set_run own_modify modify in_journal in_supervisor in_provider in_planner in_capability
sealed-Core = record {
  at_run = λ f same. record { at = λ s h. h };
  at_journal = λ m k. record { at = λ s h. (h.0, (k replayed replay-Basic).at s.journal h.1) };
  at_supervisor = λ m k. sealed_owned m k.owned;
  at_provider = λ m k. record {
    at = λ s h. (
      h.0,
      (k.journal replayed replay-Basic).at (record { journal = s.journal; own = s.own.provider })
          h.1,
    );
  };
  at_planner = λ m k. record {
    at = λ s h. (
      h.0,
      (k replayed replay-Basic).at (record { journal = s.journal; own = s.own.planner }) h.1,
    );
  };
  at_capability = λ m. record { at = λ s h. h };
}

pub not_both : {b : Bool} → b ≡ true → b ≡ false → ⊥
not_both e f = cc

external_change-replayed :
    (kind : String)
    → (kind == "authority") ≡ false
    → Keeps (journal_order {S = Provider} replayed) (external_change kind)
unfolding external_change
external_change-replayed kind other =
    Keeps-if (kind == "authority") _ _ (λ e. absurd (not_both e other))
      (λ _. search (keeps_rules, own_modify-journal replayed) depth 9)

external_sealed :
    (kind : String)
    → (kind == "authority") ≡ false
    → Keeps sealed (in_provider (external_change kind))
unfolding in_provider
external_sealed kind other = record {
  at = λ s h. (
    h.0,
    (external_change-replayed kind other).at (record { journal = s.journal; own = s.own.provider })
        h.1,
  );
}

kind_sealed : (kind : String) → (kind == "authority") ≡ false → Keeps sealed (inject_kind kind)
unfolding in_supervisor own_modify modify
kind_sealed kind other = inject_kind-Keeps sealed sealed-Core kind (external_sealed kind other) (
    inject_admission-Keeps sealed kind (λ l. record { at = λ s h. h })
      (record {
        at = λ s h. (
          h.0,
          (remember_ledger-JournaledIn replayed replay-Basic).at
              (record { journal = s.journal; own = s.own.supervisor }) h.1,
        );
      }))

All-sealed :
    (entries : List (String × String))
    → All (λ e. (e.1 == "authority") ≡ false) entries
    → All (λ e. Keeps sealed (inject_kind e.1)) entries
All-sealed [] h = tt
All-sealed (e ∷ rest) h = (kind_sealed e.1 h.0, All-sealed rest h.1)

sealed-Stable : Stable sealed
unfolding inject get_faults own_gets gets ◌>>=◌
sealed-Stable = record {
  core = sealed-Core;
  at_inject = λ seam. record {
    at = λ s h.
        (inject_all-Keeps sealed sealed-Core seam s.own.faults.injections
            (All-sealed s.own.faults.injections h.0)).at
          s h;
  };
}

sealed-Pivotal : Pivotal sealed
unfolding set_run own_modify modify in_journal
sealed-Pivotal =
    loose-Pivotal sealed sealed-Stable (λ f. record { at = λ s h. h })
      (λ d e. record { at = λ s h. (h.0, (publish-replayed d e).at s.journal h.1) })
      (λ A m k. sealed_owned m k)

-- A new runtime, with any run id, definition, grant and policy, and with any faults that inject no change
-- of the authority, whose methods are then called in any order, any number of times, with any arguments,
-- and whether the calls return or raise: the authoritative state and its version are the replay of the
-- retained decisions, from DRAFT at version 1; each retained PROJECT decision has set the state that it
-- targets and has counted the version on by one, and no other record has changed them.
pub runtime-replay :
    (run_id : String) (definition : Option Definition) (grant : Option AuthorityEvidence)
    (policy : Option RetryPolicy) (faults : FixtureFaults) (ms : List Method)
    → IsSealed faults
    → replay
        (calls ms (new_runtime run_id definition grant policy faults)).journal.aggregate.records
        first_authority
      ≡ authority_of
          (calls ms (new_runtime run_id definition grant policy faults)).journal.aggregate
unfolding replay
runtime-replay run_id definition grant policy faults ms none_injected =
    (always sealed sealed-Stable sealed-Pivotal run_id definition grant policy faults ms
      (none_injected, refl)).1
