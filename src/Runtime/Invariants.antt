-- ===== src/Runtime/Invariants.antt =====
-- src/gsrr_slice01/runtime.py: the parts keep the supervisor's scope, its attempts, the provider's count
-- of invocations, and any order of journals that the journal's calls keep.
use gsrr_agent_harness.Prelude.{String, ◌≡◌, refl, Option, none, some}
use gsrr_agent_harness.Exec.{◌>>=◌, ◌>>◌}
use gsrr_agent_harness.Exec.Keeps.{
  Order, Keeps, Keeps-bind, Keeps-gets, Keeps-gets_bind, keeps_rules,
}
use gsrr_agent_harness.Shared.{Shared, in_journal-journal, own_gets, own_modify, journal_order}
use gsrr_agent_harness.Contracts.Attempts.{ScopeLedger}
use gsrr_agent_harness.Journal.Defs.{Journal}
use gsrr_agent_harness.Journal.Basic.{Basic, Publishes}
use gsrr_agent_harness.Retry.Defs.{remember_ledger}
use gsrr_agent_harness.Retry.Lifecycle.{set_ledger}
use gsrr_agent_harness.Retry.Invariant.{IsScope}
use gsrr_agent_harness.Retry.Rules.{IsScope-remember, ledger-IsScope}
use gsrr_agent_harness.Retry.Begun.{HasAttempt, begun_modify, begun_remember}
use gsrr_agent_harness.Fixture.Once.{IsOnce, external_change-once}
use gsrr_agent_harness.Runtime.Defs.{Runtime, in_supervisor, get_supervisor}
use gsrr_agent_harness.Runtime.Inject.{inject_admission, injected_admission, replaceable}
use gsrr_agent_harness.Runtime.Frames
use gsrr_agent_harness.Runtime.Frames.{supervised, provided}
use gsrr_agent_harness.Runtime.Stable.{Core, Stable, Pivotal}
use gsrr_agent_harness.Runtime.Pivots.{loose-Pivotal}
use gsrr_agent_harness.Runtime.Seams.{inject_kind-Keeps, inject-Keeps}

IsScope-Core : Core (supervised IsScope)
IsScope-Core = record {
  at_run = λ f same. Frames.set_run-supervised IsScope f;
  at_journal = λ m k. Frames.in_journal-supervised IsScope m;
  at_supervisor = λ m k. Frames.in_supervisor-supervised IsScope m k.owned.scope;
  at_provider = λ m k. Frames.in_provider-supervised IsScope m;
  at_planner = λ m k. Frames.in_planner-supervised IsScope m;
  at_capability = λ m. Frames.in_capability-supervised IsScope m;
}

IsOnce-Core : Core (provided IsOnce)
IsOnce-Core = record {
  at_run = λ f same. Frames.set_run-provided IsOnce f;
  at_journal = λ m k. Frames.in_journal-provided IsOnce m;
  at_supervisor = λ m k. Frames.in_supervisor-provided IsOnce m;
  at_provider = λ m k. Frames.in_provider-provided IsOnce m k.once;
  at_planner = λ m k. Frames.in_planner-provided IsOnce m;
  at_capability = λ m. Frames.in_capability-provided IsOnce m;
}

begun-Core : Core (supervised HasAttempt)
begun-Core = record {
  at_run = λ f same. Frames.set_run-supervised HasAttempt f;
  at_journal = λ m k. Frames.in_journal-supervised HasAttempt m;
  at_supervisor = λ m k. Frames.in_supervisor-supervised HasAttempt m k.owned.begun;
  at_provider = λ m k. Frames.in_provider-supervised HasAttempt m;
  at_planner = λ m k. Frames.in_planner-supervised HasAttempt m;
  at_capability = λ m. Frames.in_capability-supervised HasAttempt m;
}

pub journal-Core : (q : Order Journal) → Basic q → Core (journal_order q)
journal-Core q b = record {
  at_run = λ f same. Frames.set_run-journal q f;
  at_journal = λ m k. in_journal-journal q m (k q b);
  at_supervisor = λ m k. Frames.in_supervisor-journal q m (k.owned.journal q b);
  at_provider = λ m k. Frames.in_provider-journal q m (k.journal q b);
  at_planner = λ m k. Frames.in_planner-journal q m (k q b);
  at_capability = λ m. Frames.in_capability-journal q m;
}

-- The ledger that `inject` assigns counts as the one that it replaces.
admission_injected :
    (kind : String) (ledger : Option ScopeLedger) (s : Shared Runtime)
    → ledger ≡ s.own.supervisor.ledger
    → IsScope s.own.supervisor
    → IsScope
        ((replaceable ledger >>= λ l.
            in_supervisor
              (own_modify (set_ledger (record l { admission_seen = injected_admission kind })))
            >> in_supervisor remember_ledger)
          s).1.own.supervisor
unfolding replaceable ◌>>=◌ in_supervisor own_modify
admission_injected kind none s e h = h
admission_injected kind (some l) s e h = IsScope-remember.at _ (
    ledger-IsScope l (record l { admission_seen = injected_admission kind }) s.own.supervisor refl
      (h, e))

inject_admission-IsScope : (kind : String) → Keeps (supervised IsScope) (inject_admission kind)
unfolding inject_admission get_supervisor own_gets
inject_admission-IsScope kind =
    Keeps-gets_bind _ _ (λ s. admission_injected kind s.own.supervisor.ledger s refl)

replaceable-any : {A : Type 0} (o : Order (Shared Runtime)) (a : Option A) → Keeps o (replaceable a)
unfolding replaceable
replaceable-any o none = search keeps_rules
replaceable-any o (some a) = search keeps_rules

-- The same injection, under an order that its two assignments keep.
pub inject_admission-Keeps :
    (o : Order (Shared Runtime)) (kind : String)
    → ((l : ScopeLedger) → Keeps o (in_supervisor (own_modify (set_ledger l))))
    → Keeps o (in_supervisor remember_ledger)
    → Keeps o (inject_admission kind)
unfolding inject_admission get_supervisor own_gets
inject_admission-Keeps o kind assign remember =
    Keeps-bind _ _ (Keeps-gets _) λ ledger.
      Keeps-bind _ _ (replaceable-any o ledger) λ l. Keeps-bind _ _ (assign _) λ _. remember

pub IsScope-Stable : Stable (supervised IsScope)
IsScope-Stable = record {
  core = IsScope-Core;
  at_inject = inject-Keeps (supervised IsScope) IsScope-Core λ kind.
      inject_kind-Keeps (supervised IsScope) IsScope-Core kind
        (Frames.in_provider-supervised IsScope _) (inject_admission-IsScope kind);
}

pub begun-Stable : Stable (supervised HasAttempt)
begun-Stable = record {
  core = begun-Core;
  at_inject = inject-Keeps (supervised HasAttempt) begun-Core λ kind.
      inject_kind-Keeps (supervised HasAttempt) begun-Core kind
        (Frames.in_provider-supervised HasAttempt _)
        (inject_admission-Keeps (supervised HasAttempt) kind
          (λ l.
            Frames.in_supervisor-supervised HasAttempt _ (begun_modify (set_ledger l) (λ s. refl)))
          (Frames.in_supervisor-supervised HasAttempt _ begun_remember));
}

pub IsOnce-Stable : Stable (provided IsOnce)
IsOnce-Stable = record {
  core = IsOnce-Core;
  at_inject = inject-Keeps (provided IsOnce) IsOnce-Core λ kind.
      inject_kind-Keeps (provided IsOnce) IsOnce-Core kind
        (Frames.in_provider-provided IsOnce _ (external_change-once kind))
        (inject_admission-Keeps (provided IsOnce) kind (λ l. Frames.in_supervisor-provided IsOnce _)
          (Frames.in_supervisor-provided IsOnce _));
}

pub IsScope-Pivotal : Pivotal (supervised IsScope)
IsScope-Pivotal =
    loose-Pivotal (supervised IsScope) IsScope-Stable (Frames.set_run-supervised IsScope)
      (λ d e. Frames.in_journal-supervised IsScope _)
      (λ A m k. Frames.in_supervisor-supervised IsScope m k.scope)

pub begun-Pivotal : Pivotal (supervised HasAttempt)
begun-Pivotal =
    loose-Pivotal (supervised HasAttempt) begun-Stable (Frames.set_run-supervised HasAttempt)
      (λ d e. Frames.in_journal-supervised HasAttempt _)
      (λ A m k. Frames.in_supervisor-supervised HasAttempt m k.begun)

pub IsOnce-Pivotal : Pivotal (provided IsOnce)
IsOnce-Pivotal =
    loose-Pivotal (provided IsOnce) IsOnce-Stable (Frames.set_run-provided IsOnce)
      (λ d e. Frames.in_journal-provided IsOnce _) (λ A m k. Frames.in_supervisor-provided IsOnce m)

pub journal-Pivotal :
    (q : Order Journal)
    → Basic q
    → Publishes q
    → Stable (journal_order q)
    → Pivotal (journal_order q)
journal-Pivotal q b publishes k =
    loose-Pivotal (journal_order q) k (Frames.set_run-journal q)
      (λ d e. in_journal-journal q _ (publishes d e))
      (λ A m k. Frames.in_supervisor-journal q m (k.journal q b))
