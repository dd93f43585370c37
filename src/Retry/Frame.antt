-- ===== src/Retry/Frame.antt =====
-- src/gsrr_slice01/retry.py: a report changes nothing of the supervisor but its last control, and the
-- journal only by what is retained.
use gsrr_agent_harness.Prelude.{Option, none, some}
use gsrr_agent_harness.Exec.Keeps.{Order, preserving, Keeps, Keeps-bind, Keeps-gets, Keeps-pure}
use gsrr_agent_harness.Shared.{Shared, own_gets, in_journal-own, own_modify-own}
use gsrr_agent_harness.Contracts.Enums.{Control}
use gsrr_agent_harness.Contracts.Attempts.{ScopeLedger}
use gsrr_agent_harness.Contracts.Record.{Record}
use gsrr_agent_harness.Journal.Defs.{new_id, retain}
use gsrr_agent_harness.Journal.Event.{event}
use gsrr_agent_harness.Retry.Defs.{
  Supervisor, retain_ledger, remember_ledger, EmitCall, emit, set_control,
}

-- What does not speak of the last control.
abbrev pub IsSteady : (Supervisor → Type 0) → Type 0
IsSteady P = (c : Control) (s : Supervisor) → P s → P (set_control c s)

abbrev pub owned : (Supervisor → Type 0) → Order (Shared Supervisor)
owned P = preserving (λ s. P s.own)

module _ (P : Supervisor → Type 0) where
  retain_ledger-owned : (l : Option ScopeLedger) → Keeps (owned P) (retain_ledger l)
  unfolding retain_ledger
  retain_ledger-owned none = Keeps-pure tt
  retain_ledger-owned (some l) =
      Keeps-bind _ _ (in_journal-own P (new_id "scope-ledger"))
        λ ref. Keeps-bind _ _ (in_journal-own P (retain ref (Record.ledger l))) λ _. Keeps-pure tt

  pub remember_ledger-owned : Keeps (owned P) remember_ledger
  unfolding remember_ledger own_gets
  remember_ledger-owned = Keeps-bind _ _ (Keeps-gets _) retain_ledger-owned

  pub emit-owned : IsSteady P → (c : EmitCall) → Keeps (owned P) (emit c)
  unfolding emit own_gets
  emit-owned steady c = Keeps-bind _ _ (Keeps-gets _) λ call.
      Keeps-bind _ _ (own_modify-own P (set_control c.control) (steady c.control))
        λ _. in_journal-own P (event call)
