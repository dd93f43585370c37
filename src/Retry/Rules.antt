-- ===== src/Retry/Rules.antt =====
-- src/gsrr_slice01/retry.py: what the proofs on all the supervisor's methods share.
use gsrr_agent_harness.Prelude.{
  ◌≤◌, ◌≡◌, refl, sym, subst, ◌∙◌, Option, none, some, List, [], ◌∷◌, arith, length, last,
}
use gsrr_agent_harness.Exec.{Exec, pure, raise}
use gsrr_agent_harness.Exec.Triple.{Triple}
use gsrr_agent_harness.Exec.Keeps.{Keeps, Keeps-bind, Keeps-pure, keeps_rules}
use gsrr_agent_harness.Shared.{Shared, in_journal, in_journal-own}
use gsrr_agent_harness.Contracts.Attempts.{Attempt, ScopeLedger}
use gsrr_agent_harness.Journal.Defs.{Journal}
use gsrr_agent_harness.Retry.Defs.{Supervisor, EmitCall, emit, remember_ledger}
use gsrr_agent_harness.Retry.Lifecycle.{need, set_ledger}
use gsrr_agent_harness.Retry.Frame.{owned, emit-owned, remember_ledger-owned}
use gsrr_agent_harness.Retry.Invariant.{Counts, IsScope, IsScope-steady}

pub IsScope-remember : Keeps (owned IsScope) remember_ledger
IsScope-remember = remember_ledger-owned IsScope

pub IsScope-emit : (c : EmitCall) → Keeps (owned IsScope) (emit c)
IsScope-emit = emit-owned IsScope IsScope-steady

pub IsScope-journal : {A : Type 0} (m : Exec Journal A) → Keeps (owned IsScope) (in_journal m)
IsScope-journal = in_journal-own IsScope

pub ruleset scope_rules = (keeps_rules, IsScope-remember, IsScope-emit, IsScope-journal)

pub length-last : (xs : List Attempt) {a : Attempt} → last xs ≡ some a → 1 ≤ length xs
length-last [] e = cc
length-last (x ∷ xs) e = omega arith

pub need-Triple :
    {A : Type 0} {P E : Shared Supervisor → Type 0} (o : Option A)
    → ((s : Shared Supervisor) → P s → E s)
    → Triple P (need o) (λ a s. P s × (o ≡ some a)) E
unfolding need raise pure
need-Triple none e = record { at = e }
need-Triple (some a) e = record { at = λ s h. (h, refl) }

abbrev pub I : Shared Supervisor → Type 0
I s = IsScope s.own

-- A new ledger for the scope that counts as the old one does.
pub ledger-IsScope :
    (l l' : ScopeLedger) (s : Supervisor)
    → l'.attempts_created ≡ l.attempts_created
    → IsScope s × (some l ≡ s.ledger)
    → IsScope (set_ledger l' s)
ledger-IsScope l l' s e h =
    let c = subst (λ (x : Option ScopeLedger). Counts x s.attempts) (sym h.1) h.0.counts in
    record { chain = h.0.chain; counts = (e ∙ c.0, c.1); bounded = h.0.bounded }
