-- ===== src/Retry/Kept.antt =====
-- src/gsrr_slice01/retry.py: what has been scheduled for a prior attempt stays so, whatever is called.
use text.Mathlib.TextPositions.{eq_refl}
use gsrr_agent_harness.Prelude.{
  ℕ, String, ◌≡◌, refl, Bool, false, Option, none, some, List, [], ◌∷◌, ◌==◌, string_eq, text_eq,
  inl, inr, Bool-cases, Option-cases, ap, if◌then◌else◌, ◌∙◌,
}
use gsrr_agent_harness.Exec.{Exec, pure, gets, ◌>>=◌}
use gsrr_agent_harness.Exec.Keeps.{
  Keeps, Keeps-bind, Keeps-pure, Keeps-coarse, Keeps-gets, keeps_rules,
}
use gsrr_agent_harness.Shared.{
  Shared, in_journal, in_journal-own, own_gets, own_modify, own_modify-own,
}
use gsrr_agent_harness.Contracts.Enums.{Mode, Control}
use gsrr_agent_harness.Contracts.Domain.{RetryPolicy}
use gsrr_agent_harness.Contracts.Attempts.{Attempt, ScopeLedger}
use gsrr_agent_harness.Journal.Defs.{Journal}
use gsrr_agent_harness.Retry.Defs.{Supervisor, current, remember_ledger, EmitCall, emit}
use gsrr_agent_harness.Retry.Lifecycle.{put, find, start}
use gsrr_agent_harness.Retry.Eligibility.{eligibility, exhausted}
use gsrr_agent_harness.Retry.Successor.{
  open_circuit, lose_scheduling, set_schedule, allocate, eligible_successor, report_eligibility,
  decided_successor, scoped_successor, refuse_successor, new_successor, successor_of, successor,
}
use gsrr_agent_harness.Retry.Frame.{owned, remember_ledger-owned, emit-owned}
use gsrr_agent_harness.Retry.Journaled.{need-Keeps}
use gsrr_agent_harness.Retry.Lined.{lined, lined_admission, lined_bind, lined_fail}
use gsrr_agent_harness.Retry.Eligible.{exhausted-lined, eligibility-lined}
use gsrr_agent_harness.Retry.Calls.{Method, call, calls}

-- A table's entry under another key.
pub find-put_other :
    {V : Type 0} (k key : String) (v : V) (xs : List (String × V))
    → (key == k) ≡ false
    → find k (put key v xs) ≡ find k xs
unfolding find put
find-put_other k key v [] h = rw h refl
find-put_other k key v ((j, w) ∷ xs) h = elim (Bool-cases (j == key)) [
  | inl same ↦ rw (text_eq j key same, eq_refl, h) refl
  | inr other ↦ rw other (ap (λ x. if j == k then some w else x) (find-put_other k key v xs h))
]

module _ (prior : String) (a : Attempt) where
  -- The attempt is what has been scheduled for the prior one.
  abbrev pub IsFiled : Supervisor → Type 0
  IsFiled s = find prior s.schedules ≡ some a

  journal-IsFiled : {A : Type 0} (m : Exec Journal A) → Keeps (owned IsFiled) (in_journal m)
  journal-IsFiled m = in_journal-own IsFiled m

  gets-IsFiled : {A : Type 0} (f : Supervisor → A) → Keeps (owned IsFiled) (own_gets f)
  unfolding own_gets
  gets-IsFiled f = Keeps-gets _

  -- An assignment that leaves the schedules alone.
  modify-IsFiled :
      (f : Supervisor → Supervisor)
      → ((s : Supervisor) → (f s).schedules ≡ s.schedules)
      → Keeps (owned IsFiled) (own_modify f)
  modify-IsFiled f same = own_modify-own IsFiled f (λ s h. rw (same s) h)

  emit-IsFiled : (c : EmitCall) → Keeps (owned IsFiled) (emit c)
  emit-IsFiled = emit-owned IsFiled (λ c s h. h)

  remember-IsFiled : Keeps (owned IsFiled) remember_ledger
  remember-IsFiled = remember_ledger-owned IsFiled

  lined-IsFiled :
      {A : Type 0} (m : Exec (Shared Supervisor) A) → Keeps lined m → Keeps (owned IsFiled) m
  lined-IsFiled m k = Keeps-coarse (owned IsFiled) (λ s t e h. ap (find prior) e.schedules ∙ h) m k

  ruleset filed_rules = (
    keeps_rules, need-Keeps, journal-IsFiled, gets-IsFiled, emit-IsFiled, remember-IsFiled,
    modify-IsFiled, refl,
  )

  start-IsFiled : Keeps (owned IsFiled) start
  unfolding start
  start-IsFiled = search filed_rules depth 18

  eligibility-IsFiled :
      (key : String) (mode : Mode) (fresh : Control) (checks : List String) (b : Attempt)
      (l : ScopeLedger) (s : Supervisor)
      → Keeps (owned IsFiled) (eligibility key mode fresh checks b l s)
  eligibility-IsFiled key mode fresh checks b l s =
      lined-IsFiled _ (eligibility-lined key mode fresh checks b l s)

  schedule-IsFiled :
      (key : String) (b : Attempt)
      → (key == prior) ≡ false
      → Keeps (owned IsFiled) (own_modify (set_schedule key b))
  schedule-IsFiled key b differ =
      own_modify-own IsFiled (set_schedule key b)
        (λ s h. find-put_other prior key b s.schedules differ ∙ h)

  module _ (key : String) (differ : (key == prior) ≡ false) where
    allocate-IsFiled :
        (refs checks : List String) (b : Attempt) (l : ScopeLedger)
        → Keeps (owned IsFiled) (allocate key refs checks b l)
    unfolding allocate
    allocate-IsFiled refs checks b l = search (filed_rules, schedule-IsFiled, differ) depth 22

    open-IsFiled :
        (refs checks : List String) (l : ScopeLedger)
        → Keeps (owned IsFiled) (open_circuit refs checks l)
    unfolding open_circuit
    open-IsFiled refs checks l = search filed_rules depth 16

    lose-IsFiled :
        (refs checks : List String) (l : ScopeLedger)
        → Keeps (owned IsFiled) (lose_scheduling refs checks l)
    unfolding lose_scheduling
    lose-IsFiled refs checks l = search filed_rules depth 16

    report-IsFiled :
        (control : Control) (refs checks : List String) (reason : String)
        → Keeps (owned IsFiled) (report_eligibility control refs checks reason)
    unfolding report_eligibility
    report-IsFiled control refs checks reason = search filed_rules depth 9

    exhausted-IsFiled :
        (p : RetryPolicy) (l : ScopeLedger) (n : ℕ) → Keeps (owned IsFiled) (exhausted p l n)
    exhausted-IsFiled p l n = lined-IsFiled _ (exhausted-lined p l n)

    eligible-IsFiled :
        (refs checks : List String) (failure : Bool) (b : Attempt) (l : ScopeLedger)
        (p : RetryPolicy)
        → Keeps (owned IsFiled) (eligible_successor key refs checks failure b l p)
    unfolding eligible_successor
    eligible-IsFiled refs checks failure b l p =
        search (filed_rules, exhausted-IsFiled, open-IsFiled, lose-IsFiled, allocate-IsFiled) depth
          14

    decided-IsFiled :
        (refs checks : List String) (failure : Bool) (b : Attempt) (l : ScopeLedger)
        (control : Control)
        → Keeps (owned IsFiled) (decided_successor key refs checks failure b l control)
    unfolding decided_successor
    decided-IsFiled refs checks failure b l control =
        search (filed_rules, report-IsFiled, eligible-IsFiled) depth 14

    refuse-IsFiled : Keeps (owned IsFiled) refuse_successor
    unfolding refuse_successor
    refuse-IsFiled = search filed_rules depth 9

    new-IsFiled :
        (mode : Mode) (fresh : Control) (checks : List String) (failure : Bool) (b : Option Attempt)
        (l : Option ScopeLedger)
        → Keeps (owned IsFiled) (new_successor key mode fresh checks failure b l)
    unfolding new_successor scoped_successor
    new-IsFiled mode fresh checks failure none l = refuse-IsFiled
    new-IsFiled mode fresh checks failure (some b) none = refuse-IsFiled
    new-IsFiled mode fresh checks failure (some b) (some l) =
        search (filed_rules, refuse-IsFiled, eligibility-IsFiled, decided-IsFiled) depth 14

  -- What is found under one key and not under the other tells the keys apart.
  apart :
      (key : String) (xs : List (String × Attempt))
      → find key xs ≡ none
      → find prior xs ≡ some a
      → (key == prior) ≡ false
  apart key xs unknown known = elim (Bool-cases (key == prior)) [
    | inl same ↦ absurd (cc (unknown, known, text_eq key prior same))
    | inr other ↦ other
  ]

  successor-IsFiled :
      (key : String) (mode : Mode) (fresh : Control) (checks : List String) (failure : Bool)
      → Keeps (owned IsFiled) (successor key mode fresh checks failure)
  unfolding successor successor_of own_gets gets pure ◌>>=◌
  successor-IsFiled key mode fresh checks failure = record {
    at = λ s h. elim (Option-cases (find key s.own.schedules)) [
      | inl unknown ↦ rw unknown (
          (new-IsFiled key (apart key s.own.schedules unknown h) mode fresh checks failure
              (current s.own) s.own.ledger).at
            s h)
      | inr (b, known) ↦ rw known h
    ];
  }

  call-IsFiled : (m : Method) → Keeps (owned IsFiled) (call m)
  unfolding call
  call-IsFiled Method.start_call = Keeps-bind _ _ start-IsFiled λ _. Keeps-pure tt
  call-IsFiled Method.admission_call = lined-IsFiled _ lined_admission
  call-IsFiled (Method.bind_call approval envelope) = lined-IsFiled _ (lined_bind approval envelope)
  call-IsFiled (Method.fail_call control failure_class refs retained) =
      lined-IsFiled _ (lined_fail control failure_class refs retained)
  call-IsFiled (Method.successor_call key mode fresh checks failure) =
      Keeps-bind _ _ (successor-IsFiled key mode fresh checks failure) λ _. Keeps-pure tt

  pub calls-IsFiled :
      (ms : List Method) (s : Shared Supervisor) → IsFiled s.own → IsFiled (calls ms s).own
  unfolding calls
  calls-IsFiled [] s h = h
  calls-IsFiled (m ∷ ms) s h = calls-IsFiled ms (call m s).1 ((call-IsFiled m).at s h)
