-- ===== src/Retry/Allocation.antt =====
-- src/gsrr_slice01/retry.py: `successor` keeps the supervisor's invariant, and so its budget.
use gsrr_agent_harness.Prelude.{
  ℕ, String, ◌≡◌, refl, sym, ap, ◌∙◌, Bool, true, false, not, Option, none, some, List, ◌==◌, ◌||◌,
  string_eq,
}
use gsrr_agent_harness.Exec.{Exec}
use gsrr_agent_harness.Exec.Triple.{
  Triple, Triple-if, Triple-bind, Triple-pure, Triple-keeps, Triple-pre,
}
use gsrr_agent_harness.Exec.Keeps.{Keeps, Keeps-bind, Keeps-pure, keeps_rules}
use gsrr_agent_harness.Shared.{
  Shared, in_journal-own, own_modify, own_modify-own, frame, read, write,
}
use gsrr_agent_harness.Contracts.Enums.{Mode, Control}
use gsrr_agent_harness.Contracts.Domain.{RetryPolicy}
use gsrr_agent_harness.Contracts.Attempts.{Attempt, ScopeLedger}
use gsrr_agent_harness.Journal.Defs.{new_id, retain, get}
use gsrr_agent_harness.Retry.Defs.{Supervisor, current, set_control}
use gsrr_agent_harness.Retry.Lifecycle.{set_ledger, find}
use gsrr_agent_harness.Retry.Eligibility.{is_pass, policy_control, eligibility, count_failures}
use gsrr_agent_harness.Retry.Successor.{
  opened, open_circuit, unscheduled, lose_scheduling, set_schedule, allocate, eligible_successor,
  report_eligibility, failure_ref_list, decided_successor, scoped_successor, refuse_successor,
  new_successor, successor_of, successor,
}
use gsrr_agent_harness.Retry.Frame.{owned, IsSteady, emit-owned}
use gsrr_agent_harness.Retry.Invariant.{IsScope, IsScope-steady}
use gsrr_agent_harness.Retry.Rules.{
  I, need-Triple, ledger-IsScope, scope_rules, IsScope-remember, IsScope-emit,
}
use gsrr_agent_harness.Retry.Budget.{IsDue, IsDue-steady, Room, allocated-IsScope, exhausted-Triple}

module _ (a : Attempt) (l : ScopeLedger) where
  -- A change of the scope's ledger that keeps the count, then reports.
  ledger_write :
      (l' : ScopeLedger)
      → l'.attempts_created ≡ l.attempts_created
      → Triple (λ s. IsDue a l s.own) (own_modify (set_ledger l')) (λ u. I) I
  ledger_write l' e =
      write (IsDue a l) IsScope IsScope (set_ledger l')
        (λ s h. ledger-IsScope l l' s e (h.scope, h.ledger))

  open_circuit-Triple :
      (refs checks : List String)
      → Triple (λ s. IsDue a l s.own) (open_circuit refs checks l) (λ r. I) I
  unfolding open_circuit
  open_circuit-Triple refs checks =
      Triple-bind _ _ (ledger_write (opened l) refl)
        λ _. Triple-keeps _ (search scope_rules depth 9)

  lose_scheduling-Triple :
      (refs checks : List String)
      → Triple (λ s. IsDue a l s.own) (lose_scheduling refs checks l) (λ r. I) I
  unfolding lose_scheduling
  lose_scheduling-Triple refs checks =
      Triple-bind _ _ (ledger_write (unscheduled l) refl)
        λ _. Triple-keeps _ (search scope_rules depth 9)

  abbrev HasRoom : RetryPolicy → Supervisor → Type 0
  HasRoom p s = (IsDue a l s × (some p ≡ s.policy)) × Room p l

  room_step :
      {A : Type 0} (p : RetryPolicy) (m : Exec (Shared Supervisor) A)
      → Keeps (owned (HasRoom p)) m
      → Triple (λ s. HasRoom p s.own) m (λ x s. HasRoom p s.own) I
  room_step p m k = frame (HasRoom p) IsScope m k (λ o h. h.0.0.scope)

  HasRoom-steady : (p : RetryPolicy) → IsSteady (HasRoom p)
  HasRoom-steady p c s h = ((IsDue-steady a l c s h.0.0, h.0.1), h.1)

  scheduled-IsScope :
      (prior : String) (new : Attempt) (s : Supervisor)
      → IsScope s
      → IsScope (set_schedule prior new s)
  scheduled-IsScope prior new s h = record {
    chain = h.chain;
    counts = h.counts;
    bounded = h.bounded;
  }

  allocate-Triple :
      (prior : String) (refs checks : List String) (p : RetryPolicy)
      → Triple (λ s. HasRoom p s.own) (allocate prior refs checks a l) (λ r. I) I
  unfolding allocate
  allocate-Triple prior refs checks p =
      Triple-bind _ _ (room_step p _ (in_journal-own (HasRoom p) (new_id "attempt"))) λ ref.
        Triple-bind _ _ (room_step p _ (in_journal-own (HasRoom p) (retain ref _))) λ _.
          Triple-bind _ _ (room_step p _ (emit-owned (HasRoom p) (HasRoom-steady p) _)) λ _.
            Triple-bind _ _ (write (HasRoom p) IsScope IsScope _ (allocated-IsScope a l p ref)) λ _.
              Triple-keeps _ (
                Keeps-bind _ _ (IsScope-emit _) λ _. Keeps-bind _ _ IsScope-remember λ _.
                  Keeps-bind _ _ (own_modify-own IsScope _ (scheduled-IsScope prior _))
                    λ _. Keeps-pure _)

  IsDue-step :
      {A : Type 0} (m : Exec (Shared Supervisor) A)
      → Keeps (owned (IsDue a l)) m
      → Triple (λ s. IsDue a l s.own) m (λ x s. IsDue a l s.own) I
  IsDue-step m k = frame (IsDue a l) IsScope m k (λ o h. h.scope)

  eligible_successor-Triple :
      (prior : String) (refs checks : List String) (scheduling_failure : Bool) (p : RetryPolicy)
      → Triple
          (λ s. IsDue a l s.own × (some p ≡ s.own.policy))
          (eligible_successor prior refs checks scheduling_failure a l p)
          (λ r. I)
          I
  unfolding eligible_successor
  eligible_successor-Triple prior refs checks scheduling_failure p =
      let count : Supervisor → ℕ = λ s. count_failures a.failure_class s.attempts in
      Triple-bind _ _ (read (λ o. IsDue a l o × (some p ≡ o.policy)) IsScope count) λ failures.
        Triple-bind _ _ (exhausted-Triple p l failures (λ s h. h.0.0.scope)) λ over.
          Triple-if over _ _ (λ _. Triple-pre _ (λ s h. h.0.0.0) (open_circuit-Triple refs checks))
            (λ fits.
              Triple-if scheduling_failure _ _
                (λ _. Triple-pre _ (λ s h. h.0.0.0) (lose_scheduling-Triple refs checks))
                (λ _.
                  Triple-pre _ (λ s h. (h.0.0, h.1 fits)) (allocate-Triple prior refs checks p)))

  report_eligibility-owned :
      (P : Supervisor → Type 0) (control : Control) (refs checks : List String) (reason : String)
      → IsSteady P
      → Keeps (owned P) (report_eligibility control refs checks reason)
  unfolding report_eligibility
  report_eligibility-owned P control refs checks reason steady =
      Keeps-bind _ _ (emit-owned P steady _) λ _. Keeps-pure tt

  decided_successor-Triple :
      (prior : String) (refs checks : List String) (scheduling_failure : Bool) (control : Control)
      → Triple
          (λ s. IsDue a l s.own)
          (decided_successor prior refs checks scheduling_failure a l control)
          (λ r. I)
          I
  unfolding decided_successor
  decided_successor-Triple prior refs checks scheduling_failure control =
      let report = λ (c : Control) (reason : String).
        IsDue-step _
          (report_eligibility-owned (IsDue a l) c refs checks reason (IsDue-steady a l)) in
      Triple-if (not (is_pass control)) _ _
        (λ _.
          Triple-bind _ _ (report control "no eligible successor")
            λ _. Triple-pre _ (λ s h. h.scope) (Triple-pure none))
        (λ _. Triple-bind _ _ (report Control.reject_retryable "eligible fresh plan only") λ _.
          Triple-bind _ _ (read (IsDue a l) IsScope (λ s. s.policy)) λ o.
            Triple-bind _ _ (need-Triple o (λ s h. h.0.scope)) λ p.
              Triple-pre _ (λ s h. (h.0.0, sym h.1 ∙ h.0.1))
                (eligible_successor-Triple prior refs checks scheduling_failure p))

  policy_control-owned :
      (P : Supervisor → Type 0) (prior : String) (fresh : Control) (checks : List String)
      (failure_refs : List (String × String)) (policy : Option RetryPolicy)
      → Keeps (owned P) (policy_control prior fresh checks a l failure_refs policy)
  unfolding policy_control
  policy_control-owned P prior fresh checks failure_refs none = Keeps-pure _
  policy_control-owned P prior fresh checks failure_refs (some p) =
      search (keeps_rules, in_journal-own P (get l.policy_ref)) depth 9

  pub eligibility-owned :
      (P : Supervisor → Type 0) (prior : String) (mode : Mode) (fresh : Control)
      (checks : List String) (s : Supervisor)
      → Keeps (owned P) (eligibility prior mode fresh checks a l s)
  unfolding eligibility
  eligibility-owned P prior mode fresh checks s =
      search (keeps_rules, policy_control-owned P prior fresh checks s.failure_refs s.policy) depth
        9

  scoped_successor-Triple :
      (prior : String) (mode : Mode) (fresh : Control) (checks : List String)
      (scheduling_failure : Bool)
      → Triple
          (λ s. IsDue a l s.own)
          (scoped_successor prior mode fresh checks scheduling_failure a l)
          (λ r. I)
          I
  unfolding scoped_successor
  scoped_successor-Triple prior mode fresh checks scheduling_failure =
      Triple-bind _ _ (read (IsDue a l) IsScope (λ s. s)) λ now.
        Triple-bind _ _
          (Triple-pre _ (λ s h. h.0)
            (IsDue-step _ (eligibility-owned (IsDue a l) prior mode fresh checks now)))
          λ control.
            Triple-bind _ _
              (read (IsDue a l) IsScope (λ s. failure_ref_list (find prior s.failure_refs)))
              λ refs.
                Triple-pre _ (λ s h. h.0)
                  (decided_successor-Triple prior refs checks scheduling_failure control)

refuse_successor-Triple : Triple I refuse_successor (λ r. I) I
unfolding refuse_successor
refuse_successor-Triple =
    Triple-bind _ _
      (write IsScope IsScope IsScope (set_control Control.fail_nonretryable)
        (λ s h. IsScope-steady Control.fail_nonretryable s h))
      λ _. Triple-pure none

new_successor-Triple :
    (prior : String) (mode : Mode) (fresh : Control) (checks : List String)
    (scheduling_failure : Bool) (now : Option Attempt) (scope : Option ScopeLedger)
    → Triple
        (λ s. I s × (now ≡ current s.own) × (scope ≡ s.own.ledger))
        (new_successor prior mode fresh checks scheduling_failure now scope)
        (λ r. I)
        I
unfolding new_successor
new_successor-Triple prior mode fresh checks scheduling_failure none scope =
    Triple-pre _ (λ s h. h.0) refuse_successor-Triple
new_successor-Triple prior mode fresh checks scheduling_failure (some a) none =
    Triple-pre _ (λ s h. h.0) refuse_successor-Triple
new_successor-Triple prior mode fresh checks scheduling_failure (some a) (some l) =
    Triple-if (not (a.attempt_id == prior) || not a.terminal) _ _
      (λ _. Triple-pre _ (λ s h. h.0) refuse_successor-Triple)
      (λ due.
        Triple-pre _
          (λ s h. record {
            scope = h.0;
            ledger = h.2;
            last_attempt = sym h.1;
            closed = closed_of (a.attempt_id == prior) a.terminal due;
          })
          (scoped_successor-Triple a l prior mode fresh checks scheduling_failure))
  where
    closed_of : (same terminal : Bool) → (not same || not terminal) ≡ false → terminal ≡ true
    closed_of true true e = refl
    closed_of true false e = cc
    closed_of false t e = cc

pub successor-Triple :
    (prior : String) (mode : Mode) (fresh : Control) (checks : List String)
    (scheduling_failure : Bool)
    → Triple I (successor prior mode fresh checks scheduling_failure) (λ r. I) I
unfolding successor successor_of
successor-Triple prior mode fresh checks scheduling_failure =
    Triple-bind _ _ (read IsScope IsScope (λ s. s))
      λ now. known_or_new now (find prior now.schedules)
  where
    known_or_new :
        (now : Supervisor) (known : Option Attempt)
        → Triple
            (λ s. I s × (now ≡ s.own))
            (successor_of prior mode fresh checks scheduling_failure known now)
            (λ r. I)
            I
    known_or_new now (some old) = Triple-pre _ (λ s h. h.0) (Triple-pure (some old))
    known_or_new now none =
        Triple-pre _ (λ s h. (h.0, ap current h.1, ap (λ (x : Supervisor). x.ledger) h.1))
          (new_successor-Triple prior mode fresh checks scheduling_failure (current now) now.ledger)
