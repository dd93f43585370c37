-- ===== src/Retry/Successor.antt =====
-- src/gsrr_slice01/retry.py: `successor`, the guarded allocation of a fresh attempt.
use gsrr_agent_harness.Prelude.{
  ◌+◌, String, Bool, false, not, ◌||◌, Option, none, some, List, [], ◌∷◌, ◌++◌, ◌==◌, string_eq,
  if◌then◌else◌,
}
use gsrr_agent_harness.Exec.{Exec, pure, ◌>>=◌, ◌>>◌}
use gsrr_agent_harness.Shared.{Shared, in_journal, own_gets, own_modify}
use gsrr_agent_harness.Contracts.Enums.{Mode, Control}
use gsrr_agent_harness.Contracts.Domain.{RetryPolicy}
use gsrr_agent_harness.Contracts.Attempts.{Attempt, ScopeLedger}
use gsrr_agent_harness.Contracts.Record.{Record}
use gsrr_agent_harness.Journal.Defs.{new_id, retain}
use gsrr_agent_harness.Retry.Defs.{
  Supervisor, current, remember_ledger, emit_call, emit, set_control,
}
use gsrr_agent_harness.Retry.Lifecycle.{fresh_attempt, set_ledger, put, find, need}
use gsrr_agent_harness.Retry.Eligibility.{is_pass, eligibility, exhausted, count_failures}

abbrev pub opened : ScopeLedger → ScopeLedger
opened l = record l { circuit_state = "OPEN" }

unfoldable pub open_circuit :
    List String → List String → ScopeLedger → Exec (Shared Supervisor) (Option Attempt)
open_circuit refs checks l = do
  own_modify (set_ledger (opened l))
  remember_ledger
  emit (record (emit_call "CIRCUIT_OPEN" "CircuitOpened" Control.circuit_open) {
    refs = refs;
    checks = checks;
    reason = "finite attempt budget or failure threshold";
    before = some l.attempts_created;
    after = some l.attempts_created;
  })
  emit (record (emit_call "HUMAN_ESCALATION" "HumanEscalationRequired" Control.circuit_open) {
    refs = refs;
    reason = "immediate investigation; no automatic circuit reset";
  })
  pure none

abbrev pub unscheduled : ScopeLedger → ScopeLedger
unscheduled l = record l { scheduling_known = false }

unfoldable pub lose_scheduling :
    List String → List String → ScopeLedger → Exec (Shared Supervisor) (Option Attempt)
lose_scheduling refs checks l = do
  own_modify (set_ledger (unscheduled l))
  remember_ledger
  emit (record (emit_call "RETRY_ELIGIBILITY" "RetryEligibilityDetermined" Control.hold_ambiguous) {
    refs = refs;
    checks = checks;
    reason = "scheduling retention unavailable; no refund or alternate allocation";
  })
  pure none

abbrev pub counted : ScopeLedger → String → ScopeLedger
counted l ref = record l { attempts_created = l.attempts_created + 1; active_attempt_id = some ref }

-- The two assignments that make the new attempt current.
abbrev pub allocated : ScopeLedger → Attempt → Supervisor → Supervisor
allocated l new s = record s {
  ledger = some (counted l new.attempt_id);
  attempts = s.attempts ++ new ∷ [];
}

abbrev pub set_schedule : String → Attempt → Supervisor → Supervisor
set_schedule prior new s = record s { schedules = put prior new s.schedules }

unfoldable pub allocate :
    String
    → List String
    → List String
    → Attempt
    → ScopeLedger
    → Exec (Shared Supervisor) (Option Attempt)
allocate prior refs checks a l = do
  ref ← in_journal (new_id "attempt")
  let new = fresh_attempt ref (l.attempts_created + 1) (some a.attempt_id)
  in_journal (retain new.attempt_id (Record.attempt new))
  emit (record (emit_call "NEW_ATTEMPT_AUTHORIZATION" "NewAttemptAuthorized" Control.pass) {
    refs = refs ++ new.attempt_id ∷ [];
    checks = checks;
    reason = "creation only; no execution permission";
    attempt = some a;
    before = some l.attempts_created;
    after = some (l.attempts_created + 1);
    scheduled = some new.attempt_id;
  })
  own_modify (allocated l new)
  emit (record (emit_call "ATTEMPT_START" "AttemptStarted" Control.pass) {
    refs = new.attempt_id ∷ [];
    reason = "distinct fresh successor";
    before = some l.attempts_created;
    after = some (l.attempts_created + 1);
  })
  remember_ledger
  own_modify (set_schedule prior new)
  pure (some new)

-- What follows the report that the prior attempt is eligible.
unfoldable pub eligible_successor :
    String
    → List String
    → List String
    → Bool
    → Attempt
    → ScopeLedger
    → RetryPolicy
    → Exec (Shared Supervisor) (Option Attempt)
eligible_successor prior refs checks scheduling_failure a l p = do
  failures ← own_gets (λ s. count_failures a.failure_class s.attempts)
  over ← exhausted p l failures
  if over
      then open_circuit refs checks l
      else if scheduling_failure
      then lose_scheduling refs checks l
      else allocate prior refs checks a l

unfoldable pub report_eligibility :
    Control → List String → List String → String → Exec (Shared Supervisor) (Unit {0})
report_eligibility control refs checks reason = do
  emit (record (emit_call "RETRY_ELIGIBILITY" "RetryEligibilityDetermined" control) {
    refs = refs;
    checks = checks;
    reason = reason;
  })
  pure tt

abbrev pub failure_ref_list : Option String → List String
failure_ref_list none = []
failure_ref_list (some ref) = ref ∷ []

-- What follows the chain of tests.
unfoldable pub decided_successor :
    String
    → List String
    → List String
    → Bool
    → Attempt
    → ScopeLedger
    → Control
    → Exec (Shared Supervisor) (Option Attempt)
decided_successor prior refs checks scheduling_failure a l control =
    if not (is_pass control)
    then (do report_eligibility control refs checks "no eligible successor"; pure none)
    else (do
      report_eligibility Control.reject_retryable refs checks "eligible fresh plan only"
      p ← need (← own_gets (λ s. s.policy))
      eligible_successor prior refs checks scheduling_failure a l p)

-- `successor` on the current attempt and the scope, where the prior attempt is that attempt.
unfoldable pub scoped_successor :
    String
    → Mode
    → Control
    → List String
    → Bool
    → Attempt
    → ScopeLedger
    → Exec (Shared Supervisor) (Option Attempt)
scoped_successor prior mode fresh checks scheduling_failure a l = do
  control ← eligibility prior mode fresh checks a l (← own_gets (λ s. s))
  refs ← own_gets (λ s. failure_ref_list (find prior s.failure_refs))
  decided_successor prior refs checks scheduling_failure a l control

unfoldable pub refuse_successor : Exec (Shared Supervisor) (Option Attempt)
refuse_successor = do own_modify (set_control Control.fail_nonretryable); pure none

unfoldable pub new_successor :
    String
    → Mode
    → Control
    → List String
    → Bool
    → Option Attempt
    → Option ScopeLedger
    → Exec (Shared Supervisor) (Option Attempt)
new_successor prior mode fresh checks scheduling_failure none l = refuse_successor
new_successor prior mode fresh checks scheduling_failure (some a) none = refuse_successor
new_successor prior mode fresh checks scheduling_failure (some a) (some l) =
    if not (a.attempt_id == prior) || not a.terminal
    then refuse_successor
    else scoped_successor prior mode fresh checks scheduling_failure a l

unfoldable pub successor_of :
    String
    → Mode
    → Control
    → List String
    → Bool
    → Option Attempt
    → Supervisor
    → Exec (Shared Supervisor) (Option Attempt)
successor_of prior mode fresh checks scheduling_failure (some old) s = pure (some old)
successor_of prior mode fresh checks scheduling_failure none s =
    new_successor prior mode fresh checks scheduling_failure (current s) s.ledger

unfoldable pub successor :
    String → Mode → Control → List String → Bool → Exec (Shared Supervisor) (Option Attempt)
successor prior mode fresh checks scheduling_failure = do
  s ← own_gets (λ s. s)
  successor_of prior mode fresh checks scheduling_failure (find prior s.schedules) s
