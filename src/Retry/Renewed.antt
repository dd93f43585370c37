-- ===== src/Retry/Renewed.antt =====
-- src/gsrr_slice01/retry.py: `successor` takes no attempt away.
use gsrr_agent_harness.Prelude.{ℕ, String, Bool, Option, none, some, List}
use gsrr_agent_harness.Exec.Keeps.{Keeps, keeps_rules}
use gsrr_agent_harness.Contracts.Enums.{Mode, Control}
use gsrr_agent_harness.Contracts.Domain.{RetryPolicy}
use gsrr_agent_harness.Contracts.Attempts.{Attempt, ScopeLedger}
use gsrr_agent_harness.Retry.Defs.{Supervisor}
use gsrr_agent_harness.Retry.Frame.{owned}
use gsrr_agent_harness.Retry.Eligibility.{or_type_error, over_threshold, exhausted}
use gsrr_agent_harness.Retry.Allocation.{eligibility-owned}
use gsrr_agent_harness.Contracts.Values.{Scalar}
use gsrr_agent_harness.Retry.Successor.{
  open_circuit, lose_scheduling, allocate, eligible_successor, report_eligibility,
  decided_successor, scoped_successor, refuse_successor, new_successor, successor_of, successor,
}
use gsrr_agent_harness.Retry.Begun.{HasAttempt, begun_rules, begun_attempts, is_empty-append}

begun_allocate :
    (prior : String) (refs checks : List String) (a : Attempt) (l : ScopeLedger)
    → Keeps (owned HasAttempt) (allocate prior refs checks a l)
unfolding allocate
begun_allocate prior refs checks a l =
    search (begun_rules, begun_attempts, is_empty-append) depth 24

begun_or_type_error : (v : Option Bool) → Keeps (owned HasAttempt) (or_type_error v)
unfolding or_type_error
begun_or_type_error none = search keeps_rules
begun_or_type_error (some v) = search keeps_rules

begun_over : (n : ℕ) (v : Scalar) → Keeps (owned HasAttempt) (over_threshold n v)
unfolding over_threshold
begun_over n Scalar.null = search keeps_rules
begun_over n v = search begun_or_type_error

begun_eligible :
    (prior : String) (refs checks : List String) (failing : Bool) (a : Attempt) (l : ScopeLedger)
    (p : RetryPolicy)
    → Keeps (owned HasAttempt) (eligible_successor prior refs checks failing a l p)
unfolding eligible_successor exhausted open_circuit lose_scheduling
begun_eligible prior refs checks failing a l p =
    search (begun_rules, begun_or_type_error, begun_over, begun_allocate) depth 16

begun_decided :
    (prior : String) (refs checks : List String) (failing : Bool) (a : Attempt) (l : ScopeLedger)
    (control : Control)
    → Keeps (owned HasAttempt) (decided_successor prior refs checks failing a l control)
unfolding decided_successor report_eligibility
begun_decided prior refs checks failing a l control = search (begun_rules, begun_eligible) depth 14

begun_scoped :
    (prior : String) (mode : Mode) (fresh : Control) (checks : List String) (failing : Bool)
    (a : Attempt) (l : ScopeLedger)
    → Keeps (owned HasAttempt) (scoped_successor prior mode fresh checks failing a l)
unfolding scoped_successor
begun_scoped prior mode fresh checks failing a l =
    search (begun_rules, eligibility-owned a l HasAttempt prior mode fresh checks, begun_decided)
      depth 12

begun_refuse : Keeps (owned HasAttempt) refuse_successor
unfolding refuse_successor
begun_refuse = search begun_rules depth 7

begun_new :
    (prior : String) (mode : Mode) (fresh : Control) (checks : List String) (failing : Bool)
    (a : Option Attempt) (l : Option ScopeLedger)
    → Keeps (owned HasAttempt) (new_successor prior mode fresh checks failing a l)
unfolding new_successor
begun_new prior mode fresh checks failing none l = begun_refuse
begun_new prior mode fresh checks failing (some a) none = begun_refuse
begun_new prior mode fresh checks failing (some a) (some l) =
    search (keeps_rules, begun_refuse, begun_scoped) depth 7

begun_successor_of :
    (prior : String) (mode : Mode) (fresh : Control) (checks : List String) (failing : Bool)
    (known : Option Attempt) (s : Supervisor)
    → Keeps (owned HasAttempt) (successor_of prior mode fresh checks failing known s)
unfolding successor_of
begun_successor_of prior mode fresh checks failing none s = search begun_new
begun_successor_of prior mode fresh checks failing (some old) s = search keeps_rules

pub begun_successor :
    (prior : String) (mode : Mode) (fresh : Control) (checks : List String) (failing : Bool)
    → Keeps (owned HasAttempt) (successor prior mode fresh checks failing)
unfolding successor
begun_successor prior mode fresh checks failing = search (begun_rules, begun_successor_of) depth 7
