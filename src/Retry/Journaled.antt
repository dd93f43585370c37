-- ===== src/Retry/Journaled.antt =====
-- src/gsrr_slice01/retry.py: the supervisor's methods change the journal by basic calls alone.
use gsrr_agent_harness.Prelude.{ℕ, String, Bool, Option, none, some, List}
use gsrr_agent_harness.Exec.Keeps.{Order, Keeps, keeps_rules}
use gsrr_agent_harness.Contracts.Values.{Scalar}
use gsrr_agent_harness.Contracts.Enums.{Mode, Control}
use gsrr_agent_harness.Contracts.Domain.{RetryPolicy}
use gsrr_agent_harness.Contracts.Attempts.{Attempt, ScopeLedger}
use gsrr_agent_harness.Contracts.Planning.{ApprovedTransition}
use gsrr_agent_harness.Contracts.Plans.{ExecutionEnvelope}
use gsrr_agent_harness.Journal.Sharing.{JournaledIn, sharing_rules}
use gsrr_agent_harness.Retry.Defs.{Supervisor, retain_ledger, remember_ledger, EmitCall, emit}
use gsrr_agent_harness.Retry.Lifecycle.{
  start, need, bind_scope, bind, release_scope, fail_attempt, fail_current, fail, admit_scope,
  admission,
}
use gsrr_agent_harness.Retry.Eligibility.{
  policy_control, eligibility, or_type_error, over_threshold, exhausted,
}
use gsrr_agent_harness.Retry.Successor.{
  open_circuit, lose_scheduling, allocate, eligible_successor, report_eligibility,
  decided_successor, scoped_successor, refuse_successor, new_successor, successor_of, successor,
}

-- A read of an attribute changes nothing.
pub need-Keeps : {S A : Type 0} {o : Order S} (a : Option A) → Keeps o (need a)
unfolding need
need-Keeps none = search keeps_rules
need-Keeps (some a) = search keeps_rules

retain_ledger-JournaledIn : (l : Option ScopeLedger) → JournaledIn (retain_ledger l)
unfolding retain_ledger
retain_ledger-JournaledIn none q b = search keeps_rules
retain_ledger-JournaledIn (some l) q b = search sharing_rules depth 9

pub remember_ledger-JournaledIn : JournaledIn remember_ledger
unfolding remember_ledger
remember_ledger-JournaledIn q b = search (sharing_rules, retain_ledger-JournaledIn)

pub emit-JournaledIn : (c : EmitCall) → JournaledIn (emit c)
unfolding emit
emit-JournaledIn c q b = search sharing_rules depth 9

pub ruleset supervisor_rules =
    (sharing_rules, need-Keeps, remember_ledger-JournaledIn, emit-JournaledIn)

pub start-JournaledIn : JournaledIn start
unfolding start
start-JournaledIn q b = search supervisor_rules depth 18

bind_scope-JournaledIn :
    (approval : ApprovedTransition) (envelope : ExecutionEnvelope) (ref policy : String)
    (a : Attempt)
    → JournaledIn (bind_scope approval envelope ref policy a)
unfolding bind_scope
bind_scope-JournaledIn approval envelope ref policy a q b = search supervisor_rules depth 12

pub bind-JournaledIn :
    (approval : ApprovedTransition) (envelope : ExecutionEnvelope)
    → JournaledIn (bind approval envelope)
unfolding bind
bind-JournaledIn approval envelope q b = search (supervisor_rules, bind_scope-JournaledIn) depth 22

release_scope-JournaledIn : (l : Option ScopeLedger) → JournaledIn (release_scope l)
unfolding release_scope
release_scope-JournaledIn none q b = search keeps_rules
release_scope-JournaledIn (some l) q b = search supervisor_rules

fail_attempt-JournaledIn :
    (control : Control) (failure_class : String) (refs : List String) (retained : Bool)
    (a : Attempt)
    → JournaledIn (fail_attempt control failure_class refs retained a)
unfolding fail_attempt
fail_attempt-JournaledIn control failure_class refs retained a q b =
    search (supervisor_rules, release_scope-JournaledIn) depth 16

fail_current-JournaledIn :
    (control : Control) (failure_class : String) (refs : List String) (retained : Bool)
    (now : Option Attempt)
    → JournaledIn (fail_current control failure_class refs retained now)
fail_current-JournaledIn control failure_class refs retained none q b = search keeps_rules
fail_current-JournaledIn control failure_class refs retained (some a) q b =
    search (keeps_rules, fail_attempt-JournaledIn) depth 7

pub fail-JournaledIn :
    (control : Control) (failure_class : String) (refs : List String) (retained : Bool)
    → JournaledIn (fail control failure_class refs retained)
unfolding fail
fail-JournaledIn control failure_class refs retained q b =
    search (supervisor_rules, fail_current-JournaledIn) depth 7

admit_scope-JournaledIn : (l : Option ScopeLedger) → JournaledIn (admit_scope l)
unfolding admit_scope
admit_scope-JournaledIn none q b = search keeps_rules
admit_scope-JournaledIn (some l) q b = search supervisor_rules depth 14

pub admission-JournaledIn : JournaledIn admission
unfolding admission
admission-JournaledIn q b = search (supervisor_rules, admit_scope-JournaledIn) depth 7

policy_control-JournaledIn :
    (prior : String) (fresh : Control) (checks : List String) (a : Attempt) (l : ScopeLedger)
    (failure_refs : List (String × String)) (p : Option RetryPolicy)
    → JournaledIn (policy_control prior fresh checks a l failure_refs p)
unfolding policy_control
policy_control-JournaledIn prior fresh checks a l failure_refs none q b = search keeps_rules
policy_control-JournaledIn prior fresh checks a l failure_refs (some p) q b =
    search sharing_rules depth 12

pub eligibility-JournaledIn :
    (prior : String) (mode : Mode) (fresh : Control) (checks : List String) (a : Attempt)
    (l : ScopeLedger) (s : Supervisor)
    → JournaledIn (eligibility prior mode fresh checks a l s)
unfolding eligibility
eligibility-JournaledIn prior mode fresh checks a l s q b =
    search (keeps_rules, policy_control-JournaledIn) depth 12

or_type_error-JournaledIn : (v : Option Bool) → JournaledIn (or_type_error v)
unfolding or_type_error
or_type_error-JournaledIn none q b = search keeps_rules
or_type_error-JournaledIn (some v) q b = search keeps_rules

over_threshold-JournaledIn : (n : ℕ) (v : Scalar) → JournaledIn (over_threshold n v)
unfolding over_threshold
over_threshold-JournaledIn n Scalar.null q b = search keeps_rules
over_threshold-JournaledIn n v q b = search or_type_error-JournaledIn

pub exhausted-JournaledIn :
    (p : RetryPolicy) (l : ScopeLedger) (n : ℕ) → JournaledIn (exhausted p l n)
unfolding exhausted
exhausted-JournaledIn p l n q b =
    search (keeps_rules, or_type_error-JournaledIn, over_threshold-JournaledIn) depth 9

pub open_circuit-JournaledIn :
    (refs checks : List String) (l : ScopeLedger) → JournaledIn (open_circuit refs checks l)
unfolding open_circuit
open_circuit-JournaledIn refs checks l q b = search supervisor_rules depth 12

pub lose_scheduling-JournaledIn :
    (refs checks : List String) (l : ScopeLedger) → JournaledIn (lose_scheduling refs checks l)
unfolding lose_scheduling
lose_scheduling-JournaledIn refs checks l q b = search supervisor_rules depth 12

allocate-JournaledIn :
    (prior : String) (refs checks : List String) (a : Attempt) (l : ScopeLedger)
    → JournaledIn (allocate prior refs checks a l)
unfolding allocate
allocate-JournaledIn prior refs checks a l q b = search supervisor_rules depth 22

eligible_successor-JournaledIn :
    (prior : String) (refs checks : List String) (failing : Bool) (a : Attempt) (l : ScopeLedger)
    (p : RetryPolicy)
    → JournaledIn (eligible_successor prior refs checks failing a l p)
unfolding eligible_successor
eligible_successor-JournaledIn prior refs checks failing a l p q b =
    search
      (
        supervisor_rules, exhausted-JournaledIn, open_circuit-JournaledIn,
        lose_scheduling-JournaledIn, allocate-JournaledIn,
      )
      depth 12

decided_successor-JournaledIn :
    (prior : String) (refs checks : List String) (failing : Bool) (a : Attempt) (l : ScopeLedger)
    (control : Control)
    → JournaledIn (decided_successor prior refs checks failing a l control)
unfolding decided_successor report_eligibility
decided_successor-JournaledIn prior refs checks failing a l control q b =
    search (supervisor_rules, eligible_successor-JournaledIn) depth 14

scoped_successor-JournaledIn :
    (prior : String) (mode : Mode) (fresh : Control) (checks : List String) (failing : Bool)
    (a : Attempt) (l : ScopeLedger)
    → JournaledIn (scoped_successor prior mode fresh checks failing a l)
unfolding scoped_successor
scoped_successor-JournaledIn prior mode fresh checks failing a l q b =
    search (supervisor_rules, eligibility-JournaledIn, decided_successor-JournaledIn) depth 12

refuse_successor-JournaledIn : JournaledIn refuse_successor
unfolding refuse_successor
refuse_successor-JournaledIn q b = search supervisor_rules

new_successor-JournaledIn :
    (prior : String) (mode : Mode) (fresh : Control) (checks : List String) (failing : Bool)
    (a : Option Attempt) (l : Option ScopeLedger)
    → JournaledIn (new_successor prior mode fresh checks failing a l)
unfolding new_successor
new_successor-JournaledIn prior mode fresh checks failing none l q b =
    search refuse_successor-JournaledIn
new_successor-JournaledIn prior mode fresh checks failing (some a) none q b =
    search refuse_successor-JournaledIn
new_successor-JournaledIn prior mode fresh checks failing (some a) (some l) q b =
    search (keeps_rules, refuse_successor-JournaledIn, scoped_successor-JournaledIn) depth 7

successor_of-JournaledIn :
    (prior : String) (mode : Mode) (fresh : Control) (checks : List String) (failing : Bool)
    (known : Option Attempt) (s : Supervisor)
    → JournaledIn (successor_of prior mode fresh checks failing known s)
unfolding successor_of
successor_of-JournaledIn prior mode fresh checks failing none s q b =
    search new_successor-JournaledIn
successor_of-JournaledIn prior mode fresh checks failing (some old) s q b = search keeps_rules

pub successor-JournaledIn :
    (prior : String) (mode : Mode) (fresh : Control) (checks : List String) (failing : Bool)
    → JournaledIn (successor prior mode fresh checks failing)
unfolding successor
successor-JournaledIn prior mode fresh checks failing q b =
    search (supervisor_rules, successor_of-JournaledIn) depth 7
