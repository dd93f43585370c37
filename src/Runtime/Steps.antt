-- ===== src/Runtime/Steps.antt =====
-- src/gsrr_slice01/runtime.py: what is made of the parts (Parts): the fresh reads, the selection and
-- what follows it, `admit`.
use gsrr_agent_harness.Prelude.{ℕ, String, Bool, true, false, Option, none, some, List, [], ◌∷◌}
use gsrr_agent_harness.Exec.Keeps.{keeps_rules}
use gsrr_agent_harness.Shared.{in_journal}
use gsrr_agent_harness.Contracts.Values.{Check}
use gsrr_agent_harness.Contracts.Enums.{Control}
use gsrr_agent_harness.Contracts.Domain.{Step}
use gsrr_agent_harness.Contracts.Attempts.{Attempt, ScopeLedger}
use gsrr_agent_harness.Contracts.Effects.{ObservedState}
use gsrr_agent_harness.Contracts.Planning.{AuthoritativeStateSnapshot, CandidateTransition}
use gsrr_agent_harness.Contracts.Plans.{ExecutionEnvelope, RealizationCommit}
use gsrr_agent_harness.Journal.Defs.{retain}
use gsrr_agent_harness.Governance.Journaled.{and_then-Keeps}
use gsrr_agent_harness.Runtime.Defs.{Request, Run}
use gsrr_agent_harness.Runtime.Start.{result, stop, record_checks}
use gsrr_agent_harness.Runtime.Fresh.{
  ledger_record, retained_commits, no_effect_check, effect_checks_of, same_state, same_history,
  fresh_authority, fresh_observed, fresh,
}
use gsrr_agent_harness.Runtime.Prepare.{
  refuse, report, approve, authorize, validate_transition, candidates_of, select,
}
use gsrr_agent_harness.Runtime.Admit.{
  first_step, binding, guard_admission, retain_commit, enter_index, admit,
}
use gsrr_agent_harness.Runtime.Stable.{Steady}
use gsrr_agent_harness.Runtime.Parts.{
  steady_rules, observe-Steady, snapshot-Steady, bind-Steady, envelope-Steady, admission-Steady,
  commit_ref-Steady,
}

pub result-Steady : (disposition : String) → Steady (result disposition)
unfolding result
result-Steady disposition o k = search steady_rules

pub stop-Steady :
    (control : Control) (why : String) (refs : List String) → Steady (stop control why refs)
unfolding stop
stop-Steady control why refs o k = search (steady_rules, result-Steady) depth 7

pub record_checks-Steady : (checks : List Check) → Steady (record_checks checks)
unfolding record_checks
record_checks-Steady checks o k = search steady_rules depth 9

retain-ledger_record :
    (ref : String) (l : Option ScopeLedger) → Steady (in_journal (retain ref (ledger_record l)))
retain-ledger_record ref none o k = search steady_rules
retain-ledger_record ref (some l) o k = search steady_rules

retained_commits-Steady : Steady retained_commits
unfolding retained_commits
retained_commits-Steady o k = search steady_rules depth 9

no_effect_check-Steady : Steady no_effect_check
unfolding no_effect_check
no_effect_check-Steady o k =
    search (steady_rules, retain-ledger_record, retained_commits-Steady) depth 22

pub effect_checks_of-Steady : (retry : Bool) → Steady (effect_checks_of retry)
unfolding effect_checks_of
effect_checks_of-Steady true o k = search (keeps_rules, no_effect_check-Steady)
effect_checks_of-Steady false o k = search keeps_rules

same_state-Steady :
    (final : Bool) (x : ObservedState) (snap : AuthoritativeStateSnapshot) (r : Run)
    → Steady (same_state final x snap r)
unfolding same_state
same_state-Steady final x snap r o k = search (and_then-Keeps, steady_rules) depth 12

pub same_history-Steady :
    (final : Bool) (x : ObservedState) (r : Run) → Steady (same_history final x r)
unfolding same_history
same_history-Steady false x r o k = search keeps_rules
same_history-Steady true x r o k = search steady_rules depth 7

pub fresh_authority-Steady :
    (retry : Bool) (checks : List Check) (x : ObservedState) (snap : AuthoritativeStateSnapshot)
    (c : Check) (r : Run)
    → Steady (fresh_authority retry checks x snap c r)
unfolding fresh_authority
fresh_authority-Steady retry checks x snap c r o k = search steady_rules depth 9

fresh_observed-Steady :
    (final retry : Bool) (checks : List Check) (x : Option ObservedState)
    → Steady (fresh_observed final retry checks x)
unfolding fresh_observed
fresh_observed-Steady final retry checks none o k = search steady_rules
fresh_observed-Steady final retry checks (some x) o k =
    search
      (
        steady_rules, snapshot-Steady, and_then-Keeps, same_state-Steady, same_history-Steady,
        fresh_authority-Steady,
      )
      depth 14

pub fresh-Steady : (final retry : Bool) → Steady (fresh final retry)
unfolding fresh
fresh-Steady final retry o k =
    search (steady_rules, effect_checks_of-Steady, observe-Steady, fresh_observed-Steady) depth 9

pub refuse-Steady :
    (control : Control) (why : String) (refs : List String) → Steady (refuse control why refs)
unfolding refuse
refuse-Steady control why refs o k = search (keeps_rules, stop-Steady)

pub report-Steady : (event_type : String) (refs : List String) → Steady (report event_type refs)
unfolding report
report-Steady event_type refs o k = search steady_rules

approve-Steady :
    (request : Request) (t : CandidateTransition) (before : AuthoritativeStateSnapshot)
    (baseline : ObservedState) (validation_id : String) (checks : List Check)
    → Steady (approve request t before baseline validation_id checks)
unfolding approve
approve-Steady request t before baseline validation_id checks o k =
    search (steady_rules, report-Steady, envelope-Steady, bind-Steady) depth 28

authorize-Steady :
    (request : Request) (t : CandidateTransition) (before : AuthoritativeStateSnapshot)
    (baseline : ObservedState) (validation_id : String)
    → Steady (authorize request t before baseline validation_id)
unfolding authorize
authorize-Steady request t before baseline validation_id o k =
    search (steady_rules, record_checks-Steady, refuse-Steady, approve-Steady) depth 12

validate_transition-Steady :
    (request : Request) (t : CandidateTransition) (before : AuthoritativeStateSnapshot)
    (baseline : ObservedState)
    → Steady (validate_transition request t before baseline)
unfolding validate_transition
validate_transition-Steady request t before baseline o k =
    search (steady_rules, refuse-Steady, report-Steady, authorize-Steady) depth 16

candidates_of-Steady : (n : ℕ) (t : CandidateTransition) → Steady (candidates_of n t)
unfolding candidates_of
candidates_of-Steady n t o k = search steady_rules depth 12

pub select-Steady :
    (request : Request) (t : CandidateTransition) (before : AuthoritativeStateSnapshot)
    (baseline : ObservedState)
    → Steady (select request t before baseline)
unfolding select
select-Steady request t before baseline o k =
    search
      (steady_rules, candidates_of-Steady, refuse-Steady, report-Steady, validate_transition-Steady)
      depth 20

pub first_step-Steady : (steps : List Step) → Steady (first_step steps)
unfolding first_step
first_step-Steady [] o k = search keeps_rules
first_step-Steady (step ∷ rest) o k = search keeps_rules

pub binding-Steady : Steady binding
unfolding binding
binding-Steady o k = search (steady_rules, first_step-Steady) depth 18

guard_admission-Steady : Steady guard_admission
unfolding guard_admission
guard_admission-Steady o k = search steady_rules depth 30

retain_commit-Steady :
    (c : RealizationCommit) (e : ExecutionEnvelope) (a : Attempt) (event_id : String)
    → Steady (retain_commit c e a event_id)
unfolding retain_commit
retain_commit-Steady c e a event_id o k = search (steady_rules, commit_ref-Steady) depth 14

enter_index-Steady : (key : String) → Steady (enter_index key)
unfolding enter_index
enter_index-Steady key o k = search (steady_rules, binding-Steady) depth 9

pub admit-Steady : (key : String) → Steady (admit key)
unfolding admit
admit-Steady key o k =
    search
      (
        steady_rules, guard_admission-Steady, admission-Steady, first_step-Steady,
        retain_commit-Steady, enter_index-Steady,
      )
      depth 34
