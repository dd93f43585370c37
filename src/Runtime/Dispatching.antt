-- ===== src/Runtime/Dispatching.antt =====
-- src/gsrr_slice01/runtime.py: what is made of the parts (Parts): `dispatch`.
use gsrr_agent_harness.Prelude.{String, Bool, true, false, Option, none, some, List, [], ◌∷◌}
use gsrr_agent_harness.Exec.Keeps.{Keeps-bind, keeps_rules}
use gsrr_agent_harness.Contracts.Enums.{Report}
use gsrr_agent_harness.Contracts.Domain.{FixedInput, DispatchPayload}
use gsrr_agent_harness.Contracts.Plans.{ExecutionEnvelope, ExecutionPlan, RealizationCommit}
use gsrr_agent_harness.Contracts.Results.{ExecutionResult}
use gsrr_agent_harness.Fixture.Defs.{ActionRequest}
use gsrr_agent_harness.Governance.Journaled.{and_then-Keeps}
use gsrr_agent_harness.Runtime.Defs.{Request, RunResult, Binding, RetainedRequest, Run, Call}
use gsrr_agent_harness.Runtime.Fresh.{Freshness}
use gsrr_agent_harness.Runtime.Dispatch.{
  entry_of, index_at, lookup, finish_commit, finish_index, Presented, or_unknown_field,
  substitute_field, substitute, commit_binds, is_bound, apply_all, invoke_capability,
  claim_dispatch, apply_requests, retain_execution, stop_unless_success, conclude_dispatch, execute,
  dispatch_fresh, dispatch_new, is_rebound, or_else, dispatch_again, dispatch,
}
use gsrr_agent_harness.Runtime.Stable.{Steady, Lasting, project-Lasting}
use gsrr_agent_harness.Runtime.Parts.{
  steady_rules, observe-Steady, reconcile-Steady, apply-Steady, open_interval-Steady,
  close_interval-Steady, observed_version-Steady,
}
use gsrr_agent_harness.Runtime.Steps.{
  result-Steady, stop-Steady, record_checks-Steady, fresh-Steady, first_step-Steady, binding-Steady,
}

entry_of-Steady : (key : String) (entry : Option RetainedRequest) → Steady (entry_of key entry)
unfolding entry_of
entry_of-Steady key none o k = search keeps_rules
entry_of-Steady key (some entry) o k = search keeps_rules

index_at-Steady : (key : String) → Steady (index_at key)
unfolding index_at
index_at-Steady key o k = search (steady_rules, entry_of-Steady)

pub lookup-Steady :
    (key : String) (request : Request) (given : Option Binding) → Steady (lookup key request given)
unfolding lookup
lookup-Steady key request given o k = search (steady_rules, index_at-Steady)

finish_commit-Steady :
    (kept : RunResult) (c : Option RealizationCommit) → Steady (finish_commit kept c)
unfolding finish_commit
finish_commit-Steady kept none o k = search keeps_rules
finish_commit-Steady kept (some c) o k = search (steady_rules, index_at-Steady) depth 7

finish_index-Steady : (kept : RunResult) → Steady (finish_index kept)
unfolding finish_index
finish_index-Steady kept o k = search (steady_rules, finish_commit-Steady)

or_unknown_field-Steady : (p : Option DispatchPayload) → Steady (or_unknown_field p)
unfolding or_unknown_field
or_unknown_field-Steady none o k = search keeps_rules
or_unknown_field-Steady (some p) o k = search keeps_rules

substitute_field-Steady : (name : String) (p : Presented) → Steady (substitute_field name p)
unfolding substitute_field
substitute_field-Steady name Presented.mapping o k = search keeps_rules
substitute_field-Steady name (Presented.typed p) o k = search or_unknown_field-Steady

substitute-Steady : (name : String) (p : Presented) → Steady (substitute name p)
unfolding substitute
substitute-Steady name p o k = search (keeps_rules, substitute_field-Steady) depth 7

commit_binds-Steady :
    (c : RealizationCommit) (p : ExecutionPlan) (e : ExecutionEnvelope) (r : Run)
    → Steady (commit_binds c p e r)
unfolding commit_binds
commit_binds-Steady c p e r o k = search steady_rules depth 12

is_bound-Steady :
    (payload : Presented) (c : RealizationCommit) (p : ExecutionPlan) (e : ExecutionEnvelope)
    (expected : DispatchPayload) (r : Run)
    → Steady (is_bound payload c p e expected r)
unfolding is_bound
is_bound-Steady payload c p e expected r o k =
    search (and_then-Keeps, steady_rules, commit_binds-Steady) depth 9

apply_all-Steady :
    (requests : List ActionRequest) (fixed : FixedInput) (diagnostic : Bool)
    → Steady (apply_all requests fixed diagnostic)
unfolding apply_all
apply_all-Steady [] fixed diagnostic o k = search keeps_rules
apply_all-Steady (r ∷ rest) fixed diagnostic o k =
    Keeps-bind _ _ (apply-Steady r fixed diagnostic o k)
      λ _. apply_all-Steady rest fixed diagnostic o k

invoke_capability-Steady :
    (p : ExecutionPlan) (fixed : FixedInput) → Steady (invoke_capability p fixed)
unfolding invoke_capability
invoke_capability-Steady p fixed o k = search steady_rules depth 12

claim_dispatch-Steady : (c : RealizationCommit) → Steady (claim_dispatch c)
unfolding claim_dispatch
claim_dispatch-Steady c o k = search (steady_rules, open_interval-Steady) depth 12

apply_requests-Steady :
    (p : ExecutionPlan) (fixed : FixedInput) (status : Report)
    → Steady (apply_requests p fixed status)
unfolding apply_requests
apply_requests-Steady p fixed status o k =
    search (steady_rules, apply_all-Steady, close_interval-Steady) depth 16

retain_execution-Steady :
    (c : RealizationCommit) (status : Report) (error : Option String) (interval : String)
    → Steady (retain_execution c status error interval)
unfolding retain_execution
retain_execution-Steady c status error interval o k = search steady_rules depth 20

stop_unless_success-Steady :
    (x : ExecutionResult) (status : Report) → Steady (stop_unless_success x status)
unfolding stop_unless_success
stop_unless_success-Steady x status o k = search (keeps_rules, stop-Steady) depth 9

conclude_dispatch-Lasting : (x : ExecutionResult) → Lasting (conclude_dispatch x)
unfolding conclude_dispatch
conclude_dispatch-Lasting x o k w =
    search
      (
        steady_rules, observe-Steady, observed_version-Steady, reconcile-Steady, project-Lasting,
        result-Steady, finish_index-Steady,
      )
      depth 40

execute-Lasting : (c : RealizationCommit) → Lasting (execute c)
unfolding execute
execute-Lasting c o k w =
    search
      (
        steady_rules, claim_dispatch-Steady, first_step-Steady, invoke_capability-Steady,
        apply_requests-Steady, retain_execution-Steady, stop_unless_success-Steady,
        conclude_dispatch-Lasting,
      )
      depth 24

dispatch_fresh-Lasting : (c : RealizationCommit) (f : Freshness) → Lasting (dispatch_fresh c f)
unfolding dispatch_fresh
dispatch_fresh-Lasting c f o k w =
    search
      (
        steady_rules, record_checks-Steady, stop-Steady, finish_index-Steady, lookup-Steady,
        execute-Lasting,
      )
      depth 14

dispatch_new-Lasting :
    (c : RealizationCommit) (presented : Option Presented) → Lasting (dispatch_new c presented)
unfolding dispatch_new
dispatch_new-Lasting c presented o k w =
    search
      (
        steady_rules, substitute-Steady, first_step-Steady, is_bound-Steady, stop-Steady,
        finish_index-Steady, fresh-Steady, dispatch_fresh-Lasting,
      )
      depth 26

is_rebound-Steady : (key : String) → Steady (is_rebound key)
unfolding is_rebound
is_rebound-Steady key o k = search (keeps_rules, binding-Steady, index_at-Steady) depth 7

or_else-Steady : (b : Bool) (m : Call Bool) → Steady m → Steady (or_else b m)
unfolding or_else
or_else-Steady true m h o k = search keeps_rules
or_else-Steady false m h o k = h o k

dispatch_again-Steady :
    (c : RealizationCommit) (presented : Option Presented) → Steady (dispatch_again c presented)
unfolding dispatch_again
dispatch_again-Steady c presented o k =
    search (steady_rules, or_else-Steady, is_rebound-Steady, lookup-Steady) depth 14

pub dispatch-Lasting : (presented : Option Presented) → Lasting (dispatch presented)
unfolding dispatch
dispatch-Lasting presented o k w =
    search (steady_rules, dispatch_again-Steady, dispatch_new-Lasting) depth 12
