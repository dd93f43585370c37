-- ===== src/Runtime/Realizing.antt =====
-- src/gsrr_slice01/runtime.py: what is made of the parts (Parts): `realize` and `run`.
use gsrr_agent_harness.Prelude.{
  ℕ, zero, suc, String, Bool, true, false, Option, none, some, List, last,
}
use gsrr_agent_harness.Exec.Keeps.{Keeps-bind, keeps_rules}
use gsrr_agent_harness.Contracts.Enums.{Mode}
use gsrr_agent_harness.Contracts.Attempts.{Attempt}
use gsrr_agent_harness.Contracts.Plans.{ExecutionEnvelope, ExecutionPlan, PlanValidationResult}
use gsrr_agent_harness.Runtime.Defs.{Request, RunResult, Binding, Call}
use gsrr_agent_harness.Runtime.Stable.{Steady, Lasting, prepare-Lasting, successor-Lasting}
use gsrr_agent_harness.Runtime.Parts.{
  steady_rules, propose-Steady, build_instruction-Steady, validate_plan-Steady,
}
use gsrr_agent_harness.Runtime.Realize.{
  Round, or_index_error, defect_of, plan_for, retry_ledger, considers_retry, take_control,
  end_round, retry_round, refuse_plan, judge_plan, judge_proposal, plan_round, commit_plan,
  after_round, plan_loop, realize_mode, is_realizable, realize, run_new, run,
}
use gsrr_agent_harness.Runtime.Dispatching.{lookup-Steady, dispatch-Lasting}
use gsrr_agent_harness.Runtime.Steps.{
  admit-Steady, result-Steady, stop-Steady, record_checks-Steady, fresh-Steady,
}

or_index_error-Steady : (d : Option String) → Steady (or_index_error d)
unfolding or_index_error
or_index_error-Steady none o k = search keeps_rules
or_index_error-Steady (some d) o k = search keeps_rules

pub defect_of-Steady : (n : ℕ) (defects : List String) → Steady (defect_of n defects)
unfolding defect_of
defect_of-Steady zero defects o k = or_index_error-Steady (last defects) o k
defect_of-Steady (suc n) defects o k = search keeps_rules

pub plan_for-Steady :
    (mode : Mode) (e : ExecutionEnvelope) (attempt_id defect : String)
    → Steady (plan_for mode e attempt_id defect)
unfolding plan_for
plan_for-Steady Mode.explicit_plan e attempt_id defect o k = propose-Steady e attempt_id defect o k
plan_for-Steady Mode.delegated_realization e attempt_id defect o k =
    build_instruction-Steady e attempt_id Mode.delegated_realization defect o k

retry_ledger-Steady : Steady retry_ledger
unfolding retry_ledger
retry_ledger-Steady o k = search steady_rules depth 9

pub considers_retry-Steady : (violation : Bool) → Steady (considers_retry violation)
unfolding considers_retry
considers_retry-Steady false o k = search keeps_rules
considers_retry-Steady true o k = search (steady_rules, retry_ledger-Steady) depth 12

pub take_control-Steady : Steady take_control
unfolding take_control
take_control-Steady o k = search steady_rules depth 7

end_round-Steady : Steady end_round
unfolding end_round
end_round-Steady o k = search (keeps_rules, result-Steady)

retry_round-Lasting : (mode : Mode) (a : Attempt) → Lasting (retry_round mode a)
unfolding retry_round
retry_round-Lasting mode a o k w =
    search
      (
        steady_rules, fresh-Steady, record_checks-Steady, successor-Lasting, take_control-Steady,
        end_round-Steady,
      )
      depth 22

refuse_plan-Lasting :
    (mode : Mode) (a : Attempt) (v : PlanValidationResult) → Lasting (refuse_plan mode a v)
unfolding refuse_plan
refuse_plan-Lasting mode a v o k w =
    search
      (
        steady_rules, considers_retry-Steady, take_control-Steady, end_round-Steady,
        retry_round-Lasting,
      )
      depth 14

judge_plan-Lasting : (mode : Mode) (a : Attempt) (p : ExecutionPlan) → Lasting (judge_plan mode a p)
unfolding judge_plan
judge_plan-Lasting mode a p o k w =
    search (steady_rules, validate_plan-Steady, refuse_plan-Lasting) depth 26

judge_proposal-Lasting :
    (mode : Mode) (a : Attempt) (p : Option ExecutionPlan) → Lasting (judge_proposal mode a p)
unfolding judge_proposal
judge_proposal-Lasting mode a none o k w = search (keeps_rules, stop-Steady)
judge_proposal-Lasting mode a (some p) o k w = judge_plan-Lasting mode a p o k w

plan_round-Lasting : (mode : Mode) → Lasting (plan_round mode)
unfolding plan_round
plan_round-Lasting mode o k w =
    search (steady_rules, defect_of-Steady, plan_for-Steady, judge_proposal-Lasting) depth 22

pub commit_plan-Lasting : (key : String) → Lasting (commit_plan key)
unfolding commit_plan
commit_plan-Lasting key o k w =
    search
      (
        steady_rules, fresh-Steady, record_checks-Steady, stop-Steady, admit-Steady,
        dispatch-Lasting,
      )
      depth 14

after_round-Lasting :
    (key : String) (rest : Call (Option RunResult)) (round : Round)
    → Lasting rest
    → Lasting (after_round key rest round)
unfolding after_round
after_round-Lasting key rest Round.again h o k w = h o k w
after_round-Lasting key rest Round.passed h o k w = search (keeps_rules, commit_plan-Lasting)
after_round-Lasting key rest (Round.returned r) h o k w = search keeps_rules

plan_loop-Lasting : (rounds : ℕ) (key : String) (mode : Mode) → Lasting (plan_loop rounds key mode)
unfolding plan_loop
plan_loop-Lasting zero key mode o k w = search keeps_rules
plan_loop-Lasting (suc rounds) key mode o k w =
    Keeps-bind _ _ (plan_round-Lasting mode o k w)
      λ round. after_round-Lasting key _ round (plan_loop-Lasting rounds key mode) o k w

pub realize_mode-Steady : (mode : Option Mode) → Steady (realize_mode mode)
unfolding realize_mode
realize_mode-Steady none o k = search steady_rules depth 7
realize_mode-Steady (some mode) o k = search keeps_rules

is_realizable-Steady : (e : Option ExecutionEnvelope) → Steady (is_realizable e)
unfolding is_realizable
is_realizable-Steady none o k = search keeps_rules
is_realizable-Steady (some e) o k = search steady_rules depth 7

pub realize-Lasting :
    (rounds : ℕ) (key : String) (mode : Option Mode) → Lasting (realize rounds key mode)
unfolding realize
realize-Lasting rounds key mode o k w =
    search
      (steady_rules, is_realizable-Steady, result-Steady, realize_mode-Steady, plan_loop-Lasting)
      depth 12

run_new-Lasting :
    (rounds : ℕ) (request : Request) (key : String) → Lasting (run_new rounds request key)
unfolding run_new
run_new-Lasting rounds request key o k w =
    search (steady_rules, prepare-Lasting, result-Steady, realize-Lasting) depth 14

pub run-Lasting :
    (rounds : ℕ) (request : Request) (key : String) (given : Option Binding)
    → Lasting (run rounds request key given)
unfolding run
run-Lasting rounds request key given o k w =
    search (steady_rules, lookup-Steady, run_new-Lasting) depth 9
