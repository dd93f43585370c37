-- ===== src/Runtime/Realize.antt =====
-- src/gsrr_slice01/runtime.py: `realize`, the loop that plans until a plan passes, and `run`.
use gsrr_agent_harness.Prelude.{
  ℕ, zero, suc, String, Bool, true, false, not, ◌&&◌, Option, none, some, List, [], ◌∷◌, ◌++◌, last,
  ◌==◌, string_eq, if◌then◌else◌,
}
use gsrr_agent_harness.Exec.{Error, pure, raise, except_retention, ◌>>=◌, ◌>>◌}
use gsrr_agent_harness.Shared.{in_journal, own_gets}
use gsrr_agent_harness.Contracts.Enums.{Mode, Control, Gate, gate_value}
use gsrr_agent_harness.Contracts.Defaults.{truthy, contains_text}
use gsrr_agent_harness.Contracts.Attempts.{Attempt}
use gsrr_agent_harness.Contracts.Plans.{ExecutionEnvelope, ExecutionPlan, PlanValidationResult}
use gsrr_agent_harness.Journal.Event
use gsrr_agent_harness.Journal.Event.{EventCall, event}
use gsrr_agent_harness.Retry.Defs.{current}
use gsrr_agent_harness.Retry.Lifecycle.{is_empty, is_some, is_false, find, fail, need}
use gsrr_agent_harness.Retry.Eligibility.{is_pass, is_explicit}
use gsrr_agent_harness.Retry.Successor.{successor}
use gsrr_agent_harness.Governance.Checks.{is_gate_pass}
use gsrr_agent_harness.Governance.Building.{build_instruction, propose}
use gsrr_agent_harness.Governance.Validation.{validate_plan}
use gsrr_agent_harness.Runtime.Defs.{
  Request, RunResult, Binding, Call, in_supervisor, in_planner, get_run, set_run, get_faults,
  get_supervisor,
}
use gsrr_agent_harness.Runtime.Start.{result, stop, record_checks}
use gsrr_agent_harness.Runtime.Inject.{inject}
use gsrr_agent_harness.Runtime.Fresh.{fresh}
use gsrr_agent_harness.Runtime.Prepare.{prepare}
use gsrr_agent_harness.Runtime.Admit.{admit}
use gsrr_agent_harness.Runtime.Dispatch.{bare_result, lookup, dispatch}

-- How a round of the loop ends: with a plan that passed, with a fresh attempt, or with the run.
pub data Round : Type 0 where
  passed again : Round
  returned : RunResult → Round

abbrev pub nth_or_empty : ℕ → List String → String
nth_or_empty n [] = ""
nth_or_empty zero (d ∷ ds) = d
nth_or_empty (suc n) (d ∷ ds) = nth_or_empty n ds

unfoldable pub or_index_error : Option String → Call String
or_index_error none = raise (Error.index_error "tuple index out of range")
or_index_error (some d) = pure d

-- The defect of an attempt's plan. The number 0 would read the last one, as the index -1.
unfoldable pub defect_of : ℕ → List String → Call String
defect_of zero defects = or_index_error (last defects)
defect_of (suc n) defects = pure (nth_or_empty n defects)

unfoldable pub plan_for : Mode → ExecutionEnvelope → String → String → Call (Option ExecutionPlan)
plan_for Mode.explicit_plan e attempt_id defect = in_planner (propose e attempt_id defect)
plan_for Mode.delegated_realization e attempt_id defect =
    in_journal (build_instruction e attempt_id Mode.delegated_realization defect)

abbrev pub is_gate_refused : Gate → Bool
is_gate_refused Gate.refused = true
is_gate_refused _ = false

-- `failure == "GENERATED_PLAN_ENVELOPE_VIOLATION"`
abbrev pub is_violation : Mode → Gate → Bool
is_violation mode gate = is_explicit mode && is_gate_refused gate

abbrev pub failure_class : Bool → String
failure_class violation =
    if violation then "GENERATED_PLAN_ENVELOPE_VIOLATION" else "NONELIGIBLE_PLAN_FAILURE"

-- `may_consider_retry`, its tests in their order
unfoldable pub retry_ledger : Call Bool
retry_ledger = do
  l ← need (← get_supervisor (λ s. s.ledger))
  posture ← get_supervisor (λ s. s.effect_posture)
  pure (is_false l.admission_seen && posture == "NONE_ESTABLISHED")

unfoldable pub considers_retry : Bool → Call Bool
considers_retry false = pure false
considers_retry true = do
  p ← need (← own_gets (λ s. s.policy))
  missing ← get_faults (λ f. f.failure_evidence_missing)
  if truthy p.retry_enabled
        && contains_text "GENERATED_PLAN_ENVELOPE_VIOLATION" p.allowed_failure_classes
        && not missing
      then retry_ledger
      else pure false

abbrev pub refusal_control : Gate → Bool → Control
refusal_control Gate.held may = Control.hold_ambiguous
refusal_control gate may = if may then Control.reject_retryable else Control.fail_nonretryable

unfoldable pub take_control : Call (Unit {0})
take_control = do
  control ← get_supervisor (λ s. s.last_control)
  set_run (λ r. record r { control = control })

unfoldable pub end_round : Call Round
end_round = do r ← result "TERMINAL"; pure (Round.returned r)

-- The request for a successor of the attempt whose plan was refused.
unfoldable pub retry_round : Mode → Attempt → Call Round
retry_round mode a = do
  inject "retry"
  f ← fresh false true
  ref ← record_checks f.checks
  failing ← get_faults (λ f. f.scheduling_failure)
  new ← in_supervisor (successor a.attempt_id mode f.control (ref ∷ []) failing)
  take_control
  if is_some new then pure Round.again else end_round

unfoldable pub refuse_plan : Mode → Attempt → PlanValidationResult → Call Round
refuse_plan mode a v = do
  let violation = is_violation mode v.disposition
  may ← considers_retry violation
  missing ← get_faults (λ f. f.failure_evidence_missing)
  in_supervisor (
      fail (refusal_control v.disposition may) (failure_class violation) (v.plan_validation_id ∷ [])
        (not missing))
  if not violation then (do take_control; end_round) else retry_round mode a

-- The validation of a plan.
unfoldable pub judge_plan : Mode → Attempt → ExecutionPlan → Call Round
judge_plan mode a p = do
  set_run (λ r. record r { plans = r.plans ++ p ∷ [] })
  r ← get_run (λ r. r)
  e ← need r.envelope
  approval ← need r.approval
  cap ← need r.cap_descriptor
  v ← in_journal (validate_plan p e approval r.definition cap a.attempt_id)
  set_run (λ r. record r { plan_validation = some v; validations = r.validations ++ v ∷ [] })
  in_journal (
      event (record (Event.event_call "ExecutionPlanValidated") {
        refs = v.plan_validation_id ∷ [];
        outcome = gate_value v.disposition;
        attempt = some a;
      }))
  if is_gate_pass v.disposition then pure Round.passed else refuse_plan mode a v

unfoldable pub judge_proposal : Mode → Attempt → Option ExecutionPlan → Call Round
judge_proposal mode a none = do
  r ← stop Control.hold_ambiguous "PLAN_INFEASIBLE" []
  pure (Round.returned r)
judge_proposal mode a (some p) = judge_plan mode a p

-- One round of the loop.
unfoldable pub plan_round : Mode → Call Round
plan_round mode = do
  a ← need (← get_supervisor current)
  defects ← get_faults (λ f. f.plan_defects)
  defect ← defect_of a.attempt_number defects
  e ← need (← get_run (λ r. r.envelope))
  p ← plan_for mode e a.attempt_id defect
  set_run (λ r. record r { plan = p })
  judge_proposal mode a p

-- What follows the loop.
unfoldable pub commit_plan : String → Call RunResult
commit_plan key = do
  inject "pre_commit"
  f ← fresh false false
  if not (is_pass f.control)
      then (do ref ← record_checks f.checks; stop f.control "PRE_COMMIT_FRESHNESS" (ref ∷ []))
      else (do
        admitted ← except_retention (do admit key; pure true) false
        if admitted
            then dispatch none
            else stop Control.hold_ambiguous "COMMIT_RETENTION_OR_ACTIVE_ATTEMPT" [])

-- What follows a round; `rest` is the loop's further rounds.
unfoldable pub after_round : String → Call (Option RunResult) → Round → Call (Option RunResult)
after_round key rest Round.again = rest
after_round key rest Round.passed = do r ← commit_plan key; pure (some r)
after_round key rest (Round.returned r) = pure (some r)

-- The loop, with rounds to spend; None is a loop that has run out of them.
unfoldable pub plan_loop : ℕ → String → Mode → Call (Option RunResult)
plan_loop zero key mode = pure none
plan_loop (suc rounds) key mode = do
  round ← plan_round mode
  after_round key (plan_loop rounds key mode) round

unfoldable pub realize_mode : Option Mode → Call Mode
realize_mode (some mode) = pure mode
realize_mode none = do request ← need (← get_run (λ r. r.request)); pure request.mode

-- Whether there is something to realize: a bound envelope and an attempt that has not ended.
unfoldable pub is_realizable : Option ExecutionEnvelope → Call Bool
is_realizable none = pure false
is_realizable (some e) = do a ← need (← get_supervisor current); pure (not a.terminal)

unfoldable pub realize : ℕ → String → Option Mode → Call (Option RunResult)
realize rounds key mode = do
  ready ← is_realizable (← get_run (λ r. r.envelope))
  if not ready
      then (do r ← result "TERMINAL"; pure (some r))
      else (do m ← realize_mode mode; plan_loop rounds key m)

-- A scope that has not been prepared before.
unfoldable pub run_new : ℕ → Request → String → Call (Option RunResult)
run_new rounds request key = do
  attempts ← get_supervisor (λ s. s.attempts)
  if not (is_empty attempts)
      then pure (some (bare_result "NO_SCOPE_RESET" Control.fail_nonretryable))
      else (do
        prepared ← prepare request
        if not prepared
            then (do r ← result "TERMINAL"; pure (some r))
            else realize rounds key (some request.mode))

unfoldable pub run : ℕ → Request → String → Option Binding → Call (Option RunResult)
run rounds request key given = do
  known ← get_run (λ r. is_some (find key r.index))
  if known then (do r ← lookup key request given; pure (some r)) else run_new rounds request key
