-- ===== src/Runtime/Delegated.antt =====
-- src/gsrr_slice01/runtime.py: a delegated realization plans once.
use gsrr_agent_harness.Prelude.{ℕ, suc, String, ◌≡◌, ◌≢◌, refl, sym, subst, not, Option, none, some}
use gsrr_agent_harness.Exec.{Result, pure}
use gsrr_agent_harness.Exec.Triple.{Ends, Triple, Triple-bind, Triple-pure, Triple-pre, Triple-if}
use gsrr_agent_harness.Shared.{Shared}
use gsrr_agent_harness.Contracts.Enums.{Mode}
use gsrr_agent_harness.Contracts.Attempts.{Attempt}
use gsrr_agent_harness.Contracts.Plans.{ExecutionPlan, PlanValidationResult}
use gsrr_agent_harness.Governance.Checks.{is_gate_pass}
use gsrr_agent_harness.Runtime.Defs.{RunResult, Runtime, Call}
use gsrr_agent_harness.Runtime.Justified.{Any, any_call, knowing}
use gsrr_agent_harness.Runtime.Realize.{
  Round, end_round, refuse_plan, judge_plan, judge_proposal, plan_round, after_round, plan_loop,
  realize_mode, realize,
}

-- The round is the loop's last one.
abbrev IsLast : Round → Type 0
IsLast Round.again = ⊥
IsLast round = Unit {0}

abbrev Ended : Round → Shared Runtime → Type 0
Ended round s = IsLast round

end_round-IsLast : Triple Any end_round Ended Any
unfolding end_round
end_round-IsLast = Triple-bind _ _ (any_call _) λ r. Triple-pre _ (λ s h. tt) (Triple-pure _)

refuse_plan-IsLast :
    (a : Attempt) (v : PlanValidationResult)
    → Triple Any (refuse_plan Mode.delegated_realization a v) Ended Any
unfolding refuse_plan
refuse_plan-IsLast a v = Triple-bind _ _ (any_call _) λ may.
    Triple-bind _ _ (any_call _) λ missing.
      Triple-bind _ _ (any_call _) λ _. Triple-bind _ _ (any_call _) λ _. end_round-IsLast

judge_plan-IsLast :
    (a : Attempt) (p : ExecutionPlan)
    → Triple Any (judge_plan Mode.delegated_realization a p) Ended Any
unfolding judge_plan
judge_plan-IsLast a p = Triple-bind _ _ (any_call _) λ _. Triple-bind _ _ (any_call _) λ r.
    Triple-bind _ _ (any_call _) λ e. Triple-bind _ _ (any_call _) λ approval.
      Triple-bind _ _ (any_call _) λ cap. Triple-bind _ _ (any_call _) λ v.
        Triple-bind _ _ (any_call _) λ _. Triple-bind _ _ (any_call _) λ _.
          Triple-if (is_gate_pass v.disposition) _ _ (λ _. Triple-pre _ (λ s h. tt) (Triple-pure _))
            (λ _. refuse_plan-IsLast a v)

judge_proposal-IsLast :
    (a : Attempt) (p : Option ExecutionPlan)
    → Triple Any (judge_proposal Mode.delegated_realization a p) Ended Any
unfolding judge_proposal
judge_proposal-IsLast a none =
    Triple-bind _ _ (any_call _) λ r. Triple-pre _ (λ s h. tt) (Triple-pure _)
judge_proposal-IsLast a (some p) = judge_plan-IsLast a p

plan_round-IsLast : Triple Any (plan_round Mode.delegated_realization) Ended Any
unfolding plan_round
plan_round-IsLast = Triple-bind _ _ (any_call _) λ o. Triple-bind _ _ (any_call _) λ a.
    Triple-bind _ _ (any_call _) λ defects. Triple-bind _ _ (any_call _) λ defect.
      Triple-bind _ _ (any_call _) λ o'. Triple-bind _ _ (any_call _) λ e.
        Triple-bind _ _ (any_call _)
          λ p. Triple-bind _ _ (any_call _) λ _. judge_proposal-IsLast a p

abbrev IsSome : Option RunResult → Type 0
IsSome none = ⊥
IsSome (some r) = Unit {0}

abbrev Given : Option RunResult → Shared Runtime → Type 0
Given r s = IsSome r

after_round-IsSome :
    (key : String) (rest : Call (Option RunResult)) (round : Round)
    → Triple (Ended round) (after_round key rest round) Given Any
unfolding after_round
after_round-IsSome key rest Round.again = record { at = λ s h. absurd h }
after_round-IsSome key rest Round.passed =
    Triple-bind _ _ (any_call _) λ r. Triple-pre _ (λ s h. tt) (Triple-pure _)
after_round-IsSome key rest (Round.returned r) = Triple-pre _ (λ s h. tt) (Triple-pure _)

plan_loop-IsSome :
    (rounds : ℕ) (key : String)
    → Triple Any (plan_loop (suc rounds) key Mode.delegated_realization) Given Any
unfolding plan_loop
plan_loop-IsSome rounds key =
    Triple-bind _ _ plan_round-IsLast λ round. after_round-IsSome key _ round

given_mode : (m : Mode) → Triple Any (realize_mode (some m)) (λ x s. x ≡ m) Any
unfolding realize_mode pure
given_mode m = record { at = λ s h. refl }

realize-IsSome :
    (rounds : ℕ) (key : String)
    → Triple Any (realize (suc rounds) key (some Mode.delegated_realization)) Given Any
unfolding realize
realize-IsSome rounds key = Triple-bind _ _ (any_call _) λ e. Triple-bind _ _ (any_call _) λ ready.
    Triple-if (not ready) _ _
      (λ _. Triple-bind _ _ (any_call _) λ r. Triple-pre _ (λ s h. tt) (Triple-pure _))
      (λ _. Triple-bind _ _ (given_mode Mode.delegated_realization) λ mode. knowing _ λ same.
        subst (λ (m : Mode). Triple Any (plan_loop (suc rounds) key m) Given Any) (sym same)
          (plan_loop-IsSome rounds key))

-- Whatever state `realize` is called in, with any key: in the delegated mode the loop ends within its
-- first round, whatever the faults and the policy are; with one round or more the call gives a result or
-- raises, and never runs out of rounds.
pub realize-delegated :
    (rounds : ℕ) (key : String) (s : Shared Runtime)
    → (realize (suc rounds) key (some Mode.delegated_realization) s).0 ≢ Result.ok none
realize-delegated rounds key s =
    ended (realize (suc rounds) key (some Mode.delegated_realization) s)
      ((realize-IsSome rounds key).at s tt)
  where
    ended :
        (x : Result (Option RunResult) × Shared Runtime) → Ends Given Any x → x.0 ≢ Result.ok none
    ended (Result.ok none, t) h = absurd h
    ended (Result.ok (some r), t) h = λ e. cc
    ended (Result.err x, t) h = λ e. cc
