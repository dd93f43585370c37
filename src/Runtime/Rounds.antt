-- ===== src/Runtime/Rounds.antt =====
-- src/gsrr_slice01/runtime.py: a round of `realize` that goes on has made an attempt.
use gsrr_agent_harness.Prelude.{
  ℕ, suc, ◌≡◌, refl, sym, true, false, not, Option, none, some, [], ◌∷◌, if◌then◌else◌,
}
use mathlib.Core.Option
use gsrr_agent_harness.Exec.{pure, raise, gets, ◌>>◌}
use gsrr_agent_harness.Exec.Triple.{
  Triple, Triple-bind, Triple-pure, Triple-keeps, Triple-weaken, Triple-pre, Triple-if,
}
use gsrr_agent_harness.Shared.{Shared, own_gets}
use gsrr_agent_harness.Contracts.Enums.{Mode}
use gsrr_agent_harness.Contracts.Domain.{RetryPolicy}
use gsrr_agent_harness.Contracts.Attempts.{Attempt}
use gsrr_agent_harness.Contracts.Plans.{ExecutionPlan, PlanValidationResult}
use gsrr_agent_harness.Journal.Serial.{serial_of}
use gsrr_agent_harness.Governance.Checks.{is_gate_pass}
use gsrr_agent_harness.Retry.Defs.{current}
use gsrr_agent_harness.Retry.Lifecycle.{is_some, need}
use gsrr_agent_harness.Retry.Journaled.{need-Keeps}
use gsrr_agent_harness.Retry.Lined.{last_id}
use gsrr_agent_harness.Retry.Scheduled.{top}
use gsrr_agent_harness.Retry.Succession.{Sound, Due, Made}
use gsrr_agent_harness.Retry.Decided.{successor-Made}
use gsrr_agent_harness.Retry.Successor.{successor}
use gsrr_agent_harness.Runtime.Defs.{Runtime, Call, get_supervisor}
use gsrr_agent_harness.Runtime.Realize.{
  Round, take_control, end_round, retry_round, refuse_plan, judge_plan, judge_proposal, plan_round,
  is_violation,
}
use gsrr_agent_harness.Runtime.Parts.{
  inject-Steady, get_faults-Steady, get_run-Steady, set_run-Steady, fail-Steady, event-Steady,
  validate_plan-Steady,
}
use gsrr_agent_harness.Runtime.Steps.{
  result-Steady, fresh-Steady, record_checks-Steady, stop-Steady,
}
use gsrr_agent_harness.Runtime.Realizing.{
  defect_of-Steady, plan_for-Steady, considers_retry-Steady, take_control-Steady,
}
use gsrr_agent_harness.Runtime.Stable.{Steady}
use gsrr_agent_harness.Runtime.Scheduling.{
  supervisor_of, in_supervisor-Triple, Sound-Stable, Due-Stable, Counted, Counted-Stable,
}

module _ (p : Option RetryPolicy) where
  abbrev pub RunSound : Shared Runtime → Type 0
  RunSound s = Sound p (supervisor_of s)

  abbrev pub RunCounted : ℕ → Shared Runtime → Type 0
  RunCounted k s = Counted p k (supervisor_of s)

  abbrev pub RunDue : ℕ → ℕ → Shared Runtime → Type 0
  RunDue n k s = Due p n k (supervisor_of s)

  -- After a round, on a number of attempts.
  abbrev pub Went : ℕ → Round → Shared Runtime → Type 0
  Went k Round.again s = RunCounted (suc k) s
  Went k round s = RunSound s

  pub sound_call : {A : Type 0} (m : Call A) → Steady m → Triple RunSound m (λ a. RunSound) RunSound
  sound_call m k = Triple-keeps m (k _ (Sound-Stable p))

  pub counted_call :
      {A : Type 0} (j : ℕ) (m : Call A)
      → Steady m
      → Triple (RunCounted j) m (λ a. RunCounted j) RunSound
  counted_call j m k =
      Triple-weaken m (λ s h. h) (λ a s h. h) (λ s h. h.0)
        (Triple-keeps m (k _ (Counted-Stable p j)))

  module _ (k : ℕ) where
    end_round-Went : Triple RunSound end_round (Went k) RunSound
    unfolding end_round
    end_round-Went =
        Triple-bind _ _ (sound_call _ (result-Steady "TERMINAL"))
          λ r. Triple-pure (Round.returned r)

    module _ (n : ℕ) where
      due_call :
          {A : Type 0} (m : Call A) → Steady m → Triple (RunDue n k) m (λ a. RunDue n k) RunSound
      due_call m steady =
          Triple-weaken m (λ s h. h) (λ a s h. h) (λ s h. h.0)
            (Triple-keeps m (steady _ (Due-Stable p n k)))

      -- What follows the request for a successor.
      conclude :
          (new : Option Attempt)
          → Triple
              (λ s. Made p n k new (supervisor_of s))
              (do take_control; if is_some new then pure Round.again else end_round)
              (Went k)
              RunSound
      conclude none = Triple-bind _ _ (sound_call _ take_control-Steady) λ _. end_round-Went
      conclude (some a) =
          Triple-pre _ (λ s h. (h.0, h.2))
            (Triple-bind _ _ (counted_call (suc k) _ take_control-Steady)
              λ _. Triple-pure Round.again)

      retry_round-Went :
          (mode : Mode) (a : Attempt)
          → serial_of a.attempt_id ≡ n
          → Triple (RunDue n k) (retry_round mode a) (Went k) RunSound
      unfolding retry_round
      retry_round-Went mode a e = Triple-bind _ _ (due_call _ (inject-Steady "retry")) λ _.
          Triple-bind _ _ (due_call _ (fresh-Steady false true)) λ f.
            Triple-bind _ _ (due_call _ (record_checks-Steady f.checks)) λ ref.
              Triple-bind _ _ (due_call _ (get_faults-Steady _)) λ failing.
                Triple-bind _ _
                  (in_supervisor-Triple (Due p n k) (Sound p) (Made p n k)
                    (successor a.attempt_id mode f.control (ref ∷ []) failing)
                    (successor-Made p n k a.attempt_id mode f.control (ref ∷ []) failing e))
                  conclude

      refuse_plan-Went :
          (mode : Mode) (a : Attempt) (v : PlanValidationResult)
          → serial_of a.attempt_id ≡ n
          → Triple (RunDue n k) (refuse_plan mode a v) (Went k) RunSound
      unfolding refuse_plan
      refuse_plan-Went mode a v e = Triple-bind _ _ (due_call _ (considers_retry-Steady _)) λ may.
          Triple-bind _ _ (due_call _ (get_faults-Steady _)) λ missing.
            Triple-bind _ _ (due_call _ (fail-Steady _ _ _ _)) λ _.
              Triple-if (not (is_violation mode v.disposition)) _ _
                (λ _.
                  Triple-pre _ (λ s h. h.0)
                    (Triple-bind _ _ (sound_call _ take_control-Steady) λ _. end_round-Went))
                (λ _. retry_round-Went mode a e)

      judge_plan-Went :
          (mode : Mode) (a : Attempt) (q : ExecutionPlan)
          → serial_of a.attempt_id ≡ n
          → Triple (RunDue n k) (judge_plan mode a q) (Went k) RunSound
      unfolding judge_plan
      judge_plan-Went mode a q e = Triple-bind _ _ (due_call _ (set_run-Steady _ (λ r. refl))) λ _.
          Triple-bind _ _ (due_call _ (get_run-Steady _)) λ r.
            Triple-bind _ _ (due_call _ (λ o k. need-Keeps _)) λ envelope.
              Triple-bind _ _ (due_call _ (λ o k. need-Keeps _)) λ approval.
                Triple-bind _ _ (due_call _ (λ o k. need-Keeps _)) λ cap.
                  Triple-bind _ _ (due_call _ (validate_plan-Steady _ _ _ _ _ _)) λ v.
                    Triple-bind _ _ (due_call _ (set_run-Steady _ (λ r. refl))) λ _.
                      Triple-bind _ _ (due_call _ (event-Steady _)) λ _.
                        Triple-if (is_gate_pass v.disposition) _ _
                          (λ _. Triple-pre _ (λ s h. h.0) (Triple-pure Round.passed))
                          (λ _. refuse_plan-Went mode a v e)

      judge_proposal-Went :
          (mode : Mode) (a : Attempt) (q : Option ExecutionPlan)
          → serial_of a.attempt_id ≡ n
          → Triple (RunDue n k) (judge_proposal mode a q) (Went k) RunSound
      unfolding judge_proposal
      judge_proposal-Went mode a none e =
          Triple-bind _ _ (due_call _ (stop-Steady _ _ _))
            λ r. Triple-pre _ (λ s h. h.0) (Triple-pure (Round.returned r))
      judge_proposal-Went mode a (some q) e = judge_plan-Went mode a q e

    read_current :
        Triple
          (RunCounted k)
          (get_supervisor current)
          (λ o s.
            RunCounted k s
            × (top (Option.map (λ a. a.attempt_id) o) ≡ top (last_id s.own.supervisor)))
          RunSound
    unfolding get_supervisor own_gets gets
    read_current = record { at = λ s h. (h, refl) }

    needed :
        (o : Option Attempt)
        → Triple
            (λ s.
              RunCounted k s
              × (top (Option.map (λ a. a.attempt_id) o) ≡ top (last_id s.own.supervisor)))
            (need o)
            (λ a. RunDue (serial_of a.attempt_id) k)
            RunSound
    unfolding need raise pure
    needed none = record { at = λ s h. h.0.0 }
    needed (some a) = record { at = λ s h. (h.0.0, sym h.1, h.0.1) }

    pub plan_round-Went : (mode : Mode) → Triple (RunCounted k) (plan_round mode) (Went k) RunSound
    unfolding plan_round
    plan_round-Went mode = Triple-bind _ _ read_current λ o. Triple-bind _ _ (needed o) λ a.
        let n = serial_of a.attempt_id in
        Triple-bind _ _ (due_call n _ (get_faults-Steady _)) λ defects.
          Triple-bind _ _ (due_call n _ (defect_of-Steady a.attempt_number defects)) λ defect.
            Triple-bind _ _ (due_call n _ (get_run-Steady _)) λ o'.
              Triple-bind _ _ (due_call n _ (λ o k. need-Keeps o')) λ e.
                Triple-bind _ _ (due_call n _ (plan_for-Steady mode e a.attempt_id defect)) λ q.
                  Triple-bind _ _ (due_call n _ (set_run-Steady _ (λ r. refl)))
                    λ _. judge_proposal-Went n mode a q refl
