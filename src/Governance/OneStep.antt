-- ===== src/Governance/OneStep.antt =====
-- src/gsrr_slice01/governance.py: the part of a plan's validation that reads the plan's steps.
use gsrr_agent_harness.Prelude.{
  ◌≡◌, refl, sym, ap, ◌∙◌, Bool, true, ◌&&◌, List, [], ◌∷◌, arith, string_eq, nat_eq,
}
use mathlib.Core.Bool.{decide_iff}
use gsrr_agent_harness.Contracts.Values.{Scalar, number_of}
use gsrr_agent_harness.Contracts.Domain.{Definition, Step, Step-discrete}
use gsrr_agent_harness.Contracts.Plans.{ExecutionEnvelope}
use gsrr_agent_harness.Contracts.Record.{plain_step}
use gsrr_agent_harness.Governance.Checks.{strings_eq}
use gsrr_agent_harness.Governance.Validation.{expected_step, same_step, is_an_int, is_expected}

number_of-int : (v : Scalar) → is_an_int v ≡ true → number_of v ≡ v
number_of-int Scalar.null h = cc
number_of-int (Scalar.bool b) h = cc
number_of-int (Scalar.int n) h = refl
number_of-int (Scalar.negative n) h = refl
number_of-int (Scalar.text t) h = cc

plain_step-int :
    (step : Step)
    → is_an_int step.fixed_input.expected_observation_version ≡ true
    → plain_step step ≡ step
plain_step-int step h =
    ap
      (λ (v : Scalar). record step {
        fixed_input = record step.fixed_input { expected_observation_version = v };
      })
      (number_of-int step.fixed_input.expected_observation_version h)

pub and_eq : (a b : Bool) → (a && b) ≡ true → (a ≡ true) × (b ≡ true)
and_eq a b h = ground arith

pub is_expected-eq :
    (steps : List Step) (e : ExecutionEnvelope) (d : Definition)
    → is_expected steps (expected_step e d) ≡ true
    → steps ≡ expected_step e d ∷ []
unfolding same_step
is_expected-eq [] e d h = cc
is_expected-eq (step ∷ []) e d h =
    let (same, is_number) =
      and_eq (same_step step (expected_step e d))
        (is_an_int step.fixed_input.expected_observation_version) h in
    let equal : plain_step step ≡ expected_step e d =
      (decide_iff (Step-discrete (plain_step step) (plain_step (expected_step e d)))).0 same in
    ap (λ (x : Step). x ∷ []) (sym (plain_step-int step is_number) ∙ equal)
is_expected-eq (step ∷ other ∷ rest) e d h = cc
