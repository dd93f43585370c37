-- ===== src/Governance/Exactness.antt =====
-- src/gsrr_slice01/governance.py: what a plan that `validate_plan` passes is sure to be.
use gsrr_agent_harness.Prelude.{
  String, ◌≡◌, refl, sym, ap, ◌∙◌, Bool, true, false, not, ◌&&◌, ◌||◌, List, [], ◌∷◌, arith,
  text_eq, nat_beq_eq, ◌==◌, string_eq, nat_eq,
}
use gsrr_agent_harness.Exec.{Result, pure, gets, ◌>>=◌, ◌>>◌}
use gsrr_agent_harness.Exec.Invert.{>>=-eq-ok}
use gsrr_agent_harness.Contracts.Enums.{Gate}
use gsrr_agent_harness.Contracts.Domain.{Definition}
use gsrr_agent_harness.Contracts.Planning.{ApprovedTransition}
use gsrr_agent_harness.Contracts.Plans.{
  CapabilityDescriptor, ExecutionEnvelope, ExecutionPlan, PlanValidationResult,
}
use gsrr_agent_harness.Contracts.Record.{Record}
use gsrr_agent_harness.Journal.Defs.{Journal, new_id, retain}
use gsrr_agent_harness.Retry.Lifecycle.{is_empty}
use gsrr_agent_harness.Governance.Checks.{profile, strings_eq, is_gate_pass}
use gsrr_agent_harness.Governance.Validation.{
  expected_step, is_expected, plan_matches, capability_matches, envelope_matches, exact_plan,
  is_missing, plan_gate, plan_check, built_validation, validate_plan,
}
use gsrr_agent_harness.Governance.Retained.{HoldsEqual, retained_then}
use gsrr_agent_harness.Governance.OneStep.{and_eq, is_expected-eq}

-- The plan is the envelope's one step, for this attempt, and all four records are the retained ones.
pub record IsExact (p : ExecutionPlan) (e : ExecutionEnvelope) (approval : ApprovedTransition)
    (d : Definition) (cap : CapabilityDescriptor) (attempt_id : String) (s : Journal) : Type 0 where
  pub steps : p.steps ≡ expected_step e d ∷ []
  pub complete : p.unresolved_fields ≡ []
  pub attempt : p.attempt_id ≡ attempt_id
  pub obligations : p.accepted_envelope_obligations_ref ≡ e.envelope_id
  pub authority_version : p.source_authority_version ≡ e.source_authority_version
  pub observation_version : p.source_observation_version ≡ e.source_observation_version
  pub approved : approval.disposition ≡ Gate.pass
  pub plan_kept : HoldsEqual s p.plan_id (Record.plan p)
  pub envelope_kept : HoldsEqual s e.envelope_id (Record.envelope e)
  pub approval_kept : HoldsEqual s approval.approval_id (Record.approval approval)
  pub descriptor_kept : HoldsEqual s cap.descriptor_id (Record.descriptor cap)

plan_conditions :
    (a b c d f g h k l : Bool)
    → (a && b && c && d && f && g && h && k && l) ≡ true
    → (a ≡ true) × (f ≡ true) × (g ≡ true) × (h ≡ true) × (k ≡ true)
plan_conditions a b c d f g h k l all = ground arith

last_condition : (a b c d f g : Bool) → (a && b && c && d && f && g) ≡ true → g ≡ true
last_condition a b c d f g all = ground arith

is_gate_pass-eq : (g : Gate) → is_gate_pass g ≡ true → g ≡ Gate.pass
is_gate_pass-eq Gate.pass h = refl
is_gate_pass-eq Gate.refused h = cc
is_gate_pass-eq Gate.held h = cc

envelope_matches-approved :
    (e : ExecutionEnvelope) (d : Definition) (approval : ApprovedTransition)
    → envelope_matches e d approval ≡ true
    → approval.disposition ≡ Gate.pass
unfolding envelope_matches
envelope_matches-approved e d approval h = is_gate_pass-eq approval.disposition (
    last_condition (e.required_effects == d.required_effects)
      (e.forbidden_effects == d.forbidden_effects) (e.postconditions == d.postconditions)
      (e.reconciliation_requirements == d.evidence_rules) (e.execution_constraints == d.constraints)
      (is_gate_pass approval.disposition) h)

is_empty-eq : (xs : List String) → not (is_empty xs) ≡ false → xs ≡ []
is_empty-eq [] h = refl
is_empty-eq (x ∷ xs) h = cc

or_false : (a b : Bool) → (a || b) ≡ false → a ≡ false
or_false a b h = ground arith

plan_gate-pass :
    (missing exact : Bool)
    → plan_gate missing exact ≡ Gate.pass
    → (missing ≡ false) × (exact ≡ true)
plan_gate-pass true exact h = cc
plan_gate-pass false true h = (refl, refl)
plan_gate-pass false false h = cc

pure-true : (s : Journal) {t : Journal} (b : Bool) → pure b s ≡ (Result.ok true, t) → b ≡ true
unfolding pure
pure-true s b h = cc

exact_plan-IsExact :
    (p : ExecutionPlan) (e : ExecutionEnvelope) (approval : ApprovedTransition) (d : Definition)
    (cap : CapabilityDescriptor) (attempt_id : String) (s : Journal) {t : Journal}
    → exact_plan p e approval d cap attempt_id s ≡ (Result.ok true, t)
    → is_missing p ≡ false
    → IsExact p e approval d cap attempt_id s
unfolding exact_plan plan_matches
exact_plan-IsExact p e approval d cap attempt_id s h complete =
    let (plan_kept, h1) = retained_then p.plan_id (Record.plan p) _ s h in
    let (envelope_kept, h2) = retained_then e.envelope_id (Record.envelope e) _ s h1 in
    let (approval_kept, h3) =
      retained_then approval.approval_id (Record.approval approval) _ s h2 in
    let (descriptor_kept, h4) = retained_then cap.descriptor_id (Record.descriptor cap) _ s h3 in
    let (both, bounds) =
      and_eq (plan_matches p e d attempt_id && capability_matches p e d cap)
        (envelope_matches e d approval) (pure-true s _ h4) in
    let (plan, _) = and_eq (plan_matches p e d attempt_id) (capability_matches p e d cap) both in
    let (steps, attempt, authority, observation, obligations) =
      plan_conditions (is_expected p.steps (expected_step e d)) (p.envelope_id == e.envelope_id)
        (p.transition_id == e.transition_id) (p.object_id == e.object_id)
        (p.attempt_id == attempt_id) (p.source_authority_version == e.source_authority_version)
        (p.source_observation_version == e.source_observation_version)
        (p.accepted_envelope_obligations_ref == e.envelope_id) (p.sufficiency_policy_ref == profile)
        plan in
    record {
      steps = is_expected-eq p.steps e d steps;
      complete = is_empty-eq p.unresolved_fields (or_false _ _ complete);
      attempt = text_eq p.attempt_id attempt_id attempt;
      obligations = text_eq p.accepted_envelope_obligations_ref e.envelope_id obligations;
      authority_version =
          nat_beq_eq p.source_authority_version e.source_authority_version authority;
      observation_version =
          nat_beq_eq p.source_observation_version e.source_observation_version observation;
      approved = envelope_matches-approved e d approval bounds;
      plan_kept = plan_kept;
      envelope_kept = envelope_kept;
      approval_kept = approval_kept;
      descriptor_kept = descriptor_kept;
    }

-- What the validation that is built, and returned, says of the test it was built from.
built_gate :
    (p : ExecutionPlan) (e : ExecutionEnvelope) (approval : ApprovedTransition)
    (cap : CapabilityDescriptor) (exact : Bool) (attempt_id : String) (s : Journal)
    {v : PlanValidationResult} {t : Journal}
    → ((do
      ref ← new_id "plan-validation"
      v ← gets (
          built_validation p e approval
            (plan_check p e approval cap exact)
            (plan_gate (is_missing p) exact)
            attempt_id
            ref)
      retain v.plan_validation_id (Record.plan_validation v)
      pure v)
        s)
      ≡ (Result.ok v, t)
    → v.disposition ≡ plan_gate (is_missing p) exact
unfolding pure gets
built_gate p e approval cap exact attempt_id s h =
    let (ref, _, h1) = >>=-eq-ok (new_id "plan-validation") _ s h in
    let (v, built, h2) = >>=-eq-ok (gets _) _ _ h1 in
    let (_, _, h3) = >>=-eq-ok (retain _ _) _ _ h2 in cc (built, h3)

-- Where `validate_plan` returns a result of PASS, the plan has exactly one step, the one that the
-- envelope and the definition stand for, its version an integer and no truth value; nothing is left
-- unresolved; attempt, obligations and both versions are the given ones; the approval passed; and the
-- journal holds plan, envelope, approval and descriptor under their references.
pub validate_plan-IsExact :
    (p : ExecutionPlan) (e : ExecutionEnvelope) (approval : ApprovedTransition) (d : Definition)
    (cap : CapabilityDescriptor) (attempt_id : String) (s t : Journal) (v : PlanValidationResult)
    → validate_plan p e approval d cap attempt_id s ≡ (Result.ok v, t)
    → v.disposition ≡ Gate.pass
    → IsExact p e approval d cap attempt_id s
unfolding validate_plan
validate_plan-IsExact p e approval d cap attempt_id s t v h passed =
    let (exact, first, rest) = >>=-eq-ok (exact_plan p e approval d cap attempt_id) _ s h in
    let gate = built_gate p e approval cap exact attempt_id _ rest in
    let (complete, holds) = plan_gate-pass (is_missing p) exact (sym gate ∙ passed) in
    exact_plan-IsExact p e approval d cap attempt_id s
      (pair_eq (exact_plan p e approval d cap attempt_id s) (first ∙ ap Result.ok holds)) complete
  where
    pair_eq : (r : Result Bool × Journal) → r.0 ≡ Result.ok true → r ≡ (Result.ok true, r.1)
    pair_eq (x, u) e = ap (λ y. (y, u)) e
