-- ===== src/Governance/Examples.antt =====
-- A concrete plan and its validation, and a concrete grant.
use gsrr_agent_harness.Prelude.{◌≡◌, refl, [], ◌∷◌, some, none, true, decide, String-discrete}
use gsrr_agent_harness.Exec.{Result, ◌>>=◌}
use gsrr_agent_harness.Contracts.Enums.{Gate, Mode, Mode-discrete}
use gsrr_agent_harness.Contracts.Domain.{AuthorityEvidence, Step-discrete}
use gsrr_agent_harness.Contracts.Defaults.{default_definition, default_grant}
use gsrr_agent_harness.Contracts.Plans.{CapabilityDescriptor, ExecutionPlan, PlanValidationResult}
use gsrr_agent_harness.Contracts.Record.{Record, Record-discrete, comparable, same_record}
use gsrr_agent_harness.Journal.Defs.{
  Journal, new_journal, new_id, id_text, lookup, or_key_error, get, is_null, keep_record, retain,
}
use gsrr_agent_harness.Samples.{approval, envelope}
use gsrr_agent_harness.Governance.Checks.{Strings-discrete}
use gsrr_agent_harness.Governance.Grants.{is_scoped, is_approved, known_grant_check, grant_check}
use gsrr_agent_harness.Governance.Building.{built_descriptor, plan_step, built_plan}
use gsrr_agent_harness.Governance.Validation.{
  and_then, is_retained, same_step, plan_matches, capability_matches, envelope_matches, exact_plan,
  Ownership-discrete, plan_check, built_validation, validate_plan,
}
use gsrr_agent_harness.Governance.Authority.{IsAuthority, grant_check-IsAuthority}
use gsrr_agent_harness.Governance.Exactness.{IsExact, validate_plan-IsExact}

abbrev cap : CapabilityDescriptor
cap = built_descriptor default_definition (new_journal "run-1")

abbrev plan : ExecutionPlan
plan =
    built_plan envelope "run-1:attempt:1" Mode.explicit_plan ""
      (plan_step envelope default_definition.implementation_id "") "run-1:plan:9"
      (new_journal "run-1")

-- The journal of a run that has come to its plan.
abbrev planned : Journal
planned =
    let j = new_journal "run-1" in
    record j {
      serial = 9;
      aggregate = record j.aggregate {
        records =
            ("descriptor-1", Record.descriptor cap)
            ∷ ("run-1:approval:7", Record.approval approval)
            ∷ ("run-1:envelope:8", Record.envelope envelope)
            ∷ ("run-1:plan:9", Record.plan plan)
            ∷ [];
      };
    }

abbrev validation : PlanValidationResult
validation =
    built_validation plan envelope approval (plan_check plan envelope approval cap true) Gate.pass
      "run-1:attempt:1" "run-1:plan-validation:10" planned

validated :
    (validate_plan plan envelope approval default_definition cap "run-1:attempt:1" planned) ≡ (
      Result.ok validation,
      (validate_plan plan envelope approval default_definition cap "run-1:attempt:1" planned).1,
    )
unfolding validate_plan exact_plan and_then is_retained get or_key_error lookup same_record
    comparable Record-discrete same_step plan_matches capability_matches envelope_matches
    Ownership-discrete Strings-discrete Mode-discrete Step-discrete String-discrete decide new_id
    id_text retain keep_record is_null ◌>>=◌
validated = refl

validate_plan-IsExact_example :
    IsExact plan envelope approval default_definition cap "run-1:attempt:1" planned
validate_plan-IsExact_example =
    validate_plan-IsExact plan envelope approval default_definition cap "run-1:attempt:1" planned
      (validate_plan plan envelope approval default_definition cap "run-1:attempt:1" planned).1
      validation validated refl

grant_check-IsAuthority_example :
    (g : AuthorityEvidence) × (some default_grant ≡ some g)
    × IsAuthority g default_definition 1 "run-1:transition:5" none
unfolding grant_check known_grant_check is_scoped is_approved
grant_check-IsAuthority_example =
    grant_check-IsAuthority (some default_grant) default_definition 1 "run-1:transition:5" none refl
