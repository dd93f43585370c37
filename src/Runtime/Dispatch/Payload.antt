-- ===== src/Runtime/Dispatch/Payload.antt =====
-- src/gsrr_slice01/runtime.py: the payload that `dispatch` is given, and whether the commit binds it.
use gsrr_agent_harness.Prelude.{
  String, Bool, false, not, ◌&&◌, Option, none, some, ◌==◌, string_eq, if◌then◌else◌,
}
use gsrr_agent_harness.Exec.{Error, pure, raise, ◌>>=◌}
use gsrr_agent_harness.Shared.{in_journal}
use gsrr_agent_harness.Contracts.Values.{Scalar}
use gsrr_agent_harness.Contracts.Domain.{DispatchPayload}
use gsrr_agent_harness.Contracts.Plans.{
  ExecutionEnvelope, ExecutionPlan, PlanValidationResult, RealizationCommit,
}
use gsrr_agent_harness.Contracts.Record.{Record, same_record}
use gsrr_agent_harness.Retry.Defs.{current}
use gsrr_agent_harness.Retry.Lifecycle.{need}
use gsrr_agent_harness.Governance.Validation.{and_then, is_retained}
use gsrr_agent_harness.Runtime.Defs.{request_eq, binding_eq, Run, Call, get_supervisor}

-- A payload that is presented: one of the class, or a mapping.
pub data Presented : Type 0 where
  typed : DispatchPayload → Presented
  mapping : Presented

abbrev pub is_payload : DispatchPayload → Presented → Bool
is_payload c (Presented.typed p) = same_record (Record.payload p) (Record.payload c)
is_payload c Presented.mapping = false

abbrev pub is_other_payload : DispatchPayload → Option Presented → Bool
is_other_payload c none = false
is_other_payload c (some p) = not (is_payload c p)

-- `replace(payload, **{name: "substituted"})`, or None where there is no such field
abbrev pub substituted : String → DispatchPayload → Option DispatchPayload
substituted name p =
    if name == "object_id"
    then some (record p { object_id = "substituted" })
    else if name == "source_state"
    then some (record p { source_state = "substituted" })
    else if name == "target_state"
    then some (record p { target_state = "substituted" })
    else if name == "expected_observation_version"
    then some (record p { expected_observation_version = Scalar.text "substituted" })
    else if name == "capability_id"
    then some (record p { capability_id = "substituted" })
    else if name == "implementation_id"
    then some (record p { implementation_id = "substituted" })
    else if name == "plan_id"
    then some (record p { plan_id = "substituted" })
    else if name == "envelope_id"
    then some (record p { envelope_id = "substituted" })
    else if name == "commit_id"
    then some (record p { commit_id = "substituted" })
    else if name == "idempotency_key"
    then some (record p { idempotency_key = "substituted" })
    else if name == "invocation_id"
    then some (record p { invocation_id = "substituted" })
    else none

unfoldable pub or_unknown_field : Option DispatchPayload → Call Presented
or_unknown_field none = raise (Error.type_error "unexpected keyword argument")
or_unknown_field (some p) = pure (Presented.typed p)

unfoldable pub substitute_field : String → Presented → Call Presented
substitute_field name Presented.mapping =
    raise (Error.type_error "replace() should be called on dataclass instances")
substitute_field name (Presented.typed p) = or_unknown_field (substituted name p)

-- The payload after its fault; an extra field makes it a mapping.
unfoldable pub substitute : String → Presented → Call Presented
substitute name p =
    if name == ""
    then pure p
    else if name == "extra"
    then pure Presented.mapping
    else substitute_field name p

abbrev pub presented_payload : DispatchPayload → Option Presented → Presented
presented_payload c none = Presented.typed c
presented_payload c (some p) = p

abbrev pub validation_record : Option PlanValidationResult → Record
validation_record none = Record.null
validation_record (some v) = Record.plan_validation v

-- The tests of `equal` after the journal's: plan, envelope, validation and attempt are the commit's.
unfoldable pub commit_binds :
    RealizationCommit → ExecutionPlan → ExecutionEnvelope → Run → Call Bool
commit_binds c p e r = do
  v ← need r.plan_validation
  a ← need r.approval
  attempt ← need (← get_supervisor current)
  pure (
      (v.plan_id == p.plan_id && p.plan_id == c.execution_plan_id)
      && (v.envelope_id == e.envelope_id && e.envelope_id == c.execution_envelope_id)
      && v.approval_id == a.approval_id
      && (c.attempt_id == p.attempt_id && p.attempt_id == v.attempt_id)
      && not attempt.terminal)

-- `equal`
unfoldable pub is_bound :
    Presented
    → RealizationCommit
    → ExecutionPlan
    → ExecutionEnvelope
    → DispatchPayload
    → Run
    → Call Bool
is_bound payload c p e expected r =
    and_then
      (pure (
        is_payload c.dispatch_payload payload
        && is_payload expected (Presented.typed c.dispatch_payload)))
      (and_then (in_journal (is_retained c.commit_id (Record.commit c))) (
        and_then (in_journal (is_retained p.plan_id (Record.plan p))) (
          and_then (in_journal (is_retained e.envelope_id (Record.envelope e))) (
            and_then
              (in_journal (is_retained c.plan_validation_id (validation_record r.plan_validation)))
              (commit_binds c p e r)))))
