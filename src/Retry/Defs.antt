-- ===== src/Retry/Defs.antt =====
-- src/gsrr_slice01/retry.py: the supervisor's state and the reports that all its methods make.
use gsrr_agent_harness.Prelude.{
  ℕ, String, Bool, false, Option, none, some, List, [], ◌∷◌, ◌==◌, string_eq, last, if◌then◌else◌,
}
use mathlib.Core.Option
use gsrr_agent_harness.Exec.{Exec, pure, ◌>>=◌, ◌>>◌}
use gsrr_agent_harness.Shared.{Shared, in_journal, own_gets, own_modify}
use gsrr_agent_harness.Contracts.Enums.{Gate, Control, control_value}
use gsrr_agent_harness.Contracts.Domain.{RetryPolicy}
use gsrr_agent_harness.Contracts.Attempts.{Attempt, ScopeLedger, ControlPayload}
use gsrr_agent_harness.Contracts.Planning.{ApprovedTransition}
use gsrr_agent_harness.Contracts.Plans.{ExecutionEnvelope}
use gsrr_agent_harness.Contracts.Results.{RuntimeEvent}
use gsrr_agent_harness.Contracts.Record.{Record}
use gsrr_agent_harness.Journal.Defs.{new_id, retain}
use gsrr_agent_harness.Journal.Event.{EventCall, event_call, event}

pub record Supervisor : Type 0 where
  pub policy : Option RetryPolicy
  pub attempts : List Attempt
  pub ledger : Option ScopeLedger
  pub approval : Option ApprovedTransition
  pub envelope : Option ExecutionEnvelope
  pub failure_refs : List (String × String)
  pub schedules : List (String × Attempt)
  pub effect_posture : String
  pub last_control : Control

-- `Supervisor(journal, policy)`, but for the policy's retention
abbrev pub new_supervisor : Option RetryPolicy → Supervisor
new_supervisor policy = record {
  policy = policy;
  attempts = [];
  ledger = none;
  approval = none;
  envelope = none;
  failure_refs = [];
  schedules = [];
  effect_posture = "NONE_ESTABLISHED";
  last_control = Control.pass;
}

-- The retention that `__init__` ends with.
unfoldable pub retain_policy : Option RetryPolicy → Exec (Shared Supervisor) (Unit {0})
retain_policy none = pure tt
retain_policy (some p) = do in_journal (retain p.policy_id (Record.policy p)); pure tt

-- `current`
abbrev pub current : Supervisor → Option Attempt
current s = last s.attempts

unfoldable pub retain_ledger : Option ScopeLedger → Exec (Shared Supervisor) (Unit {0})
retain_ledger none = pure tt
retain_ledger (some l) = do
  ref ← in_journal (new_id "scope-ledger")
  in_journal (retain ref (Record.ledger l))
  pure tt

unfoldable pub remember_ledger : Exec (Shared Supervisor) (Unit {0})
remember_ledger = do l ← own_gets (λ s. s.ledger); retain_ledger l

-- The arguments of a call of `emit`.
pub record EmitCall : Type 0 where
  pub kind : String
  pub event_type : String
  pub control : Control
  pub refs : List String
  pub checks : List String
  pub reason : String
  pub attempt : Option Attempt
  pub before : Option ℕ
  pub after : Option ℕ
  pub scheduled : Option String

-- The defaults of the arguments that a call leaves out.
abbrev pub emit_call : String → String → Control → EmitCall
emit_call kind event_type control = record {
  kind = kind;
  event_type = event_type;
  control = control;
  refs = [];
  checks = [];
  reason = "";
  attempt = none;
  before = none;
  after = none;
  scheduled = none;
}

abbrev pub gate_of : Control → Gate
gate_of Control.pass = Gate.pass
gate_of Control.reject_retryable = Gate.refused
gate_of Control.fail_nonretryable = Gate.refused
gate_of Control.hold_ambiguous = Gate.held
gate_of Control.human_authorization_required = Gate.held
gate_of Control.circuit_open = Gate.refused

abbrev pub escalation_of : Control → Option String
escalation_of Control.circuit_open = some "CIRCUIT_INVESTIGATION"
escalation_of Control.human_authorization_required = some "AUTHORIZATION"
escalation_of Control.hold_ambiguous = some "JUDGMENT"
escalation_of _ = none

-- `attempt or self.current`
abbrev pub or_current : Option Attempt → Option Attempt → Option Attempt
or_current none now = now
or_current (some a) now = some a

abbrev pub failure_class_of : Option Attempt → Option String
failure_class_of none = none
failure_class_of (some a) = a.failure_class

-- `self.failure_class == text`, of a text or None
abbrev pub is_class : String → Option String → Bool
is_class name none = false
is_class name (some c) = c == name

abbrev pub is_terminal : Option Attempt → Bool
is_terminal none = false
is_terminal (some a) = a.terminal

abbrev pub admission_of : Option ScopeLedger → Option Bool
admission_of none = some false
admission_of (some l) = l.admission_seen

abbrev pub circuit_of : Option ScopeLedger → String
circuit_of none = "CLOSED"
circuit_of (some l) = l.circuit_state

-- The control payload that `emit` builds.
abbrev pub control_payload : EmitCall → Supervisor → ControlPayload
control_payload c s =
    let a = or_current c.attempt (current s) in
    record {
      kind = c.kind;
      original_artifact_refs = c.refs;
      failure_class_or_null = failure_class_of a;
      violated_rule_refs =
          if is_class "GENERATED_PLAN_ENVELOPE_VIOLATION" (failure_class_of a)
          then "PLAN_ENVELOPE" ∷ []
          else [];
      reasons = c.reason ∷ [];
      gate_disposition_or_null = some (gate_of c.control);
      supervisory_disposition_or_null = some c.control;
      terminal_attempt = is_terminal a;
      scope_ref = Option.map (λ l. l.scope_ref) s.ledger;
      policy_ref = Option.map (λ p. p.policy_id) s.policy;
      attempts_created_before = c.before;
      attempts_created_after = c.after;
      max_attempts = Option.map (λ p. p.max_attempts) s.policy;
      circuit_state = circuit_of s.ledger;
      current_state_check_refs = c.checks;
      authority_check_refs = c.checks;
      approval_ref = Option.map (λ x. x.approval_id) s.approval;
      envelope_ref = Option.map (λ e. e.envelope_id) s.envelope;
      no_effect_check_refs = c.checks;
      admission_seen = admission_of s.ledger;
      dispatch_or_effect_posture = s.effect_posture;
      scheduled_attempt_id_or_null = c.scheduled;
      escalation_kind_or_null = escalation_of c.control;
    }

-- The call of the journal's `event` that `emit` ends with.
abbrev pub emitted_event : EmitCall → Supervisor → EventCall
emitted_event c s = record (event_call c.event_type) {
  refs = c.refs;
  outcome = control_value c.control;
  reason = c.reason;
  attempt = or_current c.attempt (current s);
  transition = Option.map (λ e. e.transition_id) s.envelope;
  source_version = Option.map (λ e. e.source_authority_version) s.envelope;
  observed_version = Option.map (λ e. e.source_observation_version) s.envelope;
  policy = Option.map (λ p. p.policy_id) s.policy;
  payload = some (control_payload c s);
}

abbrev pub set_control : Control → Supervisor → Supervisor
set_control control s = record s { last_control = control }

unfoldable pub emit : EmitCall → Exec (Shared Supervisor) RuntimeEvent
emit c = do
  call ← own_gets (emitted_event c)
  own_modify (set_control c.control)
  in_journal (event call)
