-- ===== src/Contracts/Enums.antt =====
-- src/gsrr_slice01/contracts.py: the enumerations, each with the text of its members.
use gsrr_agent_harness.Prelude.{String}

pub data Mode : Type 0 where
  explicit_plan delegated_realization : Mode

unfoldable pub Mode-discrete : Discrete Mode
Mode-discrete = hlevel

pub data Gate : Type 0 where
  pass refused held : Gate

unfoldable pub Gate-discrete : Discrete Gate
Gate-discrete = hlevel

pub data Control : Type 0 where
  pass reject_retryable fail_nonretryable hold_ambiguous human_authorization_required circuit_open :
      Control

unfoldable pub Control-discrete : Discrete Control
Control-discrete = hlevel

pub data Report : Type 0 where
  success failure unknown : Report

unfoldable pub Report-discrete : Discrete Report
Report-discrete = hlevel

pub data Outcome : Type 0 where
  reconciled_success reconciliation_failed stale_state reconciliation_ambiguous unresolved : Outcome

unfoldable pub Outcome-discrete : Discrete Outcome
Outcome-discrete = hlevel

pub data Decision : Type 0 where
  project do_not_project hold_projection : Decision

unfoldable pub Decision-discrete : Discrete Decision
Decision-discrete = hlevel

-- `.value` of a member.
abbrev pub gate_value : Gate → String
gate_value Gate.pass = "PASS"
gate_value Gate.refused = "REFUSED"
gate_value Gate.held = "HELD"

-- `.value` of a member.
abbrev pub control_value : Control → String
control_value Control.pass = "PASS"
control_value Control.reject_retryable = "REJECT_RETRYABLE"
control_value Control.fail_nonretryable = "FAIL_NONRETRYABLE"
control_value Control.hold_ambiguous = "HOLD_AMBIGUOUS"
control_value Control.human_authorization_required = "HUMAN_AUTHORIZATION_REQUIRED"
control_value Control.circuit_open = "CIRCUIT_OPEN"

-- `.value` of a member.
abbrev pub report_value : Report → String
report_value Report.success = "SUCCESS"
report_value Report.failure = "FAILURE"
report_value Report.unknown = "UNKNOWN"

-- `.value` of a member.
abbrev pub outcome_value : Outcome → String
outcome_value Outcome.reconciled_success = "RECONCILED_SUCCESS"
outcome_value Outcome.reconciliation_failed = "RECONCILIATION_FAILED"
outcome_value Outcome.stale_state = "STALE_STATE"
outcome_value Outcome.reconciliation_ambiguous = "RECONCILIATION_AMBIGUOUS"
outcome_value Outcome.unresolved = "UNRESOLVED"

-- `.value` of a member.
abbrev pub decision_value : Decision → String
decision_value Decision.project = "PROJECT"
decision_value Decision.do_not_project = "DO_NOT_PROJECT"
decision_value Decision.hold_projection = "HOLD_PROJECTION"
