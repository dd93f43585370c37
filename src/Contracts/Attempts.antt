-- ===== src/Contracts/Attempts.antt =====
-- src/gsrr_slice01/contracts.py: the records of the retry supervisor.
use gsrr_agent_harness.Prelude.{ℕ, ℕ_discrete, String, String-discrete, Bool, Option, List}
use gsrr_agent_harness.Contracts.Enums.{Gate, Gate-discrete, Control, Control-discrete}
use gsrr_agent_harness.Contracts.Values.{Scalar, Scalar-discrete}

pub record Attempt : Type 0 where
  pub attempt_id : String
  pub attempt_number : ℕ
  pub prior_attempt_id : Option String
  pub terminal : Bool
  pub failure_class : Option String

unfoldable pub Attempt-discrete : Discrete Attempt
unfolding ℕ_discrete String-discrete
Attempt-discrete = hlevel (ℕ_discrete, String-discrete)

pub record ScopeLedger : Type 0 where
  pub scope_ref : String
  pub policy_ref : String
  pub attempts_created : ℕ
  pub active_attempt_id : Option String
  pub scheduled_attempt_id : Option String
  pub admission_seen : Option Bool
  pub circuit_state : String
  pub scheduling_known : Bool

unfoldable pub ScopeLedger-discrete : Discrete ScopeLedger
unfolding ℕ_discrete String-discrete
ScopeLedger-discrete = hlevel (ℕ_discrete, String-discrete)

pub record ControlPayload : Type 0 where
  pub kind : String
  pub original_artifact_refs : List String
  pub failure_class_or_null : Option String
  pub violated_rule_refs : List String
  pub reasons : List String
  pub gate_disposition_or_null : Option Gate
  pub supervisory_disposition_or_null : Option Control
  pub terminal_attempt : Bool
  pub scope_ref : Option String
  pub policy_ref : Option String
  pub attempts_created_before : Option ℕ
  pub attempts_created_after : Option ℕ
  pub max_attempts : Option Scalar
  pub circuit_state : String
  pub current_state_check_refs : List String
  pub authority_check_refs : List String
  pub approval_ref : Option String
  pub envelope_ref : Option String
  pub no_effect_check_refs : List String
  pub admission_seen : Option Bool
  pub dispatch_or_effect_posture : String
  pub scheduled_attempt_id_or_null : Option String
  pub escalation_kind_or_null : Option String

unfoldable pub ControlPayload-discrete : Discrete ControlPayload
unfolding ℕ_discrete Control-discrete Gate-discrete Scalar-discrete String-discrete
ControlPayload-discrete =
    hlevel (ℕ_discrete, Control-discrete, Gate-discrete, Scalar-discrete, String-discrete)
