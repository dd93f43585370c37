-- ===== src/Contracts/Record.antt =====
-- What the journal keeps under a reference: any immutable value of the program. Python's tuple of
-- objects is one data type with a constructor for each class that a call of `retain` passes.
use gsrr_agent_harness.Prelude.{
  ℕ, ℕ_discrete, String, String-discrete, Bool, Option, List, [], map, decide,
}
use mathlib.Core.Option
use gsrr_agent_harness.Contracts.Values.{number_of, Sequence}
use gsrr_agent_harness.Contracts.Domain.{FixedInput}
use gsrr_agent_harness.Contracts.Domain.{
  Definition, Definition-discrete, AuthorityEvidence, AuthorityEvidence-discrete, RetryPolicy,
  RetryPolicy-discrete, DispatchPayload, DispatchPayload-discrete, Step,
}
use gsrr_agent_harness.Contracts.Attempts.{
  Attempt, Attempt-discrete, ControlPayload, ScopeLedger, ScopeLedger-discrete,
}
use gsrr_agent_harness.Contracts.Plans.{
  CapabilityDescriptor, CapabilityDescriptor-discrete, ExecutionEnvelope,
  ExecutionEnvelope-discrete, ExecutionPlan, ExecutionPlan-discrete, PlanValidationResult,
  PlanValidationResult-discrete, RealizationCommit, RealizationCommit-discrete,
}
use gsrr_agent_harness.Contracts.Planning.{
  StructuredIntent, StructuredIntent-discrete, AuthoritativeStateSnapshot,
  AuthoritativeStateSnapshot-discrete, CandidateTransition, CandidateTransition-discrete,
  CandidateSelection, CandidateSelection-discrete, TransitionValidationResult,
  TransitionValidationResult-discrete, ApprovedTransition, ApprovedTransition-discrete,
}
use gsrr_agent_harness.Contracts.Effects.{
  ObservedState, ObservedState-discrete, Action, Action-discrete,
}
use gsrr_agent_harness.Contracts.Results.{
  ExecutionResult, ExecutionResult-discrete, ReconciliationResult, ReconciliationResult-discrete,
  ProjectionDecision, ProjectionDecision-discrete, RuntimeEvent, RuntimeEvent-discrete,
}
use gsrr_agent_harness.Contracts.Values.{Check, Check-discrete}

-- The facts of `no_effect_check` in src/gsrr_slice01/runtime.py.
pub record EffectFacts : Type 0 where
  pub scope_ref : Option String
  pub scope_ledger_ref : String
  pub admission_seen : Option Bool
  pub commit_refs : List String
  pub dispatch_claims : List String
  pub provider_invocations : ℕ
  pub provider_current_invocation : Option String
  pub provider_actions : List Action
  pub effect_posture : String

unfoldable pub EffectFacts-discrete : Discrete EffectFacts
unfolding ℕ_discrete String-discrete Action-discrete
EffectFacts-discrete = hlevel (ℕ_discrete, String-discrete, Action-discrete)

-- `null` is None. `strings` is any tuple of texts.
pub data Record : Type 0 where
  null : Record
  strings : List String → Record
  definition : Definition → Record
  grant : AuthorityEvidence → Record
  policy : RetryPolicy → Record
  attempt : Attempt → Record
  ledger : ScopeLedger → Record
  descriptor : CapabilityDescriptor → Record
  intent : StructuredIntent → Record
  snapshot : AuthoritativeStateSnapshot → Record
  observed : ObservedState → Record
  transition : CandidateTransition → Record
  selection : CandidateSelection → Record
  validation : TransitionValidationResult → Record
  approval : ApprovedTransition → Record
  envelope : ExecutionEnvelope → Record
  plan : ExecutionPlan → Record
  plan_validation : PlanValidationResult → Record
  commit : RealizationCommit → Record
  payload : DispatchPayload → Record
  execution : ExecutionResult → Record
  reconciliation : ReconciliationResult → Record
  projection : ProjectionDecision → Record
  event : RuntimeEvent → Record
  action : Action → Record
  actions : List Action → Record
  checks : List Check → Record
  facts : EffectFacts → Record

unfoldable pub Record-discrete : Discrete Record
unfolding ℕ_discrete String-discrete Action-discrete ApprovedTransition-discrete Attempt-discrete
    AuthoritativeStateSnapshot-discrete AuthorityEvidence-discrete CandidateSelection-discrete
    CandidateTransition-discrete CapabilityDescriptor-discrete Check-discrete Definition-discrete
    DispatchPayload-discrete EffectFacts-discrete ExecutionEnvelope-discrete ExecutionPlan-discrete
    ExecutionResult-discrete ObservedState-discrete PlanValidationResult-discrete
    ProjectionDecision-discrete RealizationCommit-discrete ReconciliationResult-discrete
    RetryPolicy-discrete RuntimeEvent-discrete ScopeLedger-discrete StructuredIntent-discrete
    TransitionValidationResult-discrete
Record-discrete = hlevel (
  ℕ_discrete, String-discrete, Action-discrete, ApprovedTransition-discrete, Attempt-discrete,
  AuthoritativeStateSnapshot-discrete, AuthorityEvidence-discrete, CandidateSelection-discrete,
  CandidateTransition-discrete, CapabilityDescriptor-discrete, Check-discrete, Definition-discrete,
  DispatchPayload-discrete, EffectFacts-discrete, ExecutionEnvelope-discrete,
  ExecutionPlan-discrete, ExecutionResult-discrete, ObservedState-discrete,
  PlanValidationResult-discrete, ProjectionDecision-discrete, RealizationCommit-discrete,
  ReconciliationResult-discrete, RetryPolicy-discrete, RuntimeEvent-discrete, ScopeLedger-discrete,
  StructuredIntent-discrete, TransitionValidationResult-discrete,
)

abbrev plain_input : FixedInput → FixedInput
plain_input f = record f { expected_observation_version = number_of f.expected_observation_version }

abbrev pub plain_step : Step → Step
plain_step s = record s { fixed_input = plain_input s.fixed_input }

abbrev plain_sequence : Sequence → Sequence
plain_sequence (Sequence.tuple xs) = Sequence.tuple (map number_of xs)
plain_sequence (Sequence.list xs) = Sequence.list (map number_of xs)

abbrev plain_policy : RetryPolicy → RetryPolicy
plain_policy p = record p {
  policy_version = number_of p.policy_version;
  retry_enabled = number_of p.retry_enabled;
  allowed_failure_classes = plain_sequence p.allowed_failure_classes;
  max_attempts = number_of p.max_attempts;
  repeated_failure_threshold_or_null = number_of p.repeated_failure_threshold_or_null;
}

abbrev plain_control : ControlPayload → ControlPayload
plain_control p = record p { max_attempts = Option.map number_of p.max_attempts }

-- A record with every `True` and `False` in a numeric place taken for 1 and 0, and with one empty tuple.
unfoldable pub comparable : Record → Record
comparable (Record.plan p) = Record.plan (record p { steps = map plain_step p.steps })
comparable (Record.payload p) =
    Record.payload
      (record p { expected_observation_version = number_of p.expected_observation_version })
comparable (Record.commit c) = Record.commit (record c {
  dispatch_payload = record c.dispatch_payload {
    expected_observation_version = number_of c.dispatch_payload.expected_observation_version;
  };
})
comparable (Record.grant g) = Record.grant (record g {
  definition_version = number_of g.definition_version;
  source_authority_version = number_of g.source_authority_version;
})
comparable (Record.policy p) = Record.policy (plain_policy p)
comparable (Record.event e) =
    Record.event
      (record e { control_payload_or_null = Option.map plain_control e.control_payload_or_null })
comparable (Record.actions []) = Record.strings []
comparable (Record.checks []) = Record.strings []
comparable r = r

-- Python's `==` between two retained values.
unfoldable pub same_record : Record → Record → Bool
unfolding comparable
same_record a b = decide (Record-discrete (comparable a) (comparable b))
