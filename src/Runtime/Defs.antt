-- ===== src/Runtime/Defs.antt =====
-- src/gsrr_slice01/runtime.py: requests, results and the runtime's state.
use gsrr_agent_harness.Prelude.{
  ℕ, ℕ_discrete, String, String-discrete, Option, List, Eq, eq_of_discrete,
}
use gsrr_agent_harness.Exec.{Exec}
use gsrr_agent_harness.Shared.{Shared, own_gets, own_modify}
use gsrr_agent_harness.Contracts.Enums.{Mode, Mode-discrete, Control}
use gsrr_agent_harness.Contracts.Domain.{Definition, AuthorityEvidence, RetryPolicy}
use gsrr_agent_harness.Contracts.Effects.{ObservedState}
use gsrr_agent_harness.Contracts.Planning.{
  StructuredIntent, AuthoritativeStateSnapshot, CandidateTransition, ApprovedTransition,
}
use gsrr_agent_harness.Contracts.Plans.{
  CapabilityDescriptor, ExecutionEnvelope, ExecutionPlan, PlanValidationResult, RealizationCommit,
}
use gsrr_agent_harness.Contracts.Results.{ExecutionResult, ReconciliationResult, ProjectionDecision}
use gsrr_agent_harness.Retry.Defs.{Supervisor}
use gsrr_agent_harness.Fixture.Defs.{FixtureFaults, Provider}
use gsrr_agent_harness.Fixture.Capability.{Capability}
use gsrr_agent_harness.Governance.Building.{ExplicitPlanner}

pub record Request : Type 0 where
  pub request_id : String
  pub actor_id : String
  pub object_id : String
  pub target_state : String
  pub mode : Mode

unfoldable pub Request-discrete : Discrete Request
unfolding String-discrete Mode-discrete
Request-discrete = hlevel (String-discrete, Mode-discrete)

instance abbrev pub request_eq : Eq Request
request_eq = eq_of_discrete Request-discrete

-- `Request()`
abbrev pub default_request : Request
default_request = record {
  request_id = "request-1";
  actor_id = "USER-001";
  object_id = "DOC-001";
  target_state = "REVIEW";
  mode = Mode.explicit_plan;
}

pub record RunResult : Type 0 where
  pub disposition : String
  pub control : Control
  pub commit : Option RealizationCommit
  pub execution : Option ExecutionResult
  pub reconciliation : Option ReconciliationResult
  pub projection : Option ProjectionDecision

-- The tuple that `binding` returns.
pub record Binding : Type 0 where
  pub actor_id : String
  pub intent_id : String
  pub transition_id : String
  pub object_id : String
  pub source_authority_version : ℕ
  pub source_observation_version : ℕ
  pub definition_ref : String
  pub approval_id : String
  pub envelope_id : String
  pub plan_id : String
  pub plan_validation_id : String
  pub capability_id : String
  pub implementation_id : String
  pub realization_mode : Mode

unfoldable pub Binding-discrete : Discrete Binding
unfolding ℕ_discrete String-discrete Mode-discrete
Binding-discrete = hlevel (ℕ_discrete, String-discrete, Mode-discrete)

instance abbrev pub binding_eq : Eq Binding
binding_eq = eq_of_discrete Binding-discrete

pub record RetainedRequest : Type 0 where
  pub request : Request
  pub binding : Binding
  pub result : Option RunResult

-- The attributes that the runtime assigns. An attribute that is not set yet is None.
pub record Run : Type 0 where
  pub definition : Definition
  pub original_definition : Definition
  pub grant : Option AuthorityEvidence
  pub cap_descriptor : Option CapabilityDescriptor
  pub request : Option Request
  pub control : Control
  pub before : Option AuthoritativeStateSnapshot
  pub baseline : Option ObservedState
  pub intent : Option StructuredIntent
  pub transition : Option CandidateTransition
  pub approval : Option ApprovedTransition
  pub envelope : Option ExecutionEnvelope
  pub plan : Option ExecutionPlan
  pub plan_validation : Option PlanValidationResult
  pub commit : Option RealizationCommit
  pub execution : Option ExecutionResult
  pub reconciliation : Option ReconciliationResult
  pub projection : Option ProjectionDecision
  pub observed : Option ObservedState
  pub plans : List ExecutionPlan
  pub validations : List PlanValidationResult
  pub index : List (String × RetainedRequest)
  pub dispatch_claims : List String
  pub injected : List (String × String)
  pub current_read_fault : String

-- The runtime: what it never assigns again, the objects that it holds, and its own attributes.
pub record Runtime : Type 0 where
  pub faults : FixtureFaults
  pub policy : Option RetryPolicy
  pub supervisor : Supervisor
  pub provider : Provider
  pub capability : Capability
  pub planner : ExplicitPlanner
  pub run : Run

abbrev pub Call : Type 0 → Type 0
Call A = Exec (Shared Runtime) A

-- A method of an object that holds the journal too.
unfoldable pub in_supervisor : {A : Type 0} → Exec (Shared Supervisor) A → Call A
in_supervisor m s =
    let (r, t) = m (record { journal = s.journal; own = s.own.supervisor }) in
    (r, record { journal = t.journal; own = record s.own { supervisor = t.own } })

unfoldable pub in_provider : {A : Type 0} → Exec (Shared Provider) A → Call A
in_provider m s =
    let (r, t) = m (record { journal = s.journal; own = s.own.provider }) in
    (r, record { journal = t.journal; own = record s.own { provider = t.own } })

unfoldable pub in_planner : {A : Type 0} → Exec (Shared ExplicitPlanner) A → Call A
in_planner m s =
    let (r, t) = m (record { journal = s.journal; own = s.own.planner }) in
    (r, record { journal = t.journal; own = record s.own { planner = t.own } })

-- A method of the capability, which holds no journal.
unfoldable pub in_capability : {A : Type 0} → Exec Capability A → Call A
in_capability m s =
    let (r, c) = m s.own.capability in (r, record s { own = record s.own { capability = c } })

-- An attribute of the runtime.
unfoldable pub get_run : {A : Type 0} → (Run → A) → Call A
get_run f = own_gets (λ s. f s.run)

abbrev pub with_run : (Run → Run) → Runtime → Runtime
with_run f s = record s { run = f s.run }

-- An assignment to attributes of the runtime.
unfoldable pub set_run : (Run → Run) → Call (Unit {0})
set_run f = own_modify (with_run f)

unfoldable pub get_faults : {A : Type 0} → (FixtureFaults → A) → Call A
get_faults f = own_gets (λ s. f s.faults)

unfoldable pub get_supervisor : {A : Type 0} → (Supervisor → A) → Call A
get_supervisor f = own_gets (λ s. f s.supervisor)
