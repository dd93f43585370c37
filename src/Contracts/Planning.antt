-- ===== src/Contracts/Planning.antt =====
-- src/gsrr_slice01/contracts.py: the artifacts from the intent to the approved transition.
use gsrr_agent_harness.Prelude.{ℕ, ℕ_discrete, String, String-discrete, Bool, Option, List}
use gsrr_agent_harness.Contracts.Enums.{Gate, Gate-discrete}
use gsrr_agent_harness.Contracts.Values.{Check, Check-discrete, Artifact, Artifact-discrete}

pub record StructuredIntent : Type 0 where
  pub artifact : Artifact
  pub open artifact use *
  pub intent_id : String
  pub actor_id : String
  pub object_type : String
  pub object_id : String
  pub objective : String
  pub requested_target_state : String
  pub unresolved_fields : List String
  pub sufficiency_policy_ref : String

unfoldable pub StructuredIntent-discrete : Discrete StructuredIntent
unfolding Artifact-discrete String-discrete
StructuredIntent-discrete = hlevel (Artifact-discrete, String-discrete)

pub record AuthoritativeStateSnapshot : Type 0 where
  pub artifact : Artifact
  pub open artifact use *
  pub snapshot_id : String
  pub provider_id : String
  pub object_id : String
  pub state : String
  pub authority_version : ℕ
  pub observed_baseline_ref : String
  pub exists : Bool
  pub content_digest : String
  pub definition_ref : String
  pub read_sequence : ℕ

unfoldable pub AuthoritativeStateSnapshot-discrete : Discrete AuthoritativeStateSnapshot
unfolding ℕ_discrete Artifact-discrete String-discrete
AuthoritativeStateSnapshot-discrete = hlevel (ℕ_discrete, Artifact-discrete, String-discrete)

pub record CandidateTransition : Type 0 where
  pub artifact : Artifact
  pub open artifact use *
  pub transition_id : String
  pub intent_id : String
  pub snapshot_id : String
  pub object_id : String
  pub source_state : String
  pub source_authority_version : ℕ
  pub source_observation_version : ℕ
  pub target_state : String
  pub definition_ref : String
  pub rationale : String
  pub unresolved_fields : List String

unfoldable pub CandidateTransition-discrete : Discrete CandidateTransition
unfolding ℕ_discrete Artifact-discrete String-discrete
CandidateTransition-discrete = hlevel (ℕ_discrete, Artifact-discrete, String-discrete)

pub record CandidateSelection : Type 0 where
  pub artifact : Artifact
  pub open artifact use *
  pub selection_id : String
  pub considered_transition_ids : List String
  pub selected_transition_id_or_null : Option String
  pub selection_policy_ref : String
  pub environment_ref : String
  pub selection_eligible : Option Bool
  pub disposition : String
  pub reasons : List String
  pub unresolved_fields : List String
  pub sufficiency_policy_ref : String

unfoldable pub CandidateSelection-discrete : Discrete CandidateSelection
unfolding Artifact-discrete String-discrete
CandidateSelection-discrete = hlevel (Artifact-discrete, String-discrete)

pub record TransitionValidationResult : Type 0 where
  pub artifact : Artifact
  pub open artifact use *
  pub validation_id : String
  pub transition_id : String
  pub snapshot_id : String
  pub definition_ref : String
  pub checked_authority_version : ℕ
  pub checked_observation_version : ℕ
  pub check_results : List Check
  pub disposition : Gate
  pub reasons : List String

unfoldable pub TransitionValidationResult-discrete : Discrete TransitionValidationResult
unfolding ℕ_discrete Artifact-discrete Check-discrete Gate-discrete String-discrete
TransitionValidationResult-discrete =
    hlevel (ℕ_discrete, Artifact-discrete, Check-discrete, Gate-discrete, String-discrete)

pub record ApprovedTransition : Type 0 where
  pub artifact : Artifact
  pub open artifact use *
  pub approval_id : String
  pub transition_id : String
  pub validation_id : String
  pub object_id : String
  pub source_authority_version : ℕ
  pub source_observation_version : ℕ
  pub target_state : String
  pub actor_id : String
  pub authority_evidence_refs : List String
  pub definition_ref : String
  pub authority_check_results : List Check
  pub disposition : Gate

unfoldable pub ApprovedTransition-discrete : Discrete ApprovedTransition
unfolding ℕ_discrete Artifact-discrete Check-discrete Gate-discrete String-discrete
ApprovedTransition-discrete =
    hlevel (ℕ_discrete, Artifact-discrete, Check-discrete, Gate-discrete, String-discrete)
