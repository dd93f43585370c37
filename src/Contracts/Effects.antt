-- ===== src/Contracts/Effects.antt =====
-- src/gsrr_slice01/contracts.py: the entries of the action log and the observations of the fixture.
use gsrr_agent_harness.Prelude.{ℕ, ℕ_discrete, String, String-discrete, Bool, Option, List}

pub record Action : Type 0 where
  pub sequence : ℕ
  pub invocation_id : String
  pub object_id : String
  pub action_kind : String
  pub requested_value : String
  pub applied : Bool
  pub before_state : String
  pub after_state : String
  pub before_exists : Bool
  pub after_exists : Bool
  pub before_digest : String
  pub after_digest : String
  pub before_version : ℕ
  pub after_version : ℕ
  pub reason : Option String

unfoldable pub Action-discrete : Discrete Action
unfolding ℕ_discrete String-discrete
Action-discrete = hlevel (ℕ_discrete, String-discrete)

pub record ObservedState : Type 0 where
  pub snapshot_id : String
  pub provider_id : String
  pub object_id : String
  pub state : String
  pub exists : Bool
  pub content_digest : String
  pub observation_version : ℕ
  pub predecessor_version : Option ℕ
  pub commit_id : Option String
  pub read_sequence : ℕ
  pub action_log_ref : Option String
  pub interval_start : Option ℕ
  pub interval_end : Option ℕ
  pub interval_closed : Option Bool
  pub complete_for_invocation : Option Bool
  pub fixture_boundary_ref : String
  pub actions : Option (List Action)
  pub conflicting : Bool
  pub conflicting_snapshot_ref : Option String

unfoldable pub ObservedState-discrete : Discrete ObservedState
unfolding ℕ_discrete Action-discrete String-discrete
ObservedState-discrete = hlevel (ℕ_discrete, Action-discrete, String-discrete)
