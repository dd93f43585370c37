-- ===== src/Fixture/Capability.antt =====
-- src/gsrr_slice01/fixture.py: the port that collects requests, and the capability that makes them.
use gsrr_agent_harness.Prelude.{
  ℕ, ◌+◌, not, ◌&&◌, Option, none, some, List, [], ◌∷◌, ◌++◌, if◌then◌else◌,
}
use gsrr_agent_harness.Exec.{Error, Exec, pure, raise, raise_if, modify, ◌>>◌}
use gsrr_agent_harness.Contracts.Enums.{Mode, Report}
use gsrr_agent_harness.Contracts.Domain.{FixedInput}
use gsrr_agent_harness.Retry.Eligibility.{is_explicit}
use gsrr_agent_harness.Fixture.Defs.{ActionRequest, FixtureFaults}

-- The capability's counters beside the port that it is handed.
pub record Capability : Type 0 where
  pub explicit_calls : ℕ
  pub internal_planning_calls : ℕ
  pub requests : List ActionRequest

-- `Capability()` and `RequestPort()`
abbrev pub new_capability : Capability
new_capability = record { explicit_calls = 0; internal_planning_calls = 0; requests = [] }

abbrev pub add_request : ActionRequest → Capability → Capability
add_request action s = record s { requests = s.requests ++ action ∷ [] }

-- `RequestPort.request`
unfoldable pub request : ActionRequest → Exec Capability (Unit {0})
request action = modify (add_request action)

-- `for request in ...: port.request(request)`
unfoldable pub request_all : List ActionRequest → Exec Capability (Unit {0})
request_all [] = pure tt
request_all (action ∷ rest) = do request action; request_all rest

abbrev pub count_explicit : Capability → Capability
count_explicit s = record s { explicit_calls = s.explicit_calls + 1 }

abbrev pub count_planning : Capability → Capability
count_planning s = record s { internal_planning_calls = s.internal_planning_calls + 1 }

-- The request for the state that a fixed input names.
abbrev pub state_request : FixedInput → ActionRequest
state_request fixed = record {
  kind = "STATE";
  value = fixed.target_state;
  object_id = fixed.object_id;
}

abbrev pub derive_procedure : FixedInput → List ActionRequest
derive_procedure responsibility = state_request responsibility ∷ []

unfoldable pub explicit : FixedInput → Exec Capability (Unit {0})
explicit operation = do modify count_explicit; request (state_request operation)

unfoldable pub delegated : FixedInput → Exec Capability (Unit {0})
delegated responsibility = do modify count_planning; request_all (derive_procedure responsibility)

-- The requests of an invocation: the handler's, or those that a fault puts in their place.
unfoldable pub make_requests :
    Mode → FixedInput → Option (List ActionRequest) → Exec Capability (Unit {0})
make_requests Mode.explicit_plan fixed none = explicit fixed
make_requests Mode.delegated_realization fixed none = delegated fixed
make_requests mode fixed (some actions) = request_all actions

unfoldable pub invoke : Mode → FixedInput → FixtureFaults → Exec Capability Report
invoke mode fixed faults =
    if faults.delegated_planning_failure && not (is_explicit mode)
    then (do modify count_planning; raise (Error.value_error "delegated pure planning failed"))
    else (do
      make_requests mode fixed faults.actions
      raise_if faults.provider_raises
          (Error.value_error "fixture provider exception after requested effects")
      pure faults.reported_status)
