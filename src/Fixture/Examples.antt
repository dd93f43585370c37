-- ===== src/Fixture/Examples.antt =====
-- A concrete invocation of the fixture's provider, and the theorem on call sequences.
use gsrr_agent_harness.Prelude.{List, [], ◌∷◌, false, refl}
use gsrr_agent_harness.Contracts.Values.{Scalar}
use gsrr_agent_harness.Contracts.Domain.{FixedInput}
use gsrr_agent_harness.Journal.Defs.{new_journal}
use gsrr_agent_harness.Contracts.Enums.{Mode}
use gsrr_agent_harness.Fixture.Defs.{ActionRequest, new_provider, no_faults}
use gsrr_agent_harness.Fixture.Capability.{state_request, new_capability, invoke}
use gsrr_agent_harness.Fixture.Modes.{SameRequests, invoke-modes}
use gsrr_agent_harness.Fixture.Calls.{Method, calls, calls-IsSingle}
use gsrr_agent_harness.Fixture.Effect.{IsSingle}

abbrev fixed : FixedInput
fixed = record {
  object_id = "DOC-001";
  source_state = "DRAFT";
  target_state = "REVIEW";
  expected_observation_version = Scalar.int 1;
}

abbrev content_write : ActionRequest
content_write = record { kind = "CONTENT_WRITE"; value = "other"; object_id = "DOC-001" }

-- One invocation that asks for a forbidden write, for the transition, and for the transition again.
abbrev invocation : List Method
invocation =
    Method.open_call "run-1:commit:9"
    ∷ Method.apply_call content_write fixed
    ∷ Method.apply_call (state_request fixed) fixed
    ∷ Method.apply_call (state_request fixed) fixed
    ∷ Method.close_call
    ∷ Method.observe_call "" false
    ∷ Method.open_call "run-1:commit:10"
    ∷ []

calls-IsSingle_example :
    IsSingle (calls invocation (record { journal = new_journal "run-1"; own = new_provider })).own
calls-IsSingle_example = calls-IsSingle (new_journal "run-1") invocation

invoke-modes_example :
    SameRequests
      (invoke Mode.explicit_plan fixed no_faults new_capability)
      (invoke Mode.delegated_realization fixed no_faults new_capability)
invoke-modes_example = invoke-modes fixed no_faults new_capability refl
