-- ===== src/Fixture/Modes.antt =====
-- src/gsrr_slice01/fixture.py: the two realization modes of `invoke` make the same requests.
use gsrr_agent_harness.Prelude.{◌≡◌, refl, Bool, true, false, inl, inr, Option-cases}
use gsrr_agent_harness.Exec.{Error, Result, pure, raise_if, ◌>>=◌, ◌>>◌}
use gsrr_agent_harness.Contracts.Enums.{Mode, Report}
use gsrr_agent_harness.Contracts.Domain.{FixedInput}
use gsrr_agent_harness.Fixture.Defs.{FixtureFaults}
use gsrr_agent_harness.Fixture.Capability.{
  Capability, request, request_all, explicit, delegated, make_requests, invoke,
}

-- Two capabilities that differ in their counters at most.
abbrev pub SameRequests : {A : Type 0} → Result A × Capability → Result A × Capability → Type 0
SameRequests (r, s) (r', s') = (r ≡ r') × (s.requests ≡ s'.requests)

explicit-delegated :
    (fixed : FixedInput) (raises : Bool) (report : Report) (s : Capability)
    → SameRequests
        ((do
          explicit fixed
          raise_if raises (Error.value_error "fixture provider exception after requested effects")
          pure report)
          s)
        ((do
          delegated fixed
          raise_if raises (Error.value_error "fixture provider exception after requested effects")
          pure report)
          s)
unfolding explicit delegated request_all request ◌>>=◌
explicit-delegated fixed true report s = (refl, refl)
explicit-delegated fixed false report s = (refl, refl)

-- Unless the fault of a failing delegated planning is injected, a delegated invocation ends as the
-- explicit one does from the same state, with the same report or the same exception, and has made the
-- same requests, in the same order.
pub invoke-modes :
    (fixed : FixedInput) (faults : FixtureFaults) (s : Capability)
    → faults.delegated_planning_failure ≡ false
    → SameRequests
        (invoke Mode.explicit_plan fixed faults s)
        (invoke Mode.delegated_realization fixed faults s)
unfolding invoke make_requests
invoke-modes fixed faults s planned = elim (Option-cases faults.actions) [
  | inl own ↦
      rw (planned, own) (explicit-delegated fixed faults.provider_raises faults.reported_status s)
  | inr (actions, other) ↦ rw (planned, other) (refl, refl)
]
