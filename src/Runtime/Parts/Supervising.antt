-- ===== src/Runtime/Parts/Supervising.antt =====
-- src/gsrr_slice01/runtime.py: the runtime's calls of the supervisor.
use gsrr_agent_harness.Prelude.{String, refl, Bool, List}
use gsrr_agent_harness.Exec.Triple.{Keeps-triple}
use gsrr_agent_harness.Shared.{own_modify, own_modify-own}
use gsrr_agent_harness.Contracts.Enums.{Mode, Control}
use gsrr_agent_harness.Contracts.Planning.{ApprovedTransition}
use gsrr_agent_harness.Contracts.Plans.{ExecutionEnvelope}
use gsrr_agent_harness.Journal.Sharing.{own_modify-JournaledIn}
use gsrr_agent_harness.Retry.Lifecycle.{start, bind, fail, admission}
use gsrr_agent_harness.Retry.Successor.{successor}
use gsrr_agent_harness.Retry.Invariant.{IsScope}
use gsrr_agent_harness.Retry.Starting.{start-Triple, bind-Triple}
use gsrr_agent_harness.Retry.Failing.{fail-Triple, admission-Triple}
use gsrr_agent_harness.Retry.Allocation.{successor-Triple}
use gsrr_agent_harness.Retry.Begun.{
  begun_start, begun_bind, begun_fail, begun_admission, begun_modify,
}
use gsrr_agent_harness.Retry.Renewed.{begun_successor}
use gsrr_agent_harness.Retry.Lined.{lined_bind, lined_fail, lined_admission, lined_modify}
use gsrr_agent_harness.Retry.Journaled.{
  start-JournaledIn, bind-JournaledIn, fail-JournaledIn, admission-JournaledIn,
  successor-JournaledIn,
}
use gsrr_agent_harness.Runtime.Defs.{in_supervisor}
use gsrr_agent_harness.Runtime.Inject.{set_posture}
use gsrr_agent_harness.Runtime.Stable.{Owned, Supervised, Steady}

pub start-Owned : Owned start
start-Owned = record {
  scope = Keeps-triple start start-Triple;
  begun = begun_start;
  journal = start-JournaledIn;
}

pub bind-Steady :
    (a : ApprovedTransition) (e : ExecutionEnvelope) → Steady (in_supervisor (bind a e))
bind-Steady a e o k = k.core.at_supervisor (bind a e) (record {
  owned = record {
    scope = Keeps-triple (bind a e) (bind-Triple a e);
    begun = begun_bind a e;
    journal = bind-JournaledIn a e;
  };
  line = lined_bind a e;
})

pub fail-Steady :
    (control : Control) (why : String) (refs : List String) (kept : Bool)
    → Steady (in_supervisor (fail control why refs kept))
fail-Steady control why refs kept o k = k.core.at_supervisor (fail control why refs kept) (record {
  owned = record {
    scope = Keeps-triple (fail control why refs kept) (fail-Triple control why refs kept);
    begun = begun_fail control why refs kept;
    journal = fail-JournaledIn control why refs kept;
  };
  line = lined_fail control why refs kept;
})

pub admission-Steady : Steady (in_supervisor admission)
admission-Steady o k = k.core.at_supervisor admission (record {
  owned = record {
    scope = Keeps-triple admission admission-Triple;
    begun = begun_admission;
    journal = admission-JournaledIn;
  };
  line = lined_admission;
})

pub successor-Owned :
    (prior : String) (mode : Mode) (fresh : Control) (checks : List String) (failing : Bool)
    → Owned (successor prior mode fresh checks failing)
successor-Owned prior mode fresh checks failing = record {
  scope =
      Keeps-triple (successor prior mode fresh checks failing)
        (successor-Triple prior mode fresh checks failing);
  begun = begun_successor prior mode fresh checks failing;
  journal = successor-JournaledIn prior mode fresh checks failing;
}

pub set_posture-Supervised : (posture : String) → Supervised (own_modify (set_posture posture))
set_posture-Supervised posture = record {
  owned = record {
    scope =
        own_modify-own IsScope (set_posture posture)
          (λ s h. record { chain = h.chain; counts = h.counts; bounded = h.bounded });
    begun = begun_modify (set_posture posture) (λ s. refl);
    journal = own_modify-JournaledIn (set_posture posture);
  };
  line = lined_modify (set_posture posture) (λ s. refl) (λ s. refl) (λ s. refl);
}

pub set_posture-Steady :
    (posture : String) → Steady (in_supervisor (own_modify (set_posture posture)))
set_posture-Steady posture o k = k.core.at_supervisor _ (set_posture-Supervised posture)
