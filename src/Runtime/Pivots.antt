-- ===== src/Runtime/Pivots.antt =====
-- src/gsrr_slice01/runtime.py: an order that every assignment, every publication and every method of the
-- supervisor keep is kept by the methods that a runtime turns on; and one that is coarser than another.
use gsrr_agent_harness.Prelude.{String, Bool, Option, List}
use gsrr_agent_harness.Exec.{Exec}
use gsrr_agent_harness.Exec.Keeps.{Order, Keeps, both, Keeps-both, Keeps-coarse}
use gsrr_agent_harness.Shared.{Shared, in_journal}
use gsrr_agent_harness.Contracts.Enums.{Mode, Control}
use gsrr_agent_harness.Contracts.Attempts.{Attempt}
use gsrr_agent_harness.Contracts.Results.{ProjectionDecision, RuntimeEvent}
use gsrr_agent_harness.Journal.Basic.{target_of}
use gsrr_agent_harness.Journal.Publish.{publish}
use gsrr_agent_harness.Retry.Defs.{Supervisor}
use gsrr_agent_harness.Retry.Lifecycle.{start}
use gsrr_agent_harness.Retry.Successor.{successor}
use gsrr_agent_harness.Runtime.Defs.{Run, Runtime, in_supervisor, set_run}
use gsrr_agent_harness.Runtime.Stable.{Owned, Stable, Pivotal}
use gsrr_agent_harness.Runtime.Parts.{start-Owned, successor-Owned}
use gsrr_agent_harness.Runtime.Preparing.{propose_transition-Keeps, prepare-Keeps}
use gsrr_agent_harness.Runtime.Publishing.{project_into-Keeps, project-Keeps}

pub made-Pivotal :
    (o : Order (Shared Runtime))
    → Stable o
    → ((f : Run → Run) → Keeps o (set_run f))
    → ((d : ProjectionDecision) (e : Option RuntimeEvent)
        → Keeps o (in_journal (publish d e (target_of d))))
    → Keeps o (in_supervisor start)
    → ((prior : String) (mode : Mode) (fresh : Control) (checks : List String) (failing : Bool)
        → Keeps o (in_supervisor (successor prior mode fresh checks failing)))
    → Pivotal o
made-Pivotal o k assign publishes at_start at_successor = record {
  at_prepare = prepare-Keeps o k (propose_transition-Keeps o k assign) at_start;
  at_project = project-Keeps o k (project_into-Keeps o k publishes);
  at_successor = at_successor;
}

-- Where every sound method of the supervisor keeps the order.
pub loose-Pivotal :
    (o : Order (Shared Runtime))
    → Stable o
    → ((f : Run → Run) → Keeps o (set_run f))
    → ((d : ProjectionDecision) (e : Option RuntimeEvent)
        → Keeps o (in_journal (publish d e (target_of d))))
    → ((A : Type 0) (m : Exec (Shared Supervisor) A) → Owned m → Keeps o (in_supervisor m))
    → Pivotal o
loose-Pivotal o k assign publishes at_owned =
    made-Pivotal o k assign publishes (at_owned Attempt start start-Owned)
      (λ prior mode fresh checks failing.
        at_owned (Option Attempt) _ (successor-Owned prior mode fresh checks failing))

-- What keeps an order keeps a coarser one.
pub coarse-Stable :
    (o q : Order (Shared Runtime))
    → Stable o
    → ((s t : Shared Runtime) → o.le s t → q.le s t)
    → Stable q
coarse-Stable o q k le = record {
  core = record {
    at_run = λ f same. Keeps-coarse q le _ (k.core.at_run f same);
    at_journal = λ m j. Keeps-coarse q le _ (k.core.at_journal m j);
    at_supervisor = λ m j. Keeps-coarse q le _ (k.core.at_supervisor m j);
    at_provider = λ m j. Keeps-coarse q le _ (k.core.at_provider m j);
    at_planner = λ m j. Keeps-coarse q le _ (k.core.at_planner m j);
    at_capability = λ m. Keeps-coarse q le _ (k.core.at_capability m);
  };
  at_inject = λ seam. Keeps-coarse q le _ (k.at_inject seam);
}

pub both-Stable : (o q : Order (Shared Runtime)) → Stable o → Stable q → Stable (both o q)
both-Stable o q k l = record {
  core = record {
    at_run = λ f same. Keeps-both _ (k.core.at_run f same) (l.core.at_run f same);
    at_journal = λ m j. Keeps-both _ (k.core.at_journal m j) (l.core.at_journal m j);
    at_supervisor = λ m j. Keeps-both _ (k.core.at_supervisor m j) (l.core.at_supervisor m j);
    at_provider = λ m j. Keeps-both _ (k.core.at_provider m j) (l.core.at_provider m j);
    at_planner = λ m j. Keeps-both _ (k.core.at_planner m j) (l.core.at_planner m j);
    at_capability = λ m. Keeps-both _ (k.core.at_capability m) (l.core.at_capability m);
  };
  at_inject = λ seam. Keeps-both _ (k.at_inject seam) (l.at_inject seam);
}
