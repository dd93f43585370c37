-- ===== src/Runtime/Stable.antt =====
-- src/gsrr_slice01/runtime.py: what the runtime's methods are made of, as an interface. An order on the
-- runtime's states that the parts keep is kept by every method (Steps).
use gsrr_agent_harness.Prelude.{String, ◌≡◌, Bool, List}
use gsrr_agent_harness.Exec.{Exec}
use gsrr_agent_harness.Exec.Keeps.{Order, Keeps}
use gsrr_agent_harness.Shared.{Shared, in_journal}
use gsrr_agent_harness.Journal.Defs.{Journal}
use gsrr_agent_harness.Journal.Basic.{Journaled}
use gsrr_agent_harness.Journal.Sharing.{JournaledIn}
use gsrr_agent_harness.Contracts.Enums.{Mode, Control}
use gsrr_agent_harness.Retry.Defs.{Supervisor}
use gsrr_agent_harness.Retry.Begun.{HasAttempt}
use gsrr_agent_harness.Retry.Frame.{owned}
use gsrr_agent_harness.Retry.Lined.{lined}
use gsrr_agent_harness.Retry.Successor.{successor}
use gsrr_agent_harness.Retry.Invariant.{IsScope}
use gsrr_agent_harness.Fixture.Defs.{Provider}
use gsrr_agent_harness.Fixture.Once.{once}
use gsrr_agent_harness.Fixture.Capability.{Capability}
use gsrr_agent_harness.Governance.Building.{ExplicitPlanner}
use gsrr_agent_harness.Runtime.Defs.{
  Request, Run, Runtime, Call, in_supervisor, in_provider, in_planner, in_capability, set_run,
}
use gsrr_agent_harness.Runtime.Inject.{inject}
use gsrr_agent_harness.Runtime.Prepare.{prepare}
use gsrr_agent_harness.Runtime.Project.{project}

-- A supervisor's method: its scope stays sound, no attempt is lost, and the journal changes by basic calls.
pub record Owned {A : Type 0} (m : Exec (Shared Supervisor) A) : Type 1 where
  pub scope : Keeps (owned IsScope) m
  pub begun : Keeps (owned HasAttempt) m
  pub journal : JournaledIn m

-- One that neither makes an attempt nor schedules one.
pub record Supervised {A : Type 0} (m : Exec (Shared Supervisor) A) : Type 1 where
  pub owned : Owned m
  pub line : Keeps lined m

-- A provider's method: its count of invocations stays right, and the journal changes by basic calls.
pub record Provided {A : Type 0} (m : Exec (Shared Provider) A) : Type 1 where
  pub once : Keeps once m
  pub journal : JournaledIn m

-- An order that the other objects' methods keep, and the assignments, but for that of the state before.
pub record Core (o : Order (Shared Runtime)) : Type 1 where
  pub at_run : (f : Run → Run) → ((r : Run) → (f r).before ≡ r.before) → Keeps o (set_run f)
  pub at_journal : {A : Type 0} (m : Exec Journal A) → Journaled m → Keeps o (in_journal m)
  pub at_supervisor :
      {A : Type 0} (m : Exec (Shared Supervisor) A) → Supervised m → Keeps o (in_supervisor m)
  pub at_provider :
      {A : Type 0} (m : Exec (Shared Provider) A) → Provided m → Keeps o (in_provider m)
  pub at_planner :
      {A : Type 0} (m : Exec (Shared ExplicitPlanner) A) → JournaledIn m → Keeps o (in_planner m)
  pub at_capability : {A : Type 0} (m : Exec Capability A) → Keeps o (in_capability m)

-- And the seams, which change the other objects from outside their methods.
pub record Stable (o : Order (Shared Runtime)) : Type 1 where
  pub core : Core o
  pub at_inject : (seam : String) → Keeps o (inject seam)

-- A method that is made of those parts.
abbrev pub Steady : {A : Type 0} → Call A → Type 1
Steady m = (o : Order (Shared Runtime)) → Stable o → Keeps o m

-- The methods that a runtime turns on: the one that reads the state before, the one that publishes, and the
-- one that makes a further attempt.
pub record Pivotal (o : Order (Shared Runtime)) : Type 0 where
  pub at_prepare : (request : Request) → Keeps o (prepare request)
  pub at_project : Keeps o project
  pub at_successor :
      (prior : String) (mode : Mode) (fresh : Control) (checks : List String) (failing : Bool)
      → Keeps o (in_supervisor (successor prior mode fresh checks failing))

-- A method that is made of those parts and of these methods.
abbrev pub Lasting : {A : Type 0} → Call A → Type 1
Lasting m = (o : Order (Shared Runtime)) → Stable o → Pivotal o → Keeps o m

pub prepare-Lasting : (request : Request) → Lasting (prepare request)
prepare-Lasting request o k w = w.at_prepare request

pub project-Lasting : Lasting project
project-Lasting o k w = w.at_project

pub successor-Lasting :
    (prior : String) (mode : Mode) (fresh : Control) (checks : List String) (failing : Bool)
    → Lasting (in_supervisor (successor prior mode fresh checks failing))
successor-Lasting prior mode fresh checks failing o k w =
    w.at_successor prior mode fresh checks failing
