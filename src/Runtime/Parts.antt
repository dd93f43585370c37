-- ===== src/Runtime/Parts.antt =====
-- src/gsrr_slice01/runtime.py: the reads (Reading), the assignments, and the calls of the other objects'
-- methods (Supervising, Providing) that the runtime's methods are made of.
mod Reading
mod Supervising
mod Providing
pub use Reading.*
pub use Supervising.*
pub use Providing.*
use gsrr_agent_harness.Prelude.{ℕ, String, Option, some}
use gsrr_agent_harness.Exec.{gets, modify, ◌>>=◌}
use gsrr_agent_harness.Exec.Keeps.{Order, Keeps, Keeps-modify, keeps_rules}
use gsrr_agent_harness.Shared.{Shared, in_journal}
use gsrr_agent_harness.Contracts.Effects.{ObservedState}
use gsrr_agent_harness.Contracts.Planning.{AuthoritativeStateSnapshot, CandidateTransition}
use gsrr_agent_harness.Journal.Defs.{Journal}
use gsrr_agent_harness.Retry.Journaled.{need-Keeps}
use gsrr_agent_harness.Runtime.Defs.{Runtime, Call}
use gsrr_agent_harness.Runtime.Prepare.{refer}
use gsrr_agent_harness.Runtime.Admit.{set_commit_ref}
use gsrr_agent_harness.Runtime.Dispatch.{set_observed_version}
use gsrr_agent_harness.Runtime.Stable.{Steady}

pub ruleset steady_rules = (
  keeps_rules, need-Keeps, own_gets-Steady, get_run-Steady, get_faults-Steady,
  get_supervisor-Steady, journal_gets-Steady, in_capability-Steady, set_run-Steady, inject-Steady,
  new_id-Steady, retain-Steady, event-Steady, reserve-Steady, is_retained-Steady, fail-Steady,
  set_posture-Steady,
)

-- The assignments to the journal's attributes for the current run.
pub refer-Steady :
    (t : CandidateTransition) (before : AuthoritativeStateSnapshot) (x : ObservedState)
    → Steady (in_journal (modify (refer t before x)))
refer-Steady t before x o k = k.core.at_journal _ λ q b.
    Keeps-modify {o = q} (refer t before x) λ j.
      b.at_refs (some t.transition_id) j.commit_ref (some before.authority_version)
        (some x.observation_version) j

pub commit_ref-Steady :
    (commit_id : String) → Steady (in_journal (modify (set_commit_ref commit_id)))
commit_ref-Steady c o k = k.core.at_journal _ λ q b.
    Keeps-modify {o = q} (set_commit_ref c)
      λ j. b.at_refs j.transition_ref (some c) j.source_version j.observed_version j

pub observed_version-Steady :
    (version : Option ℕ) → Steady (in_journal (modify (set_observed_version version)))
observed_version-Steady version o k = k.core.at_journal _ λ q b.
    Keeps-modify {o = q} (set_observed_version version)
      λ j. b.at_refs j.transition_ref j.commit_ref j.source_version version j

-- What follows a read of the journal holds of what is read.
pub gets_journal-Keeps :
    {A B : Type 0} (o : Order (Shared Runtime)) (f : Journal → A) (m : A → Call B)
    → ((j : Journal) → Keeps o (m (f j)))
    → Keeps o (in_journal (gets f) >>= m)
unfolding in_journal gets ◌>>=◌
gets_journal-Keeps o f m h = record { at = λ s. (h s.journal).at s }
