-- ===== src/Runtime/Frames.antt =====
-- src/gsrr_slice01/runtime.py: what is said of one of the objects that the runtime holds outlasts the
-- calls of the others.
use gsrr_agent_harness.Exec.{Exec, modify}
use gsrr_agent_harness.Exec.Keeps.{Order, preserving, Keeps}
use gsrr_agent_harness.Shared.{Shared, in_journal, own_modify, journal_order}
use gsrr_agent_harness.Journal.Defs.{Journal}
use gsrr_agent_harness.Retry.Defs.{Supervisor}
use gsrr_agent_harness.Retry.Frame.{owned}
use gsrr_agent_harness.Fixture.Defs.{Provider}
use gsrr_agent_harness.Fixture.Capability.{Capability}
use gsrr_agent_harness.Governance.Building.{ExplicitPlanner}
use gsrr_agent_harness.Runtime.Defs.{
  Run, Runtime, in_supervisor, in_provider, in_planner, in_capability, set_run,
}

abbrev pub supervised : (Supervisor → Type 0) → Order (Shared Runtime)
supervised P = preserving (λ s. P s.own.supervisor)

abbrev pub provided : (Provider → Type 0) → Order (Shared Runtime)
provided P = preserving (λ s. P s.own.provider)

module _ (P : Supervisor → Type 0) where
  pub set_run-supervised : (f : Run → Run) → Keeps (supervised P) (set_run f)
  unfolding set_run own_modify modify
  set_run-supervised f = record { at = λ s h. h }

module _ (P : Provider → Type 0) where
  pub set_run-provided : (f : Run → Run) → Keeps (provided P) (set_run f)
  unfolding set_run own_modify modify
  set_run-provided f = record { at = λ s h. h }

pub set_run-journal : (q : Order Journal) (f : Run → Run) → Keeps (journal_order q) (set_run f)
unfolding set_run own_modify modify
set_run-journal q f = record { at = λ s. q.le_refl s.journal }

module _ {A : Type 0} (P : Supervisor → Type 0) where
  pub in_supervisor-supervised :
      (m : Exec (Shared Supervisor) A) → Keeps (owned P) m → Keeps (supervised P) (in_supervisor m)
  unfolding in_supervisor
  in_supervisor-supervised m k = record {
    at = λ s. k.at (record { journal = s.journal; own = s.own.supervisor });
  }

  pub in_journal-supervised : (m : Exec Journal A) → Keeps (supervised P) (in_journal m)
  unfolding in_journal
  in_journal-supervised m = record { at = λ s h. h }

  pub in_provider-supervised : (m : Exec (Shared Provider) A) → Keeps (supervised P) (in_provider m)
  unfolding in_provider
  in_provider-supervised m = record { at = λ s h. h }

  pub in_planner-supervised :
      (m : Exec (Shared ExplicitPlanner) A) → Keeps (supervised P) (in_planner m)
  unfolding in_planner
  in_planner-supervised m = record { at = λ s h. h }

  pub in_capability-supervised : (m : Exec Capability A) → Keeps (supervised P) (in_capability m)
  unfolding in_capability
  in_capability-supervised m = record { at = λ s h. h }

module _ {A : Type 0} (P : Provider → Type 0) where
  pub in_provider-provided :
      (m : Exec (Shared Provider) A)
      → Keeps (preserving (λ s. P s.own)) m
      → Keeps (provided P) (in_provider m)
  unfolding in_provider
  in_provider-provided m k = record {
    at = λ s. k.at (record { journal = s.journal; own = s.own.provider });
  }

  pub in_journal-provided : (m : Exec Journal A) → Keeps (provided P) (in_journal m)
  unfolding in_journal
  in_journal-provided m = record { at = λ s h. h }

  pub in_supervisor-provided :
      (m : Exec (Shared Supervisor) A) → Keeps (provided P) (in_supervisor m)
  unfolding in_supervisor
  in_supervisor-provided m = record { at = λ s h. h }

  pub in_planner-provided :
      (m : Exec (Shared ExplicitPlanner) A) → Keeps (provided P) (in_planner m)
  unfolding in_planner
  in_planner-provided m = record { at = λ s h. h }

  pub in_capability-provided : (m : Exec Capability A) → Keeps (provided P) (in_capability m)
  unfolding in_capability
  in_capability-provided m = record { at = λ s h. h }

module _ {A : Type 0} (q : Order Journal) where
  pub in_supervisor-journal :
      (m : Exec (Shared Supervisor) A)
      → Keeps (journal_order q) m
      → Keeps (journal_order q) (in_supervisor m)
  unfolding in_supervisor
  in_supervisor-journal m k = record {
    at = λ s. k.at (record { journal = s.journal; own = s.own.supervisor });
  }

  pub in_provider-journal :
      (m : Exec (Shared Provider) A)
      → Keeps (journal_order q) m
      → Keeps (journal_order q) (in_provider m)
  unfolding in_provider
  in_provider-journal m k = record {
    at = λ s. k.at (record { journal = s.journal; own = s.own.provider });
  }

  pub in_planner-journal :
      (m : Exec (Shared ExplicitPlanner) A)
      → Keeps (journal_order q) m
      → Keeps (journal_order q) (in_planner m)
  unfolding in_planner
  in_planner-journal m k = record {
    at = λ s. k.at (record { journal = s.journal; own = s.own.planner });
  }

  pub in_capability-journal : (m : Exec Capability A) → Keeps (journal_order q) (in_capability m)
  unfolding in_capability
  in_capability-journal m = record { at = λ s. q.le_refl s.journal }
