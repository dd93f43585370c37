-- ===== src/Runtime/Scheduling.antt =====
-- src/gsrr_slice01/runtime.py: only `prepare` and a retry make an attempt, and the schedule stays sound.
use gsrr_agent_harness.Prelude.{ℕ, String, ◌≡◌, refl, ◌∙◌, Option, List, length, arith}
use gsrr_agent_harness.Exec.{Result, Exec, modify}
use gsrr_agent_harness.Exec.Keeps.{Order, preserving, both, Keeps}
use gsrr_agent_harness.Exec.Triple.{Ends, Triple}
use gsrr_agent_harness.Shared.{Shared, in_journal, own_modify, journal_order}
use gsrr_agent_harness.Contracts.Domain.{Definition, AuthorityEvidence, RetryPolicy}
use gsrr_agent_harness.Journal.Basic.{target_of}
use gsrr_agent_harness.Journal.History.{history, publish-history}
use gsrr_agent_harness.Journal.Publish.{publish}
use gsrr_agent_harness.Retry.Defs.{Supervisor}
use gsrr_agent_harness.Retry.Lifecycle.{set_ledger}
use gsrr_agent_harness.Retry.Lined.{lined, lined_self, lined_modify, lined_remember}
use gsrr_agent_harness.Retry.Opening.{start-Keeps}
use gsrr_agent_harness.Retry.Succession.{Sound, Sound-le, Due, Due-le}
use gsrr_agent_harness.Retry.Decided.{successor-Keeps}
use gsrr_agent_harness.Fixture.Defs.{FixtureFaults}
use gsrr_agent_harness.Runtime.Defs.{
  Runtime, in_supervisor, in_provider, in_planner, in_capability, set_run,
}
use gsrr_agent_harness.Runtime.Stable.{Core, Stable, Pivotal}
use gsrr_agent_harness.Runtime.Pivots.{made-Pivotal, coarse-Stable, both-Stable}
use gsrr_agent_harness.Runtime.Seams.{inject_kind-Keeps, inject-Keeps}
use gsrr_agent_harness.Runtime.Invariants.{inject_admission-Keeps}
use gsrr_agent_harness.Runtime.Always.{history-Stable, always}
use gsrr_agent_harness.Runtime.Starting.{new_runtime}
use gsrr_agent_harness.Runtime.Calls.{Method, calls}

-- The supervisor beside the journal.
abbrev pub supervisor_of : Shared Runtime → Shared Supervisor
supervisor_of s = record { journal = s.journal; own = s.own.supervisor }

abbrev runtime_lined : Order (Shared Runtime)
runtime_lined = record {
  le = λ s t. lined.le (supervisor_of s) (supervisor_of t);
  le_refl = λ s. lined_self s.own.supervisor;
  le_trans = λ s t u. lined.le_trans (supervisor_of s) (supervisor_of t) (supervisor_of u);
}

lined-Core : Core runtime_lined
unfolding set_run own_modify modify in_journal in_supervisor in_provider in_planner in_capability
lined-Core = record {
  at_run = λ f same. record { at = λ s. lined_self s.own.supervisor };
  at_journal = λ m k. record { at = λ s. lined_self s.own.supervisor };
  at_supervisor = λ m k. record { at = λ s. k.line.at (supervisor_of s) };
  at_provider = λ m k. record { at = λ s. lined_self s.own.supervisor };
  at_planner = λ m k. record { at = λ s. lined_self s.own.supervisor };
  at_capability = λ m. record { at = λ s. lined_self s.own.supervisor };
}

lined-Stable : Stable runtime_lined
unfolding in_provider in_supervisor
lined-Stable = record {
  core = lined-Core;
  at_inject = inject-Keeps runtime_lined lined-Core λ kind.
      inject_kind-Keeps runtime_lined lined-Core kind
        (record { at = λ s. lined_self s.own.supervisor })
        (inject_admission-Keeps runtime_lined kind
          (λ l. record {
            at = λ s.
                (lined_modify (set_ledger l) (λ o. refl) (λ o. refl) (λ o. refl)).at
                  (supervisor_of s);
          })
          (record { at = λ s. lined_remember.at (supervisor_of s) }));
}

abbrev advance : Order (Shared Runtime)
advance = both runtime_lined (journal_order history)

advance-Stable : Stable advance
advance-Stable = both-Stable runtime_lined (journal_order history) lined-Stable history-Stable

-- What is said of the supervisor beside the journal.
abbrev pub supervising : (Shared Supervisor → Type 0) → Order (Shared Runtime)
supervising P = preserving (λ s. P (supervisor_of s))

in_supervisor-supervising :
    {A : Type 0} (P : Shared Supervisor → Type 0) (m : Exec (Shared Supervisor) A)
    → Keeps (preserving P) m
    → Keeps (supervising P) (in_supervisor m)
unfolding in_supervisor
in_supervisor-supervising P m k = record { at = λ s. k.at (supervisor_of s) }

pub in_supervisor-Triple :
    {A : Type 0} (P E : Shared Supervisor → Type 0) (Q : A → Shared Supervisor → Type 0)
    (m : Exec (Shared Supervisor) A)
    → Triple P m Q E
    → Triple
        (λ s. P (supervisor_of s))
        (in_supervisor m)
        (λ a s. Q a (supervisor_of s))
        (λ s. E (supervisor_of s))
unfolding in_supervisor
in_supervisor-Triple {A} P E Q m k = record {
  at = λ s h. ends (m (supervisor_of s)) s (k.at (supervisor_of s) h);
}
  where
    ends :
        (r : Result A × Shared Supervisor) (s : Shared Runtime)
        → Ends Q E r
        → Ends
            (λ a (t : Shared Runtime). Q a (supervisor_of t))
            (λ t. E (supervisor_of t))
            (r.0, record { journal = r.1.journal; own = record s.own { supervisor = r.1.own } })
    ends (Result.ok a, t) s h = h
    ends (Result.err x, t) s h = h

module _ (p : Option RetryPolicy) where
  sounder :
      (s t : Shared Runtime)
      → advance.le s t
      → Sound p (supervisor_of s)
      → Sound p (supervisor_of t)
  sounder s t le = Sound-le p (supervisor_of s) (supervisor_of t) le

  pub Sound-Stable : Stable (supervising (Sound p))
  Sound-Stable = coarse-Stable advance (supervising (Sound p)) advance-Stable sounder

  pub Due-Stable : (n k : ℕ) → Stable (supervising (Due p n k))
  Due-Stable n k =
      coarse-Stable advance (supervising (Due p n k)) advance-Stable
        λ s t le. Due-le p n k (supervisor_of s) (supervisor_of t) le

  -- With a number of attempts.
  abbrev pub Counted : ℕ → Shared Supervisor → Type 0
  Counted k s = Sound p s × (length s.own.attempts ≡ k)

  pub Counted-Stable : (k : ℕ) → Stable (supervising (Counted k))
  Counted-Stable k =
      coarse-Stable advance (supervising (Counted k)) advance-Stable
        λ s t le h. (sounder s t le h.0, le.0.count ∙ h.1)

  pub Sound-Pivotal : Pivotal (supervising (Sound p))
  unfolding set_run own_modify modify in_journal
  Sound-Pivotal =
      made-Pivotal (supervising (Sound p)) Sound-Stable (λ f. record { at = λ s h. h })
        (λ d e. record {
          at = λ s h.
              Sound-le p (supervisor_of s)
                (record {
                  journal = (publish d e (target_of d) s.journal).1;
                  own = s.own.supervisor;
                })
                (lined_self s.own.supervisor, (publish-history d e (target_of d)).at s.journal) h;
        })
        (in_supervisor-supervising (Sound p) _ (start-Keeps p))
        (λ prior mode fresh checks failing.
          in_supervisor-supervising (Sound p) _ (successor-Keeps p prior mode fresh checks failing))

-- Whatever is called on a new runtime.
pub runtime-Sound :
    (run_id : String) (definition : Option Definition) (grant : Option AuthorityEvidence)
    (policy : Option RetryPolicy) (faults : FixtureFaults) (ms : List Method)
    → Sound policy (supervisor_of (calls ms (new_runtime run_id definition grant policy faults)))
runtime-Sound run_id definition grant policy faults ms =
    always (supervising (Sound policy)) (Sound-Stable policy) (Sound-Pivotal policy) run_id
      definition grant policy faults ms (record { keys = tt; serials = omega arith }, refl)
