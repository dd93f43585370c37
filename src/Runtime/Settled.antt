-- ===== src/Runtime/Settled.antt =====
-- src/gsrr_slice01/runtime.py: what everything but `prepare` and `project` leaves as it was: the authority's
-- version, and the state before.
use gsrr_agent_harness.Prelude.{String, ◌≡◌, refl, ◌∙◌, false, List, [], ◌∷◌, ◌==◌, string_eq, All}
use gsrr_agent_harness.Exec.{Exec, modify, gets, ◌>>=◌}
use gsrr_agent_harness.Exec.Keeps.{Order, Keeps, Keeps-if, keeps_rules}
use gsrr_agent_harness.Shared.{
  Shared, in_journal, own_gets, own_modify, own_modify-journal, journal_order,
}
use gsrr_agent_harness.Journal.Versions.{version_of, same_version, version-Basic}
use gsrr_agent_harness.Retry.Defs.{Supervisor}
use gsrr_agent_harness.Retry.Begun.{HasAttempt, begun_remember}
use gsrr_agent_harness.Retry.Journaled.{remember_ledger-JournaledIn}
use gsrr_agent_harness.Fixture.Defs.{Provider}
use gsrr_agent_harness.Fixture.Observe.{external_change}
use gsrr_agent_harness.Runtime.Defs.{
  Runtime, in_supervisor, in_provider, in_planner, in_capability, set_run, get_faults,
}
use gsrr_agent_harness.Runtime.Inject.{inject, inject_kind}
use gsrr_agent_harness.Runtime.Stable.{Owned, Core, Stable}
use gsrr_agent_harness.Runtime.Seams.{inject_kind-Keeps, inject_all-Keeps}
use gsrr_agent_harness.Runtime.Invariants.{inject_admission-Keeps}
use gsrr_agent_harness.Runtime.Replayed.{IsSealed, not_both}

-- Under faults that inject no change of the authority.
pub record IsSettled (s t : Shared Runtime) : Type 0 where
  pub faults : IsSealed t.own.faults
  pub version : version_of t.journal ≡ version_of s.journal
  pub before : t.own.run.before ≡ s.own.run.before
  pub attempts : HasAttempt s.own.supervisor → HasAttempt t.own.supervisor

abbrev pub settled : Order (Shared Runtime)
settled = record {
  le = λ s t. IsSealed s.own.faults → IsSettled s t;
  le_refl = λ s h. record { faults = h; version = refl; before = refl; attempts = λ a. a };
  le_trans = λ s t u f g h.
      let first = f h in
      let second = g first.faults in
      record {
        faults = second.faults;
        version = second.version ∙ first.version;
        before = second.before ∙ first.before;
        attempts = λ a. second.attempts (first.attempts a);
      };
}

pub settled_owned :
    {A : Type 0} (m : Exec (Shared Supervisor) A) → Owned m → Keeps settled (in_supervisor m)
unfolding in_supervisor
settled_owned m k = record {
  at = λ s h. record {
    faults = h;
    version =
        (k.journal same_version version-Basic).at
          (record { journal = s.journal; own = s.own.supervisor });
    before = refl;
    attempts = k.begun.at (record { journal = s.journal; own = s.own.supervisor });
  };
}

settled-Core : Core settled
unfolding set_run own_modify modify in_journal in_supervisor in_provider in_planner in_capability
settled-Core = record {
  at_run = λ f same. record {
    at = λ s h. record { faults = h; version = refl; before = same s.own.run; attempts = λ a. a };
  };
  at_journal = λ m k. record {
    at = λ s h. record {
      faults = h;
      version = (k same_version version-Basic).at s.journal;
      before = refl;
      attempts = λ a. a;
    };
  };
  at_supervisor = λ m k. settled_owned m k.owned;
  at_provider = λ m k. record {
    at = λ s h. record {
      faults = h;
      version =
          (k.journal same_version version-Basic).at
            (record { journal = s.journal; own = s.own.provider });
      before = refl;
      attempts = λ a. a;
    };
  };
  at_planner = λ m k. record {
    at = λ s h. record {
      faults = h;
      version =
          (k same_version version-Basic).at (record { journal = s.journal; own = s.own.planner });
      before = refl;
      attempts = λ a. a;
    };
  };
  at_capability = λ m. record {
    at = λ s h. record { faults = h; version = refl; before = refl; attempts = λ a. a };
  };
}

external_change-version :
    (kind : String)
    → (kind == "authority") ≡ false
    → Keeps (journal_order {S = Provider} same_version) (external_change kind)
unfolding external_change
external_change-version kind other =
    Keeps-if (kind == "authority") _ _ (λ e. absurd (not_both e other))
      (λ _. search (keeps_rules, own_modify-journal same_version) depth 9)

external_settled :
    (kind : String)
    → (kind == "authority") ≡ false
    → Keeps settled (in_provider (external_change kind))
unfolding in_provider
external_settled kind other = record {
  at = λ s h. record {
    faults = h;
    version =
        (external_change-version kind other).at
          (record { journal = s.journal; own = s.own.provider });
    before = refl;
    attempts = λ a. a;
  };
}

kind_settled : (kind : String) → (kind == "authority") ≡ false → Keeps settled (inject_kind kind)
unfolding in_supervisor own_modify modify
kind_settled kind other =
    inject_kind-Keeps settled settled-Core kind (external_settled kind other) (
      inject_admission-Keeps settled kind
        (λ l. record {
          at = λ s h. record { faults = h; version = refl; before = refl; attempts = λ a. a };
        })
        (record {
          at = λ s h. record {
            faults = h;
            version =
                (remember_ledger-JournaledIn same_version version-Basic).at
                  (record { journal = s.journal; own = s.own.supervisor });
            before = refl;
            attempts = begun_remember.at (record { journal = s.journal; own = s.own.supervisor });
          };
        }))

All-settled :
    (entries : List (String × String))
    → All (λ e. (e.1 == "authority") ≡ false) entries
    → All (λ e. Keeps settled (inject_kind e.1)) entries
All-settled [] h = tt
All-settled (e ∷ rest) h = (kind_settled e.1 h.0, All-settled rest h.1)

pub settled-Stable : Stable settled
unfolding inject get_faults own_gets gets ◌>>=◌
settled-Stable = record {
  core = settled-Core;
  at_inject = λ seam. record {
    at = λ s h.
        (inject_all-Keeps settled settled-Core seam s.own.faults.injections
            (All-settled s.own.faults.injections h)).at
          s h;
  };
}
