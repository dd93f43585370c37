-- ===== src/Runtime/Starting.antt =====
-- src/gsrr_slice01/runtime.py: the construction of a runtime is made of the parts too.
use gsrr_agent_harness.Prelude.{String, Option, none, some, List, [], ◌∷◌}
use gsrr_agent_harness.Exec.Keeps.{Keeps, Keeps-bind, keeps_rules}
use gsrr_agent_harness.Shared.{Shared, in_journal, in_journal-own}
use gsrr_agent_harness.Contracts.Domain.{Definition, AuthorityEvidence, RetryPolicy}
use gsrr_agent_harness.Journal.Sharing.{sharing_rules, JournaledIn}
use gsrr_agent_harness.Retry.Defs.{retain_policy, Supervisor}
use gsrr_agent_harness.Retry.Frame.{owned}
use gsrr_agent_harness.Retry.Lined.{lined_policy}
use gsrr_agent_harness.Fixture.Defs.{FixtureFaults}
use gsrr_agent_harness.Governance.Building.{descriptor}
use gsrr_agent_harness.Governance.Journaled.{descriptor-Journaled}
use gsrr_agent_harness.Runtime.Defs.{Runtime, in_supervisor}
use gsrr_agent_harness.Runtime.Start.{retain_grant, retain_supplied, init, bare_runtime}
use gsrr_agent_harness.Runtime.Seams.{grant_retained}
use gsrr_agent_harness.Runtime.Stable.{Steady}
use gsrr_agent_harness.Runtime.Parts.{steady_rules, retain-Steady}

retain_policy-owned :
    (P : Supervisor → Type 0) (p : Option RetryPolicy) → Keeps (owned P) (retain_policy p)
unfolding retain_policy
retain_policy-owned P none = search keeps_rules
retain_policy-owned P (some p) = search (keeps_rules, in_journal-own P)

retain_policy-JournaledIn : (p : Option RetryPolicy) → JournaledIn (retain_policy p)
unfolding retain_policy
retain_policy-JournaledIn none q b = search keeps_rules
retain_policy-JournaledIn (some p) q b = search sharing_rules

retain_policy-Steady : (p : Option RetryPolicy) → Steady (in_supervisor (retain_policy p))
retain_policy-Steady p o k = k.core.at_supervisor _ (record {
  owned = record {
    scope = retain_policy-owned _ p;
    begun = retain_policy-owned _ p;
    journal = retain_policy-JournaledIn p;
  };
  line = lined_policy p;
})

retain_supplied-Steady : (refs : List String) → Steady (retain_supplied refs)
unfolding retain_supplied
retain_supplied-Steady [] o k = search keeps_rules
retain_supplied-Steady (ref ∷ rest) o k =
    Keeps-bind _ _ (retain-Steady ref _ tt o k) λ _. retain_supplied-Steady rest o k

descriptor-Steady : (d : Definition) → Steady (in_journal (descriptor d))
descriptor-Steady d o k = k.core.at_journal _ (descriptor-Journaled d)

retain_grant-Steady : Steady retain_grant
retain_grant-Steady o k = grant_retained o k.core

pub init-Steady : Steady init
unfolding init
init-Steady o k =
    search
      (
        steady_rules, retain_grant-Steady, retain_supplied-Steady, descriptor-Steady,
        retain_policy-Steady,
      )
      depth 18

-- A runtime that has been constructed.
unfoldable pub new_runtime :
    String
    → Option Definition
    → Option AuthorityEvidence
    → Option RetryPolicy
    → FixtureFaults
    → Shared Runtime
new_runtime run_id definition grant policy faults =
    (init (bare_runtime run_id definition grant policy faults)).1
