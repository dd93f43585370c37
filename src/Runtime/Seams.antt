-- ===== src/Runtime/Seams.antt =====
-- src/gsrr_slice01/runtime.py: `inject` keeps what its parts and the kinds of its injections keep.
use gsrr_agent_harness.Prelude.{String, Option, none, some, List, [], ◌∷◌, All}
use gsrr_agent_harness.Exec.Keeps.{Order, Keeps, Keeps-bind, Keeps-gets, keeps_rules}
use gsrr_agent_harness.Shared.{Shared, in_journal, own_gets, own_modify}
use gsrr_agent_harness.Contracts.Domain.{AuthorityEvidence}
use gsrr_agent_harness.Contracts.Record.{Record}
use gsrr_agent_harness.Journal.Defs.{retain}
use gsrr_agent_harness.Journal.Basic.{IsPlain}
use gsrr_agent_harness.Fixture.Observe.{external_change}
use gsrr_agent_harness.Runtime.Defs.{Run, Runtime, in_provider, in_supervisor, get_run, get_faults}
use gsrr_agent_harness.Runtime.Start.{retain_human_policy, retain_evidence, retain_grant}
use gsrr_agent_harness.Runtime.Inject.{
  inject_grant, inject_admission, inject_kind, inject_entry, inject_all, inject, replaceable,
  inject_envelope, inject_plan_mode, inject_target, set_posture,
}
use gsrr_agent_harness.Runtime.Stable.{Core}
use gsrr_agent_harness.Runtime.Parts.{set_posture-Supervised}

All-all : {A : Type 0} (P : A → Type 0) → ((a : A) → P a) → (xs : List A) → All P xs
All-all P h [] = tt
All-all P h (x ∷ xs) = (h x, All-all P h xs)

module _ (o : Order (Shared Runtime)) (c : Core o) where
  run_read : {A : Type 0} (f : Run → A) → Keeps o (get_run f)
  unfolding get_run own_gets
  run_read f = Keeps-gets _

  replaceable-Keeps : {A : Type 0} (a : Option A) → Keeps o (replaceable a)
  unfolding replaceable
  replaceable-Keeps none = search keeps_rules
  replaceable-Keeps (some a) = search keeps_rules

  retained : (ref : String) (r : Record) → IsPlain r → Keeps o (in_journal (retain ref r))
  retained ref r plain = c.at_journal _ (λ q b. b.at_retain ref r plain)

  policy_retained : (ref : Option String) → Keeps o (retain_human_policy ref)
  unfolding retain_human_policy
  policy_retained none = search keeps_rules
  policy_retained (some ref) = search (keeps_rules, retained) depth 7

  evidence_retained : (g : Option AuthorityEvidence) → Keeps o (retain_evidence g)
  unfolding retain_evidence
  evidence_retained none = search keeps_rules
  evidence_retained (some g) = search (keeps_rules, retained, policy_retained) depth 7

  pub grant_retained : Keeps o retain_grant
  unfolding retain_grant
  grant_retained = search (keeps_rules, run_read, evidence_retained)

  grant_injected : (kind : String) → Keeps o (inject_grant kind)
  unfolding inject_grant
  grant_injected kind = Keeps-bind _ _ (run_read _) λ grant.
      Keeps-bind _ _ (c.at_journal _ (λ q b. b.at_new_id "grant"))
        λ ref. search (keeps_rules, c.at_run, grant_retained) depth 9

  envelope_injected : Keeps o inject_envelope
  unfolding inject_envelope
  envelope_injected = search (keeps_rules, run_read, replaceable-Keeps, c.at_run) depth 10

  plan_injected : Keeps o inject_plan_mode
  unfolding inject_plan_mode
  plan_injected = search (keeps_rules, run_read, replaceable-Keeps, c.at_run) depth 10

  target_injected : Keeps o inject_target
  unfolding inject_target
  target_injected = search (keeps_rules, run_read, replaceable-Keeps, c.at_run) depth 10

  posture_injected : (posture : String) → Keeps o (in_supervisor (own_modify (set_posture posture)))
  posture_injected posture = c.at_supervisor _ (set_posture-Supervised posture)

  pub inject_kind-Keeps :
      (kind : String)
      → Keeps o (in_provider (external_change kind))
      → Keeps o (inject_admission kind)
      → Keeps o (inject_kind kind)
  unfolding inject_kind
  inject_kind-Keeps kind external admission =
      search
        (
          keeps_rules, c.at_run, grant_injected, envelope_injected, plan_injected, target_injected,
          posture_injected,
        )
        depth 30

  entry_injected :
      (seam : String) (entry : String × String)
      → Keeps o (inject_kind entry.1)
      → Keeps o (inject_entry seam entry)
  unfolding inject_entry
  entry_injected seam entry k = search (keeps_rules, run_read, c.at_run) depth 10

  pub inject_all-Keeps :
      (seam : String) (entries : List (String × String))
      → All (λ e. Keeps o (inject_kind e.1)) entries
      → Keeps o (inject_all seam entries)
  unfolding inject_all
  inject_all-Keeps seam [] h = search keeps_rules
  inject_all-Keeps seam (entry ∷ rest) h =
      Keeps-bind _ _ (entry_injected seam entry (h.0)) λ _. inject_all-Keeps seam rest (h.1)

  -- An order that the seams of every kind keep.
  pub inject-Keeps :
      ((kind : String) → Keeps o (inject_kind kind)) → (seam : String) → Keeps o (inject seam)
  unfolding inject get_faults own_gets
  inject-Keeps k seam = Keeps-bind _ _ (Keeps-gets _) λ entries.
      inject_all-Keeps seam entries (All-all (λ e. Keeps o (inject_kind e.1)) (λ e. k e.1) entries)
