-- ===== src/Runtime/Fresh.antt =====
-- src/gsrr_slice01/runtime.py: `fresh`, the final and the retry's read; Effects holds `no_effect_check`.
mod Effects
unfoldable pub use Effects.*
use gsrr_agent_harness.Prelude.{
  String, Bool, true, false, not, ◌&&◌, Option, none, some, List, [], ◌∷◌, ◌++◌, ◌==◌, decide,
  string_eq, nat_eq, if◌then◌else◌,
}
use Prim.Native.String.{compare}
use mathlib.Core.Option
use gsrr_agent_harness.Exec.{pure, ◌>>=◌, ◌>>◌}
use gsrr_agent_harness.Shared.{in_journal}
use gsrr_agent_harness.Contracts.Values.{Check}
use gsrr_agent_harness.Contracts.Enums.{Control}
use gsrr_agent_harness.Contracts.Domain.{Definition, Definition-discrete}
use gsrr_agent_harness.Contracts.Effects.{Action, Action-discrete, ObservedState}
use gsrr_agent_harness.Contracts.Planning.{AuthoritativeStateSnapshot}
use gsrr_agent_harness.Contracts.Record.{Record}
use gsrr_agent_harness.Retry.Lifecycle.{need}
use gsrr_agent_harness.Retry.Eligibility.{is_pass, is_true}
use gsrr_agent_harness.Fixture.Observe.{observe, snapshot}
use gsrr_agent_harness.Governance.Checks.{check}
use gsrr_agent_harness.Governance.Grants.{grant_check, same_text}
use gsrr_agent_harness.Governance.Validation.{and_then, is_retained}
use gsrr_agent_harness.Reconciliation.Evidence.{same_bool}
use gsrr_agent_harness.Runtime.Defs.{Run, Call, in_provider, get_run}

-- What `fresh` returns.
pub record Freshness : Type 0 where
  pub control : Control
  pub checks : List Check
  pub observed : Option ObservedState
  pub snapshot : Option AuthoritativeStateSnapshot

unfoldable pub effect_checks_of : Bool → Call (List Check)
effect_checks_of false = pure []
effect_checks_of true = do c ← no_effect_check; pure (c ∷ [])

abbrev pub expected_observation : Bool → Run → Option ObservedState
expected_observation final r = if final then r.observed else r.baseline

abbrev pub same_observation : ObservedState → ObservedState → Bool
same_observation o x =
    o.observation_version == x.observation_version
    && o.state == x.state
    && same_bool o.exists x.exists
    && o.content_digest == x.content_digest

unfoldable pub same_definition : Definition → Definition → Bool
same_definition a b = decide (Definition-discrete a b)

-- The state that was read is the original one, and what was approved is retained as it was.
unfoldable pub same_state : Bool → ObservedState → AuthoritativeStateSnapshot → Run → Call Bool
same_state final o snap r =
    and_then
      (do
        b ← need r.before
        pure (snap.authority_version == b.authority_version && snap.state == b.state))
      (and_then (do x ← need (expected_observation final r); pure (same_observation o x))
        (and_then (pure (same_definition r.definition r.original_definition)) (
          and_then
            (do e ← need r.envelope; in_journal (is_retained e.envelope_id (Record.envelope e)))
            (and_then
              (do
                t ← need r.transition
                in_journal (is_retained t.transition_id (Record.transition t)))
              (and_then
                (do a ← need r.approval; in_journal (is_retained a.approval_id (Record.approval a)))
                (do
                  e ← need r.envelope
                  t ← need r.transition
                  pure (e.target_state == t.target_state && t.target_state == "REVIEW")))))))

unfoldable pub Actions-discrete : Discrete (Option (List Action))
unfolding Action-discrete
Actions-discrete = hlevel Action-discrete

unfoldable pub same_actions : Option (List Action) → Option (List Action) → Bool
same_actions a b = decide (Actions-discrete a b)

-- The further tests of the final read.
unfoldable pub same_history : Bool → ObservedState → Run → Call Bool
same_history false o r = pure true
same_history true o r = do
  x ← need r.observed
  pure (
      same_actions o.actions x.actions
      && (same_text o.action_log_ref x.action_log_ref
          && is_true o.interval_closed
          && is_true o.complete_for_invocation
          && same_text o.commit_id x.commit_id))

-- `effect_checks[0].result`, where there is one and it is not "PASS"
abbrev pub effect_control : Control → List Check → Control
effect_control control [] = control
effect_control control (c ∷ _) =
    if is_pass control && not (c.result == "PASS")
    then (if c.result == "UNRESOLVED" then Control.hold_ambiguous else Control.fail_nonretryable)
    else control

abbrev pub fresh_plan_ref : Bool → Run → Option String
fresh_plan_ref retry r =
    if retry then some "new-plan-not-yet-authorized" else Option.map (λ p. p.plan_id) r.plan

-- The grant's check, on a state that is the same.
unfoldable pub fresh_authority :
    Bool → List Check → ObservedState → AuthoritativeStateSnapshot → Check → Run → Call Freshness
fresh_authority retry effect_checks o snap c r = do
  b ← need r.before
  i ← need r.intent
  let (control, auth) =
      grant_check r.grant r.definition b.authority_version i.intent_id (fresh_plan_ref retry r)
  pure (record {
    control = effect_control control effect_checks;
    checks = (c ∷ effect_checks) ++ auth;
    observed = some o;
    snapshot = some snap;
  })

unfoldable pub fresh_observed : Bool → Bool → List Check → Option ObservedState → Call Freshness
fresh_observed final retry effect_checks none = pure (record {
  control = Control.hold_ambiguous;
  checks = check "FRESH_STATE" none [] "required read missing" ∷ effect_checks;
  observed = none;
  snapshot = none;
})
fresh_observed final retry effect_checks (some o) = do
  d ← get_run (λ r. r.definition)
  snap ← in_provider (snapshot d o)
  r ← get_run (λ r. r)
  same ← and_then (same_state final o snap r) (same_history final o r)
  let c =
      check "FRESH_STATE" (some same) (o.snapshot_id ∷ snap.snapshot_id ∷ [])
        "compare original state or reconciled history token"
  if not same
      then pure (record {
        control = Control.hold_ambiguous;
        checks = c ∷ effect_checks;
        observed = some o;
        snapshot = some snap;
      })
      else fresh_authority retry effect_checks o snap c r

unfoldable pub fresh : Bool → Bool → Call Freshness
fresh final retry = do
  effect_checks ← effect_checks_of retry
  fault ← get_run (λ r. r.current_read_fault)
  observed ← in_provider (observe fault (not final))
  fresh_observed final retry effect_checks observed
