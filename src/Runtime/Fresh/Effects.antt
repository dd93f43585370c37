-- ===== src/Runtime/Fresh/Effects.antt =====
-- src/gsrr_slice01/runtime.py: `no_effect_check`, the facts that no effect has been established.
use gsrr_agent_harness.Prelude.{
  String, Bool, true, false, not, ◌&&◌, ◌||◌, Option, none, some, List, [], ◌∷◌, ◌==◌, string_eq,
  nat_eq, if◌then◌else◌,
}
use Prim.Native.String.{compare}
use text.Mathlib.Text.{is_le}
use mathlib.Core.Option
use gsrr_agent_harness.Exec.{pure, gets, ◌>>=◌, ◌>>◌}
use gsrr_agent_harness.Shared.{in_journal, own_gets}
use gsrr_agent_harness.Contracts.Values.{Check}
use gsrr_agent_harness.Contracts.Attempts.{ScopeLedger}
use gsrr_agent_harness.Contracts.Record.{EffectFacts, Record}
use gsrr_agent_harness.Journal.Defs.{new_id, retain}
use gsrr_agent_harness.Retry.Lifecycle.{is_empty, is_false, need}
use gsrr_agent_harness.Retry.Eligibility.{is_unknown}
use gsrr_agent_harness.Fixture.Defs.{Provider}
use gsrr_agent_harness.Fixture.Provider.{is_claimed}
use gsrr_agent_harness.Governance.Checks.{check}
use gsrr_agent_harness.Runtime.Defs.{Call, get_run, get_supervisor}

abbrev pub ledger_record : Option ScopeLedger → Record
ledger_record none = Record.null
ledger_record (some l) = Record.ledger l

-- `isinstance(record, RealizationCommit) and record.execution_envelope_id == ref`
abbrev pub is_commit_of : String → Record → Bool
is_commit_of ref (Record.commit c) = c.execution_envelope_id == ref
is_commit_of ref _ = false

unfoldable pub has_commit : List (String × Record) → Bool
has_commit [] = false
has_commit ((key, Record.commit c) ∷ rest) = true
has_commit ((key, r) ∷ rest) = has_commit rest

unfoldable pub commits_of : String → List (String × Record) → List String
commits_of ref [] = []
commits_of ref ((key, r) ∷ rest) =
    let others = commits_of ref rest in if is_commit_of ref r then key ∷ others else others

-- `sorted(...)` of texts
unfoldable pub insert_text : String → List String → List String
insert_text s [] = s ∷ []
insert_text s (t ∷ rest) = if is_le (compare s t) then s ∷ t ∷ rest else t ∷ insert_text s rest

unfoldable pub sorted : List String → List String
sorted [] = []
sorted (s ∷ rest) = insert_text s (sorted rest)

-- The envelope's commits; the envelope is only read where there is a commit.
unfoldable pub retained_commits : Call (List String)
retained_commits = do
  records ← in_journal (gets (λ j. j.aggregate.records))
  envelope ← get_run (λ r. r.envelope)
  if has_commit records
      then (do e ← need envelope; pure (commits_of e.envelope_id records))
      else pure []

abbrev pub admission_fact : Option ScopeLedger → Option Bool
admission_fact none = none
admission_fact (some l) = l.admission_seen

abbrev pub effect_facts :
    Option ScopeLedger → String → List String → List String → Provider → String → EffectFacts
effect_facts ledger ledger_ref commits claims p posture = record {
  scope_ref = Option.map (λ l. l.scope_ref) ledger;
  scope_ledger_ref = ledger_ref;
  admission_seen = admission_fact ledger;
  commit_refs = commits;
  dispatch_claims = sorted claims;
  provider_invocations = p.invocation_count;
  provider_current_invocation = p.current_invocation;
  provider_actions = p.actions;
  effect_posture = posture;
}

-- `unknown` and `clear`, as the check's answer
abbrev pub no_effect :
    Option ScopeLedger → List String → List String → Provider → String → Option Bool
no_effect none commits claims p posture = none
no_effect (some l) commits claims p posture =
    if is_unknown l.admission_seen || posture == "UNKNOWN"
    then none
    else some (
        is_false l.admission_seen
        && is_empty commits
        && is_empty claims
        && p.invocation_count == 0
        && not (is_claimed p.current_invocation)
        && is_empty p.actions
        && posture == "NONE_ESTABLISHED")

unfoldable pub no_effect_check : Call Check
no_effect_check = do
  ledger ← get_supervisor (λ s. s.ledger)
  ledger_ref ← in_journal (new_id "retry-scope-ledger")
  in_journal (retain ledger_ref (ledger_record ledger))
  commits ← retained_commits
  posture ← get_supervisor (λ s. s.effect_posture)
  claims ← get_run (λ r. r.dispatch_claims)
  p ← own_gets (λ s. s.provider)
  facts_ref ← in_journal (new_id "retry-effect-facts")
  in_journal
      (retain facts_ref (Record.facts (effect_facts ledger ledger_ref commits claims p posture)))
  pure (
      check "NO_ADMISSION_OR_EFFECT" (no_effect ledger commits claims p posture)
        (ledger_ref ∷ facts_ref ∷ "fixture-boundary" ∷ [])
        "Before successor allocation in this scope: no admission or retained commit, no dispatch claim or provider invocation, no actions, effect posture NONE_ESTABLISHED required; trusted in-memory fixture only")
