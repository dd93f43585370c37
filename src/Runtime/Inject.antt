-- ===== src/Runtime/Inject.antt =====
-- src/gsrr_slice01/runtime.py: `inject`, the named test seams. Each changes the run from outside.
use gsrr_agent_harness.Prelude.{
  String, Bool, true, false, not, ◌&&◌, ◌||◌, Option, none, some, List, [], ◌∷◌, any, concat, ◌==◌,
  string_eq, if◌then◌else◌,
}
use gsrr_agent_harness.Exec.{Error, pure, raise, ◌>>=◌, ◌>>◌}
use gsrr_agent_harness.Shared.{in_journal, own_modify}
use gsrr_agent_harness.Contracts.Enums.{Mode}
use gsrr_agent_harness.Contracts.Domain.{AuthorityEvidence}
use gsrr_agent_harness.Contracts.Defaults.{default_grant}
use gsrr_agent_harness.Journal.Defs.{new_id}
use gsrr_agent_harness.Retry.Defs.{Supervisor, remember_ledger}
use gsrr_agent_harness.Retry.Lifecycle.{set_ledger}
use gsrr_agent_harness.Fixture.Observe.{external_change}
use gsrr_agent_harness.Runtime.Defs.{
  Call, in_supervisor, in_provider, get_run, set_run, get_faults, get_supervisor,
}
use gsrr_agent_harness.Runtime.Start.{retain_grant}

-- `entry in injected`
abbrev pub is_injected : String × String → List (String × String) → Bool
is_injected (place, kind) injected = any (λ (p, k). p == place && k == kind) injected

abbrev pub is_external : String → Bool
is_external kind = kind == "authority" || kind == "observation" || kind == "content"

abbrev pub is_grant_kind : String → Bool
is_grant_kind kind =
    kind == "grant_inactive"
    || kind == "grant_unknown"
    || kind == "human_reserved"
    || kind == "approval_subject"

abbrev pub injected_activity : String → Option Bool
injected_activity kind =
    if kind == "grant_unknown"
    then none
    else if kind == "grant_inactive"
    then some false
    else some true

-- `text if kind == "approval_subject" else None`
abbrev pub for_subject : String → String → Option String
for_subject kind text = if kind == "approval_subject" then some text else none

abbrev pub asks_human : String → Bool
asks_human kind = kind == "human_reserved" || kind == "approval_subject"

-- `self.grant or AuthorityEvidence()`
abbrev pub or_grant : Option AuthorityEvidence → AuthorityEvidence
or_grant none = default_grant
or_grant (some g) = g

abbrev pub injected_grant : String → String → AuthorityEvidence → AuthorityEvidence
injected_grant kind ref g = record g {
  evidence_id = ref;
  active = injected_activity kind;
  human_required = asks_human kind;
  subject_ref = for_subject kind "different-immutable-subject";
  decision = for_subject kind "APPROVE";
  human_issuer = for_subject kind "fixture-human-issuer";
  policy_ref = if asks_human kind then some "human-policy" else none;
}

unfoldable pub inject_grant : String → Call (Unit {0})
inject_grant kind = do
  grant ← get_run (λ r. r.grant)
  ref ← in_journal (new_id "grant")
  set_run (λ r. record r { grant = some (injected_grant kind ref (or_grant grant)) })
  retain_grant

-- `replace(x, ...)` of an attribute that may be None
unfoldable pub replaceable : {A : Type 0} → Option A → Call A
replaceable none = raise (Error.type_error "replace() should be called on dataclass instances")
replaceable (some a) = pure a

abbrev pub injected_admission : String → Option Bool
injected_admission kind = if kind == "admitted" then some true else none

unfoldable pub inject_admission : String → Call (Unit {0})
inject_admission kind = do
  l ← replaceable (← get_supervisor (λ s. s.ledger))
  in_supervisor (own_modify (set_ledger (record l { admission_seen = injected_admission kind })))
  in_supervisor remember_ledger

abbrev pub is_posture_kind : String → Bool
is_posture_kind kind =
    kind == "possible_effect"
    || kind == "occurred_effect"
    || kind == "unknown_effect"
    || kind == "dispatch"

abbrev pub injected_posture : String → String
injected_posture kind =
    if kind == "possible_effect"
    then "POSSIBLE"
    else if kind == "unknown_effect"
    then "UNKNOWN"
    else "OCCURRED"

abbrev pub set_posture : String → Supervisor → Supervisor
set_posture posture s = record s { effect_posture = posture }

unfoldable pub inject_envelope : Call (Unit {0})
inject_envelope = do
  e ← replaceable (← get_run (λ r. r.envelope))
  set_run (λ r. record r { envelope = some (record e { target_state = "APPROVED" }) })

unfoldable pub inject_plan_mode : Call (Unit {0})
inject_plan_mode = do
  p ← replaceable (← get_run (λ r. r.plan))
  set_run
      (λ r. record r { plan = some (record p { realization_mode = Mode.delegated_realization }) })

unfoldable pub inject_target : Call (Unit {0})
inject_target = do
  t ← replaceable (← get_run (λ r. r.transition))
  set_run (λ r. record r { transition = some (record t { target_state = "APPROVED" }) })

-- The chain of tests on the kind of an injection.
unfoldable pub inject_kind : String → Call (Unit {0})
inject_kind kind =
    if is_external kind
    then in_provider (external_change kind)
    else if is_grant_kind kind
    then inject_grant kind
    else if kind == "definition"
    then set_run (λ r. record r { definition = record r.definition { definition_version = 2 } })
    else if kind == "missing_read"
    then set_run (λ r. record r { current_read_fault = "missing" })
    else if kind == "admitted" || kind == "unknown_admission"
    then inject_admission kind
    else if is_posture_kind kind
    then in_supervisor (own_modify (set_posture (injected_posture kind)))
    else if kind == "envelope"
    then inject_envelope
    else if kind == "plan_mode"
    then inject_plan_mode
    else if kind == "target"
    then inject_target
    else raise (Error.value_error (concat ("unknown fixture seam injection: " ∷ kind ∷ [])))

-- One round of the loop; an entry that is passed over changes nothing.
unfoldable pub inject_entry : String → String × String → Call (Unit {0})
inject_entry seam entry = do
  injected ← get_run (λ r. r.injected)
  if not (entry.0 == seam) || is_injected entry injected
      then pure tt
      else (do set_run (λ r. record r { injected = entry ∷ r.injected }); inject_kind entry.1)

unfoldable pub inject_all : String → List (String × String) → Call (Unit {0})
inject_all seam [] = pure tt
inject_all seam (entry ∷ rest) = do inject_entry seam entry; inject_all seam rest

unfoldable pub inject : String → Call (Unit {0})
inject seam = do injections ← get_faults (λ f. f.injections); inject_all seam injections
