-- ===== src/Reconciliation/Evidence.antt =====
-- src/gsrr_slice01/reconciliation.py: the tests of `reconcile`.
use gsrr_agent_harness.Prelude.{
  ℕ, ◌+◌, String, Bool, true, false, not, ◌&&◌, ◌||◌, Option, none, some, List, [], ◌∷◌, ◌++◌,
  length, all, concat, decimal, ◌==◌, string_eq, nat_eq, if◌then◌else◌,
}
use gsrr_agent_harness.Exec.{Error, Exec, pure, raise, except_key, ◌>>=◌}
use gsrr_agent_harness.Contracts.Enums.{Report}
use gsrr_agent_harness.Contracts.Effects.{Action, ObservedState}
use gsrr_agent_harness.Contracts.Planning.{AuthoritativeStateSnapshot}
use gsrr_agent_harness.Contracts.Plans.{ExecutionEnvelope}
use gsrr_agent_harness.Contracts.Results.{ExecutionResult}
use gsrr_agent_harness.Contracts.Record.{Record}
use gsrr_agent_harness.Journal.Defs.{Journal, get}
use gsrr_agent_harness.Retry.Lifecycle.{is_some, is_text_of}
use gsrr_agent_harness.Retry.Eligibility.{is_true}
use gsrr_agent_harness.Governance.Grants.{same_text}
use gsrr_agent_harness.Governance.Validation.{is_retained}

abbrev pub same_bool : Bool → Bool → Bool
same_bool true b = b
same_bool false b = not b

-- `v == n`, of a number or None
abbrev pub is_nat : ℕ → Option ℕ → Bool
is_nat n none = false
is_nat n (some m) = m == n

abbrev pub is_failure : Report → Bool
is_failure Report.failure = true
is_failure _ = false

abbrev pub is_unknown_report : Report → Bool
is_unknown_report Report.unknown = true
is_unknown_report _ = false

unfoldable pub is_forbidden : ExecutionEnvelope → Action → Bool
is_forbidden e a =
    is_text_of "FORBIDDEN_REQUEST" a.reason
    || not (a.object_id == e.object_id)
    || not (a.action_kind == "STATE")
    || not (a.requested_value == "REVIEW")
    || not (a.before_digest == a.after_digest)
    || not (same_bool a.before_exists a.after_exists)

-- f"action:{sequence}:{action_kind}:{requested_value}"
abbrev pub action_text : Action → String
action_text a =
    concat ("action:" ∷ decimal a.sequence ∷ ":" ∷ a.action_kind ∷ ":" ∷ a.requested_value ∷ [])

unfoldable pub forbidden_of : ExecutionEnvelope → List Action → List String
forbidden_of e [] = []
forbidden_of e (a ∷ rest) =
    let others = forbidden_of e rest in if is_forbidden e a then action_text a ∷ others else others

abbrev pub listed : Option (List Action) → List Action
listed none = []
listed (some actions) = actions

abbrev pub actions_of : Option ObservedState → List Action
actions_of none = []
actions_of (some o) = listed o.actions

-- `end - start == n`
unfoldable pub counts : Option ℕ → Option ℕ → ℕ → Exec Journal Bool
counts (some start) (some end) n = pure (end == start + n)
counts none _ n = raise (Error.type_error "unsupported operand")
counts (some start) none n = raise (Error.type_error "unsupported operand")

-- `journal.get(ref) == actions`, False on a KeyError
unfoldable pub is_logged : Option String → List Action → Exec Journal Bool
is_logged none actions = pure false
is_logged (some ref) actions = except_key (is_retained ref (Record.actions actions)) false

unfoldable pub is_complete : ExecutionResult → Option ObservedState → Exec Journal Bool
is_complete result none = pure false
is_complete result (some o) =
    if is_true o.interval_closed
      && is_true o.complete_for_invocation
      && is_some o.actions
      && same_text o.action_log_ref result.action_interval_ref
    then (do
      counted ← counts o.interval_start o.interval_end (length (listed o.actions))
      if counted then is_logged o.action_log_ref (listed o.actions) else pure false)
    else pure false

-- `get(ref)`, None on a KeyError
unfoldable pub find_record : Option String → Exec Journal (Option Record)
find_record none = pure none
find_record (some ref) = except_key (do r ← get ref; pure (some r)) none

unfoldable pub differs : Record → ObservedState → Exec Journal Bool
differs (Record.observed x) o = pure (
    x.observation_version == o.observation_version
    && not
        (x.state == o.state && x.content_digest == o.content_digest && same_bool x.exists o.exists))
differs _ o = raise (Error.attribute_error "observation_version")

-- Whether the attribution is ambiguous, and whether the evidence of a conflict is missing.
unfoldable pub judge : Bool → ObservedState → Option Record → Exec Journal (Bool × Bool)
judge ambiguous o none = pure (ambiguous, true)
judge ambiguous o (some alternate) =
    if ambiguous
    then pure (true, false)
    else (do differing ← differs alternate o; pure (differing, false))

unfoldable pub attribution : Bool → Option ObservedState → Exec Journal (Bool × Bool)
attribution ambiguous none = pure (ambiguous, false)
attribution ambiguous (some o) =
    if o.conflicting
    then (do alternate ← find_record o.conflicting_snapshot_ref; judge ambiguous o alternate)
    else pure (ambiguous, false)

abbrev pub missing_evidence : Option ObservedState → Bool → List String
missing_evidence none missing = "observed_snapshot" ∷ []
missing_evidence (some o) missing = if missing then "conflicting_observation_evidence" ∷ [] else []

abbrev pub unresolved_of : Bool → Option ObservedState → Bool → List String
unresolved_of complete observed missing =
    (if complete then [] else "closed_action_interval" ∷ []) ++ missing_evidence observed missing

abbrev pub unrelated : ExecutionResult → ObservedState → Option ObservedState → Bool
unrelated result baseline none = false
unrelated result baseline (some o) =
    not (is_text_of result.commit_id o.commit_id)
    && not (
        o.state == baseline.state
        && o.observation_version == baseline.observation_version
        && same_text o.commit_id baseline.commit_id)

unfoldable pub is_stale :
    AuthoritativeStateSnapshot → ObservedState → ExecutionResult → Option ObservedState → ℕ → Bool
is_stale before baseline result observed authority_version =
    not (authority_version == before.authority_version) || unrelated result baseline observed

unfoldable pub is_identity : ExecutionEnvelope → ExecutionResult → Option ObservedState → Bool
is_identity e result none = false
is_identity e result (some o) =
    o.object_id == e.object_id
    && o.provider_id == "STATE_PROVIDER"
    && o.fixture_boundary_ref == e.fixture_boundary_ref
    && result.commit_id == result.invocation_id
    && result.object_id == e.object_id
    && all (λ a. a.invocation_id == result.commit_id) (listed o.actions)

-- One action, applied, from the given version to the next.
abbrev pub is_single : List Action → ℕ → Bool
is_single (a ∷ []) n = a.applied && a.before_version == n && a.after_version == n + 1
is_single _ n = false

unfoldable pub is_target :
    ExecutionEnvelope → ObservedState → ExecutionResult → Option ObservedState → Bool
is_target e baseline result none = false
is_target e baseline result (some o) =
    o.state == e.target_state
    && o.exists
    && o.content_digest == baseline.content_digest
    && o.observation_version == baseline.observation_version + 1
    && is_nat baseline.observation_version o.predecessor_version
    && is_text_of result.commit_id o.commit_id
    && is_single (listed o.actions) baseline.observation_version
