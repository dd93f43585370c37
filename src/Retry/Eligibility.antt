-- ===== src/Retry/Eligibility.antt =====
-- src/gsrr_slice01/retry.py: the tests of `successor`: who is eligible, and when the budget is spent.
use gsrr_agent_harness.Prelude.{
  ℕ, ◌+◌, String, Bool, true, false, not, ◌&&◌, ◌||◌, Option, none, some, List, [], ◌∷◌, leb, ◌==◌,
  string_eq, if◌then◌else◌,
}
use gsrr_agent_harness.Exec.{Error, Exec, pure, raise, ◌>>=◌}
use gsrr_agent_harness.Shared.{Shared, in_journal}
use gsrr_agent_harness.Contracts.Values.{Scalar}
use gsrr_agent_harness.Contracts.Enums.{Mode, Control}
use gsrr_agent_harness.Contracts.Domain.{RetryPolicy}
use gsrr_agent_harness.Contracts.Defaults.{valid, truthy, contains_text}
use gsrr_agent_harness.Contracts.Attempts.{Attempt, ScopeLedger}
use gsrr_agent_harness.Contracts.Record.{Record, same_record}
use gsrr_agent_harness.Journal.Defs.{get}
use gsrr_agent_harness.Retry.Defs.{Supervisor, is_class}
use gsrr_agent_harness.Retry.Lifecycle.{is_empty, find, is_some, is_text_of}

abbrev pub is_pass : Control → Bool
is_pass Control.pass = true
is_pass _ = false

abbrev pub is_explicit : Mode → Bool
is_explicit Mode.explicit_plan = true
is_explicit Mode.delegated_realization = false

-- `bool(x)`, of a text or None
abbrev pub given : Option String → Bool
given none = false
given (some s) = not (s == "")

-- `bool(x)`, of a truth value or None
abbrev pub is_true : Option Bool → Bool
is_true (some true) = true
is_true _ = false

abbrev pub is_unknown : Option Bool → Bool
is_unknown none = true
is_unknown (some _) = false

-- `a.failure_class in p.allowed_failure_classes`
abbrev pub class_allowed : RetryPolicy → Option String → Bool
class_allowed p none = false
class_allowed p (some c) = contains_text c p.allowed_failure_classes

-- The last tests of the chain, on a policy that is valid and unchanged.
unfoldable pub allowed_control :
    Control → List String → RetryPolicy → Attempt → ScopeLedger → Control
allowed_control fresh checks p a l =
    if not (truthy p.retry_enabled) || not (class_allowed p a.failure_class)
    then Control.fail_nonretryable
    else if not l.scheduling_known || given l.active_attempt_id || given l.scheduled_attempt_id
    then Control.hold_ambiguous
    else if not (is_pass fresh)
    then fresh
    else if is_empty checks
    then Control.hold_ambiguous
    else Control.pass

-- The tests of the chain that read the policy; `posture` and the scope have passed theirs.
unfoldable pub policy_control :
    String
    → Control
    → List String
    → Attempt
    → ScopeLedger
    → List (String × String)
    → Option RetryPolicy
    → Exec (Shared Supervisor) Control
policy_control prior fresh checks a l failure_refs none = pure Control.hold_ambiguous
policy_control prior fresh checks a l failure_refs (some p) =
    if not (valid p) || not (is_some (find prior failure_refs))
    then pure Control.hold_ambiguous
    else if not (p.policy_id == l.policy_ref)
    then pure Control.hold_ambiguous
    else (do
      retained ← in_journal (get l.policy_ref)
      pure (
          if not (same_record retained (Record.policy p))
          then Control.hold_ambiguous
          else allowed_control fresh checks p a l))

-- The whole chain of tests: the control of the eligibility report.
unfoldable pub eligibility :
    String
    → Mode
    → Control
    → List String
    → Attempt
    → ScopeLedger
    → Supervisor
    → Exec (Shared Supervisor) Control
eligibility prior mode fresh checks a l s =
    if is_unknown l.admission_seen || s.effect_posture == "UNKNOWN"
    then pure Control.hold_ambiguous
    else if is_true l.admission_seen || not (s.effect_posture == "NONE_ESTABLISHED")
    then pure Control.fail_nonretryable
    else if not (is_explicit mode)
        || not (is_class "GENERATED_PLAN_ENVELOPE_VIOLATION" a.failure_class)
    then pure Control.fail_nonretryable
    else policy_control prior fresh checks a l s.failure_refs s.policy

-- `n >= v`; `none` is a TypeError.
abbrev pub at_least : ℕ → Scalar → Option Bool
at_least n Scalar.null = none
at_least n (Scalar.bool b) = some (leb (if b then 1 else 0) n)
at_least n (Scalar.int m) = some (leb m n)
at_least n (Scalar.negative m) = some true
at_least n (Scalar.text t) = none

unfoldable pub or_type_error : Option Bool → Exec (Shared Supervisor) Bool
or_type_error none = raise (Error.type_error "unorderable")
or_type_error (some b) = pure b

-- `x.terminal and x.failure_class == failure_class`, of two texts or None
abbrev pub same_failure : Option String → Attempt → Bool
same_failure none x = x.terminal && not (is_some x.failure_class)
same_failure (some c) x = x.terminal && is_text_of c x.failure_class

-- `sum(...)` over the attempts
unfoldable pub count_failures : Option String → List Attempt → ℕ
count_failures c [] = 0
count_failures c (x ∷ xs) = (if same_failure c x then 1 else 0) + count_failures c xs

unfoldable pub over_threshold : ℕ → Scalar → Exec (Shared Supervisor) Bool
over_threshold failures Scalar.null = pure false
over_threshold failures threshold = or_type_error (at_least failures threshold)

-- The test that opens the circuit.
unfoldable pub exhausted : RetryPolicy → ScopeLedger → ℕ → Exec (Shared Supervisor) Bool
exhausted p l failures = if l.circuit_state == "OPEN" then pure true else (do
  full ← or_type_error (at_least l.attempts_created p.max_attempts)
  if full then pure true else over_threshold failures p.repeated_failure_threshold_or_null)
