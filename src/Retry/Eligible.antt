-- ===== src/Retry/Eligible.antt =====
-- src/gsrr_slice01/retry.py: the tests of `successor` neither make an attempt nor schedule one.
use gsrr_agent_harness.Prelude.{ℕ, String, Bool, Option, none, some, List, string_eq}
use gsrr_agent_harness.Exec.Keeps.{Keeps, keeps_rules}
use gsrr_agent_harness.Contracts.Enums.{Mode, Control}
use gsrr_agent_harness.Contracts.Values.{Scalar}
use gsrr_agent_harness.Contracts.Domain.{RetryPolicy}
use gsrr_agent_harness.Contracts.Attempts.{Attempt, ScopeLedger}
use gsrr_agent_harness.Retry.Defs.{Supervisor}
use gsrr_agent_harness.Retry.Eligibility.{
  policy_control, eligibility, or_type_error, over_threshold, exhausted,
}
use gsrr_agent_harness.Retry.Lined.{lined, lined_rules}

policy_control-lined :
    (prior : String) (fresh : Control) (checks : List String) (a : Attempt) (l : ScopeLedger)
    (failure_refs : List (String × String)) (p : Option RetryPolicy)
    → Keeps lined (policy_control prior fresh checks a l failure_refs p)
unfolding policy_control
policy_control-lined prior fresh checks a l failure_refs none = search keeps_rules
policy_control-lined prior fresh checks a l failure_refs (some p) = search lined_rules depth 12

pub eligibility-lined :
    (prior : String) (mode : Mode) (fresh : Control) (checks : List String) (a : Attempt)
    (l : ScopeLedger) (s : Supervisor)
    → Keeps lined (eligibility prior mode fresh checks a l s)
unfolding eligibility
eligibility-lined prior mode fresh checks a l s =
    search (keeps_rules, policy_control-lined) depth 12

or_type_error-lined : (v : Option Bool) → Keeps lined (or_type_error v)
unfolding or_type_error
or_type_error-lined none = search keeps_rules
or_type_error-lined (some v) = search keeps_rules

over_threshold-lined : (n : ℕ) (v : Scalar) → Keeps lined (over_threshold n v)
unfolding over_threshold
over_threshold-lined n Scalar.null = search keeps_rules
over_threshold-lined n v = search or_type_error-lined

pub exhausted-lined : (p : RetryPolicy) (l : ScopeLedger) (n : ℕ) → Keeps lined (exhausted p l n)
unfolding exhausted
exhausted-lined p l n = search (keeps_rules, or_type_error-lined, over_threshold-lined) depth 9
