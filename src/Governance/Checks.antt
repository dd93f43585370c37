-- ===== src/Governance/Checks.antt =====
-- src/gsrr_slice01/governance.py: `check`, and the tests that the other functions share.
use gsrr_agent_harness.Prelude.{
  ℕ, String, String-discrete, Bool, true, false, Option, none, some, List, ◌==◌, string_eq, nat_eq,
  Eq, eq_of_discrete, if◌then◌else◌,
}
use gsrr_agent_harness.Contracts.Values.{Check, Scalar}
use gsrr_agent_harness.Contracts.Enums.{Gate}

abbrev pub profile : String
profile = "sufficiency-profile-1"

-- "UNRESOLVED" if ok is None else "PASS" if ok else "FAIL"
abbrev pub check_result : Option Bool → String
check_result none = "UNRESOLVED"
check_result (some ok) = if ok then "PASS" else "FAIL"

abbrev pub check : String → Option Bool → List String → String → Check
check rule ok refs reason = record {
  criterion_ref = rule;
  observed_input_refs = refs;
  result = check_result ok;
  reason = reason;
}

unfoldable pub Strings-discrete : Discrete (List String)
unfolding String-discrete
Strings-discrete = hlevel String-discrete

instance abbrev pub strings_eq : Eq (List String)
strings_eq = eq_of_discrete Strings-discrete

-- `type(v) is int and v == n`
abbrev pub is_int : ℕ → Scalar → Bool
is_int n (Scalar.int m) = m == n
is_int n _ = false

-- `disposition == Gate.PASS`
abbrev pub is_gate_pass : Gate → Bool
is_gate_pass Gate.pass = true
is_gate_pass _ = false
