-- ===== src/Contracts/Values.antt =====
-- src/gsrr_slice01/contracts.py: checks, the part that all artifacts share, and the values of the
-- fields whose run-time type the source tests.
use gsrr_agent_harness.Prelude.{ℕ, ℕ_discrete, String, String-discrete, Bool, List, if◌then◌else◌}

-- A value of a field that the source asks for its type. `negative n` is -(n + 1).
pub data Scalar : Type 0 where
  null : Scalar
  bool : Bool → Scalar
  int : ℕ → Scalar
  negative : ℕ → Scalar
  text : String → Scalar

unfoldable pub Scalar-discrete : Discrete Scalar
unfolding ℕ_discrete String-discrete
Scalar-discrete = hlevel (ℕ_discrete, String-discrete)

-- A sequence, a tuple or a list of the source.
pub data Sequence : Type 0 where
  tuple : List Scalar → Sequence
  list : List Scalar → Sequence

unfoldable pub Sequence-discrete : Discrete Sequence
unfolding Scalar-discrete
Sequence-discrete = hlevel Scalar-discrete

-- Python's `==` takes `True` for 1 and `False` for 0.
abbrev pub number_of : Scalar → Scalar
number_of (Scalar.bool b) = Scalar.int (if b then 1 else 0)
number_of s = s

pub record Check : Type 0 where
  pub criterion_ref : String
  pub observed_input_refs : List String
  pub result : String
  pub reason : String

unfoldable pub Check-discrete : Discrete Check
unfolding String-discrete
Check-discrete = hlevel String-discrete

pub record Artifact : Type 0 where
  pub run_id : String
  pub correlation_id : String
  pub producer : String
  pub artifact_version : String

unfoldable pub Artifact-discrete : Discrete Artifact
unfolding String-discrete
Artifact-discrete = hlevel String-discrete
