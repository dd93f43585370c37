-- ===== src/Contracts/Defaults.antt =====
-- src/gsrr_slice01/contracts.py: the default values of the classes that a run is given, and the
-- validity test of the retry policy.
use gsrr_agent_harness.Prelude.{
  ℕ, String, Bool, true, false, not, ◌&&◌, ◌||◌, none, some, [], ◌∷◌, leb, ◌==◌, nat_eq, string_eq,
  all, any,
}
use gsrr_agent_harness.Contracts.Values.{Scalar, Sequence}
use gsrr_agent_harness.Contracts.Domain.{Definition, AuthorityEvidence, RetryPolicy}

-- `Definition()`
abbrev pub default_definition : Definition
default_definition = record {
  definition_id = "domain.document-review.fixture.v0_1";
  definition_version = 1;
  object_id = "DOC-001";
  source_state = "DRAFT";
  target_state = "REVIEW";
  capability_id = "SUBMIT_FOR_REVIEW";
  implementation_id = "fixture.submit_for_review.v0_1";
  required_effects = "REVIEW_ONCE" ∷ [];
  forbidden_effects =
      "CONTENT_WRITE" ∷ "DELETE" ∷ "APPROVED" ∷ "PUBLISHED" ∷ "OTHER_OBJECT" ∷ "DEFINITION_WRITE"
      ∷ "NESTED_DISPATCH" ∷ "NETWORK" ∷ "REPEAT_INVOCATION" ∷ [];
  postconditions =
      "EXISTS" ∷ "REVIEW" ∷ "UNCHANGED_CONTENT" ∷ "EXACT_IDENTITY" ∷ "OWN_SINGLE_INCREMENT"
      ∷ "COMPLETE_CLOSED_INTERVAL" ∷ [];
  evidence_rules = "INDEPENDENT_READ" ∷ "ALL_ACTIONS" ∷ "CLOSED_INTERVAL" ∷ "OWN_LINEAGE" ∷ [];
  constraints = "ONE_OBJECT" ∷ "ONE_INVOCATION" ∷ "NO_POST_ADMISSION_RETRY" ∷ [];
}

-- `AuthorityEvidence()`
abbrev pub default_grant : AuthorityEvidence
default_grant = record {
  evidence_id = "grant-1";
  issuer_id = "fixture-issuer";
  actor_id = "USER-001";
  object_id = "DOC-001";
  capability = "SUBMIT_FOR_REVIEW";
  implementation_id = "fixture.submit_for_review.v0_1";
  definition_version = Scalar.int 1;
  source_authority_version = Scalar.int 1;
  active = some true;
  scope = "DOC-001:DRAFT:REVIEW";
  human_required = false;
  subject_ref = none;
  policy_ref = none;
  decision = none;
  human_issuer = none;
}

-- `RetryPolicy()`
abbrev pub default_policy : RetryPolicy
default_policy = record {
  policy_id = "retry-1";
  policy_version = Scalar.int 1;
  retry_enabled = Scalar.bool false;
  allowed_failure_classes = Sequence.tuple (Scalar.text "GENERATED_PLAN_ENVELOPE_VIOLATION" ∷ []);
  max_attempts = Scalar.int 1;
  repeated_failure_threshold_or_null = Scalar.null;
}

-- `type(v) is int and v >= least`
abbrev pub is_int_from : ℕ → Scalar → Bool
is_int_from least (Scalar.int n) = leb least n
is_int_from least _ = false

-- `type(v) is bool`
abbrev pub is_bool : Scalar → Bool
is_bool (Scalar.bool b) = true
is_bool _ = false

-- `type(v) is str`
abbrev pub is_text : Scalar → Bool
is_text (Scalar.text s) = true
is_text _ = false

-- `type(v) is tuple and all(type(value) is str for value in v)`
abbrev pub is_text_tuple : Sequence → Bool
is_text_tuple (Sequence.tuple vs) = all is_text vs
is_text_tuple (Sequence.list vs) = false

-- `v is None`
abbrev pub is_null_scalar : Scalar → Bool
is_null_scalar Scalar.null = true
is_null_scalar _ = false

-- `RetryPolicy.valid`
unfoldable pub valid : RetryPolicy → Bool
valid p =
    is_int_from 0 p.policy_version
    && is_bool p.retry_enabled
    && is_text_tuple p.allowed_failure_classes
    && is_int_from 1 p.max_attempts
    && (is_null_scalar p.repeated_failure_threshold_or_null
        || is_int_from 1 p.repeated_failure_threshold_or_null)
    && not (p.policy_id == "")

-- `bool(v)`
abbrev pub truthy : Scalar → Bool
truthy Scalar.null = false
truthy (Scalar.bool b) = b
truthy (Scalar.int n) = not (n == 0)
truthy (Scalar.negative n) = true
truthy (Scalar.text s) = not (s == "")

is_the_text : String → Scalar → Bool
is_the_text s (Scalar.text t) = s == t
is_the_text s _ = false

-- `s in values`
unfoldable pub contains_text : String → Sequence → Bool
unfolding is_the_text
contains_text s (Sequence.tuple vs) = any (is_the_text s) vs
contains_text s (Sequence.list vs) = any (is_the_text s) vs
