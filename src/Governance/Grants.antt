-- ===== src/Governance/Grants.antt =====
-- src/gsrr_slice01/governance.py: `grant_check`.
use gsrr_agent_harness.Prelude.{
  ℕ, String, Bool, true, false, not, ◌&&◌, Option, none, some, List, [], ◌∷◌, ◌==◌, string_eq,
  if◌then◌else◌,
}
use text.Mathlib.Text.{find?}
use gsrr_agent_harness.Contracts.Values.{Check}
use gsrr_agent_harness.Contracts.Enums.{Control}
use gsrr_agent_harness.Contracts.Domain.{Definition, AuthorityEvidence}
use gsrr_agent_harness.Retry.Lifecycle.{is_some, is_text_of}
use gsrr_agent_harness.Retry.Eligibility.{given, is_true}
use gsrr_agent_harness.Governance.Checks.{check, is_int}

-- The conditions on an active grant: who issued it, for whom, for what, and at which versions.
unfoldable pub is_scoped : AuthorityEvidence → Definition → ℕ → Bool
is_scoped grant definition source_version =
    is_true grant.active
    && grant.issuer_id == "fixture-issuer"
    && grant.actor_id == "USER-001"
    && grant.object_id == definition.object_id
    && grant.capability == definition.capability_id
    && grant.implementation_id == definition.implementation_id
    && is_int definition.definition_version grant.definition_version
    && is_int source_version grant.source_authority_version
    && grant.scope == "DOC-001:DRAFT:REVIEW"

-- `":plan:" in ref`, of a text or None
abbrev pub names_plan : Option String → Bool
names_plan none = false
names_plan (some ref) = is_some (find? ref ":plan:")

-- The subject that a human is to have approved: the plan, where the grant names one.
abbrev pub expected_subject : AuthorityEvidence → String → Option String → Option String
expected_subject grant subject_ref plan_ref =
    if names_plan grant.subject_ref then plan_ref else some subject_ref

-- `a == b`, of two texts or None
abbrev pub same_text : Option String → Option String → Bool
same_text none none = true
same_text none (some t) = false
same_text (some s) t = is_text_of s t

unfoldable pub is_approved : AuthorityEvidence → String → Option String → Bool
is_approved grant subject_ref plan_ref =
    same_text (expected_subject grant subject_ref plan_ref) grant.subject_ref
    && is_text_of "APPROVE" grant.decision
    && is_text_of "fixture-human-issuer" grant.human_issuer
    && given grant.policy_ref

-- The tests of a grant whose activity is known.
unfoldable pub known_grant_check :
    AuthorityEvidence → Definition → ℕ → String → Option String → Control × List Check
known_grant_check grant definition source_version subject_ref plan_ref =
    let refs = grant.evidence_id ∷ [] in
    if not (is_scoped grant definition source_version)
    then (
      Control.fail_nonretryable,
      check "AUTHORITY" (some false) refs "invalid scoped grant" ∷ [],
    )
    else if grant.human_required && not (is_approved grant subject_ref plan_ref)
    then (
      Control.human_authorization_required,
      check "HUMAN_SUBJECT" (some false) refs "exact immutable subject authorization required" ∷ [],
    )
    else (Control.pass, check "AUTHORITY" (some true) refs "active exact scoped evidence" ∷ [])

unfoldable pub grant_check :
    Option AuthorityEvidence → Definition → ℕ → String → Option String → Control × List Check
grant_check none definition source_version subject_ref plan_ref =
    (Control.fail_nonretryable, check "AUTHORITY" (some false) [] "required grant absent" ∷ [])
grant_check (some grant) definition source_version subject_ref plan_ref =
    if not (is_some grant.active)
    then (
      Control.hold_ambiguous,
      check "AUTHORITY" none (grant.evidence_id ∷ []) "grant activity unknown" ∷ [],
    )
    else known_grant_check grant definition source_version subject_ref plan_ref
