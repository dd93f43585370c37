-- ===== src/Governance/Authority.antt =====
-- src/gsrr_slice01/governance.py: what a grant that `grant_check` passes is sure to say.
use gsrr_agent_harness.Prelude.{
  ℕ, String, ◌≡◌, refl, ap, subst, Bool, true, false, ◌&&◌, Option, none, some, inl, inr,
  Bool-cases, arith, text_eq, nat_beq_eq, ◌==◌, string_eq,
}
use gsrr_agent_harness.Contracts.Values.{Scalar}
use gsrr_agent_harness.Contracts.Enums.{Control}
use gsrr_agent_harness.Contracts.Domain.{Definition, AuthorityEvidence}
use gsrr_agent_harness.Retry.Lifecycle.{is_some, is_text_of}
use gsrr_agent_harness.Retry.Eligibility.{given, is_true}
use gsrr_agent_harness.Governance.Checks.{is_int}
use gsrr_agent_harness.Governance.Grants.{
  is_scoped, expected_subject, same_text, is_approved, known_grant_check, grant_check,
}

-- A human has approved the subject, under a policy that is named.
pub record IsApproved (grant : AuthorityEvidence) (subject_ref : String) (plan_ref : Option String)
    : Type 0 where
  pub subject : grant.subject_ref ≡ expected_subject grant subject_ref plan_ref
  pub decision : grant.decision ≡ some "APPROVE"
  pub issuer : grant.human_issuer ≡ some "fixture-human-issuer"
  pub policy : (p : String) × (grant.policy_ref ≡ some p) × ¬ (p ≡ "")

-- The grant is active and exactly for this definition at this version.
pub record IsAuthority (grant : AuthorityEvidence) (d : Definition) (n : ℕ) (subject_ref : String)
    (plan_ref : Option String) : Type 0 where
  pub active : grant.active ≡ some true
  pub issuer : grant.issuer_id ≡ "fixture-issuer"
  pub actor : grant.actor_id ≡ "USER-001"
  pub object : grant.object_id ≡ d.object_id
  pub capability : grant.capability ≡ d.capability_id
  pub implementation : grant.implementation_id ≡ d.implementation_id
  pub definition_version : grant.definition_version ≡ Scalar.int d.definition_version
  pub source_version : grant.source_authority_version ≡ Scalar.int n
  pub scope : grant.scope ≡ "DOC-001:DRAFT:REVIEW"
  pub human : grant.human_required ≡ true → IsApproved grant subject_ref plan_ref

scoped_conditions :
    (a b c d e f g h k : Bool)
    → (a && b && c && d && e && f && g && h && k) ≡ true
    → (a ≡ true)
      × (b ≡ true)
      × (c ≡ true)
      × (d ≡ true)
      × (e ≡ true)
      × (f ≡ true)
      × (g ≡ true)
      × (h ≡ true)
      × (k ≡ true)
scoped_conditions a b c d e f g h k all = ground arith

is_int_eq : (n : ℕ) (v : Scalar) → is_int n v ≡ true → v ≡ Scalar.int n
is_int_eq n Scalar.null h = cc
is_int_eq n (Scalar.bool b) h = cc
is_int_eq n (Scalar.int m) h = ap Scalar.int (nat_beq_eq m n h)
is_int_eq n (Scalar.negative m) h = cc
is_int_eq n (Scalar.text t) h = cc

is_true_eq : (o : Option Bool) → is_true o ≡ true → o ≡ some true
is_true_eq none h = cc
is_true_eq (some true) h = refl
is_true_eq (some false) h = cc

is_text_of_eq : (t : String) (o : Option String) → is_text_of t o ≡ true → o ≡ some t
is_text_of_eq t none h = cc
is_text_of_eq t (some s) h = ap some (text_eq s t h)

pub same_text_eq : (a b : Option String) → same_text a b ≡ true → b ≡ a
same_text_eq none none h = refl
same_text_eq none (some t) h = cc
same_text_eq (some s) t h = is_text_of_eq s t h

four_conditions :
    (a b c d : Bool) → (a && b && c && d) ≡ true → (a ≡ true) × (b ≡ true) × (c ≡ true) × (d ≡ true)
four_conditions a b c d all = ground arith

given-named : (o : Option String) → given o ≡ true → (p : String) × (o ≡ some p) × ¬ (p ≡ "")
given-named none h = cc
given-named (some t) h = (t, refl, λ empty. cc (subst (λ x. given (some x) ≡ true) empty h))

is_approved-IsApproved :
    (grant : AuthorityEvidence) (subject_ref : String) (plan_ref : Option String)
    → is_approved grant subject_ref plan_ref ≡ true
    → IsApproved grant subject_ref plan_ref
unfolding is_approved
is_approved-IsApproved grant subject_ref plan_ref h =
    let expected = expected_subject grant subject_ref plan_ref in
    let (subject, decision, issuer, policy) =
      four_conditions (same_text expected grant.subject_ref) (is_text_of "APPROVE" grant.decision)
        (is_text_of "fixture-human-issuer" grant.human_issuer) (given grant.policy_ref) h in
    record {
      subject = same_text_eq expected grant.subject_ref subject;
      decision = is_text_of_eq "APPROVE" grant.decision decision;
      issuer = is_text_of_eq "fixture-human-issuer" grant.human_issuer issuer;
      policy = given-named grant.policy_ref policy;
    }

scoped-IsAuthority :
    (grant : AuthorityEvidence) (d : Definition) (n : ℕ) (subject_ref : String)
    (plan_ref : Option String)
    → is_scoped grant d n ≡ true
    → (grant.human_required ≡ true → is_approved grant subject_ref plan_ref ≡ true)
    → IsAuthority grant d n subject_ref plan_ref
unfolding is_scoped
scoped-IsAuthority grant d n subject_ref plan_ref h approved =
    let (
      active, issuer, actor, object, capability, implementation, definition_version, source, scope,
    ) =
      scoped_conditions (is_true grant.active) (grant.issuer_id == "fixture-issuer")
        (grant.actor_id == "USER-001") (grant.object_id == d.object_id)
        (grant.capability == d.capability_id) (grant.implementation_id == d.implementation_id)
        (is_int d.definition_version grant.definition_version)
        (is_int n grant.source_authority_version) (grant.scope == "DOC-001:DRAFT:REVIEW") h in
    record {
      active = is_true_eq grant.active active;
      issuer = text_eq _ _ issuer;
      actor = text_eq _ _ actor;
      object = text_eq _ _ object;
      capability = text_eq _ _ capability;
      implementation = text_eq _ _ implementation;
      definition_version =
          is_int_eq d.definition_version grant.definition_version definition_version;
      source_version = is_int_eq n grant.source_authority_version source;
      scope = text_eq _ _ scope;
      human = λ required. is_approved-IsApproved grant subject_ref plan_ref (approved required);
    }

known-IsAuthority :
    (grant : AuthorityEvidence) (d : Definition) (n : ℕ) (subject_ref : String)
    (plan_ref : Option String)
    → (known_grant_check grant d n subject_ref plan_ref).0 ≡ Control.pass
    → IsAuthority grant d n subject_ref plan_ref
unfolding known_grant_check
known-IsAuthority grant d n subject_ref plan_ref h = elim (Bool-cases (is_scoped grant d n)) [
  | inr out ↦ absurd (cc (rw out at h))
  | inl scoped ↦ elim (Bool-cases (is_approved grant subject_ref plan_ref)) [
    | inl approved ↦ scoped-IsAuthority grant d n subject_ref plan_ref scoped (λ _. approved)
    | inr refused ↦
        scoped-IsAuthority grant d n subject_ref plan_ref scoped
          (λ required. absurd (cc (rw (scoped, refused, required) at h)))
  ]
]

-- A grant check that passes was given a grant, and that grant is active, from the fixture's issuer to
-- the fixture's user, for the definition's object, capability and implementation and the scope
-- DOC-001:DRAFT:REVIEW, at exactly the definition's version and the source version (as integers, never as
-- truth values); and where it asks for a human, the fixture's human issuer has approved exactly the
-- expected subject, and a policy is named.
pub grant_check-IsAuthority :
    (grant : Option AuthorityEvidence) (d : Definition) (n : ℕ) (subject_ref : String)
    (plan_ref : Option String)
    → (grant_check grant d n subject_ref plan_ref).0 ≡ Control.pass
    → (g : AuthorityEvidence) × (grant ≡ some g) × IsAuthority g d n subject_ref plan_ref
unfolding grant_check
grant_check-IsAuthority none d n subject_ref plan_ref h = cc
grant_check-IsAuthority (some g) d n subject_ref plan_ref h = elim (Bool-cases (is_some g.active)) [
  | inl known ↦ (g, refl, known-IsAuthority g d n subject_ref plan_ref (rw known at h))
  | inr unknown ↦ absurd (cc (rw unknown at h))
]
