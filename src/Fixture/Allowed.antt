-- ===== src/Fixture/Allowed.antt =====
-- src/gsrr_slice01/fixture.py: which requests change the effect view, and to what.
use gsrr_agent_harness.Prelude.{
  String, ◌≡◌, refl, ap, ◌∙◌, Bool, true, false, ◌&&◌, ◌⊎◌, inl, inr, some, Bool-cases, arith, ◌==◌,
  string_eq, text_eq,
}
use gsrr_agent_harness.Contracts.Domain.{FixedInput}
use gsrr_agent_harness.Fixture.Defs.{ActionRequest, EffectView, new_view}
use gsrr_agent_harness.Fixture.Provider.{is_number, is_allowed, is_applied, written, view_after}

-- The view after the transition of one invocation.
abbrev pub reviewed : String → EffectView
reviewed invocation = record new_view {
  state = "REVIEW";
  version = 2;
  predecessor = some 1;
  commit_id = some invocation;
}

-- The view has not been changed, or once, by the invocation.
abbrev pub Single : String → EffectView → Type 0
Single invocation view = (view ≡ new_view) ⊎ (view ≡ reviewed invocation)

conditions :
    (a b k v t s d n : Bool)
    → (a && b && k && (v && t) && (s && d) && n) ≡ true
    → (k ≡ true) × (v ≡ true) × (t ≡ true) × (s ≡ true) × (d ≡ true)
conditions a b k v t s d n h = ground arith

-- An allowed request asks for REVIEW, of a view in DRAFT.
is_allowed_facts :
    (request : ActionRequest) (fixed : FixedInput) (before : EffectView)
    → is_allowed request fixed before ≡ true
    → (request.kind ≡ "STATE") × (request.value ≡ "REVIEW") × (before.state ≡ "DRAFT")
unfolding is_allowed
is_allowed_facts request fixed before h =
    let (kind, value, review, state, draft) =
      conditions (request.object_id == fixed.object_id) (fixed.object_id == "DOC-001")
        (request.kind == "STATE") (request.value == fixed.target_state)
        (fixed.target_state == "REVIEW") (before.state == fixed.source_state)
        (fixed.source_state == "DRAFT")
        (is_number before.version fixed.expected_observation_version) h in
    (
      text_eq _ _ kind,
      text_eq _ _ value ∙ text_eq _ _ review,
      text_eq _ _ state ∙ text_eq _ _ draft,
    )

written-reviewed :
    (request : ActionRequest) (invocation : String)
    → request.kind ≡ "STATE"
    → request.value ≡ "REVIEW"
    → written request invocation new_view ≡ reviewed invocation
written-reviewed request invocation k v = rw (k, v) refl

-- The view that an allowed request leaves.
allowed-Single :
    (request : ActionRequest) (fixed : FixedInput) (invocation : String) (view : EffectView)
    → is_allowed request fixed view ≡ true
    → Single invocation view
    → Single invocation (written request invocation view)
allowed-Single request fixed invocation view allowed (inl untouched) =
    let (kind, value, _) = is_allowed_facts request fixed view allowed in
    inr (ap (written request invocation) untouched ∙ written-reviewed request invocation kind value)
allowed-Single request fixed invocation view allowed (inr done) =
    let (_, _, draft) = is_allowed_facts request fixed view allowed in
    let review : view.state ≡ "REVIEW" = ap (λ (v : EffectView). v.state) done in
    absurd (cc (draft, review))

pub view_after-Single :
    (request : ActionRequest) (fixed : FixedInput) (invocation : String) (view : EffectView)
    → Single invocation view
    → Single invocation (view_after request fixed false invocation view)
unfolding view_after is_applied
view_after-Single request fixed invocation view h =
    elim (Bool-cases (is_allowed request fixed view)) [
      | inl allowed ↦ rw allowed (allowed-Single request fixed invocation view allowed h)
      | inr refused ↦ rw refused h
    ]
