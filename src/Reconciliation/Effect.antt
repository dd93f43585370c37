-- ===== src/Reconciliation/Effect.antt =====
-- src/gsrr_slice01/reconciliation.py: what the tests of a success establish of the observation.
use gsrr_agent_harness.Prelude.{
  ℕ, ◌+◌, String, ◌≡◌, refl, ap, Bool, true, false, not, ◌&&◌, ◌||◌, Option, none, some, List, [],
  ◌∷◌, inl, inr, Bool-cases, arith, text_eq, nat_beq_eq, ◌==◌, string_eq, nat_eq, all,
}
use gsrr_agent_harness.Contracts.Enums.{Report}
use gsrr_agent_harness.Contracts.Effects.{Action, ObservedState}
use gsrr_agent_harness.Contracts.Planning.{AuthoritativeStateSnapshot}
use gsrr_agent_harness.Contracts.Plans.{ExecutionEnvelope}
use gsrr_agent_harness.Contracts.Results.{ExecutionResult}
use gsrr_agent_harness.Retry.Lifecycle.{is_text_of}
use gsrr_agent_harness.Reconciliation.Evidence.{
  is_nat, is_failure, is_unknown_report, is_forbidden, forbidden_of, listed, unrelated, is_stale,
  is_single, is_identity, is_target,
}
use gsrr_agent_harness.Reconciliation.Reconcile.{findings_of}
use gsrr_agent_harness.Reconciliation.Outcome.{IsClean}

-- The observation is of the envelope's object, by the state provider, and shows the approved effect,
-- once, by the reconciled invocation.
pub record IsEffect (e : ExecutionEnvelope) (before : AuthoritativeStateSnapshot)
    (baseline : ObservedState) (result : ExecutionResult) (o : ObservedState)
    (authority_version : ℕ) : Type 0 where
  pub reported : result.reported_status ≡ Report.success
  pub authority : authority_version ≡ before.authority_version
  pub state : o.state ≡ e.target_state
  pub digest : o.content_digest ≡ baseline.content_digest
  pub version : o.observation_version ≡ baseline.observation_version + 1
  pub exists : o.exists ≡ true
  pub predecessor : o.predecessor_version ≡ some baseline.observation_version
  pub object : (o.object_id ≡ e.object_id) × (result.object_id ≡ e.object_id)
  pub provider : o.provider_id ≡ "STATE_PROVIDER"
  pub boundary : o.fixture_boundary_ref ≡ e.fixture_boundary_ref
  pub invocation : result.commit_id ≡ result.invocation_id
  pub commit : o.commit_id ≡ some result.commit_id
  pub action :
      (a : Action) × (listed o.actions ≡ a ∷ [])
      × (a.applied ≡ true)
      × (is_forbidden e a ≡ false)
      × (a.invocation_id ≡ result.commit_id)
      × (a.before_version ≡ baseline.observation_version)
      × (a.after_version ≡ baseline.observation_version + 1)

report_success :
    (r : Report) → is_failure r ≡ false → is_unknown_report r ≡ false → r ≡ Report.success
report_success Report.success f u = refl
report_success Report.failure f u = cc
report_success Report.unknown f u = cc

target_conditions :
    (a b c d f g h : Bool)
    → (a && b && c && d && f && g && h) ≡ true
    → (a ≡ true) × (b ≡ true) × (c ≡ true) × (d ≡ true) × (f ≡ true) × (g ≡ true) × (h ≡ true)
target_conditions a b c d f g h all = ground arith

identity_conditions :
    (a b c d f g : Bool)
    → (a && b && c && d && f && g) ≡ true
    → (a ≡ true) × (b ≡ true) × (c ≡ true) × (d ≡ true) × (f ≡ true) × (g ≡ true)
identity_conditions a b c d f g all = ground arith

single_conditions : (a b c : Bool) → (a && b && c) ≡ true → (a ≡ true) × (b ≡ true) × (c ≡ true)
single_conditions a b c all = ground arith

-- The one action of a list that passes `is_single`, in a list without a forbidden action.
abbrev Applied : ExecutionEnvelope → List Action → String → ℕ → Type 0
Applied e actions ref n =
    (a : Action) × (actions ≡ a ∷ [])
    × (a.applied ≡ true)
    × (is_forbidden e a ≡ false)
    × (a.invocation_id ≡ ref)
    × (a.before_version ≡ n)
    × (a.after_version ≡ n + 1)

single_allowed :
    (e : ExecutionEnvelope) (a : Action) → forbidden_of e (a ∷ []) ≡ [] → is_forbidden e a ≡ false
unfolding forbidden_of
single_allowed e a h = elim (Bool-cases (is_forbidden e a)) [
  | inl bad ↦ absurd (cc (rw bad at h))
  | inr good ↦ good
]

is_single-Applied :
    (e : ExecutionEnvelope) (actions : List Action) (ref : String) (n : ℕ)
    → is_single actions n ≡ true
    → forbidden_of e actions ≡ []
    → all (λ a. a.invocation_id == ref) actions ≡ true
    → Applied e actions ref n
is_single-Applied e [] ref n h k own = cc
is_single-Applied e (a ∷ []) ref n h k own =
    let (applied, version, after) =
      single_conditions a.applied (a.before_version == n) (a.after_version == n + 1) h in
    (
      a,
      refl,
      applied,
      single_allowed e a k,
      text_eq a.invocation_id ref (one_of (a.invocation_id == ref) own),
      nat_beq_eq a.before_version n version,
      nat_beq_eq a.after_version (n + 1) after,
    )
  where
    one_of : (b : Bool) → (b && true) ≡ true → b ≡ true
    one_of b q = ground arith
is_single-Applied e (a ∷ b ∷ rest) ref n h k own = cc

is_nat_eq : (n : ℕ) (o : Option ℕ) → is_nat n o ≡ true → o ≡ some n
is_nat_eq n none h = cc
is_nat_eq n (some m) h = ap some (nat_beq_eq m n h)

is_text_of-eq : (t : String) (o : Option String) → is_text_of t o ≡ true → o ≡ some t
is_text_of-eq t none h = cc
is_text_of-eq t (some s) h = ap some (text_eq s t h)

stale_authority :
    (before : AuthoritativeStateSnapshot) (baseline : ObservedState) (result : ExecutionResult)
    (observed : Option ObservedState) (n : ℕ)
    → is_stale before baseline result observed n ≡ false
    → n ≡ before.authority_version
unfolding is_stale
stale_authority before baseline result observed n h =
    nat_beq_eq n before.authority_version
      (same (n == before.authority_version) (unrelated result baseline observed) h)
  where
    same : (a b : Bool) → (not a || b) ≡ false → a ≡ true
    same a b k = ground arith

-- The evidence behind clean findings.
pub clean-IsEffect :
    (e : ExecutionEnvelope) (before : AuthoritativeStateSnapshot) (baseline : ObservedState)
    (result : ExecutionResult) (observed : Option ObservedState) (n : ℕ) (complete : Bool)
    (attributed : Bool × Bool)
    → IsClean (findings_of e before baseline result observed n complete attributed)
    → is_unknown_report result.reported_status ≡ false
    → (o : ObservedState) × (observed ≡ some o) × IsEffect e before baseline result o n
unfolding is_target is_identity
clean-IsEffect e before baseline result none n complete attributed h known =
    let impossible = h.target in cc
clean-IsEffect e before baseline result (some o) n complete attributed h known =
    let (state, there, digest, version, predecessor, commit, single) =
      target_conditions (o.state == e.target_state) o.exists
        (o.content_digest == baseline.content_digest)
        (o.observation_version == baseline.observation_version + 1)
        (is_nat baseline.observation_version o.predecessor_version)
        (is_text_of result.commit_id o.commit_id)
        (is_single (listed o.actions) baseline.observation_version) h.target in
    let (object, provider, boundary, invocation, result_object, own) =
      identity_conditions (o.object_id == e.object_id) (o.provider_id == "STATE_PROVIDER")
        (o.fixture_boundary_ref == e.fixture_boundary_ref)
        (result.commit_id == result.invocation_id) (result.object_id == e.object_id)
        (all (λ a. a.invocation_id == result.commit_id) (listed o.actions)) h.identity in
    (
      o,
      refl,
      record {
        reported = report_success result.reported_status h.failed known;
        authority = stale_authority before baseline result (some o) n h.stale;
        state = text_eq o.state e.target_state state;
        digest = text_eq o.content_digest baseline.content_digest digest;
        version = nat_beq_eq o.observation_version (baseline.observation_version + 1) version;
        exists = there;
        predecessor = is_nat_eq baseline.observation_version o.predecessor_version predecessor;
        object = (text_eq _ _ object, text_eq _ _ result_object);
        provider = text_eq _ _ provider;
        boundary = text_eq _ _ boundary;
        invocation = text_eq _ _ invocation;
        commit = is_text_of-eq result.commit_id o.commit_id commit;
        action =
            is_single-Applied e (listed o.actions) result.commit_id baseline.observation_version
              single h.forbidden own;
      },
    )
