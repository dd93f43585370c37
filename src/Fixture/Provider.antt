-- ===== src/Fixture/Provider.antt =====
-- src/gsrr_slice01/fixture.py: the provider's one action interval, and the actions applied in it.
use gsrr_agent_harness.Prelude.{
  ℕ, ◌+◌, String, Bool, true, false, ◌&&◌, ◌||◌, Option, none, some, List, [], ◌∷◌, ◌++◌, length,
  drop, concat, decimal, ◌==◌, string_eq, nat_eq, if◌then◌else◌,
}
use gsrr_agent_harness.Exec.{Error, Exec, pure, raise, raise_if, ◌>>=◌, ◌>>◌}
use gsrr_agent_harness.Shared.{Shared, in_journal, own_gets, own_modify}
use gsrr_agent_harness.Contracts.Values.{Scalar}
use gsrr_agent_harness.Contracts.Domain.{FixedInput}
use gsrr_agent_harness.Contracts.Effects.{Action}
use gsrr_agent_harness.Contracts.Record.{Record}
use gsrr_agent_harness.Journal.Defs.{retain}
use gsrr_agent_harness.Fixture.Defs.{ActionRequest, EffectView, Provider}

-- `current_invocation is not None`
abbrev pub is_claimed : Option String → Bool
is_claimed none = false
is_claimed (some c) = true

abbrev pub opened_interval : String → Provider → Provider
opened_interval commit_id s = record s {
  current_invocation = some commit_id;
  interval_start = length s.actions;
  invocation_count = s.invocation_count + 1;
  closed = false;
}

unfoldable pub open_interval : String → Exec (Shared Provider) (Unit {0})
open_interval commit_id = do
  now ← own_gets (λ s. s.current_invocation)
  raise_if (is_claimed now) (Error.value_error "single invocation already claimed")
  own_modify (opened_interval commit_id)

-- `n == v`
abbrev pub is_number : ℕ → Scalar → Bool
is_number n (Scalar.int m) = n == m
is_number n (Scalar.bool b) = n == (if b then 1 else 0)
is_number n _ = false

-- `allowed`: the one request that a fixed input stands for, from the state that it names.
unfoldable pub is_allowed : ActionRequest → FixedInput → EffectView → Bool
is_allowed request fixed before =
    request.object_id == fixed.object_id
    && fixed.object_id == "DOC-001"
    && request.kind == "STATE"
    && (request.value == fixed.target_state && fixed.target_state == "REVIEW")
    && (before.state == fixed.source_state && fixed.source_state == "DRAFT")
    && is_number before.version fixed.expected_observation_version

abbrev pub is_writable : String → Bool
is_writable kind = kind == "STATE" || kind == "CONTENT_WRITE" || kind == "EXISTS"

unfoldable pub is_applied : ActionRequest → FixedInput → Bool → EffectView → Bool
is_applied request fixed diagnostic before =
    is_allowed request fixed before
    || (diagnostic && is_writable request.kind && request.object_id == "DOC-001")

-- The view after a request that is applied.
abbrev pub written : ActionRequest → String → EffectView → EffectView
written request invocation before = record {
  state = if request.kind == "STATE" then request.value else before.state;
  digest = if request.kind == "CONTENT_WRITE" then request.value else before.digest;
  exists = if request.kind == "EXISTS" then request.value == "true" else before.exists;
  version = before.version + 1;
  predecessor = some before.version;
  commit_id = some invocation;
}

unfoldable pub view_after : ActionRequest → FixedInput → Bool → String → EffectView → EffectView
view_after request fixed diagnostic invocation before =
    if is_applied request fixed diagnostic before then written request invocation before else before

-- The log's entry for a request.
abbrev pub new_entry : ActionRequest → FixedInput → Bool → String → Provider → Action
new_entry request fixed diagnostic invocation s =
    let after = view_after request fixed diagnostic invocation s.view in
    record {
      sequence = length s.actions + 1;
      invocation_id = invocation;
      object_id = request.object_id;
      action_kind = request.kind;
      requested_value = request.value;
      applied = is_applied request fixed diagnostic s.view;
      before_state = s.view.state;
      after_state = after.state;
      before_exists = s.view.exists;
      after_exists = after.exists;
      before_digest = s.view.digest;
      after_digest = after.digest;
      before_version = s.view.version;
      after_version = after.version;
      reason = if is_allowed request fixed s.view then none else some "FORBIDDEN_REQUEST";
    }

abbrev pub log_action : Action → Provider → Provider
log_action entry s = record s { actions = s.actions ++ entry ∷ [] }

abbrev pub set_view : EffectView → Provider → Provider
set_view view s = record s { view = view }

-- f"{invocation}:action:{sequence}"
abbrev pub action_ref : String → ℕ → String
action_ref invocation sequence = concat (invocation ∷ ":action:" ∷ decimal sequence ∷ [])

-- `apply` in an interval that is open.
unfoldable pub apply_in : ActionRequest → FixedInput → Bool → String → Exec (Shared Provider) Action
apply_in request fixed diagnostic invocation = do
  before ← own_gets (λ s. s.view)
  entry ← own_gets (new_entry request fixed diagnostic invocation)
  own_modify (log_action entry)
  in_journal (retain (action_ref invocation entry.sequence) (Record.action entry))
  own_modify (set_view (view_after request fixed diagnostic invocation before))
  pure entry

unfoldable pub apply_at :
    ActionRequest → FixedInput → Bool → Option String → Bool → Exec (Shared Provider) Action
apply_at request fixed diagnostic none closed =
    raise (Error.value_error "no active admitted invocation")
apply_at request fixed diagnostic (some invocation) closed =
    if closed
    then raise (Error.value_error "no active admitted invocation")
    else apply_in request fixed diagnostic invocation

unfoldable pub apply : ActionRequest → FixedInput → Bool → Exec (Shared Provider) Action
apply request fixed diagnostic = do
  now ← own_gets (λ s. s.current_invocation)
  closed ← own_gets (λ s. s.closed)
  apply_at request fixed diagnostic now closed

-- f"{self.current_invocation}:interval"
abbrev pub interval_ref : Option String → String
interval_ref none = "None:interval"
interval_ref (some invocation) = concat (invocation ∷ ":interval" ∷ [])

abbrev pub close : Provider → Provider
close s = record s { closed = true }

-- `self.actions[self.interval_start:]`
abbrev pub interval_actions : Provider → List Action
interval_actions s = drop s.interval_start s.actions

unfoldable pub close_interval : Exec (Shared Provider) String
close_interval = do
  own_modify close
  ref ← own_gets (λ s. interval_ref s.current_invocation)
  actions ← own_gets interval_actions
  in_journal (retain ref (Record.actions actions))
  pure ref
