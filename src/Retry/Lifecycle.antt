-- ===== src/Retry/Lifecycle.antt =====
-- src/gsrr_slice01/retry.py: `start`, `bind`, `fail` and `admission`.
use gsrr_agent_harness.Prelude.{
  ℕ, String, Bool, true, false, not, ◌&&◌, Option, none, some, List, [], ◌∷◌, ◌==◌, string_eq,
  concat, if◌then◌else◌,
}
use gsrr_agent_harness.Exec.{Error, Exec, pure, raise, gets, raise_if, ◌>>=◌, ◌>>◌}
use gsrr_agent_harness.Shared.{Shared, in_journal, own_gets, own_modify}
use gsrr_agent_harness.Contracts.Enums.{Control}
use gsrr_agent_harness.Contracts.Attempts.{Attempt, ScopeLedger}
use gsrr_agent_harness.Contracts.Planning.{ApprovedTransition}
use gsrr_agent_harness.Contracts.Plans.{ExecutionEnvelope}
use gsrr_agent_harness.Contracts.Record.{Record}
use gsrr_agent_harness.Journal.Defs.{new_id, retain}
use gsrr_agent_harness.Retry.Defs.{
  Supervisor, current, remember_ledger, emit_call, emit, set_control,
}

-- `not xs`
abbrev pub is_empty {ℓ} : {A : Type ℓ} → List A → Bool
is_empty [] = true
is_empty (x ∷ xs) = false

-- `Attempt(id, number, prior)`
abbrev pub fresh_attempt : String → ℕ → Option String → Attempt
fresh_attempt ref number prior = record {
  attempt_id = ref;
  attempt_number = number;
  prior_attempt_id = prior;
  terminal = false;
  failure_class = none;
}

abbrev pub set_attempts : List Attempt → Supervisor → Supervisor
set_attempts attempts s = record s { attempts = attempts }

unfoldable pub start : Exec (Shared Supervisor) Attempt
start = do
  attempts ← own_gets (λ s. s.attempts)
  raise_if (not (is_empty attempts)) (Error.retention_error "initial attempt already exists")
  ref ← in_journal (new_id "attempt")
  let a = fresh_attempt ref 1 none
  own_modify (set_attempts (a ∷ []))
  in_journal (retain a.attempt_id (Record.attempt a))
  emit (record (emit_call "ATTEMPT_START" "AttemptStarted" Control.pass) {
    refs = a.attempt_id ∷ [];
    reason = "NOT_YET_CREATED: parent, approval, envelope and scope";
  })
  pure a

-- An attribute of an object that may be None.
unfoldable pub need : {S A : Type 0} → Option A → Exec S A
need none = raise (Error.attribute_error "NoneType")
need (some a) = pure a

abbrev pub set_bound : ApprovedTransition → ExecutionEnvelope → Supervisor → Supervisor
set_bound approval envelope s = record s { approval = some approval; envelope = some envelope }

abbrev pub set_ledger : ScopeLedger → Supervisor → Supervisor
set_ledger l s = record s { ledger = some l }

abbrev pub policy_text : Supervisor → String
policy_text s = elim s.policy [ none ↦ "" | some p ↦ p.policy_id ]

-- `ScopeLedger(ref, policy, 1, attempt)`
abbrev pub first_ledger : String → String → String → ScopeLedger
first_ledger ref policy attempt = record {
  scope_ref = ref;
  policy_ref = policy;
  attempts_created = 1;
  active_attempt_id = some attempt;
  scheduled_attempt_id = none;
  admission_seen = some false;
  circuit_state = "CLOSED";
  scheduling_known = true;
}

abbrev pub is_some {ℓ} : {A : Type ℓ} → Option A → Bool
is_some none = false
is_some (some _) = true

-- The scope's ledger, made for the current attempt.
unfoldable pub bind_scope :
    ApprovedTransition
    → ExecutionEnvelope
    → String
    → String
    → Attempt
    → Exec (Shared Supervisor) (Unit {0})
bind_scope approval envelope ref policy a = do
  own_modify (set_ledger (first_ledger ref policy a.attempt_id))
  remember_ledger
  emit (record (emit_call "ATTEMPT_START" "AttemptStarted" Control.pass) {
    refs = a.attempt_id ∷ ref ∷ approval.approval_id ∷ envelope.envelope_id ∷ [];
    reason = "SCOPE_BOUND: same initial attempt counted once";
    before = some 0;
    after = some 1;
  })
  pure tt

unfoldable pub bind : ApprovedTransition → ExecutionEnvelope → Exec (Shared Supervisor) (Unit {0})
bind approval envelope = do
  bound ← own_gets (λ s. is_some s.ledger)
  raise_if bound (Error.retention_error "scope already bound")
  own_modify (set_bound approval envelope)
  ref ← in_journal (new_id "scope")
  run ← in_journal (gets (λ j. j.run_id))
  in_journal (
      retain ref (
        Record.strings
          (run ∷ envelope.transition_id ∷ approval.approval_id ∷ envelope.envelope_id ∷ [])))
  policy ← own_gets policy_text
  now ← own_gets current
  a ← need now
  bind_scope approval envelope ref policy a

-- `attempts[:-1] + (a,)`
abbrev pub replace_last {ℓ} : {A : Type ℓ} → A → List A → List A
replace_last a [] = a ∷ []
replace_last a (x ∷ []) = a ∷ []
replace_last a (x ∷ y ∷ r) = x ∷ replace_last a (y ∷ r)

abbrev pub held_or_refused : Control → String
held_or_refused Control.hold_ambiguous = "TransitionHeld"
held_or_refused Control.human_authorization_required = "TransitionHeld"
held_or_refused _ = "TransitionRefused"

abbrev pub deactivated : ScopeLedger → ScopeLedger
deactivated l = record l { active_attempt_id = none }

-- `self.ledger = replace(self.ledger, active_attempt_id=None)`, if there is one
unfoldable pub release_scope : Option ScopeLedger → Exec (Shared Supervisor) (Unit {0})
release_scope none = pure tt
release_scope (some l) = do own_modify (set_ledger (deactivated l)); remember_ledger

-- `d[k] = v` on a dict in insertion order
module _ {V : Type 0} where
  unfoldable pub put : String → V → List (String × V) → List (String × V)
  put k v [] = (k, v) ∷ []
  put k v ((j, w) ∷ d) = if j == k then (k, v) ∷ d else (j, w) ∷ put k v d

  -- `d.get(k)`
  unfoldable pub find : String → List (String × V) → Option V
  find k [] = none
  find k ((j, w) ∷ d) = if j == k then some w else find k d

abbrev pub set_failure_ref : String → String → Supervisor → Supervisor
set_failure_ref a e s = record s { failure_refs = put a e s.failure_refs }

abbrev pub terminated : String → Attempt → Attempt
terminated failure_class a = record a { terminal = true; failure_class = some failure_class }

-- The rest of `fail`, on a current attempt that is not terminal.
unfoldable pub fail_attempt :
    Control → String → List String → Bool → Attempt → Exec (Shared Supervisor) (Unit {0})
fail_attempt control failure_class refs retained a = do
  own_modify (λ s. set_attempts (replace_last (terminated failure_class a) s.attempts) s)
  in_journal (
      retain (concat (a.attempt_id ∷ ":terminal" ∷ []))
        (Record.attempt (terminated failure_class a)))
  release_scope (← own_gets (λ s. s.ledger))
  event ← emit (record (emit_call "TERMINAL_FAILURE" (held_or_refused control) control) {
    refs = refs;
    reason = failure_class;
  })
  own_modify (
      if retained
      then set_failure_ref a.attempt_id event.event_id
      else set_control Control.hold_ambiguous)

abbrev pub fail_current :
    Control → String → List String → Bool → Option Attempt → Exec (Shared Supervisor) (Unit {0})
fail_current control failure_class refs retained none = pure tt
fail_current control failure_class refs retained (some a) =
    if a.terminal then pure tt else fail_attempt control failure_class refs retained a

unfoldable pub fail : Control → String → List String → Bool → Exec (Shared Supervisor) (Unit {0})
fail control failure_class refs retained = do
  fail_current control failure_class refs retained (← own_gets current)

-- `x is False`
abbrev pub is_false : Option Bool → Bool
is_false (some false) = true
is_false _ = false

-- `x == text`, of a text or None
abbrev pub is_text_of : String → Option String → Bool
is_text_of text none = false
is_text_of text (some t) = t == text

-- The test of `admission` on a bound scope and its current attempt.
abbrev pub admissible : ScopeLedger → Attempt → Bool
admissible l a =
    not a.terminal
    && is_text_of a.attempt_id l.active_attempt_id
    && l.circuit_state == "CLOSED"
    && l.scheduling_known
    && is_false l.admission_seen

abbrev pub admitted : ScopeLedger → ScopeLedger
admitted l = record l { admission_seen = some true }

unfoldable pub admit_scope : Option ScopeLedger → Exec (Shared Supervisor) (Unit {0})
admit_scope none = raise (Error.retention_error "attempt cannot be admitted")
admit_scope (some l) = do
  a ← need (← own_gets current)
  raise_if (not (admissible l a)) (Error.retention_error "attempt cannot be admitted")
  own_modify (set_ledger (admitted l))
  remember_ledger

unfoldable pub admission : Exec (Shared Supervisor) (Unit {0})
admission = do admit_scope (← own_gets (λ s. s.ledger))
