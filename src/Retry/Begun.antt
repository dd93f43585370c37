-- ===== src/Retry/Begun.antt =====
-- src/gsrr_slice01/retry.py: no method takes the attempts away, once there is one.
use gsrr_agent_harness.Prelude.{
  ℕ, String, ◌≡◌, refl, sym, Bool, true, false, not, Option, none, some, List, [], ◌∷◌, ◌++◌,
  if◌then◌else◌,
}
use gsrr_agent_harness.Exec.{Exec}
use gsrr_agent_harness.Exec.Keeps.{Keeps, Keeps-bind, Keeps-gets, keeps_rules}
use gsrr_agent_harness.Exec.Triple.{
  Ends-either, Triple, Triple-bind, Triple-raise_when, Triple-keeps, Triple-pre,
}
use gsrr_agent_harness.Shared.{
  Shared, in_journal, in_journal-own, own_gets, own_modify, own_modify-own, read, write,
}
use gsrr_agent_harness.Contracts.Enums.{Control}
use gsrr_agent_harness.Contracts.Attempts.{Attempt, ScopeLedger}
use gsrr_agent_harness.Contracts.Planning.{ApprovedTransition}
use gsrr_agent_harness.Contracts.Plans.{ExecutionEnvelope}
use gsrr_agent_harness.Journal.Defs.{Journal, new_id}
use gsrr_agent_harness.Retry.Defs.{Supervisor, remember_ledger, EmitCall, emit, set_control}
use gsrr_agent_harness.Retry.Lifecycle.{
  is_empty, start, set_attempts, fresh_attempt, bind_scope, bind, release_scope, replace_last,
  terminated, set_failure_ref, fail_attempt, fail_current, fail, admit_scope, admission,
}
use gsrr_agent_harness.Retry.Frame.{owned, remember_ledger-owned, emit-owned}
use gsrr_agent_harness.Retry.Journaled.{need-Keeps}

-- The supervisor has made an attempt.
abbrev pub HasAttempt : Supervisor → Type 0
HasAttempt s = is_empty s.attempts ≡ false

pub begun_journal : {A : Type 0} (m : Exec Journal A) → Keeps (owned HasAttempt) (in_journal m)
begun_journal m = in_journal-own HasAttempt m

pub begun_gets : {A : Type 0} (f : Supervisor → A) → Keeps (owned HasAttempt) (own_gets f)
unfolding own_gets
begun_gets f = Keeps-gets _

-- An assignment that leaves the attempts alone.
pub begun_modify :
    (f : Supervisor → Supervisor)
    → ((s : Supervisor) → (f s).attempts ≡ s.attempts)
    → Keeps (owned HasAttempt) (own_modify f)
begun_modify f same = own_modify-own HasAttempt f (λ s h. rw (same s) h)

pub begun_emit : (c : EmitCall) → Keeps (owned HasAttempt) (emit c)
begun_emit = emit-owned HasAttempt (λ c s h. h)

pub begun_remember : Keeps (owned HasAttempt) remember_ledger
begun_remember = remember_ledger-owned HasAttempt

pub ruleset begun_rules = (
  keeps_rules, need-Keeps, begun_journal, begun_gets, begun_emit, begun_remember, begun_modify,
  refl,
)

pub begun_attempts :
    (f : Supervisor → Supervisor)
    → ((s : Supervisor) → HasAttempt (f s))
    → Keeps (owned HasAttempt) (own_modify f)
begun_attempts f h = own_modify-own HasAttempt f (λ s _. h s)

pub not-eq-true : (b : Bool) → not b ≡ true → b ≡ false
not-eq-true true e = cc
not-eq-true false e = refl

fresh_id :
    (kind : String)
    → Triple
        (λ (s : Shared Supervisor). Unit {0})
        (in_journal (new_id kind))
        (λ ref s. Unit {0})
        (λ s. HasAttempt s.own)
unfolding in_journal new_id
fresh_id kind = record { at = λ s h. tt }

begins :
    Triple
      (λ (s : Shared Supervisor). Unit {0})
      start
      (λ a s. HasAttempt s.own)
      (λ s. HasAttempt s.own)
unfolding start
begins = Triple-bind _ _ (read (λ o. Unit {0}) HasAttempt (λ s. s.attempts)) λ attempts.
    Triple-bind _ _
      (Triple-raise_when (not (is_empty attempts)) _
        (λ e s h. rw (sym h.1) (not-eq-true (is_empty attempts) e)))
      λ _. Triple-bind _ _ (Triple-pre _ (λ s h. tt) (fresh_id "attempt")) λ ref.
        Triple-bind _ _
          (write (λ o. Unit {0}) HasAttempt HasAttempt
            (set_attempts (fresh_attempt ref 1 none ∷ [])) (λ s h. refl))
          λ _. Triple-keeps _ (search begun_rules depth 12)

pub begun_start : Keeps (owned HasAttempt) start
unfolding start
begun_start = search (begun_rules, begun_attempts) depth 18

begun_bind_scope :
    (approval : ApprovedTransition) (envelope : ExecutionEnvelope) (ref policy : String)
    (a : Attempt)
    → Keeps (owned HasAttempt) (bind_scope approval envelope ref policy a)
unfolding bind_scope
begun_bind_scope approval envelope ref policy a = search begun_rules depth 14

pub begun_bind :
    (approval : ApprovedTransition) (envelope : ExecutionEnvelope)
    → Keeps (owned HasAttempt) (bind approval envelope)
unfolding bind
begun_bind approval envelope = search (begun_rules, begun_bind_scope) depth 22

begun_release : (l : Option ScopeLedger) → Keeps (owned HasAttempt) (release_scope l)
unfolding release_scope
begun_release none = search keeps_rules
begun_release (some l) = search begun_rules depth 7

is_empty-replace_last : (a : Attempt) (xs : List Attempt) → is_empty (replace_last a xs) ≡ false
is_empty-replace_last a [] = refl
is_empty-replace_last a (x ∷ []) = refl
is_empty-replace_last a (x ∷ y ∷ rest) = refl

pub is_empty-append : (xs : List Attempt) (a : Attempt) → is_empty (xs ++ a ∷ []) ≡ false
is_empty-append [] a = refl
is_empty-append (x ∷ xs) a = refl

recorded_same :
    (retained : Bool) (a e : String) (s : Supervisor)
    → ((if retained then set_failure_ref a e else set_control Control.hold_ambiguous) s).attempts
      ≡ s.attempts
recorded_same true a e s = refl
recorded_same false a e s = refl

begun_fail_attempt :
    (control : Control) (failure_class : String) (refs : List String) (retained : Bool)
    (a : Attempt)
    → Keeps (owned HasAttempt) (fail_attempt control failure_class refs retained a)
unfolding fail_attempt
begun_fail_attempt control failure_class refs retained a =
    Keeps-bind _ _
      (begun_attempts _ (λ s. is_empty-replace_last (terminated failure_class a) s.attempts))
      λ _. search (begun_rules, begun_release, recorded_same) depth 16

begun_fail_current :
    (control : Control) (failure_class : String) (refs : List String) (retained : Bool)
    (now : Option Attempt)
    → Keeps (owned HasAttempt) (fail_current control failure_class refs retained now)
begun_fail_current control failure_class refs retained none = search keeps_rules
begun_fail_current control failure_class refs retained (some a) =
    search (keeps_rules, begun_fail_attempt) depth 7

pub begun_fail :
    (control : Control) (failure_class : String) (refs : List String) (retained : Bool)
    → Keeps (owned HasAttempt) (fail control failure_class refs retained)
unfolding fail
begun_fail control failure_class refs retained = search (begun_rules, begun_fail_current) depth 7

begun_admit_scope : (l : Option ScopeLedger) → Keeps (owned HasAttempt) (admit_scope l)
unfolding admit_scope
begun_admit_scope none = search keeps_rules
begun_admit_scope (some l) = search begun_rules depth 14

pub begun_admission : Keeps (owned HasAttempt) admission
unfolding admission
begun_admission = search (begun_rules, begun_admit_scope) depth 7

-- Whatever state `start` is called in, and however it ends, there is an attempt after it.
pub start_begins : (s : Shared Supervisor) → HasAttempt (start s).1.own
start_begins s = Ends-either (λ t. HasAttempt t.own) (start s) (begins.at s tt)
