-- ===== src/Retry/Lined.antt =====
-- src/gsrr_slice01/retry.py: what only `start` and `successor` change of the supervisor: which attempt is
-- the current one, how many there are, and what has been scheduled.
use gsrr_agent_harness.Prelude.{
  String, ◌≡◌, refl, sym, ap, ◌∙◌, Bool, true, false, Option, none, some, List, [], ◌∷◌, length,
  last, if◌then◌else◌,
}
use mathlib.Core.Option
use gsrr_agent_harness.Exec.{Exec, pure, modify, ◌>>=◌}
use gsrr_agent_harness.Exec.Keeps.{
  Order, Keeps, Keeps-bind, Keeps-gets, Keeps-gets_bind, keeps_rules,
}
use gsrr_agent_harness.Shared.{Shared, in_journal, own_gets, own_modify}
use gsrr_agent_harness.Contracts.Enums.{Control}
use gsrr_agent_harness.Contracts.Domain.{RetryPolicy}
use gsrr_agent_harness.Contracts.Attempts.{Attempt, ScopeLedger}
use gsrr_agent_harness.Contracts.Planning.{ApprovedTransition}
use gsrr_agent_harness.Contracts.Plans.{ExecutionEnvelope}
use gsrr_agent_harness.Journal.Defs.{Journal}
use gsrr_agent_harness.Retry.Defs.{
  Supervisor, current, retain_policy, retain_ledger, remember_ledger, EmitCall, emit, set_control,
}
use gsrr_agent_harness.Retry.Lifecycle.{
  bind_scope, bind, release_scope, replace_last, terminated, set_attempts, set_failure_ref,
  fail_attempt, fail_current, fail, admit_scope, admission,
}
use gsrr_agent_harness.Retry.Chain.{length-replace_last}
use gsrr_agent_harness.Retry.Journaled.{need-Keeps}

abbrev pub last_id : Supervisor → Option String
last_id s = Option.map (λ a. a.attempt_id) (current s)

pub record IsLined (s t : Supervisor) : Type 0 where
  pub last_same : last_id t ≡ last_id s
  pub count : length t.attempts ≡ length s.attempts
  pub schedules : t.schedules ≡ s.schedules
  pub policy : t.policy ≡ s.policy

abbrev pub lined_self : (s : Supervisor) → IsLined s s
lined_self s = record { last_same = refl; count = refl; schedules = refl; policy = refl }

abbrev pub lined : Order (Shared Supervisor)
lined = record {
  le = λ s t. IsLined s.own t.own;
  le_refl = λ s. lined_self s.own;
  le_trans = λ s t u f g. record {
    last_same = g.last_same ∙ f.last_same;
    count = g.count ∙ f.count;
    schedules = g.schedules ∙ f.schedules;
    policy = g.policy ∙ f.policy;
  };
}

pub lined_journal : {A : Type 0} (m : Exec Journal A) → Keeps lined (in_journal m)
unfolding in_journal
lined_journal m = record { at = λ s. lined_self s.own }

pub lined_gets : {A : Type 0} (f : Supervisor → A) → Keeps lined (own_gets f)
unfolding own_gets
lined_gets f = Keeps-gets _

-- An assignment that leaves the attempts, the schedules and the policy alone.
pub lined_modify :
    (f : Supervisor → Supervisor)
    → ((s : Supervisor) → (f s).attempts ≡ s.attempts)
    → ((s : Supervisor) → (f s).schedules ≡ s.schedules)
    → ((s : Supervisor) → (f s).policy ≡ s.policy)
    → Keeps lined (own_modify f)
unfolding own_modify modify
lined_modify f attempts schedules policy = record {
  at = λ s. record {
    last_same = ap (λ xs. Option.map (λ a. a.attempt_id) (last xs)) (attempts s.own);
    count = ap length (attempts s.own);
    schedules = schedules s.own;
    policy = policy s.own;
  };
}

pub ruleset lined_rules = (keeps_rules, need-Keeps, lined_journal, lined_gets, lined_modify)

lined_retain_ledger : (l : Option ScopeLedger) → Keeps lined (retain_ledger l)
unfolding retain_ledger
lined_retain_ledger none = search keeps_rules
lined_retain_ledger (some l) = search lined_rules depth 7

pub lined_remember : Keeps lined remember_ledger
unfolding remember_ledger
lined_remember = search (lined_rules, lined_retain_ledger) depth 7

pub lined_emit : (c : EmitCall) → Keeps lined (emit c)
unfolding emit
lined_emit c = search lined_rules depth 12

pub lined_policy : (p : Option RetryPolicy) → Keeps lined (retain_policy p)
unfolding retain_policy
lined_policy none = search keeps_rules
lined_policy (some p) = search lined_rules depth 7

lined_bind_scope :
    (approval : ApprovedTransition) (envelope : ExecutionEnvelope) (ref policy : String)
    (a : Attempt)
    → Keeps lined (bind_scope approval envelope ref policy a)
unfolding bind_scope
lined_bind_scope approval envelope ref policy a =
    search (lined_rules, lined_remember, lined_emit) depth 14

pub lined_bind :
    (approval : ApprovedTransition) (envelope : ExecutionEnvelope)
    → Keeps lined (bind approval envelope)
unfolding bind
lined_bind approval envelope = search (lined_rules, lined_bind_scope) depth 22

lined_admit_scope : (l : Option ScopeLedger) → Keeps lined (admit_scope l)
unfolding admit_scope
lined_admit_scope none = search keeps_rules
lined_admit_scope (some l) = search (lined_rules, lined_remember) depth 14

pub lined_admission : Keeps lined admission
unfolding admission
lined_admission = search (lined_rules, lined_admit_scope) depth 7

lined_release : (l : Option ScopeLedger) → Keeps lined (release_scope l)
unfolding release_scope
lined_release none = search keeps_rules
lined_release (some l) = search (lined_rules, lined_remember) depth 7

last-replace_last : (a : Attempt) (xs : List Attempt) → last (replace_last a xs) ≡ some a
last-replace_last a [] = refl
last-replace_last a (x ∷ []) = refl
last-replace_last a (x ∷ y ∷ []) = refl
last-replace_last a (x ∷ y ∷ z ∷ rest) = last-replace_last a (y ∷ z ∷ rest)

terminated-IsLined :
    (failure_class : String) (a : Attempt) (s : Supervisor)
    → current s ≡ some a
    → IsLined s (set_attempts (replace_last (terminated failure_class a) s.attempts) s)
terminated-IsLined failure_class a s e =
    let b = terminated failure_class a in
    record {
      last_same =
          ap (Option.map (λ x. x.attempt_id)) (last-replace_last b s.attempts)
          ∙ sym (ap (Option.map (λ x. x.attempt_id)) e);
      count = length-replace_last s.attempts a b e;
      schedules = refl;
      policy = refl;
    }

recorded :
    (retained : Bool) (a e : String)
    → Keeps lined
        (own_modify (if retained then set_failure_ref a e else set_control Control.hold_ambiguous))
recorded true a e = search lined_rules
recorded false a e = search lined_rules

first_modify :
    (f : Supervisor → Supervisor) (rest : Unit {0} → Exec (Shared Supervisor) (Unit {0}))
    (s : Shared Supervisor)
    → IsLined s.own (f s.own)
    → Keeps lined (rest tt)
    → IsLined s.own ((own_modify f >>= rest) s).1.own
unfolding own_modify modify ◌>>=◌
first_modify f rest s h k =
    let t : Shared Supervisor = record { journal = s.journal; own = f s.own } in
    lined.le_trans s t (rest tt t).1 h (k.at t)

fail_attempt_lined :
    (control : Control) (failure_class : String) (refs : List String) (retained terminal : Bool)
    (a : Attempt) (s : Shared Supervisor)
    → current s.own ≡ some a
    → IsLined s.own
        ((if terminal then pure tt else fail_attempt control failure_class refs retained a) s).1.own
unfolding fail_attempt pure
fail_attempt_lined control failure_class refs retained true a s e = lined_self s.own
fail_attempt_lined control failure_class refs retained false a s e =
    first_modify (λ o. set_attempts (replace_last (terminated failure_class a) o.attempts) o) _ s
      (terminated-IsLined failure_class a s.own e)
      (search (lined_rules, lined_release, lined_emit, recorded) depth 16)

fail_current_lined :
    (control : Control) (failure_class : String) (refs : List String) (retained : Bool)
    (now : Option Attempt) (s : Shared Supervisor)
    → current s.own ≡ now
    → IsLined s.own (fail_current control failure_class refs retained now s).1.own
unfolding pure
fail_current_lined control failure_class refs retained none s e = lined_self s.own
fail_current_lined control failure_class refs retained (some a) s e =
    fail_attempt_lined control failure_class refs retained a.terminal a s e

pub lined_fail :
    (control : Control) (failure_class : String) (refs : List String) (retained : Bool)
    → Keeps lined (fail control failure_class refs retained)
unfolding fail own_gets
lined_fail control failure_class refs retained =
    Keeps-gets_bind _ _
      (λ s. fail_current_lined control failure_class refs retained (current s.own) s refl)
