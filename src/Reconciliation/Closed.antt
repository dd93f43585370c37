-- ===== src/Reconciliation/Closed.antt =====
-- src/gsrr_slice01/reconciliation.py: a success rests on a closed and complete action interval.
use gsrr_agent_harness.Prelude.{
  ℕ, ◌+◌, String, List, ap, sym, length, ◌==◌, nat_eq, string_eq, nat_beq_eq, if◌then◌else◌, ◌≡◌,
  refl, Bool, true, false, ◌&&◌, Option, none, some, [], inl, inr, Bool-cases, arith,
}
use gsrr_agent_harness.Exec.{Error, Result, recover, pure, raise, except_key, ◌>>=◌}
use gsrr_agent_harness.Contracts.Effects.{Action, ObservedState}
use gsrr_agent_harness.Contracts.Results.{ExecutionResult}
use gsrr_agent_harness.Journal.Defs.{Journal}
use gsrr_agent_harness.Retry.Lifecycle.{is_some}
use gsrr_agent_harness.Retry.Eligibility.{is_true}
use gsrr_agent_harness.Governance.Grants.{same_text}
use gsrr_agent_harness.Reconciliation.Evidence.{
  is_complete, unresolved_of, listed, counts, is_logged,
}
use gsrr_agent_harness.Contracts.Record.{Record}
use gsrr_agent_harness.Governance.Validation.{is_retained}
use gsrr_agent_harness.Governance.Retained.{HoldsEqual, is_retained-HoldsEqual}
use gsrr_agent_harness.Governance.Authority.{same_text_eq}

-- The provider has closed the interval and declared it complete for the invocation; its log is the
-- result's, holds exactly the listed actions, to Python's `==`, and the interval counts as many.
pub record IsClosed (result : ExecutionResult) (o : ObservedState) (s : Journal) : Type 0 where
  pub closed : o.interval_closed ≡ some true
  pub complete : o.complete_for_invocation ≡ some true
  pub actions : (xs : List Action) × (o.actions ≡ some xs)
  pub log : o.action_log_ref ≡ result.action_interval_ref
  pub counted :
      (start : ℕ) × (o.interval_start ≡ some start)
      × (o.interval_end ≡ some (start + length (listed o.actions)))
  pub logged :
      (ref : String) × (o.action_log_ref ≡ some ref)
      × HoldsEqual s ref (Record.actions (listed o.actions))

is_true-eq : (b : Option Bool) → is_true b ≡ true → b ≡ some true
is_true-eq none h = cc
is_true-eq (some true) h = refl
is_true-eq (some false) h = cc

four_of :
    (a b c d : Bool) → (a && b && c && d) ≡ true → (a ≡ true) × (b ≡ true) × (c ≡ true) × (d ≡ true)
four_of a b c d h = ground arith

is_some-some : {A : Type 0} (o : Option A) → is_some o ≡ true → (a : A) × (o ≡ some a)
is_some-some none h = cc
is_some-some (some a) h = (a, refl)

-- A retained value that is read, and not found where the read raises a KeyError.
except_key-true :
    (ref : String) (value : Record) (s : Journal)
    → (except_key (is_retained ref value) false s).0 ≡ Result.ok true
    → (is_retained ref value s).0 ≡ Result.ok true
unfolding except_key
except_key-true ref value s h = go (is_retained ref value s).0 h
  where
    go : (r : Result Bool) → recover false r ≡ Result.ok true → r ≡ Result.ok true
    go (Result.ok b) h = h
    go (Result.err (Error.key_error k)) h = cc
    go (Result.err e) h = cc

is_logged-HoldsEqual :
    (log : Option String) (actions : List Action) (s : Journal)
    → (is_logged log actions s).0 ≡ Result.ok true
    → (ref : String) × (log ≡ some ref) × HoldsEqual s ref (Record.actions actions)
unfolding is_logged pure
is_logged-HoldsEqual none actions s h = cc
is_logged-HoldsEqual (some ref) actions s h =
    (ref, refl, is_retained-HoldsEqual ref _ s (except_key-true ref _ s h))

-- What a count that agrees and a log that agrees say.
counted_log :
    (start stop : Option ℕ) (log : Option String) (actions : List Action) (s : Journal)
    → ((counts start stop (length actions)
          >>= (λ counted. if counted then is_logged log actions else pure false))
        s).0
      ≡ Result.ok true
    → ((n : ℕ) × (start ≡ some n) × (stop ≡ some (n + length actions)))
      × ((is_logged log actions s).0 ≡ Result.ok true)
unfolding counts pure raise ◌>>=◌
counted_log none stop log actions s h = cc
counted_log (some n) none log actions s h = cc
counted_log (some n) (some m) log actions s h = elim (Bool-cases (m == n + length actions)) [
  | inl same ↦ ((n, refl, ap some (nat_beq_eq m (n + length actions) same)), rw same at h)
  | inr other ↦ absurd (cc (rw other at h))
]

pub is_complete-IsClosed :
    (result : ExecutionResult) (o : ObservedState) (s : Journal)
    → (is_complete result (some o) s).0 ≡ Result.ok true
    → IsClosed result o s
unfolding is_complete pure
is_complete-IsClosed result o s h =
    let a = is_true o.interval_closed in
    let b = is_true o.complete_for_invocation in
    let c = is_some o.actions in
    let d = same_text o.action_log_ref result.action_interval_ref in
    elim (Bool-cases (a && b && c && d)) [
      | inl met ↦
          let (closed, complete, actions, log) = four_of a b c d met in
          let (counted, kept) =
            counted_log o.interval_start o.interval_end o.action_log_ref (listed o.actions) s
              (rw met at h) in
          record {
            closed = is_true-eq o.interval_closed closed;
            complete = is_true-eq o.complete_for_invocation complete;
            actions = is_some-some o.actions actions;
            log = sym (same_text_eq o.action_log_ref result.action_interval_ref log);
            counted = counted;
            logged = is_logged-HoldsEqual o.action_log_ref (listed o.actions) s kept;
          }
      | inr unmet ↦ absurd (cc (rw unmet at h))
    ]

pub unresolved_of_complete :
    (complete : Bool) (observed : Option ObservedState) (missing : Bool)
    → unresolved_of complete observed missing ≡ []
    → complete ≡ true
unresolved_of_complete true observed missing h = refl
unresolved_of_complete false observed missing h = cc
