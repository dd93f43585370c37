-- ===== src/Retry/Succession.antt =====
-- src/gsrr_slice01/retry.py: a successor that is new is one more attempt, and it is scheduled for the one
-- that it follows.
use gsrr_agent_harness.Prelude.{
  ℕ, suc, ◌+◌, ◌≤◌, String, ◌≡◌, ap, ◌∙◌, Option, none, some, List, [], ◌∷◌, ◌++◌, length,
  length-append, last-append, string_eq, arith,
}
use mathlib.Core.Option
use gsrr_agent_harness.Exec.{Exec, pure, modify}
use gsrr_agent_harness.Exec.Keeps.{preserving, Keeps, Keeps-coarse}
use gsrr_agent_harness.Exec.Triple.{
  Triple, Triple-bind, Triple-pure, Triple-keeps, Triple-weaken, Triple-pre,
}
use gsrr_agent_harness.Shared.{Shared, in_journal, own_modify}
use gsrr_agent_harness.Contracts.Enums.{Control}
use gsrr_agent_harness.Contracts.Domain.{RetryPolicy}
use gsrr_agent_harness.Contracts.Attempts.{Attempt, ScopeLedger}
use gsrr_agent_harness.Contracts.Record.{Record}
use gsrr_agent_harness.Journal.Defs.{new_id}
use gsrr_agent_harness.Journal.Serial.{serial_of, serial_of-id_text}
use gsrr_agent_harness.Journal.Sharing.{JournaledIn, own_modify-JournaledIn, retain-JournaledIn}
use gsrr_agent_harness.Retry.Defs.{Supervisor, EmitCall, emit, remember_ledger, set_control}
use gsrr_agent_harness.Retry.Lifecycle.{fresh_attempt, set_ledger}
use gsrr_agent_harness.Retry.Journaled.{emit-JournaledIn, remember_ledger-JournaledIn}
use gsrr_agent_harness.Retry.Lined.{
  last_id, lined, lined_journal, lined_emit, lined_remember, lined_rules,
}
use gsrr_agent_harness.Retry.Scheduled.{
  top, IsScheduled, progress, progresses, IsScheduled-progress, Keyed-mono, Keyed-put,
}
use gsrr_agent_harness.Retry.Successor.{
  opened, unscheduled, open_circuit, lose_scheduling, allocated, set_schedule, allocate,
  refuse_successor,
}

below : {m n i j : ℕ} → m ≡ n → i ≡ j → suc n ≤ j → m ≤ i
below e f le = omega arith

one_more : (xs : List Attempt) (a : Attempt) {k : ℕ} → length xs ≡ k → length (xs ++ a ∷ []) ≡ suc k
one_more xs a e = length-append xs (a ∷ []) ∙ counted_on e
  where
    counted_on : {m k : ℕ} → m ≡ k → m + 1 ≡ suc k
    counted_on e = omega arith

module _ (p : Option RetryPolicy) where
  -- The schedule is sound, and the policy is the one that the supervisor was made with.
  abbrev pub Sound : Shared Supervisor → Type 0
  Sound s = IsScheduled s × (s.own.policy ≡ p)

  pub Sound-le : (s t : Shared Supervisor) → progress.le s t → Sound s → Sound t
  Sound-le s t le h = (IsScheduled-progress s t le h.0, le.0.policy ∙ h.1)

  module _ (n k : ℕ) where
    -- Before the successor: the current attempt's id ends with `n`, and there are `k` attempts.
    abbrev pub Due : Shared Supervisor → Type 0
    Due s = Sound s × (top (last_id s.own) ≡ n) × (length s.own.attempts ≡ k)

    pub Due-le : (s t : Shared Supervisor) → progress.le s t → Due s → Due t
    Due-le s t le h = (Sound-le s t le h.0, ap top le.0.last_same ∙ h.1, le.0.count ∙ h.2)

    -- With the id that is given to the successor.
    abbrev Named : String → Shared Supervisor → Type 0
    Named ref s = Due s × (suc n ≤ serial_of ref) × (serial_of ref ≤ s.journal.serial)

    Named-le :
        (ref : String) (s t : Shared Supervisor) → progress.le s t → Named ref s → Named ref t
    Named-le ref s t le h = let further = le.1.serials in (Due-le s t le h.0, h.1, omega arith)

    -- With the successor.
    abbrev pub Followed : Shared Supervisor → Type 0
    Followed s = Sound s × (suc n ≤ top (last_id s.own)) × (length s.own.attempts ≡ suc k)

    Followed-le : (s t : Shared Supervisor) → progress.le s t → Followed s → Followed t
    Followed-le s t le h = (Sound-le s t le h.0, rw (ap top le.0.last_same) h.1, le.0.count ∙ h.2)

    pub step :
        {A : Type 0} (m : Exec (Shared Supervisor) A)
        → Keeps lined m
        → JournaledIn m
        → Triple Due m (λ a. Due) Sound
    step m line journal =
        Triple-weaken m (λ s h. h) (λ a s h. h) (λ s h. h.0)
          (Triple-keeps m (Keeps-coarse (preserving Due) Due-le m (progresses m line journal)))

    Named-step :
        (ref : String) {A : Type 0} (m : Exec (Shared Supervisor) A)
        → Keeps lined m
        → JournaledIn m
        → Triple (Named ref) m (λ a. Named ref) Sound
    Named-step ref m line journal =
        Triple-weaken m (λ s h. h) (λ a s h. h) (λ s h. h.0.0)
          (Triple-keeps m
            (Keeps-coarse (preserving (Named ref)) (Named-le ref) m (progresses m line journal)))

    Followed-step :
        {A : Type 0} (m : Exec (Shared Supervisor) A)
        → Keeps lined m
        → JournaledIn m
        → Triple Followed m (λ a. Followed) Sound
    Followed-step m line journal =
        Triple-weaken m (λ s h. h) (λ a s h. h) (λ s h. h.0)
          (Triple-keeps m
            (Keeps-coarse (preserving Followed) Followed-le m (progresses m line journal)))

    pub emitted : (c : EmitCall) → Triple Due (emit c) (λ e. Due) Sound
    emitted c = step (emit c) (lined_emit c) (emit-JournaledIn c)

    remembered : Triple Due remember_ledger (λ u. Due) Sound
    remembered = step remember_ledger lined_remember remember_ledger-JournaledIn

    assigned :
        (f : Supervisor → Supervisor)
        → Keeps lined (own_modify f)
        → Triple Due (own_modify f) (λ u. Due) Sound
    assigned f line = step (own_modify f) line (own_modify-JournaledIn f)

    -- What a successor's method returns: none, or the attempt that it has made.
    abbrev pub Made : Option Attempt → Shared Supervisor → Type 0
    Made none s = Sound s
    Made (some a) s = Followed s

    pub none_made : Triple Due (pure none) Made Sound
    none_made = Triple-pre _ (λ s h. h.0) (Triple-pure none)

    pub open_circuit-Made :
        (refs checks : List String) (l : ScopeLedger)
        → Triple Due (open_circuit refs checks l) Made Sound
    unfolding open_circuit
    open_circuit-Made refs checks l =
        Triple-bind _ _ (assigned (set_ledger (opened l)) (search lined_rules)) λ _.
          Triple-bind _ _ remembered
            λ _. Triple-bind _ _ (emitted _) λ _. Triple-bind _ _ (emitted _) λ _. none_made

    pub lose_scheduling-Made :
        (refs checks : List String) (l : ScopeLedger)
        → Triple Due (lose_scheduling refs checks l) Made Sound
    unfolding lose_scheduling
    lose_scheduling-Made refs checks l =
        Triple-bind _ _ (assigned (set_ledger (unscheduled l)) (search lined_rules))
          λ _. Triple-bind _ _ remembered λ _. Triple-bind _ _ (emitted _) λ _. none_made

    pub refuse_successor-Made : Triple Due refuse_successor Made Sound
    unfolding refuse_successor
    refuse_successor-Made =
        Triple-bind _ _ (assigned (set_control Control.fail_nonretryable) (search lined_rules))
          λ _. none_made

    -- The id of the new attempt.
    named : Triple Due (in_journal (new_id "attempt")) Named Sound
    unfolding in_journal new_id
    named = record {
      at = λ s h.
          let e = serial_of-id_text s.journal.run_id "attempt" (s.journal.serial + 1) in
          let bound = h.0.0.serials in
          let at = h.1 in
          let same : IsScheduled (record {
            journal = record s.journal { serial = s.journal.serial + 1 };
            own = s.own;
          }) =
            record { keys = h.0.0.keys; serials = omega arith } in
          (((same, h.0.1), h.1, h.2), omega arith, omega arith);
    }

    attempted :
        (l : ScopeLedger) (ref : String) (number : ℕ) (before : Option String)
        → Triple
            (Named ref)
            (own_modify (allocated l (fresh_attempt ref number before)))
            (λ u. Followed)
            Sound
    unfolding own_modify modify
    attempted l ref number before = record {
      at = λ s h.
          let a = fresh_attempt ref number before in
          let newest : top (last_id (allocated l a s.own)) ≡ serial_of ref =
            ap (λ o. top (Option.map (λ x. x.attempt_id) o)) (last-append s.own.attempts a) in
          let keys = h.0.0.0.keys in
          (
            (
              record {
                keys =
                    Keyed-mono (top (last_id s.own)) _ s.own.schedules (below (h.0.1) newest h.1)
                      keys;
                serials = rw newest h.2;
              },
              h.0.0.1,
            ),
            rw newest h.1,
            one_more s.own.attempts a h.0.2,
          );
    }

    scheduled :
        (prior : String) (a : Attempt)
        → serial_of prior ≡ n
        → Triple Followed (own_modify (set_schedule prior a)) (λ u. Followed) Sound
    unfolding own_modify modify
    scheduled prior a e = record {
      at = λ s h. (
        (
          record {
            keys = Keyed-put (top (last_id s.own)) prior a s.own.schedules (rw e h.1) h.0.0.keys;
            serials = h.0.0.serials;
          },
          h.0.1,
        ),
        h.1,
        h.2,
      );
    }

    pub allocate-Made :
        (prior : String) (refs checks : List String) (a : Attempt) (l : ScopeLedger)
        → serial_of prior ≡ n
        → Triple Due (allocate prior refs checks a l) Made Sound
    unfolding allocate
    allocate-Made prior refs checks a l e = Triple-bind _ _ named λ ref.
        let new = fresh_attempt ref (l.attempts_created + 1) (some a.attempt_id) in
        Triple-bind _ _
          (Named-step ref _ (lined_journal _)
            (retain-JournaledIn new.attempt_id (Record.attempt new) tt))
          λ _. Triple-bind _ _ (Named-step ref _ (lined_emit _) (emit-JournaledIn _)) λ _.
            Triple-bind _ _ (attempted l ref (l.attempts_created + 1) (some a.attempt_id)) λ _.
              Triple-bind _ _ (Followed-step _ (lined_emit _) (emit-JournaledIn _)) λ _.
                Triple-bind _ _ (Followed-step _ lined_remember remember_ledger-JournaledIn)
                  λ _. Triple-bind _ _ (scheduled prior new e) λ _. Triple-pure (some new)
