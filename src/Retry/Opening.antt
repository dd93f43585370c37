-- ===== src/Retry/Opening.antt =====
-- src/gsrr_slice01/retry.py: `start` makes the first attempt, for which nothing is scheduled yet.
use gsrr_agent_harness.Prelude.{
  ℕ, ◌+◌, ◌≤◌, String, ◌≡◌, refl, sym, true, not-false, Option, none, List, [], ◌∷◌, last, arith,
}
use mathlib.Core.Option
use gsrr_agent_harness.Exec.{gets, modify}
use gsrr_agent_harness.Exec.Keeps.{preserving, Keeps, Keeps-coarse}
use gsrr_agent_harness.Exec.Triple.{
  Ends-either, Triple, Triple-bind, Triple-pure, Triple-keeps, Triple-weaken, Triple-raise_if,
}
use gsrr_agent_harness.Shared.{Shared, in_journal, own_gets, own_modify}
use gsrr_agent_harness.Contracts.Domain.{RetryPolicy}
use gsrr_agent_harness.Contracts.Attempts.{Attempt}
use gsrr_agent_harness.Contracts.Record.{Record}
use gsrr_agent_harness.Journal.Defs.{new_id}
use gsrr_agent_harness.Journal.Serial.{serial_of, serial_of-id_text}
use gsrr_agent_harness.Journal.Sharing.{JournaledIn, retain-JournaledIn}
use gsrr_agent_harness.Retry.Defs.{Supervisor}
use gsrr_agent_harness.Retry.Lifecycle.{is_empty, fresh_attempt, set_attempts, start}
use gsrr_agent_harness.Retry.Journaled.{emit-JournaledIn}
use gsrr_agent_harness.Retry.Lined.{last_id, lined, lined_journal, lined_emit}
use gsrr_agent_harness.Retry.Scheduled.{top, IsScheduled, progresses, Keyed-mono}
use gsrr_agent_harness.Retry.Succession.{Sound, Sound-le}

no_top :
    (xs : List Attempt) (n : ℕ)
    → is_empty xs ≡ true
    → top (Option.map (λ a. a.attempt_id) (last xs)) ≤ n
no_top [] n e = omega arith
no_top (x ∷ xs) n e = cc

module _ (p : Option RetryPolicy) where
  -- No attempt yet.
  abbrev Unopened : Shared Supervisor → Type 0
  Unopened s = Sound p s × (is_empty s.own.attempts ≡ true)

  sound_step :
      {A : Type 0} (m : _)
      → Keeps lined m
      → JournaledIn m
      → Triple (Sound p) m (λ (a : A). Sound p) (Sound p)
  sound_step m line journal =
      Triple-keeps m
        (Keeps-coarse (preserving (Sound p)) (Sound-le p) m (progresses m line journal))

  read_attempts :
      Triple
        (Sound p)
        (own_gets (λ s. s.attempts))
        (λ xs s. Sound p s × (xs ≡ s.own.attempts))
        (Sound p)
  unfolding own_gets gets
  read_attempts = record { at = λ s h. (h, refl) }

  first_named :
      Triple Unopened
        (in_journal (new_id "attempt"))
        (λ ref s. Unopened s × (serial_of ref ≤ s.journal.serial))
        (Sound p)
  unfolding in_journal new_id
  first_named = record {
    at = λ s h.
        let e = serial_of-id_text s.journal.run_id "attempt" (s.journal.serial + 1) in
        let bound = h.0.0.serials in
        let same : IsScheduled
            (record { journal = record s.journal { serial = s.journal.serial + 1 }; own = s.own }) =
          record { keys = h.0.0.keys; serials = omega arith } in
        (((same, h.0.1), h.1), omega arith);
  }

  opened :
      (ref : String)
      → Triple
          (λ s. Unopened s × (serial_of ref ≤ s.journal.serial))
          (own_modify (set_attempts (fresh_attempt ref 1 none ∷ [])))
          (λ u. Sound p)
          (Sound p)
  unfolding own_modify modify
  opened ref = record {
    at = λ s h. (
      record {
        keys =
            Keyed-mono (top (last_id s.own)) (serial_of ref) s.own.schedules
              (no_top s.own.attempts (serial_of ref) h.0.1) h.0.0.0.keys;
        serials = h.1;
      },
      h.0.0.1,
    );
  }

  start-Sound : Triple (Sound p) start (λ a. Sound p) (Sound p)
  unfolding start
  start-Sound = Triple-bind _ _ read_attempts λ attempts.
      Triple-bind _ _
        (Triple-weaken _ (λ s h. h)
          (λ u s h. (h.0.0, rw (sym h.0.1) (not-false (is_empty attempts) h.1))) (λ s h. h)
          (Triple-raise_if _ _ (λ s h. h.0)))
        λ _. Triple-bind _ _ first_named λ ref.
          let a = fresh_attempt ref 1 none in
          Triple-bind _ _ (opened ref) λ _.
            Triple-bind _ _
              (sound_step _ (lined_journal _) (retain-JournaledIn ref (Record.attempt a) tt))
              λ _.
                Triple-bind _ _ (sound_step _ (lined_emit _) (emit-JournaledIn _))
                  λ _. Triple-pure a

  pub start-Keeps : Keeps (preserving (Sound p)) start
  start-Keeps = record { at = λ s h. Ends-either (Sound p) _ (start-Sound.at s h) }
