-- ===== src/Retry/Decided.antt =====
-- src/gsrr_slice01/retry.py: `successor`, through its chain of tests, gives a new attempt or none.
use gsrr_agent_harness.Prelude.{
  ℕ, String, ◌≡◌, refl, sym, ap, ◌∙◌, subst, Bool, true, false, not, ◌||◌, Option, none, some, List,
  length, ◌==◌, string_eq, text_eq,
}
use mathlib.Core.Option
use gsrr_agent_harness.Exec.{gets}
use gsrr_agent_harness.Exec.Keeps.{preserving, Keeps}
use gsrr_agent_harness.Exec.Triple.{
  Ends-either, Triple, Triple-bind, Triple-pure, Triple-weaken, Triple-pre, Triple-if, Triple-given,
}
use gsrr_agent_harness.Shared.{Shared, own_gets}
use gsrr_agent_harness.Contracts.Enums.{Mode, Control}
use gsrr_agent_harness.Contracts.Domain.{RetryPolicy}
use gsrr_agent_harness.Contracts.Attempts.{Attempt, ScopeLedger}
use gsrr_agent_harness.Journal.Serial.{serial_of}
use gsrr_agent_harness.Journal.Sharing.{own_gets-JournaledIn}
use gsrr_agent_harness.Retry.Defs.{Supervisor, current}
use gsrr_agent_harness.Retry.Lifecycle.{find, need}
use gsrr_agent_harness.Retry.Eligibility.{is_pass}
use gsrr_agent_harness.Retry.Journaled.{need-Keeps, eligibility-JournaledIn, exhausted-JournaledIn}
use gsrr_agent_harness.Retry.Lined.{last_id, lined_gets}
use gsrr_agent_harness.Retry.Eligible.{eligibility-lined, exhausted-lined}
use gsrr_agent_harness.Retry.Scheduled.{top, find-none}
use gsrr_agent_harness.Retry.Succession.{
  Sound, Due, Made, step, emitted, none_made, open_circuit-Made, lose_scheduling-Made,
  refuse_successor-Made, allocate-Made,
}
use gsrr_agent_harness.Retry.Successor.{
  eligible_successor, report_eligibility, decided_successor, scoped_successor, new_successor,
  successor_of, successor,
}

same_id : (same terminal : Bool) → (not same || not terminal) ≡ false → same ≡ true
same_id true terminal e = refl
same_id false terminal e = cc

Made-Sound :
    (p : Option RetryPolicy) (n k : ℕ) (a : Option Attempt) (s : Shared Supervisor)
    → Made p n k a s
    → Sound p s
Made-Sound p n k none s h = h
Made-Sound p n k (some a) s h = h.0

module _ (p : Option RetryPolicy) (n k : ℕ) where
  eligible_successor-Made :
      (prior : String) (refs checks : List String) (failing : Bool) (a : Attempt) (l : ScopeLedger)
      (q : RetryPolicy)
      → serial_of prior ≡ n
      → Triple
          (Due p n k)
          (eligible_successor prior refs checks failing a l q)
          (Made p n k)
          (Sound p)
  unfolding eligible_successor
  eligible_successor-Made prior refs checks failing a l q e =
      Triple-bind _ _ (step p n k _ (lined_gets _) (own_gets-JournaledIn _)) λ failures.
        Triple-bind _ _
          (step p n k _ (exhausted-lined q l failures) (exhausted-JournaledIn q l failures))
          λ over.
            Triple-if over _ _ (λ _. open_circuit-Made p n k refs checks l)
              (λ _.
                Triple-if failing _ _ (λ _. lose_scheduling-Made p n k refs checks l)
                  (λ _. allocate-Made p n k prior refs checks a l e))

  reported :
      (control : Control) (refs checks : List String) (reason : String)
      → Triple
          (Due p n k)
          (report_eligibility control refs checks reason)
          (λ u. Due p n k)
          (Sound p)
  unfolding report_eligibility
  reported control refs checks reason = Triple-bind _ _ (emitted p n k _) λ _. Triple-pure tt

  decided_successor-Made :
      (prior : String) (refs checks : List String) (failing : Bool) (a : Attempt) (l : ScopeLedger)
      (control : Control)
      → serial_of prior ≡ n
      → Triple
          (Due p n k)
          (decided_successor prior refs checks failing a l control)
          (Made p n k)
          (Sound p)
  unfolding decided_successor
  decided_successor-Made prior refs checks failing a l control e =
      Triple-if (not (is_pass control)) _ _
        (λ _.
          Triple-bind _ _ (reported control refs checks "no eligible successor")
            λ _. none_made p n k)
        (λ _.
          Triple-bind _ _ (reported Control.reject_retryable refs checks "eligible fresh plan only")
            λ _. Triple-bind _ _ (step p n k _ (lined_gets _) (own_gets-JournaledIn _)) λ o.
              Triple-bind _ _ (step p n k (need o) (need-Keeps o) (λ q b. need-Keeps o))
                λ q. eligible_successor-Made prior refs checks failing a l q e)

  scoped_successor-Made :
      (prior : String) (mode : Mode) (fresh : Control) (checks : List String) (failing : Bool)
      (a : Attempt) (l : ScopeLedger)
      → serial_of prior ≡ n
      → Triple
          (Due p n k)
          (scoped_successor prior mode fresh checks failing a l)
          (Made p n k)
          (Sound p)
  unfolding scoped_successor
  scoped_successor-Made prior mode fresh checks failing a l e =
      Triple-bind _ _ (step p n k _ (lined_gets _) (own_gets-JournaledIn _)) λ o.
        Triple-bind _ _
          (step p n k _ (eligibility-lined prior mode fresh checks a l o)
            (eligibility-JournaledIn prior mode fresh checks a l o))
          λ control.
            Triple-bind _ _ (step p n k _ (lined_gets _) (own_gets-JournaledIn _))
              λ refs. decided_successor-Made prior refs checks failing a l control e

  -- For the current attempt alone.
  new_successor-Made :
      (prior : String) (mode : Mode) (fresh : Control) (checks : List String) (failing : Bool)
      (now : Option Attempt) (l : Option ScopeLedger)
      → top (Option.map (λ a. a.attempt_id) now) ≡ n
      → Triple
          (Due p n k)
          (new_successor prior mode fresh checks failing now l)
          (Made p n k)
          (Sound p)
  unfolding new_successor
  new_successor-Made prior mode fresh checks failing none l e = refuse_successor-Made p n k
  new_successor-Made prior mode fresh checks failing (some a) none e = refuse_successor-Made p n k
  new_successor-Made prior mode fresh checks failing (some a) (some l) e =
      Triple-if (not (a.attempt_id == prior) || not a.terminal) _ _
        (λ _. refuse_successor-Made p n k)
        (λ q.
          scoped_successor-Made prior mode fresh checks failing a l
            (sym (ap serial_of (text_eq a.attempt_id prior (same_id _ _ q))) ∙ e))

  -- What is read of the supervisor.
  read_due :
      (prior : String)
      → Triple
          (Due p n k)
          (own_gets (λ o. o))
          (λ o s.
            Due p n k s
            × ((top (last_id o) ≡ n) × (serial_of prior ≡ n → find prior o.schedules ≡ none)))
          (Sound p)
  unfolding own_gets gets
  read_due prior = record {
    at = λ s h. (
      h,
      (h.1, λ e. find-none (top (last_id s.own)) prior s.own.schedules (e ∙ sym h.1) h.0.0.keys),
    );
  }

  -- A successor of the current attempt is a new one.
  pub successor-Made :
      (prior : String) (mode : Mode) (fresh : Control) (checks : List String) (failing : Bool)
      → serial_of prior ≡ n
      → Triple (Due p n k) (successor prior mode fresh checks failing) (Made p n k) (Sound p)
  unfolding successor successor_of
  successor-Made prior mode fresh checks failing e = Triple-bind _ _ (read_due prior) λ o.
      Triple-given λ facts.
        subst
          (λ (known : Option Attempt).
            Triple (Due p n k) (successor_of prior mode fresh checks failing known o) (Made p n k)
              (Sound p))
          (sym (facts.1 e))
          (new_successor-Made prior mode fresh checks failing (current o) o.ledger facts.0)

  successor_of-Sound :
      (prior : String) (mode : Mode) (fresh : Control) (checks : List String) (failing : Bool)
      (known : Option Attempt) (o : Supervisor)
      → top (last_id o) ≡ n
      → Triple
          (Due p n k)
          (successor_of prior mode fresh checks failing known o)
          (λ a. Sound p)
          (Sound p)
  unfolding successor_of
  successor_of-Sound prior mode fresh checks failing none o e =
      Triple-weaken _ (λ s h. h) (Made-Sound p n k) (λ s h. h)
        (new_successor-Made prior mode fresh checks failing (current o) o.ledger e)
  successor_of-Sound prior mode fresh checks failing (some old) o e =
      Triple-pre _ (λ s h. h.0) (Triple-pure (some old))

  successor-Sound :
      (prior : String) (mode : Mode) (fresh : Control) (checks : List String) (failing : Bool)
      → Triple (Due p n k) (successor prior mode fresh checks failing) (λ a. Sound p) (Sound p)
  unfolding successor
  successor-Sound prior mode fresh checks failing = Triple-bind _ _ (read_due prior) λ o.
      Triple-given λ facts.
        successor_of-Sound prior mode fresh checks failing (find prior o.schedules) o facts.0

-- Whatever attempt it is asked about.
pub successor-Keeps :
    (p : Option RetryPolicy) (prior : String) (mode : Mode) (fresh : Control) (checks : List String)
    (failing : Bool)
    → Keeps (preserving (Sound p)) (successor prior mode fresh checks failing)
successor-Keeps p prior mode fresh checks failing = record {
  at = λ s h. Ends-either (Sound p) _ (
      (successor-Sound p (top (last_id s.own)) (length s.own.attempts) prior mode fresh checks
          failing).at
        s (h, refl, refl));
}
