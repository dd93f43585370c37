-- ===== src/Retry/Retrieval.antt =====
-- src/gsrr_slice01/retry.py: re-consuming a retained allocation retrieves that same attempt.
use text.Mathlib.TextPositions.{eq_refl}
use gsrr_agent_harness.Prelude.{
  String, ◌≡◌, refl, Bool, not, ◌||◌, Option, none, some, List, [], ◌∷◌, inl, inr, Bool-cases,
  Option-cases, ◌==◌, string_eq,
}
use gsrr_agent_harness.Exec.{Result, Exec, pure, gets, ◌>>=◌, ◌>>◌}
use gsrr_agent_harness.Exec.Triple.{
  Triple, Ends, Ends-ok, Triple-bind, Triple-pure, Triple-if, Triple-keeps,
}
use gsrr_agent_harness.Shared.{Shared, own_gets, own_modify}
use gsrr_agent_harness.Contracts.Enums.{Mode, Control}
use gsrr_agent_harness.Contracts.Attempts.{Attempt, ScopeLedger}
use gsrr_agent_harness.Retry.Defs.{Supervisor, current}
use gsrr_agent_harness.Retry.Lifecycle.{put, find}
use gsrr_agent_harness.Retry.Eligibility.{is_pass}
use gsrr_agent_harness.Retry.Calls.{Method, calls}
use gsrr_agent_harness.Retry.Kept.{calls-IsFiled}
use gsrr_agent_harness.Retry.Successor.{
  open_circuit, lose_scheduling, set_schedule, allocate, eligible_successor, decided_successor,
  scoped_successor, refuse_successor, new_successor, successor_of, successor,
}

abbrev Any : Shared Supervisor → Type 0
Any s = Unit

-- What is returned is what the schedules name for the prior attempt.
abbrev Scheduled : String → Option Attempt → Shared Supervisor → Type 0
Scheduled prior none s = Unit
Scheduled prior (some a) s = find prior s.own.schedules ≡ some a

any : {A : Type 0} (m : Exec (Shared Supervisor) A) → Triple Any m (λ a. Any) Any
any m = Triple-keeps m (record { at = λ s h. tt })

-- A call that goes on to the rest, whatever it does.
then_any :
    {A : Type 0} (prior : String) (m : Exec (Shared Supervisor) A)
    (f : A → Exec (Shared Supervisor) (Option Attempt))
    → ((a : A) → Triple Any (f a) (Scheduled prior) Any)
    → Triple Any (m >>= f) (Scheduled prior) Any
then_any prior m f k = Triple-bind m f (any m) k

pub find-put :
    {V : Type 0} (prior : String) (a : V) (xs : List (String × V))
    → find prior (put prior a xs) ≡ some a
unfolding find put
find-put prior a [] = rw eq_refl refl
find-put prior a ((k, x) ∷ xs) = elim (Bool-cases (k == prior)) [
  | inl here ↦ rw here (rw eq_refl refl)
  | inr there ↦ rw there (rw there (find-put prior a xs))
]

schedule-Scheduled :
    (prior : String) (a : Attempt)
    → Triple Any (own_modify (set_schedule prior a) >> pure (some a)) (Scheduled prior) Any
unfolding own_modify pure ◌>>=◌
schedule-Scheduled prior a = record { at = λ s h. find-put prior a s.own.schedules }

module _ (prior : String) where
  abbrev Retrieves : Exec (Shared Supervisor) (Option Attempt) → Type 0
  Retrieves m = Triple Any m (Scheduled prior) Any

  nothing : Retrieves (pure none)
  nothing = Triple-pure none

  open_circuit-Retrieves :
      (refs checks : List String) (l : ScopeLedger) → Retrieves (open_circuit refs checks l)
  unfolding open_circuit
  open_circuit-Retrieves refs checks l =
      then_any prior _ _
        λ _. then_any prior _ _ λ _. then_any prior _ _ λ _. then_any prior _ _ λ _. nothing

  lose_scheduling-Retrieves :
      (refs checks : List String) (l : ScopeLedger) → Retrieves (lose_scheduling refs checks l)
  unfolding lose_scheduling
  lose_scheduling-Retrieves refs checks l =
      then_any prior _ _ λ _. then_any prior _ _ λ _. then_any prior _ _ λ _. nothing

  allocate-Retrieves :
      (refs checks : List String) (a : Attempt) (l : ScopeLedger)
      → Retrieves (allocate prior refs checks a l)
  unfolding allocate
  allocate-Retrieves refs checks a l = then_any prior _ _ λ ref. then_any prior _ _ λ _.
      then_any prior _ _ λ _.
        then_any prior _ _
          λ _. then_any prior _ _ λ _. then_any prior _ _ λ _. schedule-Scheduled prior _

  decided-Retrieves :
      (refs checks : List String) (failure : Bool) (a : Attempt) (l : ScopeLedger)
      (control : Control)
      → Retrieves (decided_successor prior refs checks failure a l control)
  unfolding decided_successor eligible_successor
  decided-Retrieves refs checks failure a l control =
      Triple-if (not (is_pass control)) _ _ (λ _. then_any prior _ _ λ _. nothing)
        (λ _. then_any prior _ _ λ _. then_any prior _ _ λ policy. then_any prior _ _ λ p.
          then_any prior _ _ λ failures. then_any prior _ _ λ over.
            Triple-if over _ _ (λ _. open_circuit-Retrieves refs checks l)
              (λ _.
                Triple-if failure _ _ (λ _. lose_scheduling-Retrieves refs checks l)
                  (λ _. allocate-Retrieves refs checks a l)))

  refuse-Retrieves : Retrieves refuse_successor
  unfolding refuse_successor
  refuse-Retrieves = then_any prior _ _ λ _. nothing

  new_successor-Retrieves :
      (mode : Mode) (fresh : Control) (checks : List String) (failure : Bool) (a : Option Attempt)
      (l : Option ScopeLedger)
      → Retrieves (new_successor prior mode fresh checks failure a l)
  unfolding new_successor scoped_successor
  new_successor-Retrieves mode fresh checks failure none l = refuse-Retrieves
  new_successor-Retrieves mode fresh checks failure (some a) none = refuse-Retrieves
  new_successor-Retrieves mode fresh checks failure (some a) (some l) =
      Triple-if (not (a.attempt_id == prior) || not a.terminal) _ _ (λ _. refuse-Retrieves)
        (λ _. then_any prior _ _ λ now.
          then_any prior _ _
            λ control. then_any prior _ _ λ refs. decided-Retrieves refs checks failure a l control)

module _ (prior : String) (mode : Mode) (fresh : Control) (checks : List String) (failure : Bool)
    (s : Shared Supervisor) where
  successor-Scheduled : Ends (Scheduled prior) Any (successor prior mode fresh checks failure s)
  unfolding successor successor_of own_gets gets pure ◌>>=◌
  successor-Scheduled = elim (Option-cases (find prior s.own.schedules)) [
    | inl unknown ↦ rw unknown (
        (new_successor-Retrieves prior mode fresh checks failure (current s.own) s.own.ledger).at s
          tt)
    | inr (a, known) ↦ rw known known
  ]

  successor-known :
      (a : Attempt)
      → find prior s.own.schedules ≡ some a
      → successor prior mode fresh checks failure s ≡ (Result.ok (some a), s)
  unfolding successor successor_of own_gets gets pure ◌>>=◌
  successor-known a known = rw known refl

-- Where `successor` returns an attempt, then after any further calls of the supervisor's methods, with
-- any arguments and however they end, a call of `successor` for the same prior attempt, with whatever
-- mode, control, checks and scheduling fault, returns that same attempt and changes nothing: neither
-- the supervisor nor the journal.
pub successor-successor :
    (prior : String) (mode mode' : Mode) (fresh fresh' : Control) (checks checks' : List String)
    (failure failure' : Bool) (s : Shared Supervisor) (ms : List Method) (a : Attempt)
    → (successor prior mode fresh checks failure s).0 ≡ Result.ok (some a)
    → let t = calls ms (successor prior mode fresh checks failure s).1 in
      successor prior mode' fresh' checks' failure' t ≡ (Result.ok (some a), t)
successor-successor prior mode mode' fresh fresh' checks checks' failure failure' s ms a h =
    let r = successor prior mode fresh checks failure s in
    let filed =
      Ends-ok (Scheduled prior) Any r h (successor-Scheduled prior mode fresh checks failure s) in
    successor-known prior mode' fresh' checks' failure' (calls ms r.1) a
      (calls-IsFiled prior a ms r.1 filed)
