-- ===== src/Journal/Basic.antt =====
-- src/gsrr_slice01/journal.py: the calls through which the other components change the journal, and
-- what it takes for an order of journals to hold of every method that makes only such calls.
use gsrr_agent_harness.Prelude.{ℕ, String, Bool, Option, none, some, List, inl, inr, Option-cases}
use gsrr_agent_harness.Exec.{Exec, pure, raise}
use gsrr_agent_harness.Exec.Keeps.{Order, Keeps}
use gsrr_agent_harness.Contracts.Enums.{Decision}
use gsrr_agent_harness.Contracts.Results.{ProjectionDecision, RuntimeEvent}
use gsrr_agent_harness.Contracts.Record.{Record}
use gsrr_agent_harness.Journal.Defs.{Journal, new_id, lookup, or_key_error, get, retain, reserve}
use gsrr_agent_harness.Journal.Event.{EventCall, event}
use gsrr_agent_harness.Journal.Publish.{publish}

-- A record that `retain` is called with: no decision, which only `publish` puts into the journal.
abbrev pub IsPlain : Record → Type 0
IsPlain (Record.projection d) = ⊥
IsPlain r = Unit

-- The new state that the projector publishes beside a decision.
abbrev pub target_in : Decision → String → Option String
target_in Decision.project target = some target
target_in Decision.hold_projection target = none
target_in Decision.do_not_project target = none

abbrev pub target_of : ProjectionDecision → Option String
target_of d = target_in d.final_decision d.target_state

-- The journal, its attributes for the current run replaced.
abbrev pub with_refs : Option String → Option String → Option ℕ → Option ℕ → Journal → Journal
with_refs transition commit source observed j = record j {
  transition_ref = transition;
  commit_ref = commit;
  source_version = source;
  observed_version = observed;
}

-- An order that every such call keeps, but for `publish`, which only the projector calls.
pub record Basic (q : Order Journal) : Type 0 where
  pub at_new_id : (kind : String) → Keeps q (new_id kind)
  pub at_retain : (ref : String) (r : Record) → IsPlain r → Keeps q (retain ref r)
  pub at_event : (c : EventCall) → Keeps q (event c)
  pub at_reserve :
      (ref : String) (inputs : List String) (fail : Bool) → Keeps q (reserve ref inputs fail)
  pub at_refs :
      (transition commit : Option String) (source observed : Option ℕ) (s : Journal)
      → q.le s (with_refs transition commit source observed s)

-- An order that the publication of a decision keeps too.
abbrev pub Publishes : Order Journal → Type 0
Publishes q =
    (d : ProjectionDecision) (e : Option RuntimeEvent) → Keeps q (publish d e (target_of d))

-- A method that changes the journal by such calls alone.
abbrev pub Journaled : {A : Type 0} → Exec Journal A → Type 1
Journaled m = (q : Order Journal) → Basic q → Keeps q m

pub get-Keeps : (q : Order Journal) (ref : String) → Keeps q (get ref)
unfolding get or_key_error raise pure
get-Keeps q ref = record {
  at = λ s. elim (Option-cases (lookup ref s.aggregate.records)) [
    | inl e ↦ rw e (q.le_refl s)
    | inr (r, e) ↦ rw e (q.le_refl s)
  ];
}

pub new_id-Journaled : (kind : String) → Journaled (new_id kind)
new_id-Journaled kind q b = b.at_new_id kind

pub retain-Journaled : (ref : String) (r : Record) → IsPlain r → Journaled (retain ref r)
retain-Journaled ref r plain q b = b.at_retain ref r plain

pub event-Journaled : (c : EventCall) → Journaled (event c)
event-Journaled c q b = b.at_event c
