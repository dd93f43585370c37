-- ===== src/Journal/Publish.antt =====
-- src/gsrr_slice01/journal.py: `publish`, the one assignment that publishes authority, decision and
-- event together, and `artifact_types`.
use gsrr_agent_harness.Prelude.{
  ℕ, ◌+◌, String, Bool, true, false, not, ◌&&◌, Option, none, some, List, [], ◌∷◌, ◌++◌, ◌==◌,
  string_eq, if◌then◌else◌,
}
use gsrr_agent_harness.Exec.{Error, Exec, gets, modify, raise_if, ◌>>=◌, ◌>>◌}
use gsrr_agent_harness.Contracts.Results.{ProjectionDecision, RuntimeEvent}
use gsrr_agent_harness.Contracts.Record.{Record}
use gsrr_agent_harness.Journal.Defs.{RunAggregate, Journal}

-- `v is None`
abbrev pub is_none {ℓ} : {A : Type ℓ} → Option A → Bool
is_none none = true
is_none (some _) = false

-- `k == decision.retention_ref and v is None` for some slot
unfoldable pub has_open_slot : String → List (String × Option ProjectionDecision) → Bool
has_open_slot ref [] = false
has_open_slot ref ((k, v) ∷ rest) = if k == ref && is_none v then true else has_open_slot ref rest

-- `k == ref` for some record
unfoldable pub has_record : String → List (String × Record) → Bool
has_record ref [] = false
has_record ref ((k, r) ∷ rest) = if k == ref then true else has_record ref rest

-- `(k, decision if k == decision.retention_ref else v)` for every slot
unfoldable pub fill_slots :
    ProjectionDecision
    → List (String × Option ProjectionDecision)
    → List (String × Option ProjectionDecision)
fill_slots d [] = []
fill_slots d ((k, v) ∷ rest) = (k, if k == d.retention_ref then some d else v) ∷ fill_slots d rest

abbrev pub event_records : Option RuntimeEvent → List (String × Record)
event_records none = []
event_records (some e) = (e.event_id, Record.event e) ∷ []

abbrev pub event_entries : Option RuntimeEvent → List RuntimeEvent
event_entries none = []
event_entries (some e) = e ∷ []

abbrev pub new_or_old : Option String → String → String
new_or_old none old = old
new_or_old (some new) old = new

abbrev pub bump : Option String → ℕ
bump none = 0
bump (some _) = 1

-- The candidate that replaces the aggregate.
unfoldable pub candidate :
    ProjectionDecision → Option RuntimeEvent → Option String → RunAggregate → RunAggregate
candidate d e new_state old = record {
  authority_state = new_or_old new_state old.authority_state;
  authority_version = old.authority_version + bump new_state;
  records = (old.records ++ (d.projection_id, Record.projection d) ∷ []) ++ event_records e;
  events = old.events ++ event_entries e;
  outcome_slots = fill_slots d old.outcome_slots;
}

abbrev pub published : ProjectionDecision → Option RuntimeEvent → Option String → Journal → Journal
published d e new_state j = record j { aggregate = candidate d e new_state j.aggregate }

unfoldable pub publish :
    ProjectionDecision → Option RuntimeEvent → Option String → Exec Journal (Unit {0})
publish d e new_state = do
  old ← gets (λ j. j.aggregate)
  raise_if (not (has_open_slot d.retention_ref old.outcome_slots))
      (Error.retention_error "missing or already completed outcome slot")
  raise_if (has_record d.projection_id old.records)
      (Error.retention_error "duplicate final evaluation")
  modify (published d e new_state)

-- `type(self).__name__` of a record that is an artifact
unfoldable pub artifact_type : Record → Option String
artifact_type (Record.intent _) = some "StructuredIntent"
artifact_type (Record.snapshot _) = some "AuthoritativeStateSnapshot"
artifact_type (Record.transition _) = some "CandidateTransition"
artifact_type (Record.selection _) = some "CandidateSelection"
artifact_type (Record.validation _) = some "TransitionValidationResult"
artifact_type (Record.approval _) = some "ApprovedTransition"
artifact_type (Record.envelope _) = some "ExecutionEnvelope"
artifact_type (Record.plan _) = some "ExecutionPlan"
artifact_type (Record.plan_validation _) = some "PlanValidationResult"
artifact_type (Record.commit _) = some "RealizationCommit"
artifact_type (Record.descriptor _) = some "CapabilityDescriptor"
artifact_type (Record.execution _) = some "ExecutionResult"
artifact_type (Record.reconciliation _) = some "ReconciliationResult"
artifact_type (Record.projection _) = some "ProjectionDecision"
artifact_type (Record.event _) = some "RuntimeEvent"
artifact_type _ = none

unfoldable pub artifact_types : List (String × Record) → List String
unfolding artifact_type
artifact_types [] = []
artifact_types ((_, r) ∷ rest) =
    let types = artifact_types rest in
    elim (artifact_type r) [ none ↦ types | some name ↦ name ∷ types ]
