-- ===== src/Journal/Event.antt =====
-- src/gsrr_slice01/journal.py: `event`, which appends to the trace.
use gsrr_agent_harness.Prelude.{
  ℕ, ◌+◌, String, Option, none, some, List, [], ◌∷◌, ◌++◌, ◌==◌, string_eq, length, last,
  if◌then◌else◌,
}
use mathlib.Core.Option
use gsrr_agent_harness.Exec.{Exec, pure, gets, modify, ◌>>=◌, ◌>>◌}
use gsrr_agent_harness.Contracts.Attempts.{Attempt, ControlPayload}
use gsrr_agent_harness.Contracts.Results.{RuntimeEvent}
use gsrr_agent_harness.Contracts.Record.{Record}
use gsrr_agent_harness.Journal.Defs.{Journal, new_id, common, get, retain}

-- The arguments of a call of `event`.
pub record EventCall : Type 0 where
  pub event_type : String
  pub refs : List String
  pub outcome : String
  pub reason : String
  pub attempt : Option Attempt
  pub transition : Option String
  pub commit : Option String
  pub source_version : Option ℕ
  pub observed_version : Option ℕ
  pub policy : Option String
  pub payload : Option ControlPayload
  pub event_id : Option String

-- The defaults of the arguments that a call leaves out.
abbrev pub event_call : String → EventCall
event_call event_type = record {
  event_type = event_type;
  refs = [];
  outcome = "PASS";
  reason = "";
  attempt = none;
  transition = none;
  commit = none;
  source_version = none;
  observed_version = none;
  policy = none;
  payload = none;
  event_id = none;
}

-- `for ref in refs: self.get(ref)`
unfoldable pub get_all : List String → Exec Journal (Unit {0})
get_all [] = pure tt
get_all (ref ∷ rest) = do get ref; get_all rest

-- `own if given is None else given`
abbrev pub or_own {ℓ} : {A : Type ℓ} → Option A → Option A → Option A
or_own none own = own
or_own (some a) own = some a

-- `event_id or self.new_id("event")`
unfoldable pub chosen_id : Option String → Exec Journal String
chosen_id none = new_id "event"
chosen_id (some ref) = if ref == "" then new_id "event" else pure ref

abbrev pub prior_attempt : Option Attempt → Option String
prior_attempt none = none
prior_attempt (some a) = a.prior_attempt_id

-- The event that a call builds, given the trace so far and the id that it takes.
abbrev pub built_event : EventCall → List RuntimeEvent → String → Journal → RuntimeEvent
built_event c events ref j = record {
  artifact = common "EVENT_JOURNAL" j;
  event_id = ref;
  event_type = c.event_type;
  sequence = length events + 1;
  causation_id_or_null = Option.map (λ e. e.event_id) (last events);
  actor_or_component = "GSRR_SLICE_01";
  object_id = "DOC-001";
  transition_id_or_null = or_own c.transition j.transition_ref;
  commit_id_or_null = or_own c.commit j.commit_ref;
  source_authority_version_or_null = or_own c.source_version j.source_version;
  observed_version_or_null = or_own c.observed_version j.observed_version;
  artifact_refs = c.refs;
  outcome = c.outcome;
  reason_codes = if c.reason == "" then [] else c.reason ∷ [];
  visibility = "INTERNAL_BOUNDED_TRACE";
  attempt_id_or_null = Option.map (λ a. a.attempt_id) c.attempt;
  parent_transition_id_or_null = or_own c.transition j.transition_ref;
  attempt_number_or_null = Option.map (λ a. a.attempt_number) c.attempt;
  prior_attempt_id_or_null = prior_attempt c.attempt;
  retry_policy_ref_or_null = c.policy;
  control_payload_or_null = c.payload;
}

abbrev pub set_events : List RuntimeEvent → Journal → Journal
set_events events j = record j { aggregate = record j.aggregate { events = events } }

-- The retention of an event and of the trace that it ends, `events` being the trace before it.
unfoldable pub keep_event : List RuntimeEvent → RuntimeEvent → Exec Journal RuntimeEvent
keep_event events e = do
  retain e.event_id (Record.event e)
  modify (set_events (events ++ e ∷ []))
  pure e

unfoldable pub append_event : EventCall → List RuntimeEvent → String → Exec Journal RuntimeEvent
append_event c events ref = do e ← gets (built_event c events ref); keep_event events e

unfoldable pub event : EventCall → Exec Journal RuntimeEvent
event c = do
  get_all c.refs
  events ← gets (λ j. j.aggregate.events)
  ref ← chosen_id c.event_id
  append_event c events ref
