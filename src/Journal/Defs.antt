-- ===== src/Journal/Defs.antt =====
-- src/gsrr_slice01/journal.py: the aggregate, the journal, and its reads and appends.
use gsrr_agent_harness.Prelude.{
  ℕ, ◌+◌, String, Bool, true, not, Option, none, some, List, [], ◌∷◌, ◌++◌, ◌==◌, string_eq, concat,
  decimal, if◌then◌else◌,
}
use gsrr_agent_harness.Exec.{
  Error, Result, Exec, pure, raise, except_key, modify, raise_if, ◌>>=◌, ◌>>◌,
}
use gsrr_agent_harness.Contracts.Values.{Artifact}
use gsrr_agent_harness.Contracts.Results.{ProjectionDecision, RuntimeEvent}
use gsrr_agent_harness.Contracts.Record.{Record, same_record}

pub record RunAggregate : Type 0 where
  pub authority_state : String
  pub authority_version : ℕ
  pub records : List (String × Record)
  pub events : List RuntimeEvent
  pub outcome_slots : List (String × Option ProjectionDecision)

pub record Journal : Type 0 where
  pub run_id : String
  pub aggregate : RunAggregate
  pub serial : ℕ
  pub transition_ref : Option String
  pub commit_ref : Option String
  pub source_version : Option ℕ
  pub observed_version : Option ℕ

-- `RunAggregate()`
abbrev pub empty_aggregate : RunAggregate
empty_aggregate = record {
  authority_state = "DRAFT";
  authority_version = 1;
  records = [];
  events = [];
  outcome_slots = [];
}

-- `Journal(run_id)`
abbrev pub new_journal : String → Journal
new_journal run_id = record {
  run_id = run_id;
  aggregate = empty_aggregate;
  serial = 0;
  transition_ref = none;
  commit_ref = none;
  source_version = none;
  observed_version = none;
}

-- f"{run_id}:{kind}:{serial}"
unfoldable pub id_text : String → String → ℕ → String
unfolding concat decimal
id_text run_id kind serial = concat (run_id ∷ ":" ∷ kind ∷ ":" ∷ decimal serial ∷ [])

unfoldable pub new_id : String → Exec Journal String
new_id kind j =
    let serial = j.serial + 1 in
    (Result.ok (id_text j.run_id kind serial), record j { serial = serial })

-- `**self.common(producer)`, with the default version of the artifacts
abbrev pub common : String → Journal → Artifact
common producer j = record {
  run_id = j.run_id;
  correlation_id = j.run_id;
  producer = producer;
  artifact_version = "v0_1";
}

-- The loop of `get`: the first record under the reference.
unfoldable pub lookup : String → List (String × Record) → Option Record
lookup ref [] = none
lookup ref ((key, r) ∷ rest) = if key == ref then some r else lookup ref rest

unfoldable pub or_key_error : String → Option Record → Exec Journal Record
or_key_error ref none = raise (Error.key_error ref)
or_key_error ref (some r) = pure r

unfoldable pub get : String → Exec Journal Record
get ref j = or_key_error ref (lookup ref j.aggregate.records) j

-- `old is not None`
unfoldable pub is_null : Record → Bool
is_null Record.null = true
is_null r = Bool.false

abbrev pub add_record : String → Record → Journal → Journal
add_record ref r j = record j {
  aggregate = record j.aggregate { records = j.aggregate.records ++ (ref, r) ∷ [] };
}

-- The rest of `retain`, given whether a record is there and whether it is equal to the new one.
unfoldable pub keep_record : String → Record → Bool → Bool → Exec Journal Record
keep_record ref r true same = do
  raise_if (not same) (Error.retention_error "immutable reference replacement")
  pure r
keep_record ref r Bool.false same = do modify (add_record ref r); pure r

unfoldable pub retain : String → Record → Exec Journal Record
retain ref r = do
  raise_if (ref == "") (Error.retention_error "empty reference")
  old ← except_key (get ref) Record.null
  keep_record ref r (not (is_null old)) (same_record old r)

abbrev pub add_slot : String → Journal → Journal
add_slot ref j = record j {
  aggregate = record j.aggregate { outcome_slots = j.aggregate.outcome_slots ++ (ref, none) ∷ [] };
}

unfoldable pub reserve : String → List String → Bool → Exec Journal Bool
reserve ref inputs fail =
    if fail
    then pure Bool.false
    else (do retain ref (Record.strings inputs); modify (add_slot ref); pure true)
