-- ===== src/Journal/Examples.antt =====
-- Concrete journals, and the journal's theorems at them.
use gsrr_agent_harness.Prelude.{◌≡◌, refl, true, false, ◌⊎◌, none, some, [], ◌∷◌, String}
use gsrr_agent_harness.Exec.{Error, Result, ◌>>=◌}
use gsrr_agent_harness.Contracts.Enums.{Decision}
use gsrr_agent_harness.Contracts.Results.{ProjectionDecision}
use gsrr_agent_harness.Contracts.Record.{Record}
use gsrr_agent_harness.Journal.Defs.{
  Journal, new_journal, common, new_id, id_text, lookup, get, or_key_error, is_null, keep_record,
  retain, reserve,
}
use gsrr_agent_harness.Journal.Event
use gsrr_agent_harness.Journal.Event.{
  built_event, EventCall, get_all, chosen_id, append_event, keep_event, event,
}
use gsrr_agent_harness.Journal.Publish.{has_open_slot, has_record, published, publish}
use gsrr_agent_harness.Journal.Steps.{here, next, Step, retained_record_kept}
use gsrr_agent_harness.Journal.Slots.{stay, after}
use gsrr_agent_harness.Journal.Retention.{IsRetained, retain_all_or_nothing}
use gsrr_agent_harness.Journal.Publication.{
  IsPublished, publish_all_or_nothing, publish-publish, reserve-publish,
}
use gsrr_agent_harness.Journal.Trace.{IsTrace, event-IsTrace}

abbrev rule : Record
rule = Record.strings ("SUPPLIED_FIXTURE_RULE_OR_IDENTITY" ∷ "AUTHORITY" ∷ [])

abbrev fresh : Journal
fresh = new_journal "run-1"

-- A journal that holds one rule.
abbrev ruled : Journal
ruled = record fresh { aggregate = record fresh.aggregate { records = ("AUTHORITY", rule) ∷ [] } }

retain-rule : retain "AUTHORITY" rule fresh ≡ (Result.ok rule, ruled)
unfolding retain get or_key_error lookup keep_record is_null ◌>>=◌
retain-rule = refl

-- A call of `event` that names the rule.
abbrev call : EventCall
call = record (Event.event_call "IntentStructured") { refs = "AUTHORITY" ∷ []; reason = "a rule" }

event_id_of_call :
    (event call ruled).1.aggregate.records
    ≡ ("AUTHORITY", rule)
      ∷ ("run-1:event:1", Record.event (built_event call [] "run-1:event:1" ruled))
      ∷ []
unfolding event get_all get or_key_error lookup chosen_id new_id id_text append_event keep_event
    retain keep_record is_null ◌>>=◌
event_id_of_call = refl

retained_record_kept_example : lookup "AUTHORITY" (event call ruled).1.aggregate.records ≡ some rule
unfolding lookup
retained_record_kept_example =
    retained_record_kept "AUTHORITY" rule {s = ruled} {t = (event call ruled).1}
      (next here (Step.event_call call refl)) refl

retain_all_or_nothing_example :
    ((why : String) × (retain "AUTHORITY" (Record.strings []) ruled
        ≡ (Result.err (Error.retention_error why), ruled)))
    ⊎ (((retain "AUTHORITY" (Record.strings []) ruled).0 ≡ Result.ok (Record.strings []))
        × IsRetained "AUTHORITY"
            (Record.strings [])
            ruled
            (retain "AUTHORITY" (Record.strings []) ruled).1)
unfolding is_null
retain_all_or_nothing_example =
    retain_all_or_nothing "AUTHORITY" (Record.strings []) ruled (refl, tt) refl

ruled-IsTrace : IsTrace ruled
unfolding is_null
ruled-IsTrace = record { linked = tt; resolved = tt; retained = tt; no_null = (refl, tt) }

event-IsTrace_example : IsTrace (event call ruled).1
event-IsTrace_example = event-IsTrace call ruled ruled-IsTrace

-- A decision for the slot "slot".
abbrev decision : ProjectionDecision
decision = record {
  artifact = common "PROJECTOR" fresh;
  projection_id = "run-1:projection:2";
  transition_id = "t";
  reconciliation_id = "r";
  commit_id = "c";
  object_id = "DOC-001";
  plan_ref = "p";
  envelope_ref = "e";
  definition_ref = "d";
  initial_and_current_snapshot_refs = [];
  expected_authority_version = 1;
  current_authority_version_or_null = some 1;
  reconciled_observation_version = some 2;
  current_observation_version_or_null = some 2;
  action_interval_ref = none;
  target_state = "REVIEW";
  authority_evidence_refs = "grant-1" ∷ [];
  checks = [];
  final_decision = Decision.project;
  reason_codes = "PASS" ∷ [];
  reasons = "PASS" ∷ [];
  write_outcome = "APPLIED";
  authoritative_state_changed = true;
  projected_authority_version_or_null = some 2;
  retention_ref = "slot";
  journal_record_status = "RECORDED";
}

-- The journal once the slot is reserved.
abbrev reserved : Journal
reserved = (reserve "slot" ("r" ∷ []) false ruled).1

-- The calls of the projector between a reservation and the publication.
abbrev prepared : Journal
prepared = (event call (new_id "projection" reserved).1).1

reserve-publish_example :
    publish decision none (some "REVIEW") prepared
    ≡ (Result.ok tt, published decision none (some "REVIEW") prepared)
unfolding reserve retain get or_key_error lookup keep_record is_null has_record ◌>>=◌ event get_all
    chosen_id new_id id_text append_event keep_event
reserve-publish_example =
    reserve-publish "slot" ("r" ∷ []) decision none (some "REVIEW") ruled reserved prepared refl
      (after (after stay (Step.new_id_call "projection" refl) tt) (Step.event_call call refl) tt)
      refl refl

-- The journal after the publication, and after a later event and the reservation of another slot.
abbrev completed : Journal
completed = (publish decision none (some "REVIEW") prepared).1

abbrev continued : Journal
continued = (reserve "slot-2" ("r" ∷ []) false (event call completed).1).1

publish-prepared : (publish decision none (some "REVIEW") prepared).0 ≡ Result.ok tt
unfolding publish reserve retain get or_key_error lookup keep_record is_null has_record
    has_open_slot ◌>>=◌ event get_all chosen_id new_id id_text append_event keep_event
publish-prepared = refl

publish-publish_example :
    publish decision none none continued
    ≡ (Result.err (Error.retention_error "missing or already completed outcome slot"), continued)
publish-publish_example =
    publish-publish decision decision none none (some "REVIEW") none prepared continued
      publish-prepared
      (after (after stay (Step.event_call call refl) tt)
        (Step.reserve_call "slot-2" ("r" ∷ []) false refl) (λ e. absurd (cc)))
      refl

publish_all_or_nothing_example :
    ((why : String) × (publish decision none none reserved
        ≡ (Result.err (Error.retention_error why), reserved)))
    ⊎ (((publish decision none none reserved).0 ≡ Result.ok tt)
        × IsPublished decision none none reserved (publish decision none none reserved).1)
publish_all_or_nothing_example = publish_all_or_nothing decision none none reserved
