-- ===== src/Fixture/Observe.antt =====
-- src/gsrr_slice01/fixture.py: the provider's reads, and the change from outside that a test injects.
use gsrr_agent_harness.Prelude.{
  ℕ, ◌+◌, String, Bool, true, false, not, ◌&&◌, Option, none, some, List, [], length, ◌==◌,
  string_eq, if◌then◌else◌,
}
use gsrr_agent_harness.Exec.{Exec, pure, gets, modify, ◌>>=◌, ◌>>◌}
use gsrr_agent_harness.Shared.{Shared, in_journal, own_gets, own_modify}
use gsrr_agent_harness.Contracts.Domain.{Definition}
use gsrr_agent_harness.Contracts.Effects.{Action, ObservedState}
use gsrr_agent_harness.Contracts.Planning.{AuthoritativeStateSnapshot}
use gsrr_agent_harness.Contracts.Record.{Record}
use gsrr_agent_harness.Journal.Defs.{Journal, common, new_id, retain}
use gsrr_agent_harness.Fixture.Defs.{Provider}
use gsrr_agent_harness.Fixture.Provider.{interval_ref, interval_actions, set_view}

abbrev pub count_read : Provider → Provider
count_read s = record s { read_count = s.read_count + 1 }

-- `x if not initial else None`
abbrev pub unless_initial {ℓ} : {A : Type ℓ} → Bool → A → Option A
unless_initial true a = none
unless_initial false a = some a

abbrev pub observed_actions : String → Bool → Provider → Option (List Action)
observed_actions fault initial s =
    if fault == "dropped" then some [] else unless_initial initial (interval_actions s)

-- The observation that is built before the test for a conflict.
abbrev pub observation : String → Bool → String → Provider → ObservedState
observation fault initial ref s = record {
  snapshot_id = ref;
  provider_id = "STATE_PROVIDER";
  object_id = "DOC-001";
  state = s.view.state;
  exists = s.view.exists;
  content_digest = s.view.digest;
  observation_version = s.view.version;
  predecessor_version = s.view.predecessor;
  commit_id = s.view.commit_id;
  read_sequence = s.read_count;
  action_log_ref = unless_initial initial (interval_ref s.current_invocation);
  interval_start = unless_initial initial s.interval_start;
  interval_end = unless_initial initial (length s.actions);
  interval_closed = unless_initial initial (s.closed && not (fault == "unclosed"));
  complete_for_invocation =
      unless_initial initial (not (fault == "incomplete") && not (fault == "dropped"));
  fixture_boundary_ref = "fixture-boundary";
  actions = observed_actions fault initial s;
  conflicting = fault == "conflicting";
  conflicting_snapshot_ref = none;
}

abbrev pub alternate_of : ObservedState → String → ObservedState
alternate_of obs ref = record obs {
  snapshot_id = ref;
  state = if obs.state == "REVIEW" then "DRAFT" else "REVIEW";
  conflicting = false;
}

-- The observation, with its alternate retained where the fault is a conflict.
unfoldable pub with_conflict : String → ObservedState → Exec (Shared Provider) ObservedState
with_conflict fault obs =
    if fault == "conflicting"
    then (do
      ref ← in_journal (new_id "conflicting-observation")
      in_journal (retain ref (Record.observed (alternate_of obs ref)))
      pure (record obs { conflicting_snapshot_ref = some ref }))
    else pure obs

unfoldable pub observe : String → Bool → Exec (Shared Provider) (Option ObservedState)
observe fault initial = do
  own_modify count_read
  if fault == "missing" then pure none else (do
    ref ← in_journal (new_id "observation")
    built ← own_gets (observation fault initial ref)
    obs ← with_conflict fault built
    in_journal (retain ref (Record.observed obs))
    pure (some obs))

abbrev pub authority_snapshot :
    Definition → ObservedState → ℕ → String → Journal → AuthoritativeStateSnapshot
authority_snapshot definition observed read_count ref j = record {
  artifact = common "STATE_PROVIDER" j;
  snapshot_id = ref;
  provider_id = "STATE_PROVIDER";
  object_id = "DOC-001";
  state = j.aggregate.authority_state;
  authority_version = j.aggregate.authority_version;
  observed_baseline_ref = observed.snapshot_id;
  exists = true;
  content_digest = "fixture-content-digest";
  definition_ref = definition.definition_id;
  read_sequence = read_count;
}

unfoldable pub snapshot :
    Definition → ObservedState → Exec (Shared Provider) AuthoritativeStateSnapshot
snapshot definition observed = do
  own_modify count_read
  ref ← in_journal (new_id "authority")
  read_count ← own_gets (λ s. s.read_count)
  taken ← in_journal (gets (authority_snapshot definition observed read_count ref))
  in_journal (retain taken.snapshot_id (Record.snapshot taken))
  pure taken

abbrev pub change_authority : Journal → Journal
change_authority j = record j {
  aggregate = record j.aggregate {
    authority_state = "REVIEW";
    authority_version = j.aggregate.authority_version + 1;
  };
}

abbrev pub change_observation : Provider → Provider
change_observation s =
    set_view
      (record s.view {
        version = s.view.version + 1;
        state = "REVIEW";
        commit_id = some "unrelated-writer";
      })
      s

abbrev pub change_content : Provider → Provider
change_content s =
    set_view
      (record s.view {
        digest = "different";
        version = s.view.version + 1;
        commit_id = some "unrelated-writer";
      })
      s

unfoldable pub external_change : String → Exec (Shared Provider) (Unit {0})
external_change kind =
    if kind == "authority"
    then in_journal (modify change_authority)
    else if kind == "observation"
    then own_modify change_observation
    else if kind == "content"
    then own_modify change_content
    else pure tt
