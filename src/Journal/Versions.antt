-- ===== src/Journal/Versions.antt =====
-- src/gsrr_slice01/journal.py: the authority's version is left alone by every call but `publish`, which
-- counts it on by one where it publishes a state.
use gsrr_agent_harness.Prelude.{
  ℕ, String, ◌≡◌, refl, ◌∙◌, Bool, true, false, Option, none, some, List, [], ◌∷◌,
}
use gsrr_agent_harness.Exec.{modify}
use gsrr_agent_harness.Exec.Keeps.{Order, Keeps, Keeps-modify, Keeps-bind, Keeps-pure, keeps_rules}
use gsrr_agent_harness.Contracts.Results.{RuntimeEvent}
use gsrr_agent_harness.Contracts.Record.{Record}
use gsrr_agent_harness.Journal.Defs.{
  Journal, new_id, add_record, keep_record, retain, add_slot, reserve,
}
use gsrr_agent_harness.Journal.Event.{
  EventCall, get_all, chosen_id, set_events, keep_event, append_event, event,
}
use gsrr_agent_harness.Journal.Basic.{Basic, get-Keeps}

abbrev pub version_of : Journal → ℕ
version_of j = j.aggregate.authority_version

abbrev pub same_version : Order Journal
same_version = record {
  le = λ s t. version_of t ≡ version_of s;
  le_refl = λ s. refl;
  le_trans = λ s t u f g. g ∙ f;
}

new_id-version : (kind : String) → Keeps same_version (new_id kind)
unfolding new_id
new_id-version kind = record { at = λ s. refl }

keep_record-version :
    (ref : String) (r : Record) (present same : Bool)
    → Keeps same_version (keep_record ref r present same)
unfolding keep_record
keep_record-version ref r true same = search keeps_rules
keep_record-version ref r false same =
    Keeps-bind _ _ (Keeps-modify {o = same_version} (add_record ref r) (λ s. refl))
      λ _. Keeps-pure r

retain-version : (ref : String) (r : Record) → Keeps same_version (retain ref r)
unfolding retain
retain-version ref r = search (keeps_rules, get-Keeps, keep_record-version) depth 9

get_all-version : (refs : List String) → Keeps same_version (get_all refs)
unfolding get_all
get_all-version [] = search keeps_rules
get_all-version (ref ∷ rest) = Keeps-bind _ _ (get-Keeps same_version ref) λ _. get_all-version rest

chosen_id-version : (given : Option String) → Keeps same_version (chosen_id given)
unfolding chosen_id
chosen_id-version none = new_id-version "event"
chosen_id-version (some ref) = search (keeps_rules, new_id-version)

set_events-version : (events : List RuntimeEvent) → Keeps same_version (modify (set_events events))
set_events-version events = Keeps-modify {o = same_version} (set_events events) (λ s. refl)

event-version : (c : EventCall) → Keeps same_version (event c)
unfolding event append_event keep_event
event-version c =
    search (keeps_rules, get_all-version, chosen_id-version, retain-version, set_events-version)
      depth 16

reserve-version :
    (ref : String) (inputs : List String) (fail : Bool)
    → Keeps same_version (reserve ref inputs fail)
unfolding reserve
reserve-version ref inputs true = search keeps_rules
reserve-version ref inputs false = Keeps-bind _ _ (retain-version ref (Record.strings inputs)) λ _.
    Keeps-bind _ _ (Keeps-modify {o = same_version} (add_slot ref) (λ s. refl)) λ _. Keeps-pure true

pub version-Basic : Basic same_version
version-Basic = record {
  at_new_id = new_id-version;
  at_retain = λ ref r _. retain-version ref r;
  at_event = event-version;
  at_reserve = reserve-version;
  at_refs = λ t c a b s. refl;
}
