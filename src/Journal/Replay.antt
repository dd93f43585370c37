-- ===== src/Journal/Replay.antt =====
-- src/gsrr_slice01/journal.py: the authority as the replay of the decisions that the journal retains.
use gsrr_agent_harness.Prelude.{
  ℕ, ◌+◌, arith, String, ◌≡◌, refl, ap, ◌∙◌, Bool, true, false, Option, none, some, List, [], ◌∷◌,
  ◌++◌,
}
use gsrr_agent_harness.Exec.{modify}
use gsrr_agent_harness.Exec.Keeps.{
  Order, preserving, Keeps, Keeps-modify, Keeps-bind, Keeps-gets, Keeps-raise_if, Keeps-pure,
  keeps_rules,
}
use gsrr_agent_harness.Contracts.Results.{ProjectionDecision, RuntimeEvent}
use gsrr_agent_harness.Contracts.Record.{Record}
use gsrr_agent_harness.Journal.Defs.{
  RunAggregate, Journal, new_id, add_record, keep_record, retain, add_slot, reserve,
}
use gsrr_agent_harness.Journal.Event.{
  EventCall, get_all, chosen_id, set_events, keep_event, append_event, event,
}
use gsrr_agent_harness.Journal.Publish.{
  event_records, candidate, published, publish, new_or_old, bump,
}
use gsrr_agent_harness.Journal.Basic.{IsPlain, target_of, Basic, Publishes, get-Keeps}

-- The published state and its version.
pub record Authority : Type 0 where
  pub state : String
  pub version : ℕ

-- The authority before anything is published.
abbrev pub first_authority : Authority
first_authority = record { state = "DRAFT"; version = 1 }

abbrev pub authority_of : RunAggregate → Authority
authority_of a = record { state = a.authority_state; version = a.authority_version }

-- What a retained record does to the authority: a PROJECT decision sets the state that it targets, and
-- counts the version on.
abbrev pub decided : Record → Authority → Authority
decided (Record.projection d) a = record {
  state = new_or_old (target_of d) a.state;
  version = a.version + bump (target_of d);
}
decided r a = a

unfoldable pub replay : List (String × Record) → Authority → Authority
replay [] a = a
replay ((ref, r) ∷ rest) a = replay rest (decided r a)

pub replay-append :
    (xs ys : List (String × Record)) (a : Authority) → replay (xs ++ ys) a ≡ replay ys (replay xs a)
unfolding replay
replay-append [] ys a = refl
replay-append ((ref, r) ∷ xs) ys a = replay-append xs ys (decided r a)

-- How many states the retained decisions publish.
unfoldable pub publications : List (String × Record) → ℕ
publications [] = 0
publications ((ref, Record.projection d) ∷ rest) = bump (target_of d) + publications rest
publications ((ref, r) ∷ rest) = publications rest

pub replay-publications :
    (xs : List (String × Record)) (a : Authority)
    → (replay xs a).version ≡ a.version + publications xs
unfolding replay publications
replay-publications [] a = omega arith
replay-publications ((ref, Record.projection d) ∷ xs) a =
    rw (replay-publications xs (decided (Record.projection d) a)) (omega arith)
replay-publications ((ref, r) ∷ xs) a = replay-publications xs a

-- The journal's authority is what its records say.
abbrev pub IsReplayed : Journal → Type 0
IsReplayed j = replay j.aggregate.records first_authority ≡ authority_of j.aggregate

abbrev pub replayed : Order Journal
replayed = preserving IsReplayed

decided_plain : (r : Record) (a : Authority) → IsPlain r → decided r a ≡ a
decided_plain (Record.projection d) a p = absurd p
decided_plain r a p = refl

add_record-IsReplayed :
    (ref : String) (r : Record) (j : Journal)
    → IsPlain r
    → IsReplayed j
    → IsReplayed (add_record ref r j)
unfolding replay
add_record-IsReplayed ref r j plain h =
    replay-append j.aggregate.records ((ref, r) ∷ []) first_authority
    ∙ ap (decided r) h
    ∙ decided_plain r (authority_of j.aggregate) plain

new_id-replayed : (kind : String) → Keeps replayed (new_id kind)
unfolding new_id
new_id-replayed kind = record { at = λ s h. h }

keep_record-replayed :
    (ref : String) (r : Record) (present same : Bool)
    → IsPlain r
    → Keeps replayed (keep_record ref r present same)
unfolding keep_record
keep_record-replayed ref r true same plain = search keeps_rules
keep_record-replayed ref r false same plain =
    Keeps-bind _ _
      (Keeps-modify {o = replayed} (add_record ref r) (λ s. add_record-IsReplayed ref r s plain))
      λ _. Keeps-pure r

retain-replayed : (ref : String) (r : Record) → IsPlain r → Keeps replayed (retain ref r)
unfolding retain
retain-replayed ref r plain = search (keeps_rules, get-Keeps, keep_record-replayed) depth 9

get_all-replayed : (refs : List String) → Keeps replayed (get_all refs)
unfolding get_all
get_all-replayed [] = search keeps_rules
get_all-replayed (ref ∷ rest) = Keeps-bind _ _ (get-Keeps replayed ref) λ _. get_all-replayed rest

chosen_id-replayed : (given : Option String) → Keeps replayed (chosen_id given)
unfolding chosen_id
chosen_id-replayed none = new_id-replayed "event"
chosen_id-replayed (some ref) = search (keeps_rules, new_id-replayed)

set_events-replayed : (events : List RuntimeEvent) → Keeps replayed (modify (set_events events))
set_events-replayed events = Keeps-modify {o = replayed} (set_events events) (λ s h. h)

event-replayed : (c : EventCall) → Keeps replayed (event c)
unfolding event append_event keep_event
event-replayed c =
    search (keeps_rules, get_all-replayed, chosen_id-replayed, retain-replayed, set_events-replayed)
      depth 16

reserve-replayed :
    (ref : String) (inputs : List String) (fail : Bool) → Keeps replayed (reserve ref inputs fail)
unfolding reserve
reserve-replayed ref inputs true = search keeps_rules
reserve-replayed ref inputs false =
    Keeps-bind _ _ (retain-replayed ref (Record.strings inputs) tt) λ _.
      Keeps-bind _ _ (Keeps-modify {o = replayed} (add_slot ref) (λ s h. h)) λ _. Keeps-pure true

replay_event : (e : Option RuntimeEvent) (a : Authority) → replay (event_records e) a ≡ a
unfolding replay
replay_event none a = refl
replay_event (some e) a = refl

published-IsReplayed :
    (d : ProjectionDecision) (e : Option RuntimeEvent) (j : Journal)
    → IsReplayed j
    → IsReplayed (published d e (target_of d) j)
unfolding candidate replay
published-IsReplayed d e j h =
    let kept = (d.projection_id, Record.projection d) ∷ [] in
    replay-append (j.aggregate.records ++ kept) (event_records e) first_authority
    ∙ replay_event e (replay (j.aggregate.records ++ kept) first_authority)
    ∙ replay-append j.aggregate.records kept first_authority
    ∙ ap (decided (Record.projection d)) h

pub publish-replayed : Publishes replayed
unfolding publish
publish-replayed d e = Keeps-bind _ _ (Keeps-gets _) λ old. Keeps-bind _ _ (Keeps-raise_if _ _) λ _.
    Keeps-bind _ _ (Keeps-raise_if _ _)
      λ _. Keeps-modify {o = replayed} (published d e (target_of d)) (published-IsReplayed d e)

-- Every such call keeps the authority equal to the replay of the decisions.
pub replay-Basic : Basic replayed
replay-Basic = record {
  at_new_id = new_id-replayed;
  at_retain = retain-replayed;
  at_event = event-replayed;
  at_reserve = reserve-replayed;
  at_refs = λ t c a b s h. h;
}
