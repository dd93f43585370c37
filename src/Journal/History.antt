-- ===== src/Journal/History.antt =====
-- src/gsrr_slice01/journal.py: the history only grows. Whatever a method is called with, and however
-- it ends, what the journal has retained stays where it is.
use gsrr_agent_harness.Prelude.{
  ◌≤◌, String, ◌≡◌, refl, ◌∙◌, sym, ap, Bool, true, false, Option, none, some, List, [], ◌∷◌, ◌++◌,
  arith, inl, inr, Option-cases, Extends, Extends-refl, Extends-append, Extends-trans,
}
use gsrr_agent_harness.Exec.{raise, pure, ◌>>=◌}
use gsrr_agent_harness.Exec.Keeps.{
  Order, Keeps, Keeps-modify, Keeps-bind, Keeps-gets, Keeps-raise_if, Keeps-gets_bind, keeps_rules,
}
use gsrr_agent_harness.Exec.Invert.{bind_split}
use gsrr_agent_harness.Contracts.Results.{ProjectionDecision, RuntimeEvent}
use gsrr_agent_harness.Contracts.Record.{Record}
use gsrr_agent_harness.Journal.Defs.{
  Journal, new_id, lookup, or_key_error, get, add_record, keep_record, retain, add_slot, reserve,
}
use gsrr_agent_harness.Journal.Event.{
  EventCall, get_all, chosen_id, built_event, set_events, keep_event, append_event, event,
}
use gsrr_agent_harness.Journal.Publish.{publish, event_records, event_entries, candidate, published}

-- The journal `t` is a later state of the run's journal `s`.
pub record IsLater (s t : Journal) : Type 0 where
  pub same_run : t.run_id ≡ s.run_id
  pub serials : s.serial ≤ t.serial
  pub records : Extends s.aggregate.records t.aggregate.records
  pub events : Extends s.aggregate.events t.aggregate.events

pub IsLater-refl : (s : Journal) → IsLater s s
IsLater-refl s = record {
  same_run = refl;
  serials = omega arith;
  records = Extends-refl s.aggregate.records;
  events = Extends-refl s.aggregate.events;
}

pub IsLater-trans : (s t u : Journal) → IsLater s t → IsLater t u → IsLater s u
IsLater-trans s t u h k = record {
  same_run = k.same_run ∙ h.same_run;
  serials = omega arith;
  records =
      Extends-trans s.aggregate.records t.aggregate.records u.aggregate.records h.records k.records;
  events = Extends-trans s.aggregate.events t.aggregate.events u.aggregate.events h.events k.events;
}

abbrev pub history : Order Journal
history = record { le = IsLater; le_refl = IsLater-refl; le_trans = IsLater-trans }

pub new_id-history : (kind : String) → Keeps history (new_id kind)
unfolding new_id
new_id-history kind = record {
  at = λ s. record {
    same_run = refl;
    serials = omega arith;
    records = Extends-refl s.aggregate.records;
    events = Extends-refl s.aggregate.events;
  };
}

get-history : (ref : String) → Keeps history (get ref)
unfolding get or_key_error raise pure
get-history ref = record {
  at = λ s. elim (Option-cases (lookup ref s.aggregate.records)) [
    | inl e ↦ rw e (IsLater-refl s)
    | inr (r, e) ↦ rw e (IsLater-refl s)
  ];
}

add_record-history : (ref : String) (r : Record) (s : Journal) → IsLater s (add_record ref r s)
add_record-history ref r s = record {
  same_run = refl;
  serials = omega arith;
  records = Extends-append s.aggregate.records ((ref, r) ∷ []);
  events = Extends-refl s.aggregate.events;
}

set_events-history :
    (old : List RuntimeEvent) (e : RuntimeEvent) (s : Journal)
    → s.aggregate.events ≡ old
    → IsLater s (set_events (old ++ e ∷ []) s)
set_events-history old e s same = record {
  same_run = refl;
  serials = omega arith;
  records = Extends-refl s.aggregate.records;
  events = (e ∷ [], ap (λ l. l ++ e ∷ []) (sym same));
}

add_slot-history : (ref : String) (s : Journal) → IsLater s (add_slot ref s)
add_slot-history ref s = record {
  same_run = refl;
  serials = omega arith;
  records = Extends-refl s.aggregate.records;
  events = Extends-refl s.aggregate.events;
}

keep_record-history :
    (ref : String) (r : Record) (present same : Bool)
    → Keeps history (keep_record ref r present same)
unfolding keep_record
keep_record-history ref r true same = search keeps_rules
keep_record-history ref r false same =
    search (keeps_rules, Keeps-modify {o = history} (add_record ref r) (add_record-history ref r))

pub retain-history : (ref : String) (r : Record) → Keeps history (retain ref r)
unfolding retain
retain-history ref r = search (keeps_rules, get-history, keep_record-history)

-- What the trace is appended to has not changed since it was read.
abbrev pub same_events : Order Journal
same_events = record {
  le = λ s t. t.aggregate.events ≡ s.aggregate.events;
  le_refl = λ s. refl;
  le_trans = λ s t u p q. q ∙ p;
}

new_id-same_events : (kind : String) → Keeps same_events (new_id kind)
unfolding new_id
new_id-same_events kind = record { at = λ s. refl }

get-same_events : (ref : String) → Keeps same_events (get ref)
unfolding get or_key_error raise pure
get-same_events ref = record {
  at = λ s. elim (Option-cases (lookup ref s.aggregate.records)) [
    | inl e ↦ rw e refl
    | inr (r, e) ↦ rw e refl
  ];
}

keep_record-same_events :
    (ref : String) (r : Record) (present same : Bool)
    → Keeps same_events (keep_record ref r present same)
unfolding keep_record
keep_record-same_events ref r true same = search keeps_rules
keep_record-same_events ref r false same =
    search (keeps_rules, Keeps-modify {o = same_events} (add_record ref r) (λ s. refl))

pub retain-same_events : (ref : String) (r : Record) → Keeps same_events (retain ref r)
unfolding retain
retain-same_events ref r = search (keeps_rules, get-same_events, keep_record-same_events)

get_all-history : (refs : List String) → Keeps history (get_all refs)
unfolding get_all
get_all-history [] = search keeps_rules
get_all-history (ref ∷ rest) = Keeps-bind (get ref) _ (get-history ref) (λ _. get_all-history rest)

chosen_id-history : (given : Option String) → Keeps history (chosen_id given)
unfolding chosen_id
chosen_id-history none = new_id-history "event"
chosen_id-history (some ref) = search (keeps_rules, new_id-history)

chosen_id-same_events : (given : Option String) → Keeps same_events (chosen_id given)
unfolding chosen_id
chosen_id-same_events none = new_id-same_events "event"
chosen_id-same_events (some ref) = search (keeps_rules, new_id-same_events)

keep_event-history :
    (events : List RuntimeEvent) (e : RuntimeEvent) (s : Journal)
    → s.aggregate.events ≡ events
    → IsLater s (keep_event events e s).1
unfolding keep_event
keep_event-history events e s same =
    let m = retain e.event_id (Record.event e) in
    let u = (m s).1 in
    bind_split (λ p. IsLater s p.1) m _ s
      (λ a _.
        unfold ◌>>=◌ in
        IsLater-trans s u _ ((retain-history e.event_id (Record.event e)).at s) (
          set_events-history events e u
            ((retain-same_events e.event_id (Record.event e)).at s ∙ same)))
      (λ x _. (retain-history e.event_id (Record.event e)).at s)

append_event-history :
    (c : EventCall) (events : List RuntimeEvent) (ref : String) (s : Journal)
    → s.aggregate.events ≡ events
    → IsLater s (append_event c events ref s).1
unfolding append_event ◌>>=◌
append_event-history c events ref s same =
    keep_event-history events (built_event c events ref s) s same

-- A split of `m` that keeps the trace, followed by a call that wants the trace as it was.
pub event-history : (c : EventCall) → Keeps history (event c)
unfolding event
event-history c = Keeps-bind (get_all c.refs) _ (get_all-history c.refs) λ _.
    Keeps-gets_bind _ (λ events. chosen_id c.event_id >>= append_event c events)
      λ s.
        let m = chosen_id c.event_id in
        let events = s.aggregate.events in
        bind_split (λ p. IsLater s p.1) m (append_event c events) s
          (λ ref _.
            IsLater-trans s (m s).1 (append_event c events ref (m s).1).1
              ((chosen_id-history c.event_id).at s)
              (append_event-history c events ref (m s).1 ((chosen_id-same_events c.event_id).at s)))
          (λ x _. (chosen_id-history c.event_id).at s)

pub reserve-history :
    (ref : String) (inputs : List String) (fail : Bool) → Keeps history (reserve ref inputs fail)
unfolding reserve
reserve-history ref inputs true = search keeps_rules
reserve-history ref inputs false =
    Keeps-bind _ _ (retain-history ref (Record.strings inputs))
      λ _. search (keeps_rules, Keeps-modify {o = history} (add_slot ref) (add_slot-history ref))

published-history :
    (d : ProjectionDecision) (e : Option RuntimeEvent) (new_state : Option String) (s : Journal)
    → IsLater s (published d e new_state s)
unfolding candidate
published-history d e new_state s = record {
  same_run = refl;
  serials = omega arith;
  records =
      Extends-trans s.aggregate.records _ _
        (Extends-append s.aggregate.records ((d.projection_id, Record.projection d) ∷ []))
        (Extends-append _ (event_records e));
  events = Extends-append s.aggregate.events (event_entries e);
}

pub publish-history :
    (d : ProjectionDecision) (e : Option RuntimeEvent) (new_state : Option String)
    → Keeps history (publish d e new_state)
unfolding publish
publish-history d e new_state = Keeps-bind _ _ (Keeps-gets _) λ old.
    Keeps-bind _ _ (Keeps-raise_if _ _) λ _.
      Keeps-bind _ _ (Keeps-raise_if _ _)
        λ _. Keeps-modify {o = history} (published d e new_state) (published-history d e new_state)
