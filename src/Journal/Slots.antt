-- ===== src/Journal/Slots.antt =====
-- src/gsrr_slice01/journal.py: the outcome slots under calls of the journal's methods. Only `reserve`
-- opens one, and only `publish` fills one.
use text.Mathlib.TextPositions.{eq_refl}
use gsrr_agent_harness.Prelude.{
  arith, String, ◌≡◌, ◌≢◌, refl, ap, ◌∙◌, sym, Bool, true, false, Option, none, some, List, [], ◌∷◌,
  ◌++◌, ◌==◌, string_eq, text_eq, inl, inr, Bool-cases,
}
use gsrr_agent_harness.Exec.{Exec, modify}
use gsrr_agent_harness.Exec.Keeps.{
  Order, preserving, Keeps, Keeps-modify, Keeps-bind, Keeps-pure, Keeps-gets, Keeps-raise_if,
  Keeps-coarse, keeps_rules,
}
use gsrr_agent_harness.Contracts.Results.{ProjectionDecision, RuntimeEvent}
use gsrr_agent_harness.Contracts.Record.{Record}
use gsrr_agent_harness.Journal.Defs.{
  Journal, new_id, add_record, keep_record, retain, add_slot, reserve,
}
use gsrr_agent_harness.Journal.Event.{
  EventCall, get_all, chosen_id, set_events, keep_event, append_event, event,
}
use gsrr_agent_harness.Journal.Publish.{has_open_slot, fill_slots, candidate, published, publish}
use gsrr_agent_harness.Journal.Basic.{get-Keeps}
use gsrr_agent_harness.Journal.Steps.{Step}

abbrev Slots : Type 0
Slots = List (String × Option ProjectionDecision)

abbrev slots_of : Journal → Slots
slots_of j = j.aggregate.outcome_slots

-- A sequence of calls, each of which is as `P` says.
pub data Trail (P : (s t : Journal) → Step s t → Type 0) (s : Journal) : Journal → Type 0 where
  stay : Trail P s s
  after : {t u : Journal} → Trail P s t → (st : Step t u) → P t u st → Trail P s u

-- Any call but a publication into the slot.
abbrev pub IsNoPublication : String → (s t : Journal) → Step s t → Type 0
IsNoPublication ref s t (Step.publish_call d e new_state p) = d.retention_ref ≢ ref
IsNoPublication ref s t st = Unit

-- Any call but a reservation of the slot.
abbrev pub IsNoReservation : String → (s t : Journal) → Step s t → Type 0
IsNoReservation ref s t (Step.reserve_call ref' inputs fail p) = ref' ≢ ref
IsNoReservation ref s t st = Unit

abbrev same_slots : Order Journal
same_slots = record {
  le = λ s t. slots_of t ≡ slots_of s;
  le_refl = λ s. refl;
  le_trans = λ s t u f g. g ∙ f;
}

new_id-slots : (kind : String) → Keeps same_slots (new_id kind)
unfolding new_id
new_id-slots kind = record { at = λ s. refl }

keep_record-slots :
    (ref : String) (r : Record) (present same : Bool)
    → Keeps same_slots (keep_record ref r present same)
unfolding keep_record
keep_record-slots ref r true same = search keeps_rules
keep_record-slots ref r false same =
    Keeps-bind _ _ (Keeps-modify {o = same_slots} (add_record ref r) (λ s. refl)) λ _. Keeps-pure r

retain-slots : (ref : String) (r : Record) → Keeps same_slots (retain ref r)
unfolding retain
retain-slots ref r = search (keeps_rules, get-Keeps, keep_record-slots) depth 9

get_all-slots : (refs : List String) → Keeps same_slots (get_all refs)
unfolding get_all
get_all-slots [] = search keeps_rules
get_all-slots (ref ∷ rest) = Keeps-bind _ _ (get-Keeps same_slots ref) λ _. get_all-slots rest

chosen_id-slots : (given : Option String) → Keeps same_slots (chosen_id given)
unfolding chosen_id
chosen_id-slots none = new_id-slots "event"
chosen_id-slots (some ref) = search (keeps_rules, new_id-slots)

set_events-slots : (events : List RuntimeEvent) → Keeps same_slots (modify (set_events events))
set_events-slots events = Keeps-modify {o = same_slots} (set_events events) (λ s. refl)

event-slots : (c : EventCall) → Keeps same_slots (event c)
unfolding event append_event keep_event
event-slots c =
    search (keeps_rules, get_all-slots, chosen_id-slots, retain-slots, set_events-slots) depth 16

beq_false : (a b : String) → a ≢ b → (a == b) ≡ false
beq_false a b differ = elim (Bool-cases (a == b)) [
  | inl same ↦ absurd (differ (text_eq a b same))
  | inr other ↦ other
]

pub open_slot-append :
    (ref : String) (slots : Slots) → has_open_slot ref (slots ++ (ref, none) ∷ []) ≡ true
unfolding has_open_slot
open_slot-append ref [] = rw eq_refl refl
open_slot-append ref ((k, v) ∷ rest) = ground (arith, open_slot-append ref rest)

open_slot-later :
    (ref : String) (slots more : Slots)
    → has_open_slot ref slots ≡ true
    → has_open_slot ref (slots ++ more) ≡ true
unfolding has_open_slot
open_slot-later ref [] more h = cc
open_slot-later ref ((k, v) ∷ rest) more h = ground (arith, open_slot-later ref rest more)

closed_slot-append :
    (ref other : String) (slots : Slots)
    → other ≢ ref
    → has_open_slot ref slots ≡ false
    → has_open_slot ref (slots ++ (other, none) ∷ []) ≡ false
unfolding has_open_slot
closed_slot-append ref other [] differ h = rw (beq_false other ref differ) refl
closed_slot-append ref other ((k, v) ∷ rest) differ h =
    ground (arith, closed_slot-append ref other rest differ)

fill_slots-open :
    (ref : String) (d : ProjectionDecision) (slots : Slots)
    → d.retention_ref ≢ ref
    → has_open_slot ref slots ≡ true
    → has_open_slot ref (fill_slots d slots) ≡ true
unfolding has_open_slot fill_slots
fill_slots-open ref d [] differ h = cc
fill_slots-open ref d ((k, v) ∷ rest) differ h = elim (Bool-cases (k == d.retention_ref)) [
  | inl same ↦
      let elsewhere = beq_false k ref (λ e. differ (sym (text_eq k d.retention_ref same) ∙ e)) in
      rw elsewhere (fill_slots-open ref d rest differ (rw elsewhere at h))
  | inr other ↦ rw other (ground (arith, fill_slots-open ref d rest differ))
]

fill_slots-closed :
    (ref : String) (d : ProjectionDecision) (slots : Slots)
    → has_open_slot ref slots ≡ false
    → has_open_slot ref (fill_slots d slots) ≡ false
unfolding has_open_slot fill_slots
fill_slots-closed ref d [] h = h
fill_slots-closed ref d ((k, v) ∷ rest) h = elim (Bool-cases (k == d.retention_ref)) [
  | inl same ↦ rw same (ground (arith, fill_slots-closed ref d rest))
  | inr other ↦ rw other (ground (arith, fill_slots-closed ref d rest))
]

module _ (ref : String) where
  abbrev opened : Order Journal
  opened = preserving (λ j. has_open_slot ref (slots_of j) ≡ true)

  abbrev closed : Order Journal
  closed = preserving (λ j. has_open_slot ref (slots_of j) ≡ false)

  to_opened : {A : Type 0} (m : Exec Journal A) → Keeps same_slots m → Keeps opened m
  to_opened m k = Keeps-coarse opened (λ s t e h. ap (has_open_slot ref) e ∙ h) m k

  to_closed : {A : Type 0} (m : Exec Journal A) → Keeps same_slots m → Keeps closed m
  to_closed m k = Keeps-coarse closed (λ s t e h. ap (has_open_slot ref) e ∙ h) m k

  reserve-opened :
      (other : String) (inputs : List String) (fail : Bool)
      → Keeps opened (reserve other inputs fail)
  unfolding reserve
  reserve-opened other inputs true = search keeps_rules
  reserve-opened other inputs false =
      Keeps-bind _ _ (to_opened _ (retain-slots other (Record.strings inputs))) λ _.
        Keeps-bind _ _
          (Keeps-modify {o = opened} (add_slot other) (λ s h. open_slot-later ref (slots_of s) _ h))
          λ _. Keeps-pure true

  reserve-closed :
      (other : String) (inputs : List String) (fail : Bool)
      → other ≢ ref
      → Keeps closed (reserve other inputs fail)
  unfolding reserve
  reserve-closed other inputs true differ = search keeps_rules
  reserve-closed other inputs false differ =
      Keeps-bind _ _ (to_closed _ (retain-slots other (Record.strings inputs))) λ _.
        Keeps-bind _ _
          (Keeps-modify {o = closed} (add_slot other)
            (λ s h. closed_slot-append ref other (slots_of s) differ h))
          λ _. Keeps-pure true

  publish-opened :
      (d : ProjectionDecision) (e : Option RuntimeEvent) (new_state : Option String)
      → d.retention_ref ≢ ref
      → Keeps opened (publish d e new_state)
  unfolding publish candidate
  publish-opened d e new_state differ = Keeps-bind _ _ (Keeps-gets _) λ old.
      Keeps-bind _ _ (Keeps-raise_if _ _) λ _. Keeps-bind _ _ (Keeps-raise_if _ _) λ _.
        Keeps-modify {o = opened} (published d e new_state)
          (λ s h. fill_slots-open ref d (slots_of s) differ h)

  publish-closed :
      (d : ProjectionDecision) (e : Option RuntimeEvent) (new_state : Option String)
      → Keeps closed (publish d e new_state)
  unfolding publish candidate
  publish-closed d e new_state = Keeps-bind _ _ (Keeps-gets _) λ old.
      Keeps-bind _ _ (Keeps-raise_if _ _) λ _. Keeps-bind _ _ (Keeps-raise_if _ _) λ _.
        Keeps-modify {o = closed} (published d e new_state)
          (λ s h. fill_slots-closed ref d (slots_of s) h)

  Step-opened : (s t : Journal) (st : Step s t) → IsNoPublication ref s t st → opened.le s t
  Step-opened s t (Step.new_id_call kind e) n = rw e ((to_opened _ (new_id-slots kind)).at s)
  Step-opened s t (Step.retain_call r v e) n = rw e ((to_opened _ (retain-slots r v)).at s)
  Step-opened s t (Step.event_call c e) n = rw e ((to_opened _ (event-slots c)).at s)
  Step-opened s t (Step.reserve_call r inputs fail e) n = rw e ((reserve-opened r inputs fail).at s)
  Step-opened s t (Step.publish_call d e new_state p) n =
      rw p ((publish-opened d e new_state n).at s)

  Step-closed : (s t : Journal) (st : Step s t) → IsNoReservation ref s t st → closed.le s t
  Step-closed s t (Step.new_id_call kind e) n = rw e ((to_closed _ (new_id-slots kind)).at s)
  Step-closed s t (Step.retain_call r v e) n = rw e ((to_closed _ (retain-slots r v)).at s)
  Step-closed s t (Step.event_call c e) n = rw e ((to_closed _ (event-slots c)).at s)
  Step-closed s t (Step.reserve_call r inputs fail e) n =
      rw e ((reserve-closed r inputs fail n).at s)
  Step-closed s t (Step.publish_call d e new_state p) n = rw p ((publish-closed d e new_state).at s)

  -- A slot that is open stays so until a publication into it.
  pub Trail-opened : {s t : Journal} → Trail (IsNoPublication ref) s t → opened.le s t
  Trail-opened stay h = h
  Trail-opened {s} (after {t} {u} path st n) h = Step-opened t u st n (Trail-opened path h)

  -- A slot that is not open stays so until it is reserved.
  pub Trail-closed : {s t : Journal} → Trail (IsNoReservation ref) s t → closed.le s t
  Trail-closed stay h = h
  Trail-closed {s} (after {t} {u} path st n) h = Step-closed t u st n (Trail-closed path h)
