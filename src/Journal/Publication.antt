-- ===== src/Journal/Publication.antt =====
-- src/gsrr_slice01/journal.py: `publish` is all or nothing, and completes an outcome slot once.
use text.Mathlib.TextPositions.{eq_refl}
use gsrr_agent_harness.Prelude.{
  ◌+◌, String, ◌≡◌, refl, Bool, true, false, Option, none, some, List, [], ◌∷◌, ◌++◌, map,
  Bool-cases, ap, subst, ◌∙◌, text_eq, ◌⊎◌, inl, inr, ◌==◌, string_eq, if◌then◌else◌,
}
use gsrr_agent_harness.Exec.{Error, Result, ◌>>=◌}
use gsrr_agent_harness.Exec.Invert.{>>=-eq-ok}
use gsrr_agent_harness.Contracts.Results.{ProjectionDecision, RuntimeEvent}
use gsrr_agent_harness.Contracts.Record.{Record}
use gsrr_agent_harness.Journal.Defs.{Journal, lookup, retain, reserve}
use gsrr_agent_harness.Journal.Publish.{
  new_or_old, bump, event_entries, event_records, has_open_slot, has_record, fill_slots, candidate,
  published, publish,
}
use gsrr_agent_harness.Journal.Slots.{
  Trail, IsNoPublication, IsNoReservation, open_slot-append, Trail-opened, Trail-closed,
}
use gsrr_agent_harness.Journal.Lookup.{
  lookup_self, lookup-append_found, lookup-append_missing, has_record-lookup,
}

-- What the slot under a reference holds: `none` if there is no such slot.
pub slot_of :
    String → List (String × Option ProjectionDecision) → Option (Option ProjectionDecision)
slot_of ref [] = none
slot_of ref ((k, v) ∷ rest) = if k == ref then some v else slot_of ref rest

filled_not_open :
    (d : ProjectionDecision) (slots : List (String × Option ProjectionDecision))
    → has_open_slot d.retention_ref (fill_slots d slots) ≡ false
unfolding has_open_slot fill_slots
filled_not_open d [] = refl
filled_not_open d ((k, v) ∷ rest) = elim (Bool-cases (k == d.retention_ref)) [
  | inl same ↦ rw same (filled_not_open d rest)
  | inr other ↦ rw other (filled_not_open d rest)
]

slot_of-fill_slots :
    (d : ProjectionDecision) (slots : List (String × Option ProjectionDecision))
    → has_open_slot d.retention_ref slots ≡ true
    → slot_of d.retention_ref (fill_slots d slots) ≡ some (some d)
unfolding has_open_slot fill_slots slot_of
slot_of-fill_slots d [] h = cc
slot_of-fill_slots d ((k, v) ∷ rest) h = elim (Bool-cases (k == d.retention_ref)) [
  | inl same ↦ rw same refl
  | inr other ↦ rw other (slot_of-fill_slots d rest (rw other at h))
]

slot_of-fill_slots_other :
    (d : ProjectionDecision) (ref : String) (slots : List (String × Option ProjectionDecision))
    → (ref == d.retention_ref) ≡ false
    → slot_of ref (fill_slots d slots) ≡ slot_of ref slots
unfolding fill_slots slot_of
slot_of-fill_slots_other d ref [] h = refl
slot_of-fill_slots_other d ref ((k, v) ∷ rest) h = elim (Bool-cases (k == ref)) [
  | inl same ↦ rw (text_eq k ref same, eq_refl, h) refl
  | inr other ↦ rw other (slot_of-fill_slots_other d ref rest h)
]

-- A slot, with the decision in it where it is the decision's.
abbrev pub filled :
    ProjectionDecision → String × Option ProjectionDecision → String × Option ProjectionDecision
filled d (k, v) = (k, if k == d.retention_ref then some d else v)

fill_slots-map :
    (d : ProjectionDecision) (slots : List (String × Option ProjectionDecision))
    → fill_slots d slots ≡ map (filled d) slots
unfolding fill_slots
fill_slots-map d [] = refl
fill_slots-map d ((k, v) ∷ rest) = ap (λ xs. filled d (k, v) ∷ xs) (fill_slots-map d rest)

publish_split :
    (d : ProjectionDecision) (e : Option RuntimeEvent) (new_state : Option String) (s : Journal)
    → publish d e new_state s ≡ (
        if has_open_slot d.retention_ref s.aggregate.outcome_slots
        then (if has_record d.projection_id s.aggregate.records
            then (Result.err (Error.retention_error "duplicate final evaluation"), s)
            else (Result.ok tt, published d e new_state s))
        else (Result.err (Error.retention_error "missing or already completed outcome slot"), s))
unfolding publish ◌>>=◌
publish_split d e new_state s =
    elim (Bool-cases (has_open_slot d.retention_ref s.aggregate.outcome_slots)) [
      | inl o ↦ elim (Bool-cases (has_record d.projection_id s.aggregate.records)) [
        | inl r ↦ rw (o, r) refl
        | inr r ↦ rw (o, r) refl
      ]
      | inr o ↦ rw o refl
    ]

-- The journal `t` holds all that the publication of `d` from `s` is to leave: the records are the earlier
-- ones, the decision under its id and the event under its id, `d` is found under its id and in its slot,
-- the slots are the earlier ones with `d` in those of its reference, so that those of other references are
-- what they were, and all outside the aggregate is what it was.
pub record IsPublished (d : ProjectionDecision) (e : Option RuntimeEvent)
    (new_state : Option String) (s t : Journal) : Type 0 where
  pub state : t.aggregate.authority_state ≡ new_or_old new_state s.aggregate.authority_state
  pub version : t.aggregate.authority_version ≡ s.aggregate.authority_version + bump new_state
  pub records :
      t.aggregate.records
      ≡ (s.aggregate.records ++ (d.projection_id, Record.projection d) ∷ []) ++ event_records e
  pub decision : lookup d.projection_id t.aggregate.records ≡ some (Record.projection d)
  pub trace : t.aggregate.events ≡ s.aggregate.events ++ event_entries e
  pub slots : t.aggregate.outcome_slots ≡ map (filled d) s.aggregate.outcome_slots
  pub slot : slot_of d.retention_ref t.aggregate.outcome_slots ≡ some (some d)
  pub others :
      (ref : String)
      → (ref == d.retention_ref) ≡ false
      → slot_of ref t.aggregate.outcome_slots ≡ slot_of ref s.aggregate.outcome_slots
  pub rest : t ≡ record s { aggregate = t.aggregate }

published-IsPublished :
    (d : ProjectionDecision) (e : Option RuntimeEvent) (new_state : Option String) (s : Journal)
    → has_open_slot d.retention_ref s.aggregate.outcome_slots ≡ true
    → has_record d.projection_id s.aggregate.records ≡ false
    → IsPublished d e new_state s (published d e new_state s)
unfolding candidate
published-IsPublished d e new_state s o r =
    let rs = s.aggregate.records in
    let entry = (d.projection_id, Record.projection d) ∷ [] in
    record {
      state = refl;
      version = refl;
      records = refl;
      decision = lookup-append_found d.projection_id (rs ++ entry) (event_records e) (
          lookup-append_missing d.projection_id rs entry (has_record-lookup d.projection_id rs r)
          ∙ lookup_self d.projection_id (Record.projection d));
      trace = refl;
      slots = fill_slots-map d s.aggregate.outcome_slots;
      slot = slot_of-fill_slots d s.aggregate.outcome_slots o;
      others = λ ref h. slot_of-fill_slots_other d ref s.aggregate.outcome_slots h;
      rest = refl;
    }

-- `publish` is all or nothing, for every decision, event and new state: it raises a RetentionError
-- and leaves the journal as it was, or it returns, and then all of it is published: the new state, if
-- any, with the version counted on by one, the earlier records followed by the decision's and the event's,
-- the decision found under its id, the trace with the event, and the decision in its slot; the slots of
-- other references and all outside the aggregate are what they were.
pub publish_all_or_nothing :
    (d : ProjectionDecision) (e : Option RuntimeEvent) (new_state : Option String) (s : Journal)
    → ((why : String) × (publish d e new_state s ≡ (Result.err (Error.retention_error why), s)))
      ⊎ (((publish d e new_state s).0 ≡ Result.ok tt)
          × IsPublished d e new_state s (publish d e new_state s).1)
publish_all_or_nothing d e new_state s =
    elim (Bool-cases (has_open_slot d.retention_ref s.aggregate.outcome_slots)) [
      | inl o ↦ elim (Bool-cases (has_record d.projection_id s.aggregate.records)) [
        | inl r ↦ inl ("duplicate final evaluation", publish_split d e new_state s ∙ rw (o, r) refl)
        | inr r ↦
            let p : publish d e new_state s ≡ (Result.ok tt, published d e new_state s) =
              publish_split d e new_state s ∙ rw (o, r) refl in
            inr (ap (λ q. q.0) p, rw p (published-IsPublished d e new_state s o r))
      ]
      | inr o ↦
          inl
            ("missing or already completed outcome slot", publish_split d e new_state s ∙ rw o refl)
    ]

published-closed :
    (d : ProjectionDecision) (e : Option RuntimeEvent) (new_state : Option String) (s : Journal)
    → has_open_slot d.retention_ref (published d e new_state s).aggregate.outcome_slots ≡ false
unfolding candidate
published-closed d e new_state s = filled_not_open d s.aggregate.outcome_slots

-- A publication that returned has left the journal that `published` says.
publish-eq-published :
    (d : ProjectionDecision) (e : Option RuntimeEvent) (new_state : Option String) (s : Journal)
    → (publish d e new_state s).0 ≡ Result.ok tt
    → publish d e new_state s ≡ (Result.ok tt, published d e new_state s)
publish-eq-published d e new_state s returned =
    elim (Bool-cases (has_open_slot d.retention_ref s.aggregate.outcome_slots)) [
      | inl o ↦ elim (Bool-cases (has_record d.projection_id s.aggregate.records)) [
        | inl r ↦
            let raised : publish d e new_state s
                ≡ (Result.err (Error.retention_error "duplicate final evaluation"), s) =
              publish_split d e new_state s ∙ rw (o, r) refl in
            cc (ap (λ q. q.0) raised, returned)
        | inr r ↦ publish_split d e new_state s ∙ rw (o, r) refl
      ]
      | inr o ↦
          let raised : publish d e new_state s ≡ (
            Result.err (Error.retention_error "missing or already completed outcome slot"),
            s,
          ) =
            publish_split d e new_state s ∙ rw o refl in
          cc (ap (λ q. q.0) raised, returned)
    ]

-- After a publication that returned, and after any further calls of the journal's methods but
-- reservations of the same outcome slot, every publication into that slot, of whatever decision, event
-- and state, raises and changes nothing.
pub publish-publish :
    (d d' : ProjectionDecision) (e e' : Option RuntimeEvent) (new_state new_state' : Option String)
    (s t : Journal)
    → (publish d e new_state s).0 ≡ Result.ok tt
    → Trail (IsNoReservation d.retention_ref) (publish d e new_state s).1 t
    → d'.retention_ref ≡ d.retention_ref
    → publish d' e' new_state' t
      ≡ (Result.err (Error.retention_error "missing or already completed outcome slot"), t)
publish-publish d d' e e' new_state new_state' s t returned path same =
    let closed : has_open_slot d.retention_ref t.aggregate.outcome_slots ≡ false =
      Trail-closed d.retention_ref path
        (rw (publish-eq-published d e new_state s returned) (published-closed d e new_state s)) in
    publish_split d' e' new_state' t ∙ rw (same, closed) refl

-- A slot that was reserved can be filled: after the reservation, and after any further calls of the
-- journal's methods but publications into that slot, a decision for it that no record has the id of is
-- published.
pub reserve-publish :
    (ref : String) (inputs : List String) (d : ProjectionDecision) (e : Option RuntimeEvent)
    (new_state : Option String) (s t u : Journal)
    → reserve ref inputs false s ≡ (Result.ok true, t)
    → Trail (IsNoPublication ref) t u
    → d.retention_ref ≡ ref
    → has_record d.projection_id u.aggregate.records ≡ false
    → publish d e new_state u ≡ (Result.ok tt, published d e new_state u)
unfolding reserve
reserve-publish ref inputs d e new_state s t u reserved path same fresh =
    let (x, _, done) = >>=-eq-ok (retain ref (Record.strings inputs)) _ s reserved in
    let opened : has_open_slot ref t.aggregate.outcome_slots ≡ true =
      unfold ◌>>=◌ in
      subst (λ (p : Result Bool × Journal). has_open_slot ref p.1.aggregate.outcome_slots ≡ true)
        done
        (open_slot-append ref (retain ref (Record.strings inputs) s).1.aggregate.outcome_slots) in
    let still = Trail-opened ref path opened in
    publish_split d e new_state u ∙ rw (same, still, fresh) refl
