-- ===== src/Journal/Trace.antt =====
-- src/gsrr_slice01/journal.py: the event trace is numbered, chained and backed by records.
use mathlib.Core.Option
use gsrr_agent_harness.Prelude.{
  ℕ, ◌+◌, String, ◌≡◌, refl, sym, ap, subst, ◌∙◌, inl, inr, true, false, Option, none, some, List,
  [], ◌∷◌, ◌++◌, arith, Bool-cases, Option-cases, length, last, All, All-append, All-map, ◌==◌,
  string_eq,
}
use gsrr_agent_harness.Exec.{Error, Result, raise, pure, ◌>>=◌}
use gsrr_agent_harness.Exec.Invert.{bind_split}
use gsrr_agent_harness.Contracts.Results.{RuntimeEvent}
use gsrr_agent_harness.Contracts.Record.{Record, same_record}
use gsrr_agent_harness.Journal.Defs.{
  RunAggregate, Journal, new_id, lookup, get, or_key_error, is_null, retain,
}
use gsrr_agent_harness.Journal.Event.{
  EventCall, get_all, chosen_id, built_event, set_events, keep_event, append_event, event,
}
use gsrr_agent_harness.Journal.Lookup.{lookup-Extends}
use gsrr_agent_harness.Journal.Retention.{NoNull, retain_all_or_nothing}
use gsrr_agent_harness.Journal.History.{IsLater, retain-history, retain-same_events}

-- The events are numbered from `n + 1` on, and each names the one before it as its cause.
abbrev pub Linked : Option String → ℕ → List RuntimeEvent → Type 0
Linked prior n [] = Unit
Linked prior n (e ∷ es) =
    (e.sequence ≡ n + 1) × (e.causation_id_or_null ≡ prior) × Linked (some e.event_id) (n + 1) es

abbrev last_id : Option String → List RuntimeEvent → Option String
last_id prior [] = prior
last_id prior (e ∷ es) = last_id (some e.event_id) es

last_id-last :
    (prior : Option String) (e : RuntimeEvent) (es : List RuntimeEvent)
    → last_id prior (e ∷ es) ≡ Option.map (λ (x : RuntimeEvent). x.event_id) (last (e ∷ es))
last_id-last prior e [] = refl
last_id-last prior e (x ∷ es) = last_id-last (some e.event_id) x es

Linked-append :
    (prior : Option String) (n : ℕ) (es : List RuntimeEvent) (e : RuntimeEvent)
    → Linked prior n es
    → e.sequence ≡ n + length es + 1
    → e.causation_id_or_null ≡ last_id prior es
    → Linked prior n (es ++ e ∷ [])
Linked-append prior n [] e h q c = (omega arith, c, tt)
Linked-append prior n (x ∷ es) e h q c =
    (h.0, h.1, Linked-append (some x.event_id) (n + 1) es e h.2 (omega arith) c)

abbrev pub IsKnown : Journal → String → Type 0
IsKnown j ref = (r : Record) × (lookup ref j.aggregate.records ≡ some r)

-- What the event's id reads as is, to Python's `==`, the event.
abbrev pub IsKept : Journal → RuntimeEvent → Type 0
IsKept j e =
    (r : Record) × (lookup e.event_id j.aggregate.records ≡ some r)
    × (same_record r (Record.event e) ≡ true)

pub record IsTrace (j : Journal) : Type 0 where
  pub linked : Linked none 0 j.aggregate.events
  pub resolved : All (λ e. All (IsKnown j) e.artifact_refs) j.aggregate.events
  pub retained : All (IsKept j) j.aggregate.events
  pub no_null : NoNull j

-- ------------------------------------------------------------------ reading the references

get_state : (ref : String) (s : Journal) → (get ref s).1 ≡ s
unfolding get or_key_error raise pure
get_state ref s = elim (Option-cases (lookup ref s.aggregate.records)) [
  | inl e ↦ rw e refl
  | inr (r, e) ↦ rw e refl
]

get-IsKnown :
    (ref : String) (s : Journal) {r : Record} → (get ref s).0 ≡ Result.ok r → IsKnown s ref
unfolding get or_key_error raise pure
get-IsKnown ref s {r} h = elim (Option-cases (lookup ref s.aggregate.records)) [
  | inl e ↦ let raised : Result.err (Error.key_error ref) ≡ Result.ok r = rw e at h in cc
  | inr found ↦ found
]

get_all_state : (refs : List String) (s : Journal) → (get_all refs s).1 ≡ s
unfolding get_all pure
get_all_state [] s = refl
get_all_state (ref ∷ rest) s =
    bind_split (λ p. p.1 ≡ s) (get ref) (λ _. get_all rest) s
      (λ a _. get_all_state rest (get ref s).1 ∙ get_state ref s) (λ x _. get_state ref s)

get_all-IsKnown :
    (refs : List String) (s : Journal) → (get_all refs s).0 ≡ Result.ok tt → All (IsKnown s) refs
unfolding get_all
get_all-IsKnown [] s = λ _. tt
get_all-IsKnown (ref ∷ rest) s =
    bind_split (λ p. p.0 ≡ Result.ok tt → All (IsKnown s) (ref ∷ rest)) (get ref)
      (λ _. get_all rest) s
      (λ a e h. (
        get-IsKnown ref s e,
        get_all-IsKnown rest s (subst (λ t. (get_all rest t).0 ≡ Result.ok tt) (get_state ref s) h),
      ))
      (λ x e h. cc)

chosen_id_aggregate :
    (given : Option String) (s : Journal) → (chosen_id given s).1.aggregate ≡ s.aggregate
unfolding chosen_id new_id pure
chosen_id_aggregate none s = refl
chosen_id_aggregate (some ref) s = elim (Bool-cases (ref == "")) [
  | inl e ↦ rw e refl
  | inr e ↦ rw e refl
]

-- ------------------------------------------------------------------ one more event

IsKnown-later : (s t : Journal) → IsLater s t → (ref : String) → IsKnown s ref → IsKnown t ref
IsKnown-later s t later ref (r, found) =
    (r, lookup-Extends ref s.aggregate.records t.aggregate.records later.records found)

-- The facts about the events of `s` that last in a later journal.
module _ (s t : Journal) (later : IsLater s t) where
  resolved-later :
      (es : List RuntimeEvent)
      → All (λ e. All (IsKnown s) e.artifact_refs) es
      → All (λ e. All (IsKnown t) e.artifact_refs) es
  resolved-later es =
      All-map (λ (e : RuntimeEvent). All (IsKnown s) e.artifact_refs)
        (λ e. All (IsKnown t) e.artifact_refs) es
        (λ e. All-map (IsKnown s) (IsKnown t) e.artifact_refs (IsKnown-later s t later))

  kept-later : (e : RuntimeEvent) → IsKept s e → IsKept t e
  kept-later e (r, found, same) = (
    r,
    lookup-Extends e.event_id s.aggregate.records t.aggregate.records later.records found,
    same,
  )

  retained-later : (es : List RuntimeEvent) → All (IsKept s) es → All (IsKept t) es
  retained-later es = All-map (IsKept s) (IsKept t) es kept-later

  -- The trace of `t` is that of `s`.
  same-IsTrace : t.aggregate.events ≡ s.aggregate.events → NoNull t → IsTrace s → IsTrace t
  same-IsTrace same clean h = record {
    linked = rw same h.linked;
    resolved = rw same (resolved-later s.aggregate.events h.resolved);
    retained = rw same (retained-later s.aggregate.events h.retained);
    no_null = clean;
  }

  -- The trace of `t` is that of `s` with one more event, which is already retained in `t`.
  IsTrace-append :
      (e : RuntimeEvent)
      → e.sequence ≡ length s.aggregate.events + 1
      → e.causation_id_or_null ≡ last_id none s.aggregate.events
      → All (IsKnown t) e.artifact_refs
      → IsKept t e
      → NoNull t
      → IsTrace s
      → IsTrace (set_events (s.aggregate.events ++ e ∷ []) t)
  IsTrace-append e numbered caused known kept clean h = record {
    linked = Linked-append none 0 s.aggregate.events e h.linked (omega arith) caused;
    resolved =
        All-append _ s.aggregate.events (e ∷ []) (resolved-later s.aggregate.events h.resolved)
          (known, tt);
    retained =
        All-append _ s.aggregate.events (e ∷ []) (retained-later s.aggregate.events h.retained)
          (kept, tt);
    no_null = clean;
  }

last_id-causation :
    (es : List RuntimeEvent)
    → Option.map (λ (e : RuntimeEvent). e.event_id) (last es) ≡ last_id none es
last_id-causation [] = refl
last_id-causation (e ∷ es) = sym (last_id-last none e es)

-- Retaining a value leaves the trace in order.
pub retain-IsTrace :
    (ref : String) (r : Record) (s : Journal)
    → is_null r ≡ false
    → IsTrace s
    → IsTrace (retain ref r s).1
retain-IsTrace ref r s solid h = elim (retain_all_or_nothing ref r s h.no_null solid) [
  | inl (why, raised) ↦ rw raised h
  | inr (_, done) ↦
      same-IsTrace s (retain ref r s).1 ((retain-history ref r).at s)
        ((retain-same_events ref r).at s) done.no_null h
]

keep_event-IsTrace :
    (e : RuntimeEvent) (u : Journal)
    → IsTrace u
    → e.sequence ≡ length u.aggregate.events + 1
    → e.causation_id_or_null ≡ last_id none u.aggregate.events
    → All (IsKnown u) e.artifact_refs
    → IsTrace (keep_event u.aggregate.events e u).1
unfolding keep_event
keep_event-IsTrace e u h numbered caused known =
    let m = retain e.event_id (Record.event e) in
    let t = (m u).1 in
    let later : IsLater u t = (retain-history e.event_id (Record.event e)).at u in
    bind_split (λ p. IsTrace p.1) m _ u
      (λ a returned.
        unfold ◌>>=◌ is_null in
        elim (retain_all_or_nothing e.event_id (Record.event e) u h.no_null refl) [
          | inl (why, raised) ↦ cc (ap (λ p. p.0) raised, returned)
          | inr (_, done) ↦
              IsTrace-append u t later e numbered caused
                (All-map (IsKnown u) (IsKnown t) e.artifact_refs (IsKnown-later u t later) known)
                done.found done.no_null h
        ])
      (λ x raised. unfold is_null in retain-IsTrace e.event_id (Record.event e) u refl h)

-- `s` is the journal before the call and `u` the one in which the event has taken its id.
append_event-IsTrace :
    (c : EventCall) (ref : String) (s u : Journal)
    → u.aggregate ≡ s.aggregate
    → IsTrace u
    → All (IsKnown u) c.refs
    → IsTrace (append_event c s.aggregate.events ref u).1
unfolding append_event ◌>>=◌
append_event-IsTrace c ref s u same h known = rw (← ap (λ (a : RunAggregate). a.events) same) (
    keep_event-IsTrace (built_event c u.aggregate.events ref u) u h refl
      (last_id-causation u.aggregate.events) known)

abbrev KnownIn : RunAggregate → String → Type 0
KnownIn a ref = (r : Record) × (lookup ref a.records ≡ some r)

abbrev KeptIn : RunAggregate → RuntimeEvent → Type 0
KeptIn a e =
    (r : Record) × (lookup e.event_id a.records ≡ some r) × (same_record r (Record.event e) ≡ true)

-- A journal with the same aggregate has the same trace.
same_aggregate-IsTrace : (s u : Journal) → u.aggregate ≡ s.aggregate → IsTrace s → IsTrace u
same_aggregate-IsTrace s u same h = record {
  linked = rw same h.linked;
  resolved =
      subst (λ (a : RunAggregate). All (λ e. All (KnownIn a) e.artifact_refs) a.events) (sym same)
        h.resolved;
  retained = subst (λ (a : RunAggregate). All (KeptIn a) a.events) (sym same) h.retained;
  no_null = rw same h.no_null;
}

-- From a journal whose trace is in order and that retains no None, whatever the arguments of `event`, and
-- whether it returns or raises, such a journal is left: the events are numbered from 1 without a gap,
-- each names the event before it as its cause, every reference in an event can be read, every event is
-- retained under its id (up to Python's `==`), and no None is retained.
pub event-IsTrace : (c : EventCall) (s : Journal) → IsTrace s → IsTrace (event c s).1
unfolding event
event-IsTrace c s h =
    bind_split (λ p. IsTrace p.1) (get_all c.refs) _ s
      (λ a read. rw (get_all_state c.refs s) (
        unfold ◌>>=◌ in
        let m = chosen_id c.event_id in
        let u = (m s).1 in
        let same : u.aggregate ≡ s.aggregate = chosen_id_aggregate c.event_id s in
        let known = get_all-IsKnown c.refs s read in
        bind_split (λ p. IsTrace p.1) m (append_event c s.aggregate.events) s
          (λ ref _.
            append_event-IsTrace c ref s u same (same_aggregate-IsTrace s u same h)
              (subst (λ (a : RunAggregate). All (KnownIn a) c.refs) (sym same) known))
          (λ x _. same_aggregate-IsTrace s u same h)))
      (λ x _. rw (get_all_state c.refs s) h)

-- A new id leaves the trace as it is.
pub new_id-IsTrace : (kind : String) (s : Journal) → IsTrace s → IsTrace (new_id kind s).1
unfolding new_id
new_id-IsTrace kind s h = same_aggregate-IsTrace s (new_id kind s).1 refl h
