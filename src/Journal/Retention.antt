-- ===== src/Journal/Retention.antt =====
-- src/gsrr_slice01/journal.py: what `retain` leaves, on every path.
use text.Mathlib.TextEquality.{eq_iff}
use mathlib.Core.Bool.{decide_iff}
use gsrr_agent_harness.Prelude.{
  String, ◌≡◌, refl, ◌∙◌, ◌⊎◌, inl, inr, true, false, none, some, List, [], ◌∷◌, ◌++◌, arith,
  Bool-cases, Option-cases, All, All-append, ◌==◌, string_eq, if◌then◌else◌,
}
use gsrr_agent_harness.Exec.{Error, Result, ◌>>=◌}
use gsrr_agent_harness.Contracts.Record.{Record, Record-discrete, same_record, comparable}
use gsrr_agent_harness.Journal.Defs.{
  Journal, lookup, get, or_key_error, is_null, add_record, keep_record, retain,
}
use gsrr_agent_harness.Journal.Lookup.{lookup-append_missing, lookup_self}

-- Nothing retained is None.
abbrev pub NoNull : Journal → Type 0
NoNull j = All (λ p. is_null p.1 ≡ false) j.aggregate.records

pub lookup-NoNull :
    (ref : String) (rs : List (String × Record)) {r : Record}
    → All (λ p. is_null p.1 ≡ false) rs
    → lookup ref rs ≡ some r
    → is_null r ≡ false
unfolding lookup
lookup-NoNull ref [] h e = cc
lookup-NoNull ref ((k, x) ∷ rs) {r} h e = elim (Bool-cases (k == ref)) [
  | inl found ↦ let same : some x ≡ some r = rw found at e in cc (h.0, same)
  | inr other ↦ lookup-NoNull ref rs h.1 (rw other at e)
]

pub same_record_self : (r : Record) → same_record r r ≡ true
unfolding same_record
same_record_self r = (decide_iff (Record-discrete (comparable r) (comparable r))).1 refl

-- `retain` on a reference that no record has.
pub retain-missing :
    (ref : String) (r : Record) (s : Journal)
    → (ref == "") ≡ false
    → lookup ref s.aggregate.records ≡ none
    → retain ref r s ≡ (Result.ok r, add_record ref r s)
unfolding retain get or_key_error keep_record is_null ◌>>=◌
retain-missing ref r s named missing = rw (named, missing) refl

-- `retain` on a reference that has a record.
pub retain-present :
    (ref : String) (r old : Record) (s : Journal)
    → (ref == "") ≡ false
    → lookup ref s.aggregate.records ≡ some old
    → is_null old ≡ false
    → retain ref r s ≡ (
        if same_record old r
        then (Result.ok r, s)
        else (Result.err (Error.retention_error "immutable reference replacement"), s))
unfolding retain get or_key_error keep_record ◌>>=◌
retain-present ref r old s named found solid =
    rw (named, found, solid)
      (elim (Bool-cases (same_record old r)) [
        | inl same ↦ rw same refl
        | inr other ↦ rw other refl
      ])

pub retain-empty :
    (r : Record) (s : Journal)
    → retain "" r s ≡ (Result.err (Error.retention_error "empty reference"), s)
unfolding retain ◌>>=◌
retain-empty r s = refl

-- The journal `t` after `retain ref r` from `s` has returned: the reference reads as a record equal to
-- `r`, and every other reference as before.
pub record IsRetained (ref : String) (r : Record) (s t : Journal) : Type 0 where
  pub found : (r' : Record) × (lookup ref t.aggregate.records ≡ some r') × (same_record r' r ≡ true)
  pub others :
      (other : String)
      → (ref == other) ≡ false
      → lookup other t.aggregate.records ≡ lookup other s.aggregate.records
  pub no_null : NoNull t

lookup-append_other :
    (ref other : String) (r : Record) (rs : List (String × Record))
    → (ref == other) ≡ false
    → lookup other (rs ++ (ref, r) ∷ []) ≡ lookup other rs
unfolding lookup
lookup-append_other ref other r [] h = rw h refl
lookup-append_other ref other r ((k, x) ∷ rs) h =
    ground (arith, lookup-append_other ref other r rs h)

add_record-IsRetained :
    (ref : String) (r : Record) (s : Journal)
    → NoNull s
    → is_null r ≡ false
    → lookup ref s.aggregate.records ≡ none
    → IsRetained ref r s (add_record ref r s)
add_record-IsRetained ref r s clean solid missing =
    let rs = s.aggregate.records in
    record {
      found = (
        r,
        lookup-append_missing ref rs ((ref, r) ∷ []) missing ∙ lookup_self ref r,
        same_record_self r,
      );
      others = λ other ne. lookup-append_other ref other r rs ne;
      no_null = All-append (λ p. is_null p.1 ≡ false) rs ((ref, r) ∷ []) clean (solid, tt);
    }

-- In a journal that holds no None, `retain` of a value is all or nothing: it raises a RetentionError
-- and leaves the journal as it was, or it returns the value, and the reference then reads as a record
-- that Python finds equal to the value, every other reference reads as before, and no None has come in.
pub retain_all_or_nothing :
    (ref : String) (r : Record) (s : Journal)
    → NoNull s
    → is_null r ≡ false
    → ((why : String) × (retain ref r s ≡ (Result.err (Error.retention_error why), s)))
      ⊎ (((retain ref r s).0 ≡ Result.ok r) × IsRetained ref r s (retain ref r s).1)
retain_all_or_nothing ref r s clean solid = elim (Bool-cases (ref == "")) [
  | inl unnamed ↦ inl ("empty reference", rw ((eq_iff ref "").0 unnamed) (retain-empty r s))
  | inr named ↦ elim (Option-cases (lookup ref s.aggregate.records)) [
    | inl missing ↦
        rw (retain-missing ref r s named missing)
          (inr (refl, add_record-IsRetained ref r s clean solid missing))
    | inr (old, there) ↦
        let present =
          retain-present ref r old s named there
            (lookup-NoNull ref s.aggregate.records clean there) in
        elim (Bool-cases (same_record old r)) [
          | inl same ↦
              let kept : retain ref r s ≡ (Result.ok r, s) = present ∙ rw same refl in
              rw kept (
                inr (
                  refl,
                  record { found = (old, there, same); others = λ other _. refl; no_null = clean },
                ))
          | inr other ↦ inl ("immutable reference replacement", present ∙ rw other refl)
        ]
  ]
]
