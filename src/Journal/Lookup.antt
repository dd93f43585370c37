-- ===== src/Journal/Lookup.antt =====
-- src/gsrr_slice01/journal.py: what `get` finds when the records grow.
use text.Mathlib.TextPositions.{eq_refl}
use gsrr_agent_harness.Prelude.{
  String, ◌≡◌, refl, inl, inr, Bool-cases, ◌∙◌, ap, false, none, some, List, [], ◌∷◌, ◌++◌, arith,
  Extends, ◌==◌, string_eq,
}
use gsrr_agent_harness.Contracts.Record.{Record}
use gsrr_agent_harness.Journal.Defs.{lookup}
use gsrr_agent_harness.Journal.Publish.{has_record}

pub lookup-append_found :
    (ref : String) (rs more : List (String × Record)) {r : Record}
    → lookup ref rs ≡ some r
    → lookup ref (rs ++ more) ≡ some r
unfolding lookup
lookup-append_found ref [] more h = cc
lookup-append_found ref ((k, x) ∷ rs) more {r} h = elim (Bool-cases (k == ref)) [
  | inl found ↦ rw found (rw found at h)
  | inr other ↦ rw other (lookup-append_found ref rs more (rw other at h))
]

pub lookup-append_missing :
    (ref : String) (rs more : List (String × Record))
    → lookup ref rs ≡ none
    → lookup ref (rs ++ more) ≡ lookup ref more
unfolding lookup
lookup-append_missing ref [] more h = refl
lookup-append_missing ref ((k, x) ∷ rs) more h = ground (arith, lookup-append_missing ref rs more)

-- A record that was found stays the one that is found.
pub lookup-Extends :
    (ref : String) (rs rs' : List (String × Record)) {r : Record}
    → Extends rs rs'
    → lookup ref rs ≡ some r
    → lookup ref rs' ≡ some r
lookup-Extends ref rs rs' (more, e) h = ap (lookup ref) e ∙ lookup-append_found ref rs more h

pub has_record-lookup :
    (ref : String) (rs : List (String × Record)) → has_record ref rs ≡ false → lookup ref rs ≡ none
unfolding has_record lookup
has_record-lookup ref [] h = refl
has_record-lookup ref ((k, x) ∷ rs) h = ground (arith, has_record-lookup ref rs)

pub lookup_self : (ref : String) (r : Record) → lookup ref ((ref, r) ∷ []) ≡ some r
unfolding lookup
lookup_self ref r = rw eq_refl refl
