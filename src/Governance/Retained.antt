-- ===== src/Governance/Retained.antt =====
-- src/gsrr_slice01/governance.py: the part of a plan's validation that reads the journal.
use gsrr_agent_harness.Prelude.{
  String, ◌≡◌, refl, subst, Bool, true, false, some, inl, inr, Option-cases, string_eq, nat_eq,
  if◌then◌else◌,
}
use gsrr_agent_harness.Exec.{Result, Exec, pure, raise, ◌>>=◌}
use gsrr_agent_harness.Exec.Invert.{>>=-eq-ok}
use gsrr_agent_harness.Contracts.Record.{Record, same_record}
use gsrr_agent_harness.Journal.Defs.{Journal, lookup, or_key_error, get}
use gsrr_agent_harness.Governance.Checks.{strings_eq}
use gsrr_agent_harness.Governance.Validation.{and_then, is_retained}

-- The journal holds a record under the reference that Python finds equal to the value.
abbrev pub HoldsEqual : Journal → String → Record → Type 0
HoldsEqual s ref value =
    (r : Record) × (lookup ref s.aggregate.records ≡ some r) × (same_record r value ≡ true)

and_then-true :
    {S : Type 0} (m n : Exec S Bool) (s : S) {t : S}
    → and_then m n s ≡ (Result.ok true, t)
    → ((m s).0 ≡ Result.ok true) × (n (m s).1 ≡ (Result.ok true, t))
unfolding and_then pure
and_then-true m n s {t} h =
    let (b, first, rest) = >>=-eq-ok m (λ b. if b then n else pure false) s h in go b first rest
  where
    go :
        (b : Bool)
        → (m s).0 ≡ Result.ok b
        → (if b then n else pure false) (m s).1 ≡ (Result.ok true, t)
        → ((m s).0 ≡ Result.ok true) × (n (m s).1 ≡ (Result.ok true, t))
    go true first rest = (first, rest)
    go false first rest = cc

is_retained_state : (ref : String) (value : Record) (s : Journal) → (is_retained ref value s).1 ≡ s
unfolding is_retained get or_key_error raise pure ◌>>=◌
is_retained_state ref value s = elim (Option-cases (lookup ref s.aggregate.records)) [
  | inl missing ↦ rw missing refl
  | inr (r, found) ↦ rw found refl
]

pub is_retained-HoldsEqual :
    (ref : String) (value : Record) (s : Journal)
    → (is_retained ref value s).0 ≡ Result.ok true
    → HoldsEqual s ref value
unfolding is_retained get or_key_error raise pure ◌>>=◌
is_retained-HoldsEqual ref value s h = elim (Option-cases (lookup ref s.aggregate.records)) [
  | inl missing ↦ absurd (cc (rw missing at h))
  | inr (r, found) ↦ (r, found, ok_true (same_record r value) (rw found at h))
]
  where
    ok_true : (b : Bool) → Result.ok b ≡ Result.ok true → b ≡ true
    ok_true b e = cc

-- One reference of the four, and the state in which the next is read.
pub retained_then :
    (ref : String) (value : Record) (n : Exec Journal Bool) (s : Journal) {t : Journal}
    → and_then (is_retained ref value) n s ≡ (Result.ok true, t)
    → HoldsEqual s ref value × (n s ≡ (Result.ok true, t))
retained_then ref value n s {t} h =
    let (first, rest) = and_then-true (is_retained ref value) n s h in
    (
      is_retained-HoldsEqual ref value s first,
      subst (λ (u : Journal). n u ≡ (Result.ok true, t)) (is_retained_state ref value s) rest,
    )
