-- ===== src/Reconciliation/Agreed.antt =====
-- src/gsrr_slice01/reconciliation.py: a success has resolved a conflict that the observation reports.
use gsrr_agent_harness.Prelude.{
  ℕ, String, ◌≡◌, refl, Bool, true, false, not, ◌&&◌, ◌⊎◌, Option, none, some, List, [], inl, inr,
  Bool-cases, Option-cases, arith, ◌==◌, string_eq, nat_eq, text_eq, subst, ◌∙◌, if◌then◌else◌,
}
use gsrr_agent_harness.Exec.{Result, pure, raise, except_key, ◌>>=◌}
use gsrr_agent_harness.Exec.Invert.{>>=-eq-ok}
use gsrr_agent_harness.Exec.Keeps.{Order, Keeps, keeps_rules}
use gsrr_agent_harness.Journal.Basic.{get-Keeps}
use gsrr_agent_harness.Governance.Validation.{is_retained}
use gsrr_agent_harness.Contracts.Results.{ExecutionResult}
use gsrr_agent_harness.Contracts.Effects.{Action, ObservedState}
use gsrr_agent_harness.Contracts.Record.{Record}
use gsrr_agent_harness.Journal.Defs.{Journal, lookup, or_key_error, get}
use gsrr_agent_harness.Reconciliation.Evidence.{
  same_bool, find_record, differs, judge, attribution, unresolved_of, counts, is_logged,
  is_complete,
}

-- Two observations that do not contradict each other: of different versions, or alike.
pub record IsAlike (x o : ObservedState) : Type 0 where
  pub state : x.state ≡ o.state
  pub digest : x.content_digest ≡ o.content_digest
  pub exists : x.exists ≡ o.exists

-- The observation reports no conflict, or the journal holds the observation that it names, which is of
-- another version or alike.
abbrev pub IsAgreed : ObservedState → Journal → Type 0
IsAgreed o s =
    (o.conflicting ≡ false)
    ⊎ ((ref : String) × (o.conflicting_snapshot_ref ≡ some ref)
        × (x : ObservedState) × (lookup ref s.aggregate.records ≡ some (Record.observed x))
        × (((x.observation_version == o.observation_version) ≡ false) ⊎ IsAlike x o))

same_bool-eq : (a b : Bool) → same_bool a b ≡ true → a ≡ b
same_bool-eq true true h = refl
same_bool-eq true false h = cc
same_bool-eq false true h = cc
same_bool-eq false false h = refl

three : (a b c : Bool) → (a && b && c) ≡ true → (a ≡ true) × (b ≡ true) × (c ≡ true)
three a b c h = ground arith

other_or_alike : (v a : Bool) → (v && not a) ≡ false → (v ≡ false) ⊎ (a ≡ true)
other_or_alike true true h = inr refl
other_or_alike true false h = cc
other_or_alike false a h = inl refl

ok_eq : {A : Type 0} {a b : A} → Result.ok a ≡ Result.ok b → a ≡ b
ok_eq h = cc

differs-false :
    (r : Record) (o : ObservedState) (s : Journal)
    → (differs r o s).0 ≡ Result.ok false
    → (x : ObservedState) × (r ≡ Record.observed x)
      × (((x.observation_version == o.observation_version) ≡ false) ⊎ IsAlike x o)
unfolding differs pure raise
differs-false (Record.observed x) o s h =
    let same =
      x.state == o.state && x.content_digest == o.content_digest && same_bool x.exists o.exists in
    (
      x,
      refl,
      elim (other_or_alike (x.observation_version == o.observation_version) same (ok_eq h)) [
        | inl other ↦ inl other
        | inr alike ↦
            let (state, digest, there) =
              three (x.state == o.state) (x.content_digest == o.content_digest)
                (same_bool x.exists o.exists) alike in
            inr (record {
              state = text_eq _ _ state;
              digest = text_eq _ _ digest;
              exists = same_bool-eq x.exists o.exists there;
            })
      ],
    )
differs-false r o s h = cc

some_eq : {A : Type 0} {a b : A} → Result.ok (some a) ≡ Result.ok (some b) → some a ≡ some b
some_eq h = cc

find_record-some :
    (named : Option String) (s : Journal) {r : Record}
    → (find_record named s).0 ≡ Result.ok (some r)
    → (ref : String) × (named ≡ some ref) × (lookup ref s.aggregate.records ≡ some r)
unfolding find_record except_key get or_key_error raise pure ◌>>=◌
find_record-some none s h = cc
find_record-some (some ref) s {r} h = elim (Option-cases (lookup ref s.aggregate.records)) [
  | inl missing ↦ absurd (cc (rw missing at h))
  | inr (q, found) ↦ (ref, refl, found ∙ some_eq (rw found at h))
]

judge-agreed :
    (o : ObservedState) (alternate : Option Record) (s : Journal) {p : Bool × Bool} {t : Journal}
    → judge false o alternate s ≡ (Result.ok p, t)
    → p.0 ≡ false
    → p.1 ≡ false
    → (r : Record) × (alternate ≡ some r) × ((differs r o s).0 ≡ Result.ok false)
unfolding judge pure
judge-agreed o none s h clear present = cc
judge-agreed o (some r) s h clear present =
    let (d, returned, rest) = >>=-eq-ok (differs r o) _ s h in (r, refl, cc (returned, rest, clear))

pub attribution-IsAgreed :
    (o : ObservedState) (s : Journal) {p : Bool × Bool} {t : Journal}
    → attribution false (some o) s ≡ (Result.ok p, t)
    → p.0 ≡ false
    → p.1 ≡ false
    → IsAgreed o s
unfolding attribution
attribution-IsAgreed o s {p} {t} h clear present = elim (Bool-cases o.conflicting) [
  | inl conflict ↦
      let (alternate, found, judged) =
        >>=-eq-ok (find_record o.conflicting_snapshot_ref) (judge false o) s (
          subst
            (λ (b : Bool).
              (if b
                  then find_record o.conflicting_snapshot_ref >>= judge false o
                  else pure (false, false))
                s
              ≡ (Result.ok p, t))
            conflict h) in
      let (r, named, same) = judge-agreed o alternate _ judged clear present in
      let (x, observed, alike) = differs-false r o _ same in
      let (ref, known, held) = find_record-some o.conflicting_snapshot_ref s (
        subst (λ (a : Option Record). (find_record o.conflicting_snapshot_ref s).0 ≡ Result.ok a)
          named found) in
      inr (
        ref,
        known,
        x,
        subst (λ (q : Record). lookup ref s.aggregate.records ≡ some q) observed held,
        alike,
      )
  | inr agreeing ↦ inl agreeing
]

pub unresolved_of_present :
    (complete : Bool) (o : ObservedState) (missing : Bool)
    → unresolved_of complete (some o) missing ≡ []
    → missing ≡ false
unresolved_of_present true o true h = cc
unresolved_of_present false o true h = cc
unresolved_of_present complete o false h = refl

-- ------------------------------------------------------------------ the tests before it read only

abbrev unchanged : Order Journal
unchanged = record { le = λ s t. t ≡ s; le_refl = λ s. refl; le_trans = λ s t u f g. g ∙ f }

counts-unchanged : (start stop : Option ℕ) (n : ℕ) → Keeps unchanged (counts start stop n)
unfolding counts
counts-unchanged none stop n = search keeps_rules
counts-unchanged (some m) none n = search keeps_rules
counts-unchanged (some m) (some k) n = search keeps_rules

is_logged-unchanged :
    (log : Option String) (actions : List Action) → Keeps unchanged (is_logged log actions)
unfolding is_logged is_retained
is_logged-unchanged none actions = search keeps_rules
is_logged-unchanged (some ref) actions = search (keeps_rules, get-Keeps) depth 9

pub is_complete-unchanged :
    (result : ExecutionResult) (observed : Option ObservedState)
    → Keeps unchanged (is_complete result observed)
unfolding is_complete
is_complete-unchanged result none = search keeps_rules
is_complete-unchanged result (some o) =
    search (keeps_rules, counts-unchanged, is_logged-unchanged) depth 9
