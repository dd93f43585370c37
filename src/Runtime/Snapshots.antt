-- ===== src/Runtime/Snapshots.antt =====
-- src/gsrr_slice01/fixture.py: `snapshot` reads the authority's version as it is.
use gsrr_agent_harness.Prelude.{ℕ, ◌≡◌, refl, ◌∙◌}
use gsrr_agent_harness.Exec.{Result, Exec, gets}
use gsrr_agent_harness.Exec.Keeps.{preserving, Keeps, Keeps-coarse, Keeps-gets}
use gsrr_agent_harness.Exec.Triple.{
  Ends, Triple, Triple-bind, Triple-keeps, Triple-weaken, Triple-pure,
}
use gsrr_agent_harness.Shared.{
  Shared, in_journal, in_journal-journal, own_gets, own_modify-journal, journal_order,
}
use gsrr_agent_harness.Contracts.Domain.{Definition}
use gsrr_agent_harness.Contracts.Effects.{ObservedState}
use gsrr_agent_harness.Contracts.Planning.{AuthoritativeStateSnapshot}
use gsrr_agent_harness.Contracts.Record.{Record}
use gsrr_agent_harness.Journal.Defs.{Journal}
use gsrr_agent_harness.Journal.Versions.{version_of, same_version, version-Basic}
use gsrr_agent_harness.Fixture.Defs.{Provider}
use gsrr_agent_harness.Fixture.Observe.{count_read, authority_snapshot, snapshot}
use gsrr_agent_harness.Runtime.Defs.{Runtime, in_provider}

-- What is said of the journal after a provider's method holds after the runtime's call of it.
in_provider-Triple :
    {A : Type 0} (P E : Journal → Type 0) (Q : A → Journal → Type 0) (m : Exec (Shared Provider) A)
    → Triple (λ s. P s.journal) m (λ a s. Q a s.journal) (λ s. E s.journal)
    → Triple (λ s. P s.journal) (in_provider m) (λ a s. Q a s.journal) (λ s. E s.journal)
unfolding in_provider
in_provider-Triple {A} P E Q m k = record {
  at = λ s h.
      let t : Shared Provider = record { journal = s.journal; own = s.own.provider } in
      ends (m t) s (k.at t h);
}
  where
    ends :
        (r : Result A × Shared Provider) (s : Shared Runtime)
        → Ends (λ a (t : Shared Provider). Q a t.journal) (λ t. E t.journal) r
        → Ends
            (λ a (t : Shared Runtime). Q a t.journal)
            (λ t. E t.journal)
            (r.0, record { journal = r.1.journal; own = record s.own { provider = r.1.own } })
    ends (Result.ok a, t) s h = h
    ends (Result.err x, t) s h = h

module _ (n : ℕ) where
  abbrev At : Shared Provider → Type 0
  At s = version_of s.journal ≡ n

  At-version :
      {A : Type 0} (m : Exec (Shared Provider) A)
      → Keeps (journal_order same_version) m
      → Triple At m (λ a. At) At
  At-version m k = Triple-keeps m (Keeps-coarse (preserving At) (λ s t e h. e ∙ h) m k)

  version_read :
      (f : Journal → AuthoritativeStateSnapshot)
      → ((j : Journal) → (f j).authority_version ≡ version_of j)
      → Triple At (in_journal (gets f)) (λ a s. At s × (a.authority_version ≡ n)) At
  unfolding in_journal gets
  version_read f e = record { at = λ s h. (h, e s.journal ∙ h) }

  version_kept :
      {A : Type 0} (a : AuthoritativeStateSnapshot) (m : Exec (Shared Provider) A)
      → Keeps (journal_order same_version) m
      → Triple
          (λ s. At s × (a.authority_version ≡ n))
          m
          (λ _ s. At s × (a.authority_version ≡ n))
          At
  version_kept a m k =
      Triple-weaken m (λ s h. h) (λ _ s h. h) (λ s h. h.0)
        (Triple-keeps m (
          Keeps-coarse (preserving (λ s. At s × (a.authority_version ≡ n)))
            (λ s t e h. (e ∙ h.0, h.1)) m k))

  snapshot-At :
      (d : Definition) (x : ObservedState)
      → Triple At (snapshot d x) (λ a s. At s × (a.authority_version ≡ n)) At
  unfolding snapshot own_gets
  snapshot-At d x = Triple-bind _ _ (At-version _ (own_modify-journal same_version count_read)) λ _.
      Triple-bind _ _
        (At-version _ (in_journal-journal same_version _ (version-Basic.at_new_id "authority")))
        λ ref. Triple-bind _ _ (At-version _ (Keeps-gets _)) λ read_count.
          Triple-bind _ _ (version_read (authority_snapshot d x read_count ref) (λ j. refl)) λ a.
            Triple-bind _ _
              (version_kept a _ (
                in_journal-journal same_version _
                  (version-Basic.at_retain a.snapshot_id (Record.snapshot a) tt)))
              λ _. Triple-pure a

  -- The version that the runtime reads is the one that is published.
  pub snapshot-version :
      (d : Definition) (x : ObservedState)
      → Triple
          (λ s. version_of s.journal ≡ n)
          (in_provider (snapshot d x))
          (λ a s. a.authority_version ≡ n)
          (λ s. Unit {0})
  snapshot-version d x =
      Triple-weaken _ (λ s h. h) (λ a s h. h.1) (λ s h. tt)
        (in_provider-Triple (λ j. version_of j ≡ n) (λ j. version_of j ≡ n)
          (λ a j. (version_of j ≡ n) × (a.authority_version ≡ n)) (snapshot d x) (snapshot-At d x))
