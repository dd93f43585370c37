-- ===== src/Runtime/Founded.antt =====
-- src/gsrr_slice01/runtime.py: the state before is read once, by the one `prepare` that passes its guard,
-- and from the version that nothing has been published at.
use gsrr_agent_harness.Prelude.{
  ℕ, ◌≤◌, ◌⊎◌, inl, inr, ◌≡◌, refl, sym, ◌∙◌, subst, Bool, true, false, not, Option, none, some,
  arith,
}
use gsrr_agent_harness.Exec.{Error, Result, raise_if, modify, ◌>>=◌, ◌>>◌}
use gsrr_agent_harness.Exec.Keeps.{preserving, Keeps, Keeps-coarse, Keeps-bind, Keeps-gets_bind}
use gsrr_agent_harness.Exec.Triple.{
  Ends, Ends-either, Triple, Triple-bind, Triple-both, Triple-keeps, Triple-weaken, Keeps-triple,
}
use gsrr_agent_harness.Shared.{Shared, own_gets, own_modify}
use gsrr_agent_harness.Contracts.Attempts.{Attempt}
use gsrr_agent_harness.Contracts.Domain.{Definition}
use gsrr_agent_harness.Contracts.Effects.{ObservedState}
use gsrr_agent_harness.Contracts.Planning.{AuthoritativeStateSnapshot}
use gsrr_agent_harness.Journal.Versions.{version_of}
use gsrr_agent_harness.Retry.Defs.{Supervisor}
use gsrr_agent_harness.Retry.Lifecycle.{is_empty, start}
use gsrr_agent_harness.Retry.Begun.{HasAttempt, start_begins}
use gsrr_agent_harness.Fixture.Observe.{snapshot}
use gsrr_agent_harness.Runtime.Defs.{
  Request, Runtime, Call, in_supervisor, in_provider, set_run, get_supervisor,
}
use gsrr_agent_harness.Runtime.Prepare.{propose_transition, check_policy, prepare}
use gsrr_agent_harness.Runtime.Stable.{Stable}
use gsrr_agent_harness.Runtime.Parts.{
  steady_rules, get_run-Steady, snapshot-Steady, set_run-Steady, start-Owned, refer-Steady,
}
use gsrr_agent_harness.Runtime.Steps.{select-Steady}
use gsrr_agent_harness.Runtime.Preparing.{check_policy-Keeps}
use gsrr_agent_harness.Runtime.Replayed.{IsSealed, not_both}
use gsrr_agent_harness.Runtime.Snapshots.{snapshot-version}
use gsrr_agent_harness.Runtime.Settled.{settled, settled_owned, settled-Stable}
use gsrr_agent_harness.Runtime.Pivots.{coarse-Stable}

-- The state before, once it is read, was read at version 1, by an attempt.
abbrev pub Founded : Option AuthoritativeStateSnapshot → Supervisor → Type 0
Founded none s = Unit
Founded (some b) s = (b.authority_version ≡ 1) × HasAttempt s

abbrev pub IsFounded : Shared Runtime → Type 0
IsFounded s = IsSealed s.own.faults × Founded s.own.run.before s.own.supervisor

-- Before there is an attempt: nothing is published.
abbrev pub Fresh : Shared Runtime → Type 0
Fresh s = IsFounded s × (version_of s.journal ≡ 1)

-- Once there is one, at a version.
abbrev pub Held : ℕ → Shared Runtime → Type 0
Held n s = IsFounded s × HasAttempt s.own.supervisor × (version_of s.journal ≡ n)

-- What every call keeps.
abbrev pub Advanced : Shared Runtime → Type 0
Advanced s =
    IsFounded s
    × ((version_of s.journal ≡ 1) ⊎ (HasAttempt s.own.supervisor × (version_of s.journal ≤ 2)))

pub Held-Advanced : (n : ℕ) → n ≤ 2 → (s : Shared Runtime) → Held n s → Advanced s
Held-Advanced n le s h = (h.0, inr (h.1, rw h.2 le))

Founded-monotone :
    (b : Option AuthoritativeStateSnapshot) (s t : Supervisor)
    → (HasAttempt s → HasAttempt t)
    → Founded b s
    → Founded b t
Founded-monotone none s t f h = tt
Founded-monotone (some b) s t f h = (h.0, f h.1)

IsFounded-settled : (s t : Shared Runtime) → settled.le s t → IsFounded s → IsFounded t
IsFounded-settled s t le h =
    let q = le h.0 in
    (
      q.faults,
      subst (λ b. Founded b t.own.supervisor) (sym q.before)
          (Founded-monotone s.own.run.before s.own.supervisor t.own.supervisor q.attempts h.1),
    )

Fresh-le : (s t : Shared Runtime) → settled.le s t → Fresh s → Fresh t
Fresh-le s t le h = (IsFounded-settled s t le h.0, (le h.0.0).version ∙ h.1)

pub Fresh-Stable : Stable (preserving Fresh)
Fresh-Stable = coarse-Stable settled (preserving Fresh) settled-Stable Fresh-le

pub Held-Stable : (n : ℕ) → Stable (preserving (Held n))
Held-Stable n =
    coarse-Stable settled (preserving (Held n)) settled-Stable λ s t le h.
      let q = le h.0.0 in (IsFounded-settled s t le h.0, q.attempts h.1, q.version ∙ h.2)

pub Advanced-le : (s t : Shared Runtime) → settled.le s t → Advanced s → Advanced t
Advanced-le s t le h =
    let q = le h.0.0 in
    (
      IsFounded-settled s t le h.0,
      elim h.1 [ inl e ↦ inl (q.version ∙ e) | inr (a, v) ↦ inr (q.attempts a, rw q.version v) ],
    )

pub Advanced-Stable : Stable (preserving Advanced)
Advanced-Stable = coarse-Stable settled (preserving Advanced) settled-Stable Advanced-le

-- A snapshot that is taken while the version is `n`.
pub Held-snapshot :
    (n : ℕ) (d : Definition) (x : ObservedState)
    → Triple
        (Held n)
        (in_provider (snapshot d x))
        (λ a s. Held n s × (a.authority_version ≡ n))
        (Held n)
Held-snapshot n d x =
    let m = in_provider (snapshot d x) in
    Triple-weaken m (λ s h. (h, h.2)) (λ a s h. h) (λ s h. h.0)
      (Triple-both m (Triple-keeps m (snapshot-Steady d x _ (Held-Stable n)))
        (snapshot-version n d x))

-- The state before, read at version 1.
before_assigned :
    (b : AuthoritativeStateSnapshot)
    → Triple
        (λ s. Held 1 s × (b.authority_version ≡ 1))
        (set_run (λ r. record r { before = some b }))
        (λ u. Held 1)
        (Held 1)
unfolding set_run own_modify modify
before_assigned b = record { at = λ s h. ((h.0.0.0, (h.1, h.0.1)), h.0.1, h.0.2) }

propose_transition-Held :
    (request : Request) (x : ObservedState)
    → Keeps (preserving (Held 1)) (propose_transition request x)
unfolding propose_transition
propose_transition-Held request x =
    let k = Held-Stable 1 in
    Keeps-bind _ _ (get_run-Steady _ _ k) λ d. Keeps-triple _ (
      Triple-bind _ _ (Held-snapshot 1 d x) λ b.
        Triple-bind _ _ (before_assigned b)
          λ _. Triple-keeps _ (search (steady_rules, refer-Steady, select-Steady) depth 26))

start-Held : Triple Fresh (in_supervisor start) (λ a. Held 1) (Held 1)
unfolding in_supervisor
start-Held = record {
  at = λ s h.
      let t : Shared Supervisor = record { journal = s.journal; own = s.own.supervisor } in
      ends (start t).0 _ (start_begins t)
        ((Keeps-coarse (preserving Fresh) Fresh-le _ (settled_owned start start-Owned)).at s h);
}
  where
    ends :
        (r : Result Attempt) (s : Shared Runtime)
        → HasAttempt s.own.supervisor
        → Fresh s
        → Ends (λ a. Held 1) (Held 1) (r, s)
    ends (Result.ok a) s a' h = (h.0, a', h.1)
    ends (Result.err e) s a' h = (h.0, a', h.1)

-- Past the guard.
started_prepare :
    (request : Request)
    → Triple Fresh
        (do
          set_run (λ r. record r { request = some request })
          in_supervisor start
          check_policy request)
        (λ a. Advanced)
        Advanced
started_prepare request =
    Triple-bind _ _
      (Triple-weaken _ (λ s h. h) (λ _ s h. h) (λ s h. (h.0, inl h.1))
        (Triple-keeps _ (set_run-Steady _ (λ r. refl) _ Fresh-Stable)))
      λ _.
        Triple-weaken _ (λ s h. h) (λ _ s. held_le s) held_le
          (Triple-bind _ _ start-Held λ _.
            Triple-keeps _ (check_policy-Keeps _ (Held-Stable 1) propose_transition-Held request))
  where
    held_le : (s : Shared Runtime) → Held 1 s → Advanced s
    held_le = Held-Advanced 1 (omega arith)

guarded :
    (b : Bool) (e : Error) (rest : Call Bool) (s : Shared Runtime)
    → (b ≡ true → Advanced (rest s).1)
    → Advanced s
    → Advanced ((raise_if (not b) e >> rest) s).1
unfolding raise_if ◌>>=◌
guarded true e rest s f h = f refl
guarded false e rest s f h = h

unattempted :
    (s : Shared Runtime) → is_empty s.own.supervisor.attempts ≡ true → Advanced s → Fresh s
unattempted s e h = elim h.1 [ inl v ↦ (h.0, v) | inr (a, v) ↦ absurd (not_both e a) ]

pub prepare-Advanced : (request : Request) → Keeps (preserving Advanced) (prepare request)
unfolding prepare get_supervisor own_gets
prepare-Advanced request = Keeps-gets_bind _ _ λ s h.
    guarded (is_empty s.own.supervisor.attempts) _ _ s
      (λ e. Ends-either Advanced _ ((started_prepare request).at s (unattempted s e h))) h
