-- ===== src/Runtime/Advanced.antt =====
-- src/gsrr_slice01/runtime.py, reconciliation.py and journal.py: the authority advances once at most.
use gsrr_agent_harness.Prelude.{
  ℕ, ◌+◌, ◌&&◌, ◌==◌, string_eq, ◌≤◌, inl, inr, String, ◌≡◌, refl, Bool, true, false, Option, none,
  some, List, arith, if◌then◌else◌,
}
use gsrr_agent_harness.Exec.{Result, pure, raise, ◌>>=◌}
use gsrr_agent_harness.Exec.Keeps.{
  preserving, Keeps, Keeps-coarse, Keeps-bind, Keeps-gets_bind, keeps_rules,
}
use gsrr_agent_harness.Exec.Triple.{
  Ends, Ends-either, Triple, Triple-bind, Triple-keeps, Triple-weaken, Triple-given, Triple-gets,
  Triple-raise_if, Triple-modify,
}
use gsrr_agent_harness.Shared.{Shared, in_journal, own_gets}
use gsrr_agent_harness.Contracts.Domain.{Definition, AuthorityEvidence, RetryPolicy}
use gsrr_agent_harness.Contracts.Enums.{Decision}
use gsrr_agent_harness.Contracts.Planning.{AuthoritativeStateSnapshot}
use gsrr_agent_harness.Contracts.Plans.{ExecutionEnvelope, RealizationCommit}
use gsrr_agent_harness.Contracts.Results.{ReconciliationResult, ProjectionDecision, RuntimeEvent}
use gsrr_agent_harness.Journal.Defs.{Journal}
use gsrr_agent_harness.Journal.Publish.{publish, candidate, published, bump}
use gsrr_agent_harness.Journal.Versions.{version_of}
use gsrr_agent_harness.Retry.Lifecycle.{need}
use gsrr_agent_harness.Retry.Begun.{HasAttempt}
use gsrr_agent_harness.Retry.Journaled.{need-Keeps}
use gsrr_agent_harness.Fixture.Defs.{FixtureFaults}
use gsrr_agent_harness.Runtime.Defs.{Runtime, Call, get_run, get_faults}
use gsrr_agent_harness.Runtime.Project.{
  Judgement, is_project, settled, publish_judgement, project_into, publication_fails, judge_outcome,
}
use gsrr_agent_harness.Runtime.Stable.{Pivotal}
use gsrr_agent_harness.Runtime.Parts.{
  successor-Owned, journal_gets-Steady, new_id-Steady, get_faults-Steady,
}
use gsrr_agent_harness.Runtime.Publishing.{
  projection_event-Steady, stop_unless_applied-Steady, project-Keeps,
}
use gsrr_agent_harness.Runtime.Starting.{new_runtime}
use gsrr_agent_harness.Runtime.Calls.{Method, calls}
use gsrr_agent_harness.Runtime.Always.{always}
use gsrr_agent_harness.Runtime.Replayed.{IsSealed}
use gsrr_agent_harness.Runtime.Founded.{
  Founded, Held, Advanced, Held-Advanced, Held-Stable, Advanced-Stable, Advanced-le,
  prepare-Advanced,
}
use gsrr_agent_harness.Runtime.Settled.{settled_owned}
use gsrr_agent_harness.Runtime.Judged.{judge_outcome-Held}

publish-version :
    (n : ℕ) (d : ProjectionDecision) (e : Option RuntimeEvent) (x : Option String)
    → Triple
        (λ j. version_of j ≡ n)
        (publish d e x)
        (λ u j. version_of j ≡ n + bump x)
        (λ j. version_of j ≡ n)
unfolding publish candidate
publish-version n d e x = Triple-bind _ _ (Triple-gets _) λ old.
    Triple-bind _ _
      (Triple-weaken _ (λ j h. h.0) (λ u j h. h.0) (λ j h. h) (Triple-raise_if _ _ (λ j h. h)))
      λ _.
        Triple-bind _ _
          (Triple-weaken _ (λ j h. h) (λ u j h. h.0) (λ j h. h) (Triple-raise_if _ _ (λ j h. h)))
          λ _. Triple-modify (published d e x) (λ j h. rw h refl)

module _ (n : ℕ) (le : n ≤ 2) where
  lifted :
      {A : Type 0} (m : Call A)
      → Keeps (preserving (Held n)) m
      → Triple (Held n) m (λ a. Held n) Advanced
  lifted m k = Triple-weaken m (λ s h. h) (λ a s h. h) (Held-Advanced n le) (Triple-keeps m k)

  bumped :
      (b : Bool) (target : String)
      → (b ≡ true → n ≡ 1)
      → n + bump (if b then some target else none) ≤ 2
  bumped true target h = rw (h refl) (omega arith)
  bumped false target h = omega arith

  publish-Ends :
      (m : ℕ) (s : Shared Runtime) (r : Result (Unit {0}) × Journal)
      → Held n s
      → m ≤ 2
      → Ends (λ u j. version_of j ≡ m) (λ j. version_of j ≡ n) r
      → Ends (λ u. Advanced) Advanced (r.0, record s { journal = r.1 })
  publish-Ends m s (Result.ok u, j) held bound h = (held.0, inr (held.1, rw h bound))
  publish-Ends m s (Result.err e, j) held bound h = (held.0, inr (held.1, rw h le))

  publish-Advanced :
      (d : ProjectionDecision) (e : Option RuntimeEvent) (b : Bool) (target : String)
      → (b ≡ true → n ≡ 1)
      → Triple
          (Held n)
          (in_journal (publish d e (if b then some target else none)))
          (λ u. Advanced)
          Advanced
  unfolding in_journal
  publish-Advanced d e b target h = record {
    at = λ s held.
        let x = (if b then some target else none) in
        publish-Ends (n + bump x) s (publish d e x s.journal) held (bumped b target h)
          ((publish-version n d e x).at s.journal held.2);
  }

  publish_judgement-Advanced :
      (r : ReconciliationResult) (e : Option ExecutionEnvelope) (c : RealizationCommit)
      (retention : String) (failed unavailable : Bool) (g : Judgement)
      → (is_project g.decision ≡ true → n ≡ 1)
      → Triple
          (Held n)
          (publish_judgement r e c retention failed unavailable g)
          (λ d. Advanced)
          Advanced
  unfolding publish_judgement
  publish_judgement-Advanced r envelope c retention failed unavailable g h =
      let k = Held-Stable n in
      Triple-bind _ _ (lifted _ (new_id-Steady "projection" _ k)) λ ref.
        Triple-bind _ _ (lifted _ (need-Keeps envelope)) λ e.
          Triple-bind _ _ (lifted _ (journal_gets-Steady _ _ k)) λ d.
            Triple-bind _ _ (lifted _ (projection_event-Steady unavailable d r e g _ k)) λ event.
              Triple-bind _ _ (publish-Advanced d event (is_project g.decision) e.target_state h)
                λ _. Triple-keeps _ (
                  Keeps-bind _ _ (stop_unless_applied-Steady d g _ Advanced-Stable)
                    (λ _. search keeps_rules))

-- A publication that fails decides against it.
settled_project :
    (fails : Bool) (g : Judgement)
    → is_project
        (if fails
          then record g { decision = Decision.do_not_project; reason = "PUBLICATION_FAILED" }
          else g).decision
      ≡ true
    → is_project g.decision ≡ true
settled_project true g e = cc
settled_project false g e = e

judged_projection :
    (n : ℕ)
    → n ≤ 2
    → (r : ReconciliationResult) (e : Option ExecutionEnvelope) (c : RealizationCommit)
      (retention : String) (b : AuthoritativeStateSnapshot)
    → Triple
        (Held n)
        (do
          g ← judge_outcome r b.snapshot_id r.outcome
          fault ← get_faults (λ f. f.publication_fault)
          let failed = publication_fails g.decision fault
          publish_judgement r e c retention failed (failed && fault == "event") (settled fault g))
        (λ d. Advanced)
        Advanced
judged_projection n le r e c retention b =
    Triple-bind _ _
      (Triple-weaken _ (λ s h. h) (λ g s h. h) (Held-Advanced n le)
        (judge_outcome-Held n r b.snapshot_id r.outcome))
      λ g. Triple-given λ h.
        Triple-bind _ _ (lifted n le _ (get_faults-Steady _ _ (Held-Stable n))) λ fault.
          publish_judgement-Advanced n le r e c retention _ _ _
            (λ q. h (settled_project (publication_fails g.decision fault) g q))

-- With a state before there is an attempt.
Founded-need :
    (b : Option AuthoritativeStateSnapshot)
    (f : AuthoritativeStateSnapshot → Call (Option ProjectionDecision)) (s : Shared Runtime)
    → Founded b s.own.supervisor
    → ((b : AuthoritativeStateSnapshot) → HasAttempt s.own.supervisor → Advanced (f b s).1)
    → Advanced s
    → Advanced ((need b >>= f) s).1
unfolding need raise pure ◌>>=◌
Founded-need none f s h k a = a
Founded-need (some b) f s h k a = k b h.1

pub version_bound : (s : Shared Runtime) → Advanced s → version_of s.journal ≤ 2
version_bound s h = elim h.1 [ inl e ↦ rw e (omega arith) | inr (a, v) ↦ v ]

project_into-Advanced :
    (r : ReconciliationResult) (e : Option ExecutionEnvelope) (c : RealizationCommit)
    (retention : String)
    → Keeps (preserving Advanced) (project_into r e c retention)
unfolding project_into get_run own_gets
project_into-Advanced r e c retention = Keeps-gets_bind _ _ λ s h.
    Founded-need s.own.run.before _ s h.0.1
      (λ b a. Ends-either Advanced _ (
        (judged_projection (version_of s.journal) (version_bound s h) r e c retention b).at s
          (h.0, a, refl)))
      h

Advanced-Pivotal : Pivotal (preserving Advanced)
Advanced-Pivotal = record {
  at_prepare = prepare-Advanced;
  at_project = project-Keeps (preserving Advanced) Advanced-Stable project_into-Advanced;
  at_successor = λ prior mode fresh checks failing.
      Keeps-coarse (preserving Advanced) Advanced-le _
        (settled_owned _ (successor-Owned prior mode fresh checks failing));
}

pub runtime-Advanced :
    (run_id : String) (definition : Option Definition) (grant : Option AuthorityEvidence)
    (policy : Option RetryPolicy) (faults : FixtureFaults) (ms : List Method)
    → IsSealed faults
    → Advanced (calls ms (new_runtime run_id definition grant policy faults))
runtime-Advanced run_id definition grant policy faults ms none_injected =
    always (preserving Advanced) Advanced-Stable Advanced-Pivotal run_id definition grant policy
      faults ms ((none_injected, tt), inl refl)
