-- ===== src/Runtime/Dispatch.antt =====
-- src/gsrr_slice01/runtime.py: `dispatch`, on the index (Index), the payload (Payload) and the invocation
-- (Execution).
mod Index
mod Payload
mod Execution
unfoldable pub use Index.*
unfoldable pub use Payload.*
unfoldable pub use Execution.*
use gsrr_agent_harness.Prelude.{
  String, Bool, true, false, not, Option, none, List, [], ◌∷◌, any, ◌==◌, string_eq, if◌then◌else◌,
}
use gsrr_agent_harness.Exec.{pure, ◌>>=◌, ◌>>◌}
use gsrr_agent_harness.Contracts.Enums.{Control}
use gsrr_agent_harness.Contracts.Plans.{RealizationCommit}
use gsrr_agent_harness.Journal.Event
use gsrr_agent_harness.Retry.Lifecycle.{need}
use gsrr_agent_harness.Retry.Eligibility.{is_pass}
use gsrr_agent_harness.Runtime.Defs.{request_eq, RunResult, binding_eq, Call, get_run, get_faults}
use gsrr_agent_harness.Runtime.Start.{stop, record_checks}
use gsrr_agent_harness.Runtime.Inject.{inject}
use gsrr_agent_harness.Runtime.Fresh.{Freshness, fresh}
use gsrr_agent_harness.Runtime.Admit.{first_step, binding, payload_of}

abbrev pub is_claimed_key : String → List String → Bool
is_claimed_key key claims = any (λ k. k == key) claims

-- From the second freshness on.
unfoldable pub dispatch_fresh : RealizationCommit → Freshness → Call RunResult
dispatch_fresh c f =
    if not (is_pass f.control)
    then (do
      ref ← record_checks f.checks
      kept ← stop f.control "PRE_DISPATCH_FRESHNESS" (ref ∷ [])
      finish_index kept)
    else (do
      claimed ← get_run (λ r. is_claimed_key c.idempotency_key r.dispatch_claims)
      if claimed
          then (do
            request ← need (← get_run (λ r. r.request))
            lookup c.idempotency_key request none)
          else execute c)

-- The first dispatch of a commit.
unfoldable pub dispatch_new : RealizationCommit → Option Presented → Call RunResult
dispatch_new c presented = do
  inject "pre_dispatch"
  substitution ← get_faults (λ f. f.payload_substitution)
  payload ← substitute substitution (presented_payload c.dispatch_payload presented)
  r ← get_run (λ r. r)
  p ← need r.plan
  step ← first_step p.steps
  e ← need r.envelope
  equal ← is_bound payload c p e (payload_of step p e c.commit_id c.idempotency_key) r
  if not equal
      then (do
        kept ← stop Control.fail_nonretryable "DISPATCH_BINDING_MISMATCH" []
        finish_index kept)
      else (do f ← fresh false false; dispatch_fresh c f)

-- `self.binding() != self.index[key].binding`
unfoldable pub is_rebound : String → Call Bool
is_rebound key = do bound ← binding; entry ← index_at key; pure (not (bound == entry.binding))

unfoldable pub or_else : Bool → Call Bool → Call Bool
or_else true m = pure true
or_else false m = m

-- A further dispatch of a commit, which invokes nothing.
unfoldable pub dispatch_again : RealizationCommit → Option Presented → Call RunResult
dispatch_again c presented = do
  refused ← or_else (is_other_payload c.dispatch_payload presented) (is_rebound c.idempotency_key)
  if refused
      then pure (bare_result "REFUSED_DUPLICATE" Control.fail_nonretryable)
      else (do request ← need (← get_run (λ r. r.request)); lookup c.idempotency_key request none)

unfoldable pub dispatch : Option Presented → Call RunResult
dispatch presented = do
  c ← need (← get_run (λ r. r.commit))
  claimed ← get_run (λ r. is_claimed_key c.idempotency_key r.dispatch_claims)
  if claimed then dispatch_again c presented else dispatch_new c presented
