-- ===== src/Retry/Invariant.antt =====
-- src/gsrr_slice01/retry.py: what every method of the supervisor keeps, returning or raising: the
-- attempts are a chain, the scope's ledger counts them, and the policy's budget bounds them.
use gsrr_agent_harness.Prelude.{ℕ, ◌≤◌, ◌≡◌, Option, none, some, List, arith, length}
use Prim.Native.Nat.{max}
use gsrr_agent_harness.Contracts.Values.{Scalar}
use gsrr_agent_harness.Contracts.Domain.{RetryPolicy}
use gsrr_agent_harness.Contracts.Enums.{Control}
use gsrr_agent_harness.Contracts.Attempts.{Attempt, ScopeLedger}
use gsrr_agent_harness.Retry.Defs.{Supervisor, set_control}
use gsrr_agent_harness.Retry.Chain.{Chained}

-- Without a scope there is one attempt at most; a scope counts the attempts, of which there are some.
abbrev pub Counts : Option ScopeLedger → List Attempt → Type 0
Counts none xs = length xs ≤ 1
Counts (some l) xs = (l.attempts_created ≡ length xs) × (1 ≤ length xs)

abbrev pub limit : Scalar → ℕ
limit (Scalar.int n) = max 1 n
limit _ = 1

-- The attempts that a policy allows: its `max_attempts`, but at least one, as `start` makes the first
-- attempt under every policy.
abbrev pub budget : Option RetryPolicy → ℕ
budget none = 1
budget (some p) = limit p.max_attempts

pub record IsScope (s : Supervisor) : Type 0 where
  pub chain : Chained none 0 s.attempts
  pub counts : Counts s.ledger s.attempts
  pub bounded : length s.attempts ≤ budget s.policy

pub IsScope-steady : (c : Control) (s : Supervisor) → IsScope s → IsScope (set_control c s)
IsScope-steady c s h = record { chain = h.chain; counts = h.counts; bounded = h.bounded }

one-le-limit : (v : Scalar) → 1 ≤ limit v
one-le-limit (Scalar.int n) = omega arith
one-le-limit _ = omega arith

pub one-le-budget : (p : Option RetryPolicy) → 1 ≤ budget p
one-le-budget none = omega arith
one-le-budget (some p) = one-le-limit p.max_attempts
