-- ===== src/Retry.antt =====
-- src/gsrr_slice01/retry.py: the supervisor of attempts. Every method of `class Supervisor` is a call
-- on its state beside the run's journal; the proofs are in the modules below.
pub mod Defs
pub mod Lifecycle
pub mod Eligibility
pub mod Successor
pub mod Journaled
pub mod Frame
pub mod Chain
pub mod Invariant
pub mod Rules
pub mod Starting
pub mod Failing
pub mod Budget
pub mod Allocation
pub mod Begun
pub mod Renewed
pub mod Lined
pub mod Eligible
pub mod Scheduled
pub mod Succession
pub mod Decided
pub mod Opening
pub mod Calls
pub mod Kept
pub mod Retrieval
mod Examples
