-- ===== src/Runtime.antt =====
-- src/gsrr_slice01/runtime.py: the orchestration of one operation scope, and `project` of
-- src/gsrr_slice01/reconciliation.py, which acts on its state. The modules below hold the methods first,
-- then what is proved of them.
pub mod Defs
pub mod Start
pub mod Inject
pub mod Fresh
pub mod Prepare
pub mod Project
pub mod Dispatch
pub mod Realize
pub mod Stable
pub mod Preparing
pub mod Pivots
pub mod Parts
pub mod Seams
pub mod Steps
pub mod Publishing
pub mod Dispatching
pub mod Realizing
pub mod Starting
pub mod Frames
pub mod Calls
pub mod Invariants
pub mod Always
pub mod Replayed
pub mod Settled
pub mod Snapshots
pub mod Founded
pub mod Judged
pub mod Advanced
pub mod Projected
pub mod Scheduling
pub mod Rounds
pub mod Ending
pub mod Unique
pub mod Runs
pub mod Again
pub mod Once
pub mod Justified
pub mod Retrieved
pub mod Delegated
pub mod Admit
mod Examples
