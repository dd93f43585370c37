-- ===== src/Journal.antt =====
-- src/gsrr_slice01/journal.py: the run-local record history and its one publication boundary. Every
-- method of `class Journal` is a call on the journal's state; the proofs are in the modules below.
pub mod Defs
pub mod Basic
pub mod Sharing
pub mod Slots
pub mod Event
pub mod Publish
pub mod History
pub mod Lookup
pub mod Retention
pub mod Steps
pub mod Publication
pub mod Replay
pub mod Growth
pub mod Versions
pub mod Serial
pub mod Trace
mod Examples
