-- ===== src/Fixture.antt =====
-- src/gsrr_slice01/fixture.py: the trusted in-memory provider, and the capability that requests actions
-- of it. The modules below hold the methods first, then what is proved of them.
pub mod Defs
pub mod Provider
pub mod Observe
pub mod Journaled
pub mod Capability
pub mod Allowed
pub mod Effect
pub mod Once
pub mod Calls
pub mod Modes
mod Examples
