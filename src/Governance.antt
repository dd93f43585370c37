-- ===== src/Governance.antt =====
-- src/gsrr_slice01/governance.py: the grant check, the derivation of the envelope, the plans that the
-- instruction builder makes and their validation. The modules below hold the functions first, then what
-- is proved of them.
pub mod Checks
pub mod Grants
pub mod Building
pub mod Validation
pub mod Journaled
pub mod Authority
pub mod Retained
pub mod OneStep
pub mod Exactness
mod Examples
