-- ===== src/Contracts.antt =====
-- src/gsrr_slice01/contracts.py: the immutable contracts, one child module to a group of classes.
pub mod Values
pub mod Enums
pub mod Domain
pub mod Effects
pub mod Attempts
pub mod Planning
pub mod Plans
pub mod Results
pub mod Record
pub mod Defaults
