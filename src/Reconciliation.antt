-- ===== src/Reconciliation.antt =====
-- src/gsrr_slice01/reconciliation.py: `reconcile`, the comparison of what was observed with what was
-- approved. Evidence holds the tests, Reconcile the function, Success what its success is sure to mean.
pub mod Evidence
pub mod Reconcile
pub mod Journaled
pub mod Outcome
pub mod Closed
pub mod Agreed
pub mod Effect
pub mod Success
mod Examples
