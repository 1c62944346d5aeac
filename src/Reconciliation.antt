-- ===== src/Reconciliation.antt =====
-- src/rom_metadata_framework/reconciliation.py and release_reconciliation.py: local evidence against
-- a provider's, and the match of the file against that of its normalized content.
pub mod Platform
pub mod Release
pub mod Outcomes
pub mod Agreement
mod Tests
