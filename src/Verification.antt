-- ===== src/Verification.antt =====
-- src/rom_metadata_framework/verification.py: how far the evidence for a release is to be trusted.
pub mod Policy
pub mod Verdicts
mod Tests
