-- ===== src/Metadata.antt =====
-- src/rom_metadata_framework/metadata.py, metadata_provider.py, metadata_reconciliation.py and
-- metadata_collection.py: what providers say of a release, beside what was read from the artifact.
pub mod Records
pub mod Keys
pub mod Comparison
pub mod Collection
pub mod Order
pub mod Relations
mod Tests
