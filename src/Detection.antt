-- ===== src/Detection.antt =====
-- src/rom_metadata_framework/detection.py: the candidates for a file's platform.
pub mod Candidates
pub mod Ranking
pub mod Composite
pub mod Gathering
pub mod Merging
pub mod Distinct
mod Tests
