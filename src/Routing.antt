-- ===== src/Routing.antt =====
-- src/rom_metadata_framework/routing.py: the choice of the one normalizer for a file.
pub mod Normalizers
pub mod Selection
mod Tests
