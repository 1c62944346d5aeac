-- ===== src/FileOperations.antt =====
-- src/rom_metadata_framework/file_operations.py: the guarded rename.
pub mod Rename
pub mod Safety
mod Tests
