-- ===== src/Xdvdfs.antt =====
-- src/rom_metadata_framework/xdvdfs.py: the bounded reader of Xbox disc file systems.
pub mod Types
pub mod Reader
pub mod Directory
pub mod Files
pub mod Termination
pub mod Preorder
pub mod Reads
pub mod Lookup
pub mod Opening
mod Tests
