-- ===== src/Nes.antt =====
-- src/rom_metadata_framework/nes.py: NES cartridge images: what the header says, whether an image can
-- be normalized, and the hashes of its content without the header.
pub mod Header
pub mod Metadata
pub mod Adapter
pub mod Regions
pub mod Probing
mod Tests
