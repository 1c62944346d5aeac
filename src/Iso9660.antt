-- ===== src/Iso9660.antt =====
-- src/rom_metadata_framework/iso9660.py: the bounded reader of ISO 9660 images.
pub mod Types
pub mod Records
pub mod Reader
pub mod Progress
pub mod RoundTrip
pub mod Listing
mod Tests
pub mod Reads
