-- ===== src/Naming.antt =====
-- src/rom_metadata_framework/naming.py: canonical file names, and the plan of a rename.
pub mod Components
pub mod Inputs
pub mod Plans
pub mod Characters
pub mod Pieces
pub mod SingleName
pub mod Trust
mod Tests
