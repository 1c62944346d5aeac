-- ===== src/SwitchContainer.antt =====
-- src/rom_metadata_framework/switch_container.py: PFS0, HFS0 and XCI containers.
pub mod Types
pub mod Names
pub mod Tables
pub mod Entries
pub mod Bounds
pub mod Lookup
pub mod Access
mod Tests
