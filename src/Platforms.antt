-- ===== src/Platforms.antt =====
-- src/rom_metadata_framework/platforms.py: the registry of platforms, their aliases and the numbers that
-- the backends give them.
pub mod Keys
pub mod Registry
pub mod Index
pub mod Resolution
mod Tests
