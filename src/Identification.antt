-- ===== src/Identification.antt =====
-- src/rom_metadata_framework/identification.py: one file against a detector, a resolver, an inspector
-- and a normalizer, and what is known of the result; with the records of identity.py, content.py,
-- representation.py, lookup.py and inspection.py that it passes on.
pub mod Types
pub mod Collaborators
pub mod Rules
pub mod Checks
pub mod Engine
pub mod Results
pub mod Runs
pub mod Restriction
pub mod Matches
pub mod Safety
pub mod Samples
mod Tests
