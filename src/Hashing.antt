-- ===== src/Hashing.antt =====
-- src/rom_metadata_framework/hashing.py: one pass over a file for four hashes. The hash functions of
-- hashlib and zlib are parameters, which a loop feeds with one chunk after the other.
pub mod Digests
pub mod Files
pub mod Streaming
pub mod Samples
mod Tests
