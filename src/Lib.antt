-- ===== src/Lib.antt =====
-- The ROM metadata framework (src/rom_metadata_framework): it finds out which release a ROM file is,
-- without trusting the file. Bounded readers take disc and container images apart; platform adapters
-- build on them and name the platform; the composite detector merges what they say; routing picks the
-- one normalizer for the content; identification runs them in order; reconciliation weighs the local
-- evidence against a provider's; verification says how far the catalogue evidence reaches; naming
-- plans a file name from it, and a file is renamed without ever overwriting another.
--
-- The files, and what they are about (paths below src/rom_metadata_framework):
--   Prelude/*            numbers, lists, texts, bytes and results that the components share
--   Source               a file that a reader opens: `is_file`, `st_size`, `seek` and `read`; the
--                        reported size and the bytes are apart, since a file may shrink in between
--   Xdvdfs/*             xdvdfs.py: Types, Reader (opening, extents), Directory (`list_directory`
--                        with its nested `walk`), Files (`find`, `read_file`, `read_file_range`);
--                        the proofs in Termination, Preorder, Reads, Lookup and Opening
--   Iso9660/*            iso9660.py: Types, Records (fields and records), Reader (the class); the
--                        proofs in Progress, RoundTrip, Listing and Reads
--   SwitchContainer/*    switch_container.py: Types, Names (`_read_name`), Tables (`parse_pfs0`,
--                        `parse_hfs0`), Entries (`find_entry`, `read_entry_range`, `parse_xci`);
--                        the proofs in Bounds, Lookup and Access
--   FileOperations/*     file_operations.py: Rename, and the proofs in Safety
--   Platforms/*          platforms.py: Keys, Registry (the two tables), Index; the proof in Resolution
--   Selection            selection.py
--   LocalMetadata        local_metadata.py: the records, and when two are equal
--   Identification/*     identification.py: Types (with the records of identity.py, content.py,
--                        representation.py, lookup.py, inspection.py), Collaborators, Rules, Checks
--                        and Engine (`identify_file`), Results (the properties of a result and of its
--                        verification); the proofs in Runs, Restriction, Matches and Safety
--   Naming/*             naming.py: Components (`sanitize_filename_component`), Inputs, Plans; the
--                        proofs in Characters, Pieces, SingleName and Trust
--   Hashing/*            hashing.py: Digests (the four hashes), Files (`hash_file`), and the proofs in
--                        Streaming
--   Nes/*                nes.py: Header, Metadata, Adapter (`NesAdapter`, `_hash_region` and the
--                        detector); the proofs in Regions and Probing
--   Metadata/*           metadata.py, metadata_provider.py (Records), metadata_reconciliation.py (Keys,
--                        Comparison) and metadata_collection.py (Collection); the proofs in Order
--                        and Relations
--   Evidence             provenance.py and canonical.py: the records that decisions are made on
--   Verification/*       verification.py: Policy, and the proofs in Verdicts
--   Detection/*          detection.py: Candidates, Composite, and the proofs in Ranking,
--                        Gathering, Merging and Distinct
--   Routing/*            routing.py and normalization.py: Normalizers, and the proofs in Selection
--   Reconciliation/*     reconciliation.py (Platform), release_reconciliation.py (Release), and the
--                        proofs in Outcomes and Agreement
-- A function keeps its name; a part of a long function or of a loop has a name of its own and a
-- comment that says which. An exception is an error value, one constructor for each message, and the
-- statements of a function are the lines of a do block in their order.
--
-- Recursion: `walk` of xdvdfs.py recurses on the number of frames that the interpreter has left, and
-- running out is its `RecursionError`, so nothing is assumed of that number but where a theorem says
-- so. The loop of `read_directory` in iso9660.py has as many rounds as the directory has bytes, which
-- is shown to be enough; so have the loops over the chunks of a file in hashing.py and nes.py. All
-- other loops go down a list or a count.
--
-- Parameters: `str.casefold`, `str.lower` and `str.upper` are the interpreter's tables, of which
-- nothing is assumed. What others do to a directory between the calls of the operating system, and
-- how these calls end, is the parameter `World` of FileOperations. The detectors, which answer or
-- raise, are parameters of Detection. The hashing of the file, the detector, the resolver, the
-- inspector and the normalizer of a run are `Collaborators` of Identification, each of which
-- answers or raises anything; a run is the sequence of its calls with its result. The hash
-- functions of hashlib and zlib are `Hashers` of Hashing; the theorems on them take that an update
-- with two pieces, one after the other, is an update with both at once, and that one with nothing
-- changes nothing. Python's integers are unbounded, and so are the numbers here; what may be
-- negative in the source is an integer.
--
-- Not modelled: the text of a message, the evidence mappings that no decision reads, the refusal of
-- values of a wrong type, the command line, the clients of providers, and the adapters of the other
-- platforms.
mod Prelude
pub mod Source
pub mod Xdvdfs
pub mod Iso9660
pub mod FileOperations
pub mod SwitchContainer
pub mod Evidence
pub mod Verification
pub mod Detection
pub mod Reconciliation
pub mod Routing
pub mod Platforms
pub mod LocalMetadata
pub mod Selection
pub mod Identification
pub mod Naming
pub mod Hashing
pub mod Nes
pub mod Metadata
