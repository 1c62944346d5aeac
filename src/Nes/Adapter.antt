-- ===== src/Nes/Adapter.antt =====
-- nes.py: `NesAdapter` and `NesPlatformDetector`. The file is its name and what a reader finds; the
-- reason of a probe is left out, and the detector's one item of evidence is its details.
use rom_metadata_framework.Prelude.{
  Bool, ℕ, zero, suc, ◌+◌, ◌-◌, ◌*◌, ◌==◌, ltb, not, ◌&&◌, min, if◌then◌else◌, some, List, [], ◌∷◌,
  Text, codes, ◌=t=◌, is_empty, Bytes, length, take,
}
use rom_metadata_framework.Prelude.{Result, ok, err, ◌>>=◌, ◌>>◌, raise_if}
use rom_metadata_framework.Source.{Source, read_at}
use rom_metadata_framework.LocalMetadata.{LocalContentMetadata, no_metadata}
use rom_metadata_framework.Detection.Candidates.{PlatformCandidate}
use rom_metadata_framework.Routing.Normalizers.{Probe, ProbeStatus, unsupported, supported, unsafe}
use rom_metadata_framework.Identification.Types
use rom_metadata_framework.Identification.Types.{
  HashSet, NormalizedContentIdentity, RepresentationIdentity,
}
use rom_metadata_framework.Hashing.Digests.{Hashers, Running, begin, absorb, finish}
use rom_metadata_framework.Naming.Components.{suffix}
use rom_metadata_framework.Nes.Header.{nes_magic, nes_header_size, Fields, fields, representation}
use rom_metadata_framework.Nes.Metadata.{
  Items, item, nes_local_metadata, content_metadata, header_metadata,
}

-- The `NesFormatError`s, and the exception of `HashSet`.
pub data Error : Type 0 where
  not_a_file headerless_not_allowed truncated_header trainer_present truncated trailing_data : Error
  unexpected_end hash_invalid : Error

pub record NesContentIdentity : Type 0 where
  pub representation : Text
  pub content : NormalizedContentIdentity
  pub content_metadata : Items
  pub header_metadata : Items
  pub local_metadata : LocalContentMetadata
  pub physical_representation : RepresentationIdentity

-- NesContentIdentity.__post_init__, for one of its three representations: the physical representation
unfoldable pub cartridge_image : Text → Items → RepresentationIdentity
cartridge_image representation metadata = record {
  kind = codes "cartridge-image";
  format = representation;
  metadata = metadata;
}

unfoldable pub headerless_identity : HashSet → NesContentIdentity
unfolding cartridge_image
headerless_identity hashes = record {
  representation = codes "headerless";
  content = record { kind = codes "cartridge"; hashes = hashes };
  content_metadata = (codes "normalization", codes "complete-file") ∷ [];
  header_metadata = [];
  local_metadata = record no_metadata {
    platform = some (codes "nes");
    media = (codes "representation", codes "headerless") ∷ [];
  };
  physical_representation = cartridge_image (codes "headerless") [];
}

unfoldable pub headered_identity : Bytes → HashSet → NesContentIdentity
unfolding cartridge_image
headered_identity header hashes = record {
  representation = representation (fields header);
  content = record { kind = codes "cartridge"; hashes = hashes };
  content_metadata = content_metadata (fields header);
  header_metadata = header_metadata header (fields header);
  local_metadata = nes_local_metadata header (fields header);
  physical_representation =
      cartridge_image (representation (fields header)) (header_metadata header (fields header));
}

unfoldable pub has_magic : Bytes → Bool
unfolding ◌=t=◌
has_magic header = take 4 header =t= nes_magic

unfoldable pub expected_size : Fields → ℕ
expected_size f = nes_header_size + f.prg_size + f.chr_size

-- What `probe` gives for a header in full.
unfoldable pub probe_fields : Fields → ℕ → ProbeStatus × Items
probe_fields f actual_size =
    if f.has_trainer
    then (unsafe, (codes "representation", representation f) ∷ (codes "trainer", codes "true") ∷ [])
    else (
      if ltb actual_size (expected_size f)
          then unsafe
          else if ltb (expected_size f) actual_size
          then unsafe
          else supported,
      (codes "representation", representation f)
          ∷ item "expected_size" (expected_size f)
          ∷ item "actual_size" actual_size
          ∷ [],
    )

module _ (allow_headerless : Bool) (lower : Text → Text) where
  unfoldable pub probe_header : Text → Bytes → ℕ → ProbeStatus × Items
  unfolding probe_fields
  probe_header name header actual_size =
      if not (has_magic header)
      then if allow_headerless && (lower (suffix name) =t= codes ".nes")
        then (supported, (codes "representation", codes "headerless") ∷ [])
        else (unsupported, [])
      else if not (length header == nes_header_size)
      then (unsafe, (codes "representation", codes "headered") ∷ [])
      else probe_fields (fields header) actual_size

  -- probe: its status and details
  unfoldable pub probe_details : Text → Source → ProbeStatus × Items
  unfolding probe_header
  probe_details name source =
      if not source.regular
      then (unsupported, [])
      else probe_header name (read_at source 0 nes_header_size) source.st_size

  unfoldable pub probe : Text → Source → Probe
  unfolding probe_details
  probe name source = record { normalizer = codes "nes"; status = (probe_details name source).0 }

  module _ (hashers : Hashers) where
    unfoldable pub or_invalid : Result Types.Error HashSet → Result Error HashSet
    or_invalid (ok h) = ok h
    or_invalid (err e) = err hash_invalid

    -- The loop of `_hash_region`; a chunk has a byte at least, so the length is fuel enough.
    unfoldable pub absorb_region :
        ℕ → Source → ℕ → ℕ → Running hashers → Result Error (Running hashers)
    unfolding absorb read_at
    absorb_region zero source position remaining state = ok state
    absorb_region (suc fuel) source position remaining state =
        let chunk = read_at source position (min (1024 * 1024) remaining) in
        let rest =
          absorb_region fuel source (position + length chunk) (remaining - length chunk)
            (absorb hashers state chunk) in
        if remaining == 0 then ok state else if is_empty chunk then err unexpected_end else rest

    -- _hash_region
    unfoldable pub hash_region : Source → ℕ → ℕ → Result Error HashSet
    unfolding absorb_region begin finish or_invalid
    hash_region source offset size =
        absorb_region size source offset size (begin hashers) >>= λ state.
        or_invalid (finish hashers lower state)

    -- identify, without a header
    unfoldable pub identify_headerless : Source → Result Error NesContentIdentity
    identify_headerless source = do
      raise_if (not allow_headerless) headerless_not_allowed
      hashes ← hash_region source 0 source.st_size
      ok (headerless_identity hashes)

    -- identify, with one
    unfoldable pub identify_headered : Source → Bytes → Result Error NesContentIdentity
    identify_headered source header = do
      raise_if (not (length header == nes_header_size)) truncated_header
      let f = fields header
      raise_if f.has_trainer trainer_present
      raise_if (ltb source.st_size (expected_size f)) truncated
      raise_if (ltb (expected_size f) source.st_size) trailing_data
      hashes ← hash_region source nes_header_size (f.prg_size + f.chr_size)
      ok (headered_identity header hashes)

    unfoldable pub identify : Source → Result Error NesContentIdentity
    unfolding identify_headerless identify_headered
    identify source = do
      raise_if (not source.regular) not_a_file
      let header = read_at source 0 nes_header_size
      if not (has_magic header) then identify_headerless source else identify_headered source header

-- NesPlatformDetector.detect
unfoldable pub detect : Source → List (PlatformCandidate Items)
detect source =
    let header = read_at source 0 nes_header_size in
    if not source.regular
    then []
    else if ltb (length header) nes_header_size
    then []
    else if not (has_magic header)
    then []
    else record {
      platform = codes "nes";
      confidence = 100;
      evidence = ((codes "representation", representation (fields header)) ∷ []) ∷ [];
    }
      ∷ []
