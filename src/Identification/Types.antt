-- ===== src/Identification/Types.antt =====
-- identity.py, content.py, representation.py, lookup.py, inspection.py and the records of
-- identification.py. The identifiers and the metadata of an identity, which nothing here reads, are
-- left out; so is the text of a reason.
use rom_metadata_framework.Prelude.{
  Bool, ℕ, not, ◌==◌, ◌&&◌, ◌||◌, leb, any, Option, none, some, List, length, Text, ◌=t=◌, strip,
  is_empty,
}
use rom_metadata_framework.Prelude.{Result, ok, ◌>>=◌, ◌>>◌, raise_if}
use rom_metadata_framework.Evidence.{CanonicalReleaseIdentity}
use rom_metadata_framework.Detection.Candidates.{PlatformCandidate}
use rom_metadata_framework.LocalMetadata.{LocalContentMetadata, same_items}
use rom_metadata_framework.Reconciliation.Platform.{PlatformReconciliation}
use rom_metadata_framework.Reconciliation.Release.{ReleaseReconciliation}

-- The exceptions that it raises, catches or passes on; `other` is any exception of a collaborator that
-- it does not know.
pub data Error : Type 0 where
  requested_platform_unresolved requested_identity_unresolved requested_identity_mismatch : Error
  resolver_unavailable no_supporting_normalizer structural_evidence_conflict : Error
  lookup_name_empty hash_invalid platform_unknown assertion_failed : Error
  other : ℕ → Error

pub record HashSet : Type 0 where
  pub crc32 : Option Text
  pub md5 : Option Text
  pub sha1 : Option Text
  pub sha256 : Option Text

is_hex : ℕ → Bool
is_hex c = (leb b'0' c && leb c b'9') || (leb b'a' c && leb c b'f')

-- HashSet.__post_init__, for one of the four values
unfoldable pub hash_value : (Text → Text) → ℕ → Option Text → Result Error (Option Text)
unfolding is_hex
hash_value lower expected none = ok none
hash_value lower expected (some value) = do
  let normalized = lower (strip value)
  raise_if (not (length normalized == expected)) hash_invalid
  raise_if (any (λ c. not (is_hex c)) normalized) hash_invalid
  ok (some normalized)

unfoldable pub hash_set : (Text → Text) → HashSet → Result Error HashSet
unfolding hash_value
hash_set lower raw = do
  crc32 ← hash_value lower 8 raw.crc32
  md5 ← hash_value lower 32 raw.md5
  sha1 ← hash_value lower 40 raw.sha1
  sha256 ← hash_value lower 64 raw.sha256
  ok (record { crc32 = crc32; md5 = md5; sha1 = sha1; sha256 = sha256 })

pub record RomIdentity : Type 0 where
  pub file_name : Option Text
  pub file_size : Option ℕ
  pub hashes : HashSet

pub record NormalizedContentIdentity : Type 0 where
  pub kind : Text
  pub hashes : HashSet

pub record RepresentationIdentity : Type 0 where
  pub kind : Text
  pub format : Text
  pub metadata : List (Text × Text)

unfoldable pub same_representation : RepresentationIdentity → RepresentationIdentity → Bool
same_representation a b =
    (a.kind =t= b.kind) && (a.format =t= b.format) && same_items a.metadata b.metadata

pub record LookupIdentity : Type 0 where
  pub file_name : Text
  pub file_size : ℕ
  pub hashes : HashSet

-- LookupIdentity.__post_init__
unfoldable pub lookup_identity : Text → ℕ → HashSet → Result Error LookupIdentity
lookup_identity file_name file_size hashes = do
  raise_if (is_empty (strip file_name)) lookup_name_empty
  ok (record { file_name = strip file_name; file_size = file_size; hashes = hashes })

pub record StructuralInspectionResult : Type 0 where
  pub physical_representation : Option RepresentationIdentity
  pub local_metadata : Option LocalContentMetadata

pub record NormalizationResult : Type 0 where
  pub content : NormalizedContentIdentity
  pub local_metadata : Option LocalContentMetadata
  pub physical_representation : Option RepresentationIdentity

pub data ProviderLookupStatus : Type 0 where
  not_attempted matched no_match unavailable : ProviderLookupStatus

pub data RequestedIdentityStatus : Type 0 where
  matched mismatch unresolved : RequestedIdentityStatus

pub record RequestedIdentityAssessment : Type 0 where
  pub platform : Text
  pub requested_identifier : Text
  pub status : RequestedIdentityStatus
  pub observed_platform : Option Text
  pub observed_identifier : Option Text

pub record IdentificationResult {ℓ} (Evidence : Type ℓ) : Type ℓ where
  pub physical_identity : RomIdentity
  pub platform_detection : List (PlatformCandidate Evidence)
  pub physical_match : Option CanonicalReleaseIdentity
  pub normalized_content : Option NormalizedContentIdentity
  pub physical_representation : Option RepresentationIdentity
  pub local_metadata : Option LocalContentMetadata
  pub normalized_match : Option CanonicalReleaseIdentity
  pub release_reconciliation : Option ReleaseReconciliation
  pub platform_reconciliation : Option PlatformReconciliation
  pub physical_lookup : ProviderLookupStatus
  pub normalized_lookup : ProviderLookupStatus
  pub requested_identity : Option RequestedIdentityAssessment
