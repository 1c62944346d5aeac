-- ===== src/Identification/Rules.antt =====
-- identification.py: the parts of `identify_file` that call nothing.
use rom_metadata_framework.Prelude.{
  Bool, true, false, ℕ, not, any, if◌then◌else◌, Option, none, some, List, [], ◌∷◌, ◌++◌, Text,
  ◌=t=◌, is_empty,
}
use rom_metadata_framework.Prelude.{Result, ok, err}
use rom_metadata_framework.Evidence.{CanonicalReleaseIdentity, has_authoritative_content_match}
use rom_metadata_framework.Detection.Candidates.{PlatformCandidate, best}
use rom_metadata_framework.LocalMetadata.{LocalContentMetadata}
use rom_metadata_framework.Selection.{RequestedIdentity, IdentificationSelection}
use rom_metadata_framework.Identification.Types.{
  Error, resolver_unavailable, no_supporting_normalizer, structural_evidence_conflict,
  NormalizedContentIdentity, RepresentationIdentity, StructuralInspectionResult,
  NormalizationResult, ProviderLookupStatus,
}

-- _merge_structural_evidence
unfoldable pub merge_structural_evidence {ℓ} :
    {A : Type ℓ} → (A → A → Bool) → Option A → Option A → Result Error (Option A)
merge_structural_evidence same none incoming = ok incoming
merge_structural_evidence same (some current) none = ok (some current)
merge_structural_evidence same (some current) (some incoming) =
    if same current incoming then ok (some current) else err structural_evidence_conflict

-- `except ResolverUnavailableError`, and the outcome of a lookup that was made
unfoldable pub outcome :
    Result Error (Option CanonicalReleaseIdentity)
    → Result Error (Option CanonicalReleaseIdentity × ProviderLookupStatus)
outcome (ok none) = ok (none, ProviderLookupStatus.no_match)
outcome (ok (some match)) = ok (some match, ProviderLookupStatus.matched)
outcome (err resolver_unavailable) = ok (none, ProviderLookupStatus.unavailable)
outcome (err e) = err e

-- `except NoSupportingNormalizerError`
unfoldable pub if_supported :
    Result Error NormalizationResult → Result Error (Option NormalizationResult)
if_supported (ok n) = ok (some n)
if_supported (err no_supporting_normalizer) = ok none
if_supported (err e) = err e

abbrev pub is_some {ℓ} : {A : Type ℓ} → Option A → Bool
is_some none = false
is_some (some a) = true

unfoldable pub listed : Option Text → List Text
listed none = []
listed (some p) = p ∷ []

unfoldable pub metadata_platform : Option LocalContentMetadata → Option Text
metadata_platform none = none
metadata_platform (some m) = m.platform

unfoldable pub is_unavailable : ProviderLookupStatus → Bool
is_unavailable status = elim status [ ProviderLookupStatus.unavailable ↦ true | _ ↦ false ]

-- provider_platform: that of both matches, or of the selected one
unfoldable pub provider_platform :
    Option CanonicalReleaseIdentity
    → Option CanonicalReleaseIdentity
    → Option CanonicalReleaseIdentity
    → Option Text
provider_platform (some p) (some n) none =
    if p.platform =t= n.platform then some p.platform else none
provider_platform (some p) (some n) (some s) =
    if p.platform =t= n.platform then some p.platform else some s.platform
provider_platform _ _ none = none
provider_platform _ _ (some s) = some s.platform

-- The structural evidence, and what a lookup of normalized content gave.
pub record Normalized : Type 0 where
  pub content : Option NormalizedContentIdentity
  pub representation : Option RepresentationIdentity
  pub metadata : Option LocalContentMetadata
  pub match : Option CanonicalReleaseIdentity
  pub lookup : ProviderLookupStatus

unfoldable pub without_content : Option StructuralInspectionResult → Normalized
without_content none = record {
  content = none;
  representation = none;
  metadata = none;
  match = none;
  lookup = ProviderLookupStatus.not_attempted;
}
without_content (some found) = record {
  content = none;
  representation = found.physical_representation;
  metadata = found.local_metadata;
  match = none;
  lookup = ProviderLookupStatus.not_attempted;
}

-- `physical_identity.file_name or path.name`, and the size
unfoldable pub name_or : Text → Option Text → Text
name_or name none = name
name_or name (some t) = if is_empty t then name else t

unfoldable pub size_or : ℕ → Option ℕ → ℕ
size_or size none = size
size_or size (some n) = n

unfoldable pub identity_of : Option IdentificationSelection → Option RequestedIdentity
identity_of none = none
identity_of (some s) = s.identity

-- What is known before the file is hashed: the detection and the inspection, if they were made.
abbrev pub Early {ℓ} : Type ℓ → Type ℓ
Early Evidence = Option (List (PlatformCandidate Evidence)) × Option StructuralInspectionResult

module _ {ℓ} {Evidence : Type ℓ} where
  unfoldable pub platform_of : Option (PlatformCandidate Evidence) → Option Text
  platform_of none = none
  platform_of (some c) = some c.platform

  -- _local_platforms
  unfoldable pub local_platforms :
      List (PlatformCandidate Evidence) → Option LocalContentMetadata → List Text
  unfolding listed platform_of metadata_platform
  local_platforms detection metadata =
      listed (platform_of (best detection)) ++ listed (metadata_platform metadata)

  -- The part of `_should_normalize` behind a match.
  unfoldable pub match_leaves_doubt :
      Option CanonicalReleaseIdentity
      → List (PlatformCandidate Evidence)
      → Option LocalContentMetadata
      → Bool
  unfolding local_platforms
  match_leaves_doubt none detection metadata = true
  match_leaves_doubt (some m) detection metadata =
      if not (has_authoritative_content_match m)
      then true
      else any (λ p. not (p =t= m.platform)) (local_platforms detection metadata)

  -- _should_normalize, where a normalizer is given
  unfoldable pub should_normalize :
      Bool
      → Option CanonicalReleaseIdentity
      → ProviderLookupStatus
      → List (PlatformCandidate Evidence)
      → Option LocalContentMetadata
      → Bool
  unfolding is_unavailable match_leaves_doubt
  should_normalize force physical_match physical_lookup detection metadata =
      if force
      then true
      else if is_unavailable physical_lookup
      then false
      else match_leaves_doubt physical_match detection metadata
