-- ===== src/Identification/Engine.antt =====
-- identification.py: `identify_file`, from the hashing on, and as a whole.
use rom_metadata_framework.Prelude.{Bool, true, false, Option, none, some, List, Text}
use rom_metadata_framework.Prelude.{Result}
use rom_metadata_framework.Evidence.{CanonicalReleaseIdentity}
use rom_metadata_framework.Detection.Candidates.{PlatformCandidate, best}
use rom_metadata_framework.LocalMetadata.{same_metadata}
use rom_metadata_framework.Platforms.Index.{PlatformIndex}
use rom_metadata_framework.Selection.{IdentificationSelection}
use rom_metadata_framework.Reconciliation.Platform.{reconcile_platform}
use rom_metadata_framework.Reconciliation.Release.{reconcile_release_matches}
use rom_metadata_framework.Identification.Types.{
  Error, RomIdentity, same_representation, lookup_identity, StructuralInspectionResult,
  NormalizationResult, ProviderLookupStatus, IdentificationResult,
}
use rom_metadata_framework.Identification.Collaborators.{
  Collaborators, detects, inspects, hashes, normalizes, looks_up_physical, looks_up_normalized, M,
  ◌>>=◌, ◌>>◌, pure, lift, call, emit_progress,
}
use rom_metadata_framework.Identification.Rules.{
  merge_structural_evidence, outcome, if_supported, provider_platform, platform_of,
  should_normalize, Normalized, without_content, name_or, size_or, identity_of, Early,
}
use rom_metadata_framework.Identification.Checks.{begin_selected, assess_requested_identity}

module _ (lower casefold : Text → Text) (index : PlatformIndex) where
  module _ {ℓ} {Evidence : Type ℓ} (c : Collaborators Evidence) where
    unfoldable pub detection_of :
        Option (List (PlatformCandidate Evidence)) → M (List (PlatformCandidate Evidence))
    detection_of (some detection) = pure detection
    detection_of none = do emit_progress "Detecting platform"; call detects c.detect

    unfoldable pub inspection_of :
        Option (Result Error (Option StructuralInspectionResult))
        → Option StructuralInspectionResult
        → M (Option StructuralInspectionResult)
    inspection_of none found = pure none
    inspection_of (some inspect) (some found) = pure (some found)
    inspection_of (some inspect) none = do
      emit_progress "Inspecting structure"
      call inspects inspect

    unfoldable pub look_up_content :
        RomIdentity → Normalized → Option NormalizationResult → M Normalized
    unfolding name_or size_or
    look_up_content physical found none = pure found
    look_up_content physical found (some n) = do
      representation ← lift (
          merge_structural_evidence same_representation found.representation
            n.physical_representation)
      metadata ← lift (merge_structural_evidence same_metadata found.metadata n.local_metadata)
      wanted ← lift (
          lookup_identity (name_or c.path_name physical.file_name)
            (size_or c.st_size physical.file_size) n.content.hashes)
      emit_progress "Looking up normalized content"
      answer ← call (looks_up_normalized wanted) (outcome (c.identify_lookup wanted))
      pure (record {
        content = some n.content;
        representation = representation;
        metadata = metadata;
        match = answer.0;
        lookup = answer.1;
      })

    unfoldable pub normalize :
        Bool → RomIdentity → Normalized → Option (Result Error NormalizationResult) → M Normalized
    unfolding look_up_content
    normalize wanted physical found none = pure found
    normalize false physical found (some n) = pure found
    normalize true physical found (some n) = do
      emit_progress "Normalizing content"
      result ← call normalizes (if_supported n)
      look_up_content physical found result

    -- From "Reconciling evidence" on.
    unfoldable pub conclude :
        Option IdentificationSelection
        → RomIdentity
        → List (PlatformCandidate Evidence)
        → Option CanonicalReleaseIdentity × ProviderLookupStatus
        → Normalized
        → M (IdentificationResult Evidence)
    unfolding identity_of
    conclude selection physical detection looked n = do
      emit_progress "Reconciling evidence"
      let release = reconcile_release_matches looked.0 n.match
      requested ← lift (
          assess_requested_identity lower casefold index (identity_of selection)
            (platform_of (best detection)) n.metadata)
      pure (record {
        physical_identity = physical;
        platform_detection = detection;
        physical_match = looked.0;
        normalized_content = n.content;
        physical_representation = n.representation;
        local_metadata = n.metadata;
        normalized_match = n.match;
        release_reconciliation = some release;
        platform_reconciliation =
            some
              (reconcile_platform detection (provider_platform looked.0 n.match release.selected));
        physical_lookup = looked.1;
        normalized_lookup = n.lookup;
        requested_identity = requested;
      })

    -- From the hashing on.
    unfoldable pub identify_hashed :
        Bool → Option IdentificationSelection → Early Evidence → M (IdentificationResult Evidence)
    unfolding detection_of inspection_of normalize conclude without_content
    identify_hashed force selection early = do
      emit_progress "Hashing physical file"
      physical ← call hashes c.hash
      detection ← detection_of early.0
      emit_progress "Looking up physical file"
      looked ← call (looks_up_physical physical) (outcome (c.identify physical))
      found ← inspection_of c.inspector early.1
      let structure = without_content found
      n ←
          normalize (should_normalize force looked.0 looked.1 detection structure.metadata) physical
            structure c.normalizer
      conclude selection physical detection looked n

    unfoldable pub identify_file :
        Bool → Option IdentificationSelection → M (IdentificationResult Evidence)
    unfolding begin_selected identify_hashed
    identify_file force selection = do
      early ← begin_selected lower casefold index c selection
      identify_hashed force selection early
