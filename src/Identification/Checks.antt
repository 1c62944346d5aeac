-- ===== src/Identification/Checks.antt =====
-- identification.py: what is asked for against what is there, before any hashing (`restrict`) and in the
-- result. `lower` and `casefold` stand for the methods of `str`, and `index` is the registry's index.
use rom_metadata_framework.Prelude.{not, if◌then◌else◌, Option, none, some, Text, ◌=t=◌}
use rom_metadata_framework.Prelude.{Result, ok, err}
use rom_metadata_framework.Detection.Candidates.{best}
use rom_metadata_framework.LocalMetadata.{LocalContentMetadata}
use rom_metadata_framework.Platforms.Index.{PlatformIndex}
use rom_metadata_framework.Selection.{
  RequestedIdentity, IdentificationSelection, local_primary_identifier, identifiers_equal,
}
use rom_metadata_framework.Identification.Types.{
  Error, requested_platform_unresolved, requested_identity_unresolved, requested_identity_mismatch,
  platform_unknown, assertion_failed, StructuralInspectionResult, RequestedIdentityStatus,
  RequestedIdentityAssessment,
}
use rom_metadata_framework.Identification.Collaborators.{
  Collaborators, detects, inspects, M, ◌>>=◌, ◌>>◌, pure, raise, lift, call, emit_progress,
}
use rom_metadata_framework.Identification.Rules.{platform_of, Early}

unfoldable pub unresolved : Option RequestedIdentity → Error
unresolved none = requested_platform_unresolved
unresolved (some i) = requested_identity_unresolved

-- The detected platform is the requested one.
unfoldable pub require_platform : Text → Option RequestedIdentity → Option Text → M (Unit {0})
unfolding unresolved
require_platform requested identity none = raise (unresolved identity)
require_platform requested identity (some p) =
    if not (p =t= requested) then raise (unresolved identity) else pure tt

module _ (lower casefold : Text → Text) (index : PlatformIndex) where
  -- local_primary_identifier, whose exception is that of an unknown platform
  unfoldable pub primary_identifier :
      Option LocalContentMetadata → Text → Result Error (Option Text)
  primary_identifier metadata platform =
      elim (local_primary_identifier lower index metadata platform) [
        | ok o ↦ ok o
        | err e ↦ err platform_unknown
      ]

  unfoldable pub identifier_if_local :
      Option LocalContentMetadata → Text → Result Error (Option Text)
  identifier_if_local none platform = ok none
  identifier_if_local (some m) platform = primary_identifier (some m) platform

  -- The end of `_assess_requested_identity`.
  unfoldable pub compare_identifier :
      RequestedIdentity → Option Text → Option Text → RequestedIdentityAssessment
  compare_identifier requested observed_platform none = record {
    platform = requested.platform;
    requested_identifier = requested.identifier;
    status = RequestedIdentityStatus.unresolved;
    observed_platform = observed_platform;
    observed_identifier = none;
  }
  compare_identifier requested observed_platform (some observed) = record {
    platform = requested.platform;
    requested_identifier = requested.identifier;
    status =
        if identifiers_equal casefold observed requested.identifier
        then RequestedIdentityStatus.matched
        else RequestedIdentityStatus.mismatch;
    observed_platform = some requested.platform;
    observed_identifier = some observed;
  }

  unfoldable pub assess_against :
      RequestedIdentity
      → Option Text
      → Option LocalContentMetadata
      → Result Error (Option RequestedIdentityAssessment)
  unfolding identifier_if_local compare_identifier
  assess_against requested none metadata = elim (primary_identifier metadata requested.platform) [
    | ok o ↦ ok (some (compare_identifier requested none o))
    | err e ↦ err e
  ]
  assess_against requested (some observed_platform) metadata =
      if not (observed_platform =t= requested.platform)
      then elim (identifier_if_local metadata observed_platform) [
        | ok o ↦ ok (
            some (record {
              platform = requested.platform;
              requested_identifier = requested.identifier;
              status = RequestedIdentityStatus.mismatch;
              observed_platform = some observed_platform;
              observed_identifier = o;
            }))
        | err e ↦ err e
      ]
      else elim (primary_identifier metadata requested.platform) [
        | ok o ↦ ok (some (compare_identifier requested (some observed_platform) o))
        | err e ↦ err e
      ]

  unfoldable pub assess_requested_identity :
      Option RequestedIdentity
      → Option Text
      → Option LocalContentMetadata
      → Result Error (Option RequestedIdentityAssessment)
  unfolding assess_against
  assess_requested_identity none best_platform metadata = ok none
  assess_requested_identity (some requested) best_platform metadata =
      assess_against requested best_platform metadata

  -- The identifier in the structure is the requested one.
  unfoldable pub require_identifier : RequestedIdentity → Option Text → M (Unit {0})
  require_identifier requested none = raise requested_identity_unresolved
  require_identifier requested (some observed) =
      if not (identifiers_equal casefold observed requested.identifier)
      then raise requested_identity_mismatch
      else pure tt

  unfoldable pub inspected_identity :
      Text
      → RequestedIdentity
      → Option StructuralInspectionResult
      → M (Option StructuralInspectionResult)
  unfolding require_identifier
  inspected_identity platform requested none = raise requested_identity_unresolved
  inspected_identity platform requested (some found) = do
    observed ← lift (primary_identifier found.local_metadata platform)
    require_identifier requested observed
    pure (some found)

  unfoldable pub check_identity :
      Text
      → Option RequestedIdentity
      → Option (Result Error (Option StructuralInspectionResult))
      → M (Option StructuralInspectionResult)
  unfolding inspected_identity
  check_identity platform none inspector = pure none
  check_identity platform (some requested) none = raise requested_identity_unresolved
  check_identity platform (some requested) (some inspect) = do
    emit_progress "Checking restricted identity"
    found ← call inspects inspect
    inspected_identity platform requested found

  module _ {ℓ} {Evidence : Type ℓ} (c : Collaborators Evidence) where
    unfoldable pub check_restricted : Option Text → Option RequestedIdentity → M (Early Evidence)
    unfolding require_platform check_identity
    check_restricted none identity = raise assertion_failed
    check_restricted (some platform) identity = do
      emit_progress "Checking restricted platform"
      detection ← call detects c.detect
      require_platform platform identity (platform_of (best detection))
      found ← check_identity platform identity c.inspector
      pure (some detection, found)

    unfoldable pub begin_selected : Option IdentificationSelection → M (Early Evidence)
    unfolding check_restricted
    begin_selected none = pure (none, none)
    begin_selected (some s) =
        if s.restrict then check_restricted s.platform s.identity else pure (none, none)
