-- ===== src/Identification/Results.antt =====
-- identification.py: the properties of `IdentificationResult`, `IdentificationVerification` and
-- `verify_identification`.
use rom_metadata_framework.Prelude.{
  Bool, true, false, not, ◌&&◌, ◌||◌, if◌then◌else◌, Option, none, some, List, [], ◌∷◌, Text,
  is_empty,
}
use rom_metadata_framework.Evidence.{CanonicalReleaseIdentity}
use rom_metadata_framework.Detection.Candidates.{best}
use rom_metadata_framework.LocalMetadata.{
  LocalContentMetadata, LocalMetadataValue, no_items, is_empty_metadata,
}
use rom_metadata_framework.Reconciliation.Platform as Platform
use rom_metadata_framework.Reconciliation.Platform.{PlatformReconciliation}
use rom_metadata_framework.Reconciliation.Release.{
  ReleaseReconciliation, has_conflict, reconcile_release_matches,
}
use rom_metadata_framework.Verification.Policy.{
  known_good, known_bad, conflict, VerificationPolicy, VerificationReport, verify_release,
}
use rom_metadata_framework.Identification.Types.{IdentificationResult}
use rom_metadata_framework.Identification.Rules.{is_some, is_unavailable}

pub data IdentificationStrength : Type 0 where
  catalogue local_strong local_probable unresolved : IdentificationStrength

pub data IdentificationTitleSource : Type 0 where
  catalogue embedded unavailable : IdentificationTitleSource

-- canonical.title or canonical.release_name
unfoldable pub title_or_name : Option Text → Text → Text
title_or_name none name = name
title_or_name (some t) name = if is_empty t then name else t

unfoldable pub first_title : List (LocalMetadataValue Text) → Option Text
first_title [] = none
first_title (v ∷ vs) = some v.value

unfoldable pub embedded_title : Option LocalContentMetadata → Option Text
unfolding first_title
embedded_title none = none
embedded_title (some m) = first_title m.titles

unfoldable pub best_title :
    Option CanonicalReleaseIdentity → Option LocalContentMetadata → Option Text
unfolding title_or_name embedded_title
best_title none metadata = embedded_title metadata
best_title (some c) metadata = some (title_or_name c.title c.release_name)

unfoldable pub has_identifiers : Option LocalContentMetadata → Bool
has_identifiers none = false
has_identifiers (some m) = not (no_items m.identifiers)

unfoldable pub has_local_evidence : Option LocalContentMetadata → Bool
has_local_evidence none = false
has_local_evidence (some m) = not (is_empty_metadata m)

unfoldable pub reconciled :
    Option ReleaseReconciliation
    → Option CanonicalReleaseIdentity
    → Option CanonicalReleaseIdentity
    → ReleaseReconciliation
reconciled none physical normalized = reconcile_release_matches physical normalized
reconciled (some r) physical normalized = r

unfoldable pub conflicting : Option ReleaseReconciliation → Bool
conflicting none = false
conflicting (some r) = has_conflict r

unfoldable pub platform_conflicting : Option PlatformReconciliation → Bool
platform_conflicting none = false
platform_conflicting (some r) = elim r.status [ Platform.conflict ↦ true | _ ↦ false ]

module _ {ℓ} {Evidence : Type ℓ} where
  unfoldable pub canonical_match : IdentificationResult Evidence → Option CanonicalReleaseIdentity
  unfolding reconciled
  canonical_match r =
      (reconciled r.release_reconciliation r.physical_match r.normalized_match).selected

  unfoldable pub matched_via_normalization : IdentificationResult Evidence → Bool
  matched_via_normalization r = not (is_some r.physical_match) && is_some r.normalized_match

  unfoldable pub identified : IdentificationResult Evidence → Bool
  unfolding canonical_match
  identified r = is_some (canonical_match r)

  unfoldable pub has_release_conflict : IdentificationResult Evidence → Bool
  unfolding conflicting
  has_release_conflict r = conflicting r.release_reconciliation

  unfoldable pub has_platform_conflict : IdentificationResult Evidence → Bool
  unfolding platform_conflicting
  has_platform_conflict r = platform_conflicting r.platform_reconciliation

  unfoldable pub provider_unavailable : IdentificationResult Evidence → Bool
  provider_unavailable r = is_unavailable r.physical_lookup || is_unavailable r.normalized_lookup

  unfoldable pub identification_strength : IdentificationResult Evidence → IdentificationStrength
  unfolding canonical_match has_identifiers has_local_evidence
  identification_strength r =
      if is_some (canonical_match r)
      then IdentificationStrength.catalogue
      else if has_identifiers r.local_metadata && is_some (best r.platform_detection)
      then local_strong
      else if is_some (best r.platform_detection) || has_local_evidence r.local_metadata
      then local_probable
      else unresolved

  unfoldable pub title_source : IdentificationResult Evidence → IdentificationTitleSource
  unfolding canonical_match embedded_title
  title_source r =
      if is_some (canonical_match r)
      then IdentificationTitleSource.catalogue
      else if is_some (embedded_title r.local_metadata)
      then embedded
      else unavailable

  unfoldable pub display_title : IdentificationResult Evidence → Option Text
  unfolding canonical_match best_title
  display_title r = best_title (canonical_match r) r.local_metadata

pub record IdentificationVerification : Type 0 where
  pub physical : Option VerificationReport
  pub normalized : Option VerificationReport
  pub release_reconciliation : Option ReleaseReconciliation

unfoldable pub is_known_good : Option VerificationReport → Bool
is_known_good none = false
is_known_good (some r) = elim r.status [ known_good ↦ true | _ ↦ false ]

unfoldable pub is_known_bad : Option VerificationReport → Bool
is_known_bad none = false
is_known_bad (some r) = elim r.status [ known_bad ↦ true | _ ↦ false ]

unfoldable pub is_conflict : Option VerificationReport → Bool
is_conflict none = false
is_conflict (some r) = elim r.status [ conflict ↦ true | _ ↦ false ]

unfoldable pub content_known_good : IdentificationVerification → Bool
unfolding is_known_good
content_known_good v = is_known_good v.physical || is_known_good v.normalized

unfoldable pub representation_known_good : IdentificationVerification → Bool
unfolding is_known_good
representation_known_good v = is_known_good v.physical

unfoldable pub has_known_bad : IdentificationVerification → Bool
unfolding is_known_bad
has_known_bad v = is_known_bad v.physical || is_known_bad v.normalized

unfoldable pub has_conflicts : IdentificationVerification → Bool
unfolding is_conflict conflicting
has_conflicts v =
    (is_conflict v.physical || is_conflict v.normalized) || conflicting v.release_reconciliation

unfoldable pub safe_for_canonical_naming : IdentificationVerification → Bool
unfolding content_known_good has_known_bad has_conflicts
safe_for_canonical_naming v = content_known_good v && not (has_known_bad v) && not (has_conflicts v)

module _ (lower : Text → Text) (policy : VerificationPolicy) where
  unfoldable pub report_of : Option CanonicalReleaseIdentity → Option VerificationReport
  report_of none = none
  report_of (some m) = some (verify_release lower policy m)

  unfoldable pub verify_identification {ℓ} :
      {Evidence : Type ℓ} → IdentificationResult Evidence → IdentificationVerification
  unfolding report_of
  verify_identification r = record {
    physical = report_of r.physical_match;
    normalized = report_of r.normalized_match;
    release_reconciliation = r.release_reconciliation;
  }
