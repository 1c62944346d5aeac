-- ===== src/Identification/Tests.antt =====
-- An identification that is restricted to an identity, and the theorems at it.
use rom_metadata_framework.Prelude.{false, ◌≡◌, ◌⊎◌, some, All, codes}
use rom_metadata_framework.Prelude.{err}
use rom_metadata_framework.Evidence.{CanonicalReleaseIdentity}
use rom_metadata_framework.Identification.Types.{Error}
use rom_metadata_framework.Identification.Engine.{identify_file}
use rom_metadata_framework.Identification.Restriction.{
  IsBounded, IsEstablished, identify_file-restricted,
}
use rom_metadata_framework.Identification.Matches.{IsAnswer, identify_file-canonical_match}
use rom_metadata_framework.Identification.Samples.{
  same, index, release, disc, requested, selection, result, run-result, result-canonical,
}

identify_file-canonical_match_example :
    IsAnswer disc result release
    × ((p n : CanonicalReleaseIdentity)
        → result.physical_match ≡ some p
        → result.normalized_match ≡ some n
        → (p.platform ≡ n.platform) × (p.release_name ≡ n.release_name))
identify_file-canonical_match_example =
    identify_file-canonical_match disc same same index false (some selection) run-result
      result-canonical

identify_file-restricted_example :
    ((e : Error) × ((identify_file same same index disc false (some selection)).1 ≡ err e)
      × All IsBounded (identify_file same same index disc false (some selection)).0)
    ⊎ IsEstablished same same index disc (codes "ps2") requested
identify_file-restricted_example =
    identify_file-restricted same same index disc false (codes "ps2") requested
