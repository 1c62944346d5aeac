-- ===== src/Verification/Tests.antt =====
-- A release with a Redump record and one with a bad dump, and the theorems at them.
use rom_metadata_framework.Prelude.{
  true, ◌≡◌, ◌↔◌, refl, none, some, List, [], ◌∷◌, All, Exists, Permᴰ, Text, codes, elem_text,
  ◌=t=◌, strip,
}
use rom_metadata_framework.Evidence.{
  CatalogueEvidence, CanonicalReleaseIdentity, is_content_match, is_strong_content_match,
}
use rom_metadata_framework.Verification.Policy.{
  known_good, known_bad, catalogue_match, default_verification_policy, is_bad, is_good,
  verify_release,
}
use rom_metadata_framework.Verification.Verdicts.{
  IsBad, IsGood, verify_release-known_good, verify_release-perm,
}

abbrev same : Text → Text
same s = s

abbrev redump : CatalogueEvidence
redump = record {
  source = codes "playmatch";
  match_method = codes "SHA1";
  authority = some (codes "redump");
  catalogue_name = some (codes "PS2");
  catalogue_version = none;
  import_version = none;
  file_status = none;
  current_in_latest_catalogue = some true;
  matched_file_name = none;
}

abbrev by_crc : CatalogueEvidence
by_crc = record redump { match_method = codes "CRC" }

abbrev bad_dump : CatalogueEvidence
bad_dump = record by_crc { file_status = some (codes "bad dump") }

abbrev release : List CatalogueEvidence → CanonicalReleaseIdentity
release records = record {
  release_name = codes "Game";
  platform = codes "ps2";
  source = codes "playmatch";
  source_id = codes "1";
  title = none;
  evidence = [];
  catalogue_evidence = records;
  conflicts = [];
}

statuses :
    ((verify_release same default_verification_policy (release (by_crc ∷ redump ∷ []))).status
      ≡ known_good)
    × ((verify_release same default_verification_policy (release (redump ∷ bad_dump ∷ []))).status
        ≡ known_bad)
    × ((verify_release same default_verification_policy (release (by_crc ∷ []))).status
        ≡ catalogue_match)
unfolding verify_release is_bad is_content_match elem_text ◌=t=◌ is_good is_strong_content_match
    strip
statuses = (refl, refl, refl)

verify_release-known_good_example :
    ((verify_release same default_verification_policy (release (by_crc ∷ redump ∷ []))).status
      ≡ known_good)
    ↔ (((release (by_crc ∷ redump ∷ [])).conflicts ≡ [])
        × All (λ e. ¬ IsBad e) (by_crc ∷ redump ∷ [])
        × Exists (IsGood same default_verification_policy) (by_crc ∷ redump ∷ []))
verify_release-known_good_example =
    verify_release-known_good same default_verification_policy (release (by_crc ∷ redump ∷ []))

verify_release-perm_example :
    (verify_release same default_verification_policy (release (redump ∷ by_crc ∷ []))).status
    ≡ (verify_release same default_verification_policy (release (by_crc ∷ redump ∷ []))).status
verify_release-perm_example =
    verify_release-perm same default_verification_policy (release (by_crc ∷ redump ∷ []))
      (Permᴰ.swap refl refl)
