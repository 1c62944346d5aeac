-- ===== src/Identification/Samples.antt =====
-- identification.py: a disc image, its metadata and its collaborators, for the tests.
use rom_metadata_framework.Prelude.{
  Bool, true, false, ◌≡◌, refl, Option, none, some, List, [], ◌∷◌, pos, Text, codes, ◌=t=◌,
  elem_text, strip, is_space,
}
use rom_metadata_framework.Prelude.{Result, ok, err}
use rom_metadata_framework.Evidence.{CatalogueEvidence, CanonicalReleaseIdentity}
use rom_metadata_framework.LocalMetadata.{
  LocalMetadataProvenance, LocalMetadataValue, LocalContentMetadata, no_metadata,
}
use rom_metadata_framework.Platforms.Keys.{normalize_key}
use rom_metadata_framework.Platforms.Index.{PlatformIndex, lookup, canonical_platform_name}
use rom_metadata_framework.Selection.{
  RequestedIdentity, IdentificationSelection, get, local_primary_identifier, identifiers_equal,
}
use rom_metadata_framework.Detection.Candidates.{best}
use rom_metadata_framework.Reconciliation.Platform.{reconcile_platform}
use rom_metadata_framework.Reconciliation.Release.{reconcile_release_matches}
use rom_metadata_framework.Identification.Rules.{platform_of, outcome}
use rom_metadata_framework.Identification.Checks.{primary_identifier, assess_requested_identity}
use rom_metadata_framework.Identification.Engine.{identify_file}
use rom_metadata_framework.Identification.Results.{canonical_match}
use rom_metadata_framework.Identification.Types.{Error, RomIdentity, IdentificationResult}
use rom_metadata_framework.Identification.Collaborators.{Collaborators}

abbrev pub same : Text → Text
same s = s

abbrev pub index : PlatformIndex
index =
    (
      codes "ps2",
      record {
        name = codes "ps2";
        display_name = codes "PlayStation 2";
        manufacturer = codes "Sony";
        aliases = [];
      },
    )
    ∷ []

abbrev provenance : LocalMetadataProvenance
provenance = record { source = codes "disc"; method = codes "read"; raw_value = none; details = [] }

abbrev pub value {ℓ} : {A : Type ℓ} → A → List (LocalMetadataValue A)
value a = record { value = a; provenance = provenance } ∷ []

-- The second of two discs, of a later revision.
abbrev pub metadata : LocalContentMetadata
metadata = record no_metadata {
  platform = some (codes "ps2");
  identifiers =
      record {
        namespace = codes "ps2-product-code";
        value = codes "SLES-50001";
        provenance = provenance;
      }
      ∷ [];
  release_revisions = value (codes "1.01");
  disc_numbers = value (pos 2);
  disc_totals = value (pos 2);
  regions = value (codes "Europe");
}

abbrev redump : CatalogueEvidence
redump = record {
  source = codes "playmatch";
  match_method = codes "SHA1";
  authority = some (codes "redump");
  catalogue_name = some (codes "PS2");
  catalogue_version = none;
  import_version = none;
  file_status = none;
  current_in_latest_catalogue = some true;
  matched_file_name = none;
}

abbrev pub release : CanonicalReleaseIdentity
release = record {
  release_name = codes "Game";
  platform = codes "ps2";
  source = codes "playmatch";
  source_id = codes "1";
  title = some (codes "Game: Two/Three");
  evidence = [];
  catalogue_evidence = redump ∷ [];
  conflicts = [];
}

abbrev physical : RomIdentity
physical = record {
  file_name = some (codes "dump.iso");
  file_size = some 4096;
  hashes = record { crc32 = none; md5 = none; sha1 = some (codes "ab"); sha256 = none };
}

abbrev pub disc : Collaborators (Unit {0})
disc = record {
  path_name = codes "dump.iso";
  st_size = 4096;
  hash = ok physical;
  detect = ok (record { platform = codes "ps2"; confidence = 90; evidence = [] } ∷ []);
  identify = λ identity. ok (some release);
  identify_lookup = λ wanted. ok none;
  inspector =
      some (ok (some (record { physical_representation = none; local_metadata = some metadata })));
  normalizer = none;
}

abbrev pub requested : Option RequestedIdentity
requested = some (record { platform = codes "ps2"; identifier = codes " SLES-50001 " })

abbrev pub selection : IdentificationSelection
selection = record { platform = some (codes "ps2"); identity = requested; restrict = true }

-- What a run returned, if it did.
abbrev returns {ℓ κ} : {E : Type ℓ} {A : Type κ} → Result E A → Bool
returns (ok a) = true
returns (err e) = false

abbrev returned {ℓ κ} :
    {E : Type ℓ} {A : Type κ} (r : Result E A) → returns r ≡ true → (a : A) × (r ≡ ok a)
returned (ok a) h = (a, refl)
returned (err e) h = absurd (cc h)

abbrev run : Result Error (IdentificationResult (Unit {0}))
run = (identify_file same same index disc false (some selection)).1

pub run-returns : returns run ≡ true
unfolding identify_file lookup canonical_platform_name normalize_key get local_primary_identifier
    identifiers_equal best reconcile_platform reconcile_release_matches ◌=t=◌ elem_text strip
    is_space platform_of primary_identifier outcome assess_requested_identity
run-returns = refl

-- The result of the run, by evaluation.
unfoldable pub result : IdentificationResult (Unit {0})
result = (returned run run-returns).0

pub run-result : (identify_file same same index disc false (some selection)).1 ≡ ok result
unfolding result
run-result = (returned run run-returns).1

pub result-canonical : canonical_match result ≡ some release
unfolding canonical_match result identify_file lookup canonical_platform_name normalize_key get
    local_primary_identifier identifiers_equal best reconcile_platform reconcile_release_matches
    ◌=t=◌ elem_text strip is_space platform_of primary_identifier outcome assess_requested_identity
result-canonical = refl
