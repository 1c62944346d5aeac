-- ===== src/Metadata/Tests.antt =====
-- Two providers that name a title alike and a developer differently, and the theorems at them.
use rom_metadata_framework.Prelude.{
  ◌≡◌, ◌≢◌, ◌↔◌, refl, none, [], ◌∷◌, Permᴰ, Text, codes, ◌=t=◌, is_space,
}
use rom_metadata_framework.Metadata.Records.{MetadataProviderResult}
use rom_metadata_framework.Metadata.Keys.{text_values, less}
use rom_metadata_framework.Metadata.Comparison.{agreement, divergent, status_of, reconcile_metadata}
use rom_metadata_framework.Metadata.Order.{reconcile_metadata-perm}
use rom_metadata_framework.Metadata.Relations.{AllAmong, NoneAmong, status_of-relations}

abbrev same : Text → Text
same s = s

abbrev stated : Text → Text → MetadataProviderResult
stated provider developer = record {
  provider = provider;
  provider_id = codes "1";
  metadata = record {
    titles = codes " Some  Game" ∷ [];
    developers = developer ∷ [];
    publishers = [];
    regions = [];
    languages = [];
    player_counts = [];
    multiplayer_features = [];
    external_ids = [];
  };
  match_method = none;
}

abbrev one : MetadataProviderResult
one = stated (codes "one") (codes "B team")

abbrev other : MetadataProviderResult
other = stated (codes "other") (codes "A team")

keyed :
    text_values same (codes "b" ∷ codes " a  c" ∷ codes "b" ∷ codes "  " ∷ [])
    ≡ codes "a c" ∷ codes "b" ∷ []
unfolding text_values less ◌=t=◌ is_space
keyed = refl

reconcile_metadata-perm_example :
    reconcile_metadata same none (one ∷ other ∷ [])
    ≡ reconcile_metadata same none (other ∷ one ∷ [])
reconcile_metadata-perm_example = reconcile_metadata-perm same (Permᴰ.swap refl refl) none

status_of-relations_example :
    ((status_of (codes "a" ∷ []) (codes "b" ∷ []) ≡ agreement) ↔ (
      ((codes "a" ∷ []) ≢ [])
      × ((codes "b" ∷ []) ≢ [])
      × AllAmong (codes "a" ∷ []) (codes "b" ∷ [])
      × AllAmong (codes "b" ∷ []) (codes "a" ∷ [])))
    × ((status_of (codes "a" ∷ []) (codes "b" ∷ []) ≡ divergent) ↔ (
        ((codes "a" ∷ []) ≢ [])
        × ((codes "b" ∷ []) ≢ [])
        × NoneAmong (codes "a" ∷ []) (codes "b" ∷ [])))
status_of-relations_example = status_of-relations (codes "a" ∷ []) (codes "b" ∷ [])
