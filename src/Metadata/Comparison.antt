-- ===== src/Metadata/Comparison.antt =====
-- metadata_reconciliation.py: local evidence against that of providers, field by field.
use rom_metadata_framework.Prelude.{
  Bool, true, false, not, ◌&&◌, any, keep, map, if◌then◌else◌, Option, none, some, List, [], ◌∷◌,
  ◌++◌, Text, elem_text,
}
use rom_metadata_framework.LocalMetadata.{
  LocalContentMetadata, LocalMetadataValue, LocalIdentifier, LocalPlayerCount, no_items,
}
use rom_metadata_framework.Metadata.Records.{
  ExternalIdentifier, PlayerCount, ReleaseMetadata, MetadataProviderResult,
}
use rom_metadata_framework.Metadata.Keys.{
  sorted_set, identifier_values, text_values, player_count_values,
}

pub data Field : Type 0 where
  titles developers publishers regions languages player_counts multiplayer_features identifiers :
      Field

abbrev pub comparable_metadata_fields : List Field
comparable_metadata_fields =
    titles ∷ developers ∷ publishers ∷ regions ∷ languages ∷ player_counts ∷ multiplayer_features
    ∷ identifiers ∷ []

pub data FieldStatus : Type 0 where
  unresolved local_only provider_only agreement partial_agreement divergent : FieldStatus

pub record FieldReconciliation : Type 0 where
  pub field : Field
  pub status : FieldStatus
  pub local_values : List Text
  pub provider_values : List Text
  pub agreement_values : List Text

-- MetadataFieldReconciliation.has_divergence
unfoldable pub is_divergent : FieldReconciliation → Bool
is_divergent r = elim r.status [ divergent ↦ true | _ ↦ false ]

-- MetadataReconciliationReport.has_divergence
unfoldable pub has_divergence : List FieldReconciliation → Bool
unfolding is_divergent
has_divergence report = any is_divergent report

abbrev values_of : List (LocalMetadataValue Text) → List Text
values_of = map (λ v. v.value)

abbrev external : LocalIdentifier → ExternalIdentifier
external i = record { namespace = i.namespace; value = i.value }

abbrev counted : LocalPlayerCount → PlayerCount
counted c = record { minimum = c.minimum; maximum = c.maximum; context = c.context }

-- every item of one tuple is in the other
unfoldable pub is_subset : List Text → List Text → Bool
unfolding elem_text
is_subset [] bs = true
is_subset (a ∷ as') bs = elem_text a bs && is_subset as' bs

-- local_set & provider_set
unfoldable pub intersection : List Text → List Text → List Text
intersection as' bs = keep (λ a. elem_text a bs) as'

unfoldable pub status_of : List Text → List Text → FieldStatus
unfolding is_subset intersection
status_of [] [] = unresolved
status_of (a ∷ as') [] = local_only
status_of [] (b ∷ bs) = provider_only
status_of (a ∷ as') (b ∷ bs) =
    if is_subset (a ∷ as') (b ∷ bs) && is_subset (b ∷ bs) (a ∷ as')
    then agreement
    else if not (no_items (intersection (a ∷ as') (b ∷ bs)))
    then partial_agreement
    else divergent

-- _reconcile_values
unfoldable pub reconcile_values : Field → List Text → List Text → FieldReconciliation
unfolding status_of sorted_set intersection
reconcile_values field local provider = record {
  field = field;
  status = status_of local provider;
  local_values = local;
  provider_values = provider;
  agreement_values = sorted_set (intersection local provider);
}

-- [value for result in results for value in ...]
unfoldable pub extended {ℓ} :
    {A : Type ℓ} → (ReleaseMetadata → List A) → List MetadataProviderResult → List A
extended values [] = []
extended values (r ∷ rs) = values r.metadata ++ extended values rs

module _ (casefold : Text → Text) where
  unfoldable pub local_values : Option LocalContentMetadata → Field → List Text
  unfolding identifier_values text_values player_count_values
  local_values none field = []
  local_values (some local) titles = text_values casefold (values_of local.titles)
  local_values (some local) developers = text_values casefold (values_of local.developers)
  local_values (some local) publishers = text_values casefold (values_of local.publishers)
  local_values (some local) regions = text_values casefold (values_of local.regions)
  local_values (some local) languages = text_values casefold (values_of local.languages)
  local_values (some local) player_counts =
      player_count_values casefold (map counted local.player_counts)
  local_values (some local) multiplayer_features =
      text_values casefold (values_of local.multiplayer_features)
  local_values (some local) identifiers = identifier_values (map external local.identifiers)

  unfoldable pub provider_values : List MetadataProviderResult → Field → List Text
  unfolding identifier_values text_values player_count_values extended
  provider_values results titles = text_values casefold (extended (λ m. m.titles) results)
  provider_values results developers = text_values casefold (extended (λ m. m.developers) results)
  provider_values results publishers = text_values casefold (extended (λ m. m.publishers) results)
  provider_values results regions = text_values casefold (extended (λ m. m.regions) results)
  provider_values results languages = text_values casefold (extended (λ m. m.languages) results)
  provider_values results player_counts =
      player_count_values casefold (extended (λ m. m.player_counts) results)
  provider_values results multiplayer_features =
      text_values casefold (extended (λ m. m.multiplayer_features) results)
  provider_values results identifiers = identifier_values (extended (λ m. m.external_ids) results)

  -- reconcile_metadata; its fields are those of the constant, which are different
  unfoldable pub reconcile_metadata :
      Option LocalContentMetadata → List MetadataProviderResult → List FieldReconciliation
  unfolding reconcile_values local_values provider_values
  reconcile_metadata local results =
      map
        (λ field. reconcile_values field (local_values local field) (provider_values results field))
        comparable_metadata_fields
