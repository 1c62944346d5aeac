-- ===== src/Metadata/Records.antt =====
-- metadata.py and metadata_provider.py: the records of providers. Provenance, and the fields of a
-- release that are compared with nothing, are left out.
use rom_metadata_framework.Prelude.{
  ℕ, ltb, if◌then◌else◌, Option, none, some, List, Text, strip, is_empty,
}
use rom_metadata_framework.Prelude.{Result, ok, ◌>>◌, raise_if}
use rom_metadata_framework.Evidence.{present}

-- The `ValueError`s.
pub data Error : Type 0 where
  namespace_empty value_empty minimum_below_one maximum_below_minimum provider_empty
        provider_id_empty :
      Error

pub record ExternalIdentifier : Type 0 where
  pub namespace : Text
  pub value : Text

pub record PlayerCount : Type 0 where
  pub minimum : ℕ
  pub maximum : ℕ
  pub context : Option Text

pub record ReleaseMetadata : Type 0 where
  pub titles : List Text
  pub developers : List Text
  pub publishers : List Text
  pub regions : List Text
  pub languages : List Text
  pub player_counts : List PlayerCount
  pub multiplayer_features : List Text
  pub external_ids : List ExternalIdentifier

pub record MetadataProviderResult : Type 0 where
  pub provider : Text
  pub provider_id : Text
  pub metadata : ReleaseMetadata
  pub match_method : Option Text

-- PlayerCount.__post_init__
unfoldable pub player_count : PlayerCount → Result Error PlayerCount
unfolding present
player_count raw = do
  raise_if (ltb raw.minimum 1) minimum_below_one
  raise_if (ltb raw.maximum raw.minimum) maximum_below_minimum
  ok (record raw { context = present raw.context })

module _ (lower : Text → Text) where
  -- ExternalIdentifier.__post_init__
  unfoldable pub external_identifier : ExternalIdentifier → Result Error ExternalIdentifier
  unfolding strip
  external_identifier raw = do
    raise_if (is_empty (lower (strip raw.namespace))) namespace_empty
    raise_if (is_empty (strip raw.value)) value_empty
    ok (record { namespace = lower (strip raw.namespace); value = strip raw.value })

  unfoldable pub lowered_present : Option Text → Option Text
  lowered_present none = none
  lowered_present (some t) = let u = lower (strip t) in if is_empty u then none else some u

  -- MetadataProviderResult.__post_init__
  unfoldable pub metadata_provider_result :
      MetadataProviderResult → Result Error MetadataProviderResult
  unfolding lowered_present
  metadata_provider_result raw = do
    raise_if (is_empty (lower (strip raw.provider))) provider_empty
    raise_if (is_empty (strip raw.provider_id)) provider_id_empty
    ok (record {
      provider = lower (strip raw.provider);
      provider_id = strip raw.provider_id;
      metadata = raw.metadata;
      match_method = lowered_present raw.match_method;
    })
