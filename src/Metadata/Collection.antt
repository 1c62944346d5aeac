-- ===== src/Metadata/Collection.antt =====
-- metadata_collection.py: one pass over the providers, and its report. A provider is its name and its
-- answers; an exception of its own passes on.
use rom_metadata_framework.Prelude.{
  Bool, true, false, not, ◌&&◌, any, keep, map, Option, none, some, List, [], ◌∷◌, Text, ◌=t=◌,
  strip, is_empty, elem_text,
}
use rom_metadata_framework.Prelude.{Result, ok, ◌>>=◌, ◌>>◌, raise_if}
use rom_metadata_framework.Evidence.{CanonicalReleaseIdentity}
use rom_metadata_framework.LocalMetadata.{LocalContentMetadata, no_items}
use rom_metadata_framework.Routing.Normalizers.{has_repeats}
use rom_metadata_framework.Identification.Types.{IdentificationResult}
use rom_metadata_framework.Identification.Results.{canonical_match}
use rom_metadata_framework.Metadata.Records.{MetadataProviderResult}
use rom_metadata_framework.Metadata.Comparison.{
  FieldReconciliation, is_subset, has_divergence, reconcile_metadata,
}

-- The `ValueError`s, the `MetadataProviderContractError`, and what a provider raises.
pub data Error : Type 0 where
  attempted_empty unmatched_empty attempted_repeated unmatched_repeated unmatched_not_attempted :
      Error
  results_repeated results_not_attempted not_a_partition : Error
  provider_name_empty provider_names_repeated provider_contract provider_failure : Error

pub record MetadataProvider : Type 0 where
  pub name : Text
  pub lookup_metadata : CanonicalReleaseIdentity → Result Error (Option MetadataProviderResult)

pub record MetadataCollectionReport : Type 0 where
  pub attempted : List Text
  pub unmatched : List Text
  pub results : List MetadataProviderResult

-- MetadataCollectionReport.matched
unfoldable pub matched : MetadataCollectionReport → List Text
matched report = map (λ r. r.provider) report.results

unfoldable pub same_names : List Text → List Text → Bool
unfolding ◌=t=◌
same_names [] [] = true
same_names (a ∷ as') (b ∷ bs) = (a =t= b) && same_names as' bs
same_names _ _ = false

module _ (lower : Text → Text) where
  abbrev normal : Text → Text
  normal name = lower (strip name)

  -- MetadataCollectionReport.__post_init__
  unfoldable pub metadata_collection_report :
      MetadataCollectionReport → Result Error MetadataCollectionReport
  unfolding has_repeats is_subset matched same_names
  metadata_collection_report raw = do
    let attempted = map normal raw.attempted
    let unmatched = map normal raw.unmatched
    raise_if (any is_empty attempted) attempted_empty
    raise_if (any is_empty unmatched) unmatched_empty
    raise_if (has_repeats attempted) attempted_repeated
    raise_if (has_repeats unmatched) unmatched_repeated
    raise_if (not (is_subset unmatched attempted)) unmatched_not_attempted
    raise_if (has_repeats (matched raw)) results_repeated
    raise_if (not (is_subset (matched raw) attempted)) results_not_attempted
    raise_if
        (not (same_names (matched raw) (keep (λ name. not (elem_text name unmatched)) attempted)))
        not_a_partition
    ok (record raw { attempted = attempted; unmatched = unmatched })

  -- MetadataProviderCollection.__post_init__
  unfoldable pub metadata_provider_collection :
      List MetadataProvider → Result Error (List MetadataProvider)
  unfolding has_repeats
  metadata_provider_collection providers = do
    let names = map (λ p. normal p.name) providers
    raise_if (any is_empty names) provider_name_empty
    raise_if (has_repeats names) provider_names_repeated
    ok providers

  -- The lists with what one provider adds at their front.
  unfoldable pub add_answer :
      Text → Option MetadataProviderResult → MetadataCollectionReport → MetadataCollectionReport
  add_answer name none rest = record rest {
    attempted = name ∷ rest.attempted;
    unmatched = name ∷ rest.unmatched;
  }
  add_answer name (some r) rest = record rest {
    attempted = name ∷ rest.attempted;
    results = r ∷ rest.results;
  }

  unfoldable pub check_source : Text → Option MetadataProviderResult → Result Error (Unit {0})
  check_source name none = ok tt
  check_source name (some r) = raise_if (not (r.provider =t= name)) provider_contract

  -- The loop of `collect`.
  unfoldable pub collect_from :
      CanonicalReleaseIdentity → List MetadataProvider → Result Error MetadataCollectionReport
  unfolding add_answer check_source
  collect_from identity [] = ok (record { attempted = []; unmatched = []; results = [] })
  collect_from identity (p ∷ ps) = do
    answer ← p.lookup_metadata identity
    check_source (normal p.name) answer
    rest ← collect_from identity ps
    ok (add_answer (normal p.name) answer rest)

  -- MetadataProviderCollection.collect
  unfoldable pub collect :
      List MetadataProvider → CanonicalReleaseIdentity → Result Error MetadataCollectionReport
  unfolding collect_from metadata_collection_report
  collect providers identity = collect_from identity providers >>= metadata_collection_report

  unfoldable pub collect_for :
      List MetadataProvider
      → Option CanonicalReleaseIdentity
      → Result Error (Option MetadataCollectionReport)
  unfolding collect
  collect_for providers none = ok none
  collect_for providers (some c) = collect providers c >>= λ report. ok (some report)

  module _ {ℓ} {Evidence : Type ℓ} where
    -- collect_identification_metadata: the report of its result, which keeps the identification too
    unfoldable pub collect_identification_metadata :
        IdentificationResult Evidence
        → List MetadataProvider
        → Result Error (Option MetadataCollectionReport)
    unfolding collect_for canonical_match
    collect_identification_metadata identification providers =
        collect_for providers (canonical_match identification)

-- MetadataEnrichmentResult: provider_results, has_provider_metadata and metadata_reconciliation
unfoldable pub provider_results : Option MetadataCollectionReport → List MetadataProviderResult
provider_results none = []
provider_results (some report) = report.results

unfoldable pub has_provider_metadata : Option MetadataCollectionReport → Bool
unfolding provider_results
has_provider_metadata report = not (no_items (provider_results report))

unfoldable pub metadata_reconciliation :
    (Text → Text)
    → Option LocalContentMetadata
    → Option MetadataCollectionReport
    → List FieldReconciliation
unfolding reconcile_metadata provider_results
metadata_reconciliation casefold local report =
    reconcile_metadata casefold local (provider_results report)

unfoldable pub has_metadata_divergence :
    (Text → Text) → Option LocalContentMetadata → Option MetadataCollectionReport → Bool
unfolding has_divergence metadata_reconciliation
has_metadata_divergence casefold local report =
    has_divergence (metadata_reconciliation casefold local report)
