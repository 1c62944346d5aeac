-- ===== src/Evidence.antt =====
-- src/rom_metadata_framework/provenance.py and canonical.py: the evidence of a catalogue, the evidence
-- of an identification and the canonical identity of a release, with what their `__post_init__`
-- normalizes and refuses. `lower` and `upper` stand for the interpreter's case tables, of which nothing
-- is assumed. The mappings `hashes`, `details` and `external_ids`, which no decision reads, are left out.
use rom_metadata_framework.Prelude.{
  Bool, not, ◌&&◌, if◌then◌else◌, Option, none, some, List, [], ◌∷◌, map, keep, any, Text, codes,
  strip, is_empty, elem_text,
}
use rom_metadata_framework.Prelude.{Result, ok, ◌>>◌, raise_if}

-- The `ValueError`s.
pub data Error : Type 0 where
  source_empty method_empty release_name_empty platform_empty source_id_empty : Error

abbrev pub strong_content_match_methods : List Text
strong_content_match_methods = codes "SHA256" ∷ codes "SHA1" ∷ codes "MD5" ∷ []

-- provenance.CONTENT_MATCH_METHODS, and canonical.CONTENT_MATCH_METHODS
abbrev pub content_match_methods : List Text
content_match_methods = codes "SHA256" ∷ codes "SHA1" ∷ codes "MD5" ∷ codes "CRC" ∷ []

pub record CatalogueEvidence : Type 0 where
  pub source : Text
  pub match_method : Text
  pub authority : Option Text
  pub catalogue_name : Option Text
  pub catalogue_version : Option Text
  pub import_version : Option Text
  pub file_status : Option Text
  pub current_in_latest_catalogue : Option Bool
  pub matched_file_name : Option Text

pub record IdentificationEvidence : Type 0 where
  pub source : Text
  pub method : Text
  pub authoritative : Bool
  pub value : Option Text

pub record CanonicalReleaseIdentity : Type 0 where
  pub release_name : Text
  pub platform : Text
  pub source : Text
  pub source_id : Text
  pub title : Option Text
  pub evidence : List IdentificationEvidence
  pub catalogue_evidence : List CatalogueEvidence
  pub conflicts : List Text

-- value.strip() or None, where the value is not None
unfoldable pub present : Option Text → Option Text
present none = none
present (some s) = let t = strip s in if is_empty t then none else some t

unfoldable pub is_content_match : CatalogueEvidence → Bool
is_content_match e = elem_text e.match_method content_match_methods

unfoldable pub is_strong_content_match : CatalogueEvidence → Bool
is_strong_content_match e = elem_text e.match_method strong_content_match_methods

module _ (lower upper : Text → Text) where
  unfoldable pub lowered : Option Text → Option Text
  lowered none = none
  lowered (some s) = some (lower s)

  -- CatalogueEvidence.__post_init__
  unfoldable pub catalogue_evidence : CatalogueEvidence → Result Error CatalogueEvidence
  unfolding present lowered
  catalogue_evidence raw = do
    let source = lower (strip raw.source)
    let method = upper (strip raw.match_method)
    raise_if (is_empty source) source_empty
    raise_if (is_empty method) method_empty
    ok (record {
      source = source;
      match_method = method;
      authority = present raw.authority;
      catalogue_name = present raw.catalogue_name;
      catalogue_version = present raw.catalogue_version;
      import_version = present raw.import_version;
      file_status = lowered (present raw.file_status);
      current_in_latest_catalogue = raw.current_in_latest_catalogue;
      matched_file_name = present raw.matched_file_name;
    })

  -- IdentificationEvidence.__post_init__
  unfoldable pub identification_evidence :
      IdentificationEvidence → Result Error IdentificationEvidence
  unfolding present
  identification_evidence raw = do
    let source = lower (strip raw.source)
    let method = strip raw.method
    raise_if (is_empty source) source_empty
    raise_if (is_empty method) method_empty
    ok (record {
      source = source;
      method = method;
      authoritative = raw.authoritative;
      value = present raw.value;
    })

  -- CanonicalReleaseIdentity.__post_init__
  unfoldable pub canonical_identity :
      CanonicalReleaseIdentity → Result Error CanonicalReleaseIdentity
  unfolding present
  canonical_identity raw = do
    raise_if (is_empty (strip raw.release_name)) release_name_empty
    raise_if (is_empty (strip raw.platform)) platform_empty
    raise_if (is_empty (strip raw.source)) source_empty
    raise_if (is_empty (strip raw.source_id)) source_id_empty
    ok (record {
      release_name = strip raw.release_name;
      platform = strip raw.platform;
      source = lower (strip raw.source);
      source_id = strip raw.source_id;
      title = present raw.title;
      evidence = raw.evidence;
      catalogue_evidence = raw.catalogue_evidence;
      conflicts = map strip (keep (λ c. not (is_empty (strip c))) raw.conflicts);
    })

-- CanonicalReleaseIdentity.has_authoritative_content_match
unfoldable pub has_authoritative_content_match : CanonicalReleaseIdentity → Bool
has_authoritative_content_match identity =
    any
      (λ (e : IdentificationEvidence). e.authoritative && elem_text e.method content_match_methods)
      identity.evidence
