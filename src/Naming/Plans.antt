-- ===== src/Naming/Plans.antt =====
-- naming.py: `NamingPolicy` and `RenamePlan`. The fixed reason of each plan is left out.
use rom_metadata_framework.Prelude.{
  Bool, true, false, ℕ, ℤ, pos, ◌&&◌, if◌then◌else◌, Option, none, some, List, [], ◌∷◌, ◌++◌, Text,
  codes, strip, strip_left, is_empty, elem_text,
}
use rom_metadata_framework.Prelude.{Result, ok, err, ◌>>=◌, ◌>>◌, raise_if}
use rom_metadata_framework.Evidence.{CanonicalReleaseIdentity}
use rom_metadata_framework.LocalMetadata.{no_items}
use rom_metadata_framework.Verification.Policy.{VerificationReport}
use rom_metadata_framework.Identification.Types.{IdentificationResult}
use rom_metadata_framework.Identification.Results.{
  IdentificationVerification, canonical_match, content_known_good, representation_known_good,
  safe_for_canonical_naming,
}
use rom_metadata_framework.Naming.Components.{
  Error, identity_required, source_name_empty, operation_unknown, is_dot,
  sanitize_filename_component, path_name, suffix, decimal_int, join_spaces,
}
use rom_metadata_framework.Naming.Inputs.{NamingInput, naming_input_from, exceeds}

pub record NamingPolicy : Type 0 where
  pub preserve_extension : Bool

pub record RenamePlan : Type 0 where
  pub source_name : Text
  pub destination_name : Text
  pub safe_to_apply : Bool
  pub operation : Text
  pub conflicts : List Text
  pub content_known_good : Bool
  pub representation_known_good : Bool

-- RenamePlan.__post_init__
unfoldable pub rename_plan : RenamePlan → Result Error RenamePlan
rename_plan plan =
    if elem_text plan.operation (codes "copy" ∷ codes "replace" ∷ codes "rename" ∷ [])
    then ok plan
    else err operation_unknown

-- f"{base}.{extension}" for an extension that is there and wanted
unfoldable pub with_extension : Bool → Text → Option Text → Text
unfolding is_dot
with_extension preserve base none = base
with_extension false base (some extension) = base
with_extension true base (some extension) =
    let e = strip_left is_dot (strip extension) in if is_empty e then base else base ++ (b'.' ∷ e)

-- The parts of a structured name, each of which may be left out.
unfoldable pub bracketed : ℕ → ℕ → Option Text → Result Error (List Text)
bracketed left right none = ok []
bracketed left right (some value) =
    sanitize_filename_component value >>= λ s. ok ((left ∷ (s ++ (right ∷ []))) ∷ [])

unfoldable pub disc_part : Option ℤ → Option ℤ → List Text
unfolding decimal_int exceeds
disc_part (some n) (some t) =
    if exceeds t (pos 1)
    then (codes "(Disc " ++ (decimal_int n ++ (codes " of " ++ (decimal_int t ++ codes ")")))) ∷ []
    else []
disc_part _ _ = []

unfoldable pub revision_part : Option Text → Result Error (List Text)
revision_part none = ok []
revision_part (some value) =
    sanitize_filename_component value >>= λ s. ok ((codes "(Rev " ++ (s ++ codes ")")) ∷ [])

unfoldable pub structured_parts : NamingInput → Result Error (List Text)
unfolding bracketed disc_part revision_part
structured_parts naming = do
  region ← bracketed b'(' b')' naming.region
  qualifier ← bracketed b'(' b')' naming.media_qualifier
  revision ← revision_part naming.revision
  ok (region ++ (disc_part naming.disc_number naming.disc_total ++ (qualifier ++ revision)))

unfoldable pub extra_parts : NamingInput → Result Error (List Text)
unfolding structured_parts
extra_parts naming = if naming.title_is_structured then structured_parts naming else ok []

unfoldable pub extension_of : Text → Option Text
unfolding is_dot
extension_of source =
    let e = strip_left is_dot (suffix source) in if is_empty e then none else some e

-- dict.fromkeys: each once, in the order of the first time
unfoldable pub from_keys : List Text → List Text → List Text
from_keys seen [] = []
from_keys seen (k ∷ ks) = elim (elem_text k seen) [
  | true ↦ from_keys seen ks
  | false ↦ k ∷ from_keys (k ∷ seen) ks
]

unfoldable pub report_conflicts : Option VerificationReport → List Text
report_conflicts none = []
report_conflicts (some r) = r.conflicts

unfoldable pub all_conflicts : List Text → Option IdentificationVerification → List Text
unfolding from_keys report_conflicts
all_conflicts own none = from_keys [] (own ++ [])
all_conflicts own (some v) =
    from_keys [] (own ++ (report_conflicts v.physical ++ report_conflicts v.normalized))

unfoldable pub holds_of :
    (IdentificationVerification → Bool) → Option IdentificationVerification → Bool
holds_of p none = false
holds_of p (some v) = p v

module _ (policy : NamingPolicy) where
  unfoldable pub canonical_filename : CanonicalReleaseIdentity → Option Text → Result Error Text
  unfolding with_extension
  canonical_filename identity extension =
      sanitize_filename_component identity.release_name >>= λ base.
      ok (with_extension policy.preserve_extension base extension)

  unfoldable pub structured_filename : NamingInput → Option Text → Result Error Text
  unfolding bracketed extra_parts with_extension join_spaces
  structured_filename naming extension = do
    title ← sanitize_filename_component naming.title
    identifier ← bracketed b'[' b']' naming.primary_identifier
    extra ← extra_parts naming
    ok (
        with_extension policy.preserve_extension (join_spaces (title ∷ (identifier ++ extra)))
          extension)

  -- What both kinds of plan do with the name that they chose.
  unfoldable pub plan_for :
      Text → Text → List Text → Option IdentificationVerification → Text → Result Error RenamePlan
  unfolding rename_plan all_conflicts holds_of
  plan_for source destination own verification operation = rename_plan (record {
    source_name = source;
    destination_name = destination;
    safe_to_apply =
        holds_of safe_for_canonical_naming verification
        && no_items (all_conflicts own verification);
    operation = operation;
    conflicts = all_conflicts own verification;
    content_known_good = holds_of content_known_good verification;
    representation_known_good = holds_of representation_known_good verification;
  })

  unfoldable pub plan_rename :
      Text
      → CanonicalReleaseIdentity
      → Option IdentificationVerification
      → Text
      → Result Error RenamePlan
  unfolding canonical_filename plan_for extension_of path_name
  plan_rename source_name identity verification operation = do
    let source = path_name source_name
    raise_if (is_empty source) source_name_empty
    destination ← canonical_filename identity (extension_of source)
    plan_for source destination identity.conflicts verification operation

  module _ {ℓ} {Evidence : Type ℓ} (lower : Text → Text) where
    unfoldable pub plan_match :
        Text
        → Option CanonicalReleaseIdentity
        → IdentificationResult Evidence
        → Option IdentificationVerification
        → Text
        → Result Error RenamePlan
    unfolding structured_filename plan_for extension_of
    plan_match source none result verification operation = err identity_required
    plan_match source (some c) result verification operation =
        naming_input_from lower c result.local_metadata >>= λ naming.
        structured_filename naming (extension_of source) >>= λ destination.
        plan_for source destination c.conflicts verification operation

    unfoldable pub plan_identification_rename :
        Text
        → IdentificationResult Evidence
        → Option IdentificationVerification
        → Text
        → Result Error RenamePlan
    unfolding plan_match path_name
    plan_identification_rename source_name result verification operation = do
      let source = path_name source_name
      raise_if (is_empty source) source_name_empty
      plan_match source (canonical_match result) result verification operation
