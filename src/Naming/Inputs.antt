-- ===== src/Naming/Inputs.antt =====
-- naming.py: `NamingInput`, and the evidence of an identification that goes into it.
use rom_metadata_framework.Prelude.{
  Bool, true, false, ℤ, pos, negsuc, ltb, not, ◌&&◌, if◌then◌else◌, Option, none, some, List, [],
  ◌∷◌, Text, codes, strip, is_empty, elem_text,
}
use rom_metadata_framework.Prelude.{Result, ok, err, ◌>>◌, raise_if}
use rom_metadata_framework.Evidence.{CanonicalReleaseIdentity, present}
use rom_metadata_framework.LocalMetadata.{LocalContentMetadata, LocalMetadataValue}
use rom_metadata_framework.Selection.{get, identifier_in, equals_platform}
use rom_metadata_framework.Identification.Results.{title_or_name}
use rom_metadata_framework.Naming.Components.{
  Error, title_empty, number_not_positive, numbers_not_together, number_exceeds_total,
}

-- _PRIMARY_IDENTIFIER_NAMESPACES
abbrev pub primary_identifier_namespaces : List (Text × Text)
primary_identifier_namespaces =
    (codes "gc", codes "nintendo-game-id")
    ∷ (codes "wii", codes "nintendo-game-id")
    ∷ (codes "ps2", codes "ps2-product-code")
    ∷ (codes "ps3", codes "ps3-title-id")
    ∷ (codes "xbox", codes "xbox-title-id")
    ∷ (codes "xbox360", codes "xbox360-title-id")
    ∷ (codes "switch", codes "switch-application-id")
    ∷ []

pub record NamingInput : Type 0 where
  pub title : Text
  pub title_is_structured : Bool
  pub platform : Option Text
  pub primary_identifier : Option Text
  pub region : Option Text
  pub revision : Option Text
  pub disc_number : Option ℤ
  pub disc_total : Option ℤ
  pub media_qualifier : Option Text

-- value < 1
unfoldable pub below_one : ℤ → Bool
below_one (pos n) = ltb n 1
below_one (negsuc n) = true

-- a > b
unfoldable pub exceeds : ℤ → ℤ → Bool
exceeds (pos a) (pos b) = ltb b a
exceeds (pos a) (negsuc b) = true
exceeds (negsuc a) (pos b) = false
exceeds (negsuc a) (negsuc b) = ltb a b

unfoldable pub check_number : Option ℤ → Result Error (Unit {0})
unfolding below_one
check_number none = ok tt
check_number (some n) = raise_if (below_one n) number_not_positive

unfoldable pub check_pair : Option ℤ → Option ℤ → Result Error (Unit {0})
unfolding exceeds
check_pair none none = ok tt
check_pair (some n) none = err numbers_not_together
check_pair none (some t) = err numbers_not_together
check_pair (some n) (some t) = raise_if (exceeds n t) number_exceeds_total

-- NamingInput.__post_init__
unfoldable pub naming_input : NamingInput → Result Error NamingInput
unfolding check_number check_pair present
naming_input raw = do
  raise_if (is_empty (strip raw.title)) title_empty
  check_number raw.disc_number
  check_number raw.disc_total
  check_pair raw.disc_number raw.disc_total
  ok (record raw {
    title = strip raw.title;
    platform = present raw.platform;
    primary_identifier = present raw.primary_identifier;
    region = present raw.region;
    revision = present raw.revision;
    media_qualifier = present raw.media_qualifier;
  })

-- _first_local_value
unfoldable pub first_local_value {ℓ} : {A : Type ℓ} → List (LocalMetadataValue A) → Option A
first_local_value [] = none
first_local_value (v ∷ vs) = some v.value

unfoldable pub or_else : Option Text → Option Text → Option Text
or_else none other = other
or_else (some t) other = some t

unfoldable pub is_none {ℓ} : {A : Type ℓ} → Option A → Bool
is_none none = true
is_none (some a) = false

abbrev pub first_revisions : List Text
first_revisions = [] ∷ codes "0" ∷ codes "rev 0" ∷ codes "revision 0" ∷ []

-- A revision, unless it is the first one.
unfoldable pub later_revision : (Text → Text) → Option Text → Option Text
later_revision lower none = none
later_revision lower (some r) =
    if elem_text (lower (strip r)) first_revisions then none else some (strip r)

-- total > 1 and 1 <= number <= total
unfoldable pub is_disc : ℤ → ℤ → Bool
unfolding below_one exceeds
is_disc number total = exceeds total (pos 1) && not (below_one number) && not (exceeds number total)

unfoldable pub disc_of : Option ℤ → Option ℤ → Option (ℤ × ℤ)
unfolding is_disc
disc_of (some number) (some total) = if is_disc number total then some (number, total) else none
disc_of _ _ = none

unfoldable pub number_of : Option (ℤ × ℤ) → Option ℤ
number_of none = none
number_of (some (n, t)) = some n

unfoldable pub total_of : Option (ℤ × ℤ) → Option ℤ
total_of none = none
total_of (some (n, t)) = some t

-- The local metadata, if it belongs to the platform.
unfoldable pub agreeing : Option LocalContentMetadata → Text → Option LocalContentMetadata
unfolding equals_platform
agreeing none platform = none
agreeing (some m) platform = if equals_platform m.platform platform then some m else none

-- What agreeing metadata gives to a name: the identifier, and for a structured title the rest.
unfoldable pub raw_input :
    (Text → Text) → CanonicalReleaseIdentity → Bool → Option LocalContentMetadata → NamingInput
unfolding title_or_name first_local_value or_else later_revision disc_of number_of total_of
raw_input lower c structured none = record {
  title = title_or_name c.title c.release_name;
  title_is_structured = structured;
  platform = some c.platform;
  primary_identifier = none;
  region = none;
  revision = none;
  disc_number = none;
  disc_total = none;
  media_qualifier = none;
}
raw_input lower c structured (some m) =
    let disc = disc_of (first_local_value m.disc_numbers) (first_local_value m.disc_totals) in
    record {
      title = title_or_name c.title c.release_name;
      title_is_structured = structured;
      platform = some c.platform;
      primary_identifier =
          identifier_in (get c.platform primary_identifier_namespaces) m.identifiers;
      region =
          if structured
          then or_else (first_local_value m.countries) (first_local_value m.regions)
          else none;
      revision =
          if structured then later_revision lower (first_local_value m.release_revisions) else none;
      disc_number = if structured then number_of disc else none;
      disc_total = if structured then total_of disc else none;
      media_qualifier = none;
    }

-- naming_input_from_identification, from the canonical match on
unfoldable pub naming_input_from :
    (Text → Text)
    → CanonicalReleaseIdentity
    → Option LocalContentMetadata
    → Result Error NamingInput
unfolding naming_input raw_input agreeing is_none
naming_input_from lower c metadata =
    naming_input (raw_input lower c (not (is_none c.title)) (agreeing metadata c.platform))
