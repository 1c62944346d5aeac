-- ===== src/LocalMetadata.antt =====
-- src/rom_metadata_framework/local_metadata.py: what was read from the artifact itself, and when two
-- such records are equal. A mapping is the list of its items, the date and time of a timestamp its ISO
-- text. The platform of a record is canonical: its constructor sees to that.
use rom_metadata_framework.Prelude.{
  Bool, true, false, ℕ, ℤ, pos, negsuc, ◌==◌, ◌&&◌, if◌then◌else◌, Option, none, some, List, [],
  ◌∷◌, length, Text, ◌=t=◌,
}

pub record LocalMetadataProvenance : Type 0 where
  pub source : Text
  pub method : Text
  pub raw_value : Option Text
  pub details : List (Text × Text)

pub record LocalMetadataValue {ℓ} (A : Type ℓ) : Type ℓ where
  pub value : A
  pub provenance : LocalMetadataProvenance

pub record LocalIdentifier : Type 0 where
  pub namespace : Text
  pub value : Text
  pub provenance : LocalMetadataProvenance

pub record LocalTimestamp : Type 0 where
  pub kind : Text
  pub value : Text
  pub provenance : LocalMetadataProvenance

pub record LocalPlayerCount : Type 0 where
  pub minimum : ℕ
  pub maximum : ℕ
  pub context : Option Text
  pub provenance : LocalMetadataProvenance

pub record LocalContentMetadata : Type 0 where
  pub platform : Option Text
  pub titles : List (LocalMetadataValue Text)
  pub short_titles : List (LocalMetadataValue Text)
  pub identifiers : List LocalIdentifier
  pub release_revisions : List (LocalMetadataValue Text)
  pub software_versions : List (LocalMetadataValue Text)
  pub executable_versions : List (LocalMetadataValue Text)
  pub disc_numbers : List (LocalMetadataValue ℤ)
  pub disc_totals : List (LocalMetadataValue ℤ)
  pub regions : List (LocalMetadataValue Text)
  pub countries : List (LocalMetadataValue Text)
  pub languages : List (LocalMetadataValue Text)
  pub developers : List (LocalMetadataValue Text)
  pub publishers : List (LocalMetadataValue Text)
  pub manufacturers : List (LocalMetadataValue Text)
  pub maker_codes : List (LocalMetadataValue Text)
  pub timestamps : List LocalTimestamp
  pub ratings : List (LocalMetadataValue Text)
  pub player_counts : List LocalPlayerCount
  pub multiplayer_features : List (LocalMetadataValue Text)
  pub hardware : List (Text × Text)
  pub media : List (Text × Text)
  pub boot : List (Text × Text)
  pub native_metadata : List (Text × Text)

abbrev pub no_metadata : LocalContentMetadata
no_metadata = record {
  platform = none;
  titles = [];
  short_titles = [];
  identifiers = [];
  release_revisions = [];
  software_versions = [];
  executable_versions = [];
  disc_numbers = [];
  disc_totals = [];
  regions = [];
  countries = [];
  languages = [];
  developers = [];
  publishers = [];
  manufacturers = [];
  maker_codes = [];
  timestamps = [];
  ratings = [];
  player_counts = [];
  multiplayer_features = [];
  hardware = [];
  media = [];
  boot = [];
  native_metadata = [];
}

abbrev pub no_items {ℓ} : {A : Type ℓ} → List A → Bool
no_items [] = true
no_items (x ∷ xs) = false

abbrev is_none : Option Text → Bool
is_none none = true
is_none (some a) = false

-- LocalContentMetadata.empty
unfoldable pub is_empty_metadata : LocalContentMetadata → Bool
is_empty_metadata m =
    is_none m.platform
    && no_items m.titles
    && no_items m.short_titles
    && no_items m.identifiers
    && no_items m.release_revisions
    && no_items m.software_versions
    && no_items m.executable_versions
    && no_items m.disc_numbers
    && no_items m.disc_totals
    && no_items m.regions
    && no_items m.countries
    && no_items m.languages
    && no_items m.developers
    && no_items m.publishers
    && no_items m.manufacturers
    && no_items m.maker_codes
    && no_items m.timestamps
    && no_items m.ratings
    && no_items m.player_counts
    && no_items m.multiplayer_features
    && no_items m.hardware
    && no_items m.media
    && no_items m.boot
    && no_items m.native_metadata

-- The equality of Python's values: of optional texts, integers, tuples and mappings.
unfoldable pub same_option : Option Text → Option Text → Bool
same_option none none = true
same_option (some a) (some b) = a =t= b
same_option _ _ = false

unfoldable pub same_int : ℤ → ℤ → Bool
same_int (pos a) (pos b) = a == b
same_int (negsuc a) (negsuc b) = a == b
same_int _ _ = false

unfoldable pub same_list {ℓ} : {A : Type ℓ} → (A → A → Bool) → List A → List A → Bool
same_list same [] [] = true
same_list same (x ∷ xs) (y ∷ ys) = same x y && same_list same xs ys
same_list same _ _ = false

-- A mapping has the item; keys occur once.
unfoldable pub has_item : Text → Text → List (Text × Text) → Bool
has_item key value [] = false
has_item key value ((k, v) ∷ items) =
    let rest = has_item key value items in if k =t= key then v =t= value else rest

unfoldable pub all_items : List (Text × Text) → List (Text × Text) → Bool
unfolding has_item
all_items [] items = true
all_items ((k, v) ∷ rest) items = has_item k v items && all_items rest items

unfoldable pub same_items : List (Text × Text) → List (Text × Text) → Bool
unfolding all_items
same_items a b = length a == length b && all_items a b

unfoldable pub same_provenance : LocalMetadataProvenance → LocalMetadataProvenance → Bool
unfolding same_option same_items
same_provenance a b =
    (a.source =t= b.source)
    && (a.method =t= b.method)
    && same_option a.raw_value b.raw_value
    && same_items a.details b.details

unfoldable pub same_value {ℓ} :
    {A : Type ℓ} → (A → A → Bool) → LocalMetadataValue A → LocalMetadataValue A → Bool
unfolding same_provenance
same_value same a b = same a.value b.value && same_provenance a.provenance b.provenance

unfoldable pub same_identifier : LocalIdentifier → LocalIdentifier → Bool
unfolding same_provenance
same_identifier a b =
    (a.namespace =t= b.namespace)
    && (a.value =t= b.value)
    && same_provenance a.provenance b.provenance

unfoldable pub same_timestamp : LocalTimestamp → LocalTimestamp → Bool
unfolding same_provenance
same_timestamp a b =
    (a.kind =t= b.kind) && (a.value =t= b.value) && same_provenance a.provenance b.provenance

unfoldable pub same_player_count : LocalPlayerCount → LocalPlayerCount → Bool
unfolding same_provenance same_option
same_player_count a b =
    a.minimum == b.minimum
    && a.maximum == b.maximum
    && same_option a.context b.context
    && same_provenance a.provenance b.provenance

-- The equality of the whole record.
unfoldable pub same_metadata : LocalContentMetadata → LocalContentMetadata → Bool
unfolding same_list same_value same_int same_identifier same_timestamp same_player_count same_items
    same_option
same_metadata a b =
    same_option a.platform b.platform
    && same_list (same_value ◌=t=◌) a.titles b.titles
    && same_list (same_value ◌=t=◌) a.short_titles b.short_titles
    && same_list same_identifier a.identifiers b.identifiers
    && same_list (same_value ◌=t=◌) a.release_revisions b.release_revisions
    && same_list (same_value ◌=t=◌) a.software_versions b.software_versions
    && same_list (same_value ◌=t=◌) a.executable_versions b.executable_versions
    && same_list (same_value same_int) a.disc_numbers b.disc_numbers
    && same_list (same_value same_int) a.disc_totals b.disc_totals
    && same_list (same_value ◌=t=◌) a.regions b.regions
    && same_list (same_value ◌=t=◌) a.countries b.countries
    && same_list (same_value ◌=t=◌) a.languages b.languages
    && same_list (same_value ◌=t=◌) a.developers b.developers
    && same_list (same_value ◌=t=◌) a.publishers b.publishers
    && same_list (same_value ◌=t=◌) a.manufacturers b.manufacturers
    && same_list (same_value ◌=t=◌) a.maker_codes b.maker_codes
    && same_list same_timestamp a.timestamps b.timestamps
    && same_list (same_value ◌=t=◌) a.ratings b.ratings
    && same_list same_player_count a.player_counts b.player_counts
    && same_list (same_value ◌=t=◌) a.multiplayer_features b.multiplayer_features
    && same_items a.hardware b.hardware
    && same_items a.media b.media
    && same_items a.boot b.boot
    && same_items a.native_metadata b.native_metadata
