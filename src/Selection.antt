-- ===== src/Selection.antt =====
-- src/rom_metadata_framework/selection.py: which platform or identity was asked for. `lower` and
-- `casefold` stand for the methods of `str`, and `index` is the registry's index.
use rom_metadata_framework.Prelude.{
  Bool, false, not, ◌==◌, if◌then◌else◌, Option, none, some, List, [], ◌∷◌, Text, codes, ◌=t=◌,
  strip, is_empty, elem_text,
}
use rom_metadata_framework.Prelude.{Result, ok, err, ◌>>=◌, ◌>>◌, raise_if}
use rom_metadata_framework.Platforms.Index.{PlatformIndex, canonical_platform_name}
use rom_metadata_framework.LocalMetadata.{LocalIdentifier, LocalContentMetadata}

pub data Error : Type 0 where
  unknown_platform identifier_empty syntax_expected platform_empty : Error
  platforms_disagree restrict_without_platform component_name_empty : Error

pub record RequestedIdentity : Type 0 where
  pub platform : Text
  pub identifier : Text

pub record IdentificationSelection : Type 0 where
  pub platform : Option Text
  pub identity : Option RequestedIdentity
  pub restrict : Bool

-- raw.split(":", 1), `none` without a colon
unfoldable pub split_colon : Text → Option (Text × Text)
split_colon [] = none
split_colon (c ∷ s) =
    let rest = split_colon s in
    if c == b':' then some ([], s) else elim rest [ none ↦ none | some (a, b) ↦ some (c ∷ a, b) ]

-- _SHARED_COMPONENT_PLATFORMS
abbrev pub shared_component_platforms : List (Text × List Text)
shared_component_platforms = (codes "dolphin", codes "gc" ∷ codes "wii" ∷ []) ∷ []

-- _PRIMARY_IDENTITY_NAMESPACES
abbrev pub primary_identity_namespaces : List (Text × Text)
primary_identity_namespaces =
    (codes "gc", codes "nintendo-game-id")
    ∷ (codes "wii", codes "nintendo-game-id")
    ∷ (codes "ps2", codes "ps2-product-code")
    ∷ (codes "ps3", codes "ps3-title-id")
    ∷ (codes "xbox", codes "xbox-title-id")
    ∷ (codes "xbox360", codes "xbox360-title-id")
    ∷ (codes "switch", codes "switch-application-id")
    ∷ []

-- Mapping.get
unfoldable pub get {ℓ} : {A : Type ℓ} → Text → List (Text × A) → Option A
get key [] = none
get key ((k, a) ∷ items) = let rest = get key items in if k =t= key then some a else rest

unfoldable pub among_or_equal : Option (List Text) → Text → Text → Bool
among_or_equal none name canonical = name =t= canonical
among_or_equal (some shared) name canonical = elem_text canonical shared

-- The first identifier of a namespace.
unfoldable pub first_of : Text → List LocalIdentifier → Option Text
first_of namespace [] = none
first_of namespace (i ∷ is) =
    let rest = first_of namespace is in if i.namespace =t= namespace then some i.value else rest

unfoldable pub equals_platform : Option Text → Text → Bool
equals_platform none canonical = false
equals_platform (some p) canonical = p =t= canonical

-- The identifier in the namespace of the platform, if it has one.
unfoldable pub identifier_in : Option Text → List LocalIdentifier → Option Text
unfolding first_of
identifier_in none identifiers = none
identifier_in (some namespace) identifiers = first_of namespace identifiers

-- identifiers_equal
unfoldable pub identifiers_equal : (Text → Text) → Text → Text → Bool
identifiers_equal casefold observed requested =
    casefold (strip observed) =t= casefold (strip requested)

module _ (lower : Text → Text) (index : PlatformIndex) where
  -- `canonical_platform_name`, whose only exception is that of an unknown platform.
  unfoldable pub canonical : Text → Result Error Text
  canonical value = elim (canonical_platform_name lower index value) [
    | ok name ↦ ok name
    | err e ↦ err unknown_platform
  ]

  -- RequestedIdentity.__post_init__
  unfoldable pub requested_identity : Text → Text → Result Error RequestedIdentity
  unfolding canonical
  requested_identity platform identifier = do
    name ← canonical platform
    raise_if (is_empty (strip identifier)) identifier_empty
    ok (record { platform = name; identifier = strip identifier })

  -- RequestedIdentity.parse
  unfoldable pub parse_parts : Option (Text × Text) → Result Error RequestedIdentity
  unfolding requested_identity
  parse_parts none = err syntax_expected
  parse_parts (some (platform, identifier)) =
      raise_if (is_empty (strip platform)) platform_empty >> requested_identity platform identifier

  unfoldable pub parse_requested_identity : Text → Result Error RequestedIdentity
  unfolding parse_parts split_colon
  parse_requested_identity value = parse_parts (split_colon (strip value))

  unfoldable pub canonical_option : Option Text → Result Error (Option Text)
  unfolding canonical
  canonical_option none = ok none
  canonical_option (some p) = canonical p >>= λ name. ok (some name)

  -- The platform of the selection, agreed with that of the identity.
  unfoldable pub agreed_platform :
      Option Text → Option RequestedIdentity → Result Error (Option Text)
  agreed_platform platform none = ok platform
  agreed_platform none (some i) = ok (some i.platform)
  agreed_platform (some p) (some i) =
      if p =t= i.platform then ok (some p) else err platforms_disagree

  unfoldable pub wanting : Bool → Option Text → Bool
  wanting restrict none = restrict
  wanting restrict (some p) = false

  -- IdentificationSelection.__post_init__
  unfoldable pub identification_selection :
      Option Text → Option RequestedIdentity → Bool → Result Error IdentificationSelection
  unfolding canonical_option agreed_platform wanting
  identification_selection platform identity restrict = do
    named ← canonical_option platform
    effective ← agreed_platform named identity
    raise_if (wanting restrict effective) restrict_without_platform
    ok (record { platform = effective; identity = identity; restrict = restrict })

  unfoldable pub component_supports_platform : Text → Text → Result Error Bool
  unfolding canonical get among_or_equal
  component_supports_platform component_name platform = do
    let name = lower (strip component_name)
    raise_if (is_empty name) component_name_empty
    platform' ← canonical platform
    ok (among_or_equal (get name shared_component_platforms) name platform')

  unfoldable pub primary_identity_namespace : Text → Result Error (Option Text)
  unfolding canonical get
  primary_identity_namespace platform =
      canonical platform >>= λ name. ok (get name primary_identity_namespaces)

  -- local_primary_identifier: its second call of `canonical_platform_name`, on a canonical name, is that
  -- of `primary_identity_namespace`
  unfoldable pub identifier_of : Text → Option LocalContentMetadata → Result Error (Option Text)
  unfolding primary_identity_namespace equals_platform identifier_in
  identifier_of platform none = ok none
  identifier_of platform (some m) = canonical platform >>= λ name.
      if not (equals_platform m.platform name)
      then ok none
      else (primary_identity_namespace name >>= λ namespace.
          ok (identifier_in namespace m.identifiers))

  unfoldable pub local_primary_identifier :
      Option LocalContentMetadata → Text → Result Error (Option Text)
  unfolding identifier_of
  local_primary_identifier metadata platform = identifier_of platform metadata
