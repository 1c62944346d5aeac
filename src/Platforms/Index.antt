-- ===== src/Platforms/Index.antt =====
-- platforms.py: the two indexes, built when the module is loaded, and the functions that look into them.
-- A dict is the list of its items, no key of which occurs twice.
use rom_metadata_framework.Prelude.{
  Bool, true, false, ℕ, not, ◌&&◌, if◌then◌else◌, Option, none, some, List, [], ◌∷◌, map, Text,
  codes, ◌=t=◌, elem_text,
}
use rom_metadata_framework.Prelude.{Result, ok, err, ◌>>=◌, ◌>>◌, raise_if}
use rom_metadata_framework.Platforms.Keys.{
  Error, unknown_platform, unsupported_backend, name_not_normalized, duplicate_canonical,
  duplicate_alias, mapping_of_unknown_platform, duplicate_mapping, backend_empty,
  PlatformDefinition, BackendPlatformMapping, normalize_key,
}

abbrev pub PlatformIndex : Type 0
PlatformIndex = List (Text × PlatformDefinition)

abbrev pub BackendIndex : Type 0
BackendIndex = List ((Text × Text) × BackendPlatformMapping)

unfoldable pub lookup : Text → PlatformIndex → Option PlatformDefinition
lookup key [] = none
lookup key ((k, p) ∷ index) = let rest = lookup key index in if k =t= key then some p else rest

abbrev pub is_some {ℓ} : {A : Type ℓ} → Option A → Bool
is_some none = false
is_some (some a) = true

unfoldable pub lookup_mapping : Text → Text → BackendIndex → Option BackendPlatformMapping
lookup_mapping backend platform [] = none
lookup_mapping backend platform (((b, p), m) ∷ index) =
    let rest = lookup_mapping backend platform index in
    if (b =t= backend) && (p =t= platform) then some m else rest

-- An exception of one kind, raised in place of another.
unfoldable pub raising {ℓ} : {A : Type ℓ} → Error → Result Error A → Result Error A
raising e (ok a) = ok a
raising e (err e') = err e

unfoldable pub found {ℓ} : {A : Type ℓ} → Error → Option A → Result Error A
found e none = err e
found e (some a) = ok a

module _ (lower : Text → Text) where
  -- for key in (platform.name, *platform.aliases)
  unfoldable pub add_keys :
      PlatformDefinition → List Text → PlatformIndex → Result Error PlatformIndex
  add_keys p [] index = ok index
  add_keys p (key ∷ keys) index = normalize_key lower key >>= λ normalized.
      raise_if (is_some (lookup normalized index)) duplicate_alias
      >> add_keys p keys ((normalized, p) ∷ index)

  -- for platform in PLATFORMS
  unfoldable pub index_from :
      List PlatformDefinition → List Text → PlatformIndex → Result Error PlatformIndex
  unfolding add_keys
  index_from [] canonical_names index = ok index
  index_from (p ∷ ps) canonical_names index = normalize_key lower p.name >>= λ canonical.
      raise_if (not (canonical =t= p.name)) name_not_normalized
      >> (raise_if (elem_text canonical canonical_names) duplicate_canonical
          >> (add_keys p (p.name ∷ p.aliases) index >>= λ index'.
              index_from ps (canonical ∷ canonical_names) index'))

  -- _build_platform_index
  unfoldable pub build_platform_index : List PlatformDefinition → Result Error PlatformIndex
  unfolding index_from
  build_platform_index ps = index_from ps [] []

  unfoldable pub mappings_from :
      List Text → List BackendPlatformMapping → BackendIndex → Result Error BackendIndex
  unfolding lookup_mapping
  mappings_from canonical_platforms [] index = ok index
  mappings_from canonical_platforms (m ∷ ms) index = normalize_key lower m.backend >>= λ backend.
      normalize_key lower m.platform >>= λ platform.
      raise_if (not (elem_text platform canonical_platforms)) mapping_of_unknown_platform
      >> (raise_if (is_some (lookup_mapping backend platform index)) duplicate_mapping
          >> mappings_from canonical_platforms ms (((backend, platform), m) ∷ index))

  -- _build_backend_mapping_index
  unfoldable pub build_backend_mapping_index :
      List PlatformDefinition → List BackendPlatformMapping → Result Error BackendIndex
  unfolding mappings_from
  build_backend_mapping_index ps ms =
      mappings_from (map (λ (p : PlatformDefinition). p.name) ps) ms []

  module _ (index : PlatformIndex) where
    unfoldable pub resolve_platform : Text → Result Error PlatformDefinition
    unfolding raising found
    resolve_platform value = raising unknown_platform (normalize_key lower value) >>= λ normalized.
        found unknown_platform (lookup normalized index)

    unfoldable pub canonical_platform_name : Text → Result Error Text
    unfolding resolve_platform
    canonical_platform_name value = resolve_platform value >>= λ p. ok p.name

    unfoldable pub platform_display_name : Text → Result Error Text
    unfolding resolve_platform
    platform_display_name value = resolve_platform value >>= λ p. ok p.display_name

    unfoldable pub platform_manufacturer : Text → Result Error Text
    unfolding resolve_platform
    platform_manufacturer value = resolve_platform value >>= λ p. ok p.manufacturer

    unfoldable pub backend_platform_mapping :
        BackendIndex → Text → Text → Result Error BackendPlatformMapping
    unfolding canonical_platform_name lookup_mapping raising found
    backend_platform_mapping mappings backend platform =
        canonical_platform_name platform >>= λ canonical.
        raising backend_empty (normalize_key lower backend) >>= λ normalized.
        found unsupported_backend (lookup_mapping normalized canonical mappings)

    unfoldable pub backend_platform_identifier : BackendIndex → Text → Text → Result Error ℕ
    unfolding backend_platform_mapping
    backend_platform_identifier mappings backend platform =
        backend_platform_mapping mappings backend platform >>= λ m. ok m.identifier

    unfoldable pub rcheevos_console_id : BackendIndex → Text → Result Error ℕ
    unfolding backend_platform_identifier
    rcheevos_console_id mappings platform =
        backend_platform_identifier mappings (codes "rcheevos") platform
