-- ===== src/Platforms/Keys.antt =====
-- platforms.py: definitions, and `_normalize_key`. `lower` stands for `str.lower`.
use rom_metadata_framework.Prelude.{
  ℕ, ◌==◌, ◌||◌, if◌then◌else◌, List, [], ◌∷◌, Text, strip, is_space, is_empty,
}
use rom_metadata_framework.Prelude.{Result, ok, ◌>>◌, raise_if}

-- The exceptions, one constructor for each `raise`.
pub data Error : Type 0 where
  identifier_empty unknown_platform unsupported_backend : Error
  name_not_normalized duplicate_canonical duplicate_alias : Error
  mapping_of_unknown_platform duplicate_mapping backend_empty : Error

pub record PlatformDefinition : Type 0 where
  pub name : Text
  pub display_name : Text
  pub manufacturer : Text
  pub aliases : List Text

pub record BackendPlatformMapping : Type 0 where
  pub backend : Text
  pub platform : Text
  pub identifier : ℕ

-- `-` in front of the rest, unless the run that it stands for goes on
unfoldable pub dash_before : Text → Text
dash_before [] = b'-' ∷ []
dash_before (c ∷ s) = if c == b'-' then c ∷ s else b'-' ∷ c ∷ s

-- Both calls of `re.sub` at once: a run of spaces, `_` and `-` becomes one `-`.
unfoldable pub collapse : Text → Text
unfolding dash_before is_space
collapse [] = []
collapse (c ∷ s) =
    let rest = collapse s in
    if is_space c || c == b'_' || c == b'-' then dash_before rest else c ∷ rest

unfoldable pub normalize_key : (Text → Text) → Text → Result Error Text
unfolding collapse strip
normalize_key lower value = do
  let normalized = collapse (lower (strip value))
  raise_if (is_empty normalized) identifier_empty
  ok normalized
