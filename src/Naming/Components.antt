-- ===== src/Naming/Components.antt =====
-- naming.py: `sanitize_filename_component`; `Path.name` and `Path.suffix` of a POSIX path, and the
-- decimal digits of an integer, as Python provides them.
use rom_metadata_framework.Prelude.{
  Bool, ℕ, zero, suc, ℤ, pos, negsuc, ◌+◌, ◌/◌, ◌%◌, ◌==◌, ltb, not, ◌&&◌, ◌||◌, keep, map,
  if◌then◌else◌, Option, none, some, List, [], ◌∷◌, ◌++◌, Text, codes, ◌=t=◌, is_space, strip,
  strip_right, is_empty, split_on,
}
use rom_metadata_framework.Prelude.{Result, ok, ◌>>◌, raise_if}

-- The `ValueError`s.
pub data Error : Type 0 where
  component_empty title_empty number_not_positive numbers_not_together number_exceeds_total : Error
  identity_required source_name_empty operation_unknown : Error

-- _INVALID_FILENAME_CHARACTERS
unfoldable pub is_invalid : ℕ → Bool
is_invalid c =
    ltb c 0x20
    || c == b'<'
    || c == b'>'
    || c == b':'
    || c == 0x22
    || c == b'/'
    || c == 0x5c
    || c == b'|'
    || c == b'?'
    || c == b'*'

-- _INVALID_FILENAME_CHARACTERS.sub("_", value)
unfoldable pub replace_invalid : Text → Text
unfolding is_invalid
replace_invalid = map (λ c. if is_invalid c then b'_' else c)

-- A space in front of the rest, unless the run that it stands for goes on.
unfoldable pub space_before : Text → Text
space_before [] = b' ' ∷ []
space_before (c ∷ s) = if c == b' ' then c ∷ s else b' ' ∷ c ∷ s

-- re.sub(r"\s+", " ", value)
unfoldable pub collapse_spaces : Text → Text
unfolding space_before is_space
collapse_spaces [] = []
collapse_spaces (c ∷ s) =
    let rest = collapse_spaces s in if is_space c then space_before rest else c ∷ rest

unfoldable pub is_dot : ℕ → Bool
is_dot c = c == b'.'

unfoldable pub sanitize_filename_component : Text → Result Error Text
unfolding replace_invalid collapse_spaces is_dot strip strip_right
sanitize_filename_component value = do
  let sanitized = strip_right is_dot (strip (collapse_spaces (replace_invalid value)))
  raise_if (is_empty sanitized) component_empty
  ok sanitized

unfoldable pub last_part : List Text → Text
last_part [] = []
last_part (part ∷ []) = part
last_part (part ∷ next ∷ parts) = last_part (next ∷ parts)

-- Path(text).name: the last part that is neither empty nor "."
unfoldable pub path_name : Text → Text
unfolding last_part split_on ◌=t=◌
path_name text =
    last_part (keep (λ part. not (is_empty part) && not (part =t= codes ".")) (split_on b'/' text))

-- What stands before and behind the last dot.
unfoldable pub split_last_dot : Text → Option (Text × Text)
split_last_dot [] = none
split_last_dot (c ∷ s) =
    let rest = split_last_dot s in
    elim rest [ some (a, b) ↦ some (c ∷ a, b) | none ↦ if c == b'.' then some ([], s) else none ]

unfoldable pub suffix_of : Option (Text × Text) → Text
suffix_of none = []
suffix_of (some ([], b)) = []
suffix_of (some (c ∷ a, [])) = []
suffix_of (some (c ∷ a, d ∷ b)) = b'.' ∷ d ∷ b

-- PurePath.suffix
unfoldable pub suffix : Text → Text
unfolding suffix_of split_last_dot
suffix name = suffix_of (split_last_dot name)

-- str(n), with as many digits as fit the fuel; a number has no more digits than its value and one
unfoldable pub decimal_from : ℕ → ℕ → Text → Text
decimal_from zero n digits = digits
decimal_from (suc fuel) n digits =
    let d = b'0' + n % 10 in
    let rest = decimal_from fuel (n / 10) (d ∷ digits) in if ltb n 10 then d ∷ digits else rest

unfoldable pub decimal : ℕ → Text
unfolding decimal_from
decimal n = decimal_from (suc n) n []

unfoldable pub decimal_int : ℤ → Text
unfolding decimal
decimal_int (pos n) = decimal n
decimal_int (negsuc n) = b'-' ∷ decimal (n + 1)

-- " ".join(parts)
unfoldable pub join_spaces : List Text → Text
join_spaces [] = []
join_spaces (part ∷ []) = part
join_spaces (part ∷ next ∷ parts) = part ++ (b' ' ∷ join_spaces (next ∷ parts))
