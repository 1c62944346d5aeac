-- ===== src/Metadata/Keys.antt =====
-- metadata_reconciliation.py: the keys that values are compared by, as a sorted tuple without
-- repetition.
use rom_metadata_framework.Prelude.{
  Bool, true, false, ℕ, ◌==◌, ltb, not, ◌&&◌, ◌||◌, keep, map, if◌then◌else◌, Option, none, some,
  List, [], ◌∷◌, ◌++◌, Text, ◌=t=◌, is_space, is_empty,
}
use rom_metadata_framework.Hashing.Digests.{hex_fixed}
use rom_metadata_framework.Naming.Components.{decimal, join_spaces}
use rom_metadata_framework.Metadata.Records.{ExternalIdentifier, PlayerCount}

-- a < b, of two texts
unfoldable pub less : Text → Text → Bool
less [] [] = false
less [] (y ∷ ys) = true
less (x ∷ xs) [] = false
less (x ∷ xs) (y ∷ ys) = ltb x y || (x == y && less xs ys)

-- A key put into the sorted keys, unless it is there.
unfoldable pub insert : Text → List Text → List Text
unfolding less ◌=t=◌
insert a [] = a ∷ []
insert a (x ∷ xs) =
    let rest = insert a xs in if a =t= x then x ∷ xs else if less a x then a ∷ x ∷ xs else x ∷ rest

-- tuple(sorted(set(keys)))
unfoldable pub sorted_set : List Text → List Text
unfolding insert
sorted_set [] = []
sorted_set (a ∷ as') = insert a (sorted_set as')

-- A word of its own, or the first letter of the word that goes on.
unfoldable pub add_letter : ℕ → Bool → List Text → List Text
add_letter c true words = (c ∷ []) ∷ words
add_letter c false [] = (c ∷ []) ∷ []
add_letter c false (word ∷ words) = (c ∷ word) ∷ words

unfoldable pub starts_with_space : Text → Bool
unfolding is_space
starts_with_space [] = true
starts_with_space (c ∷ s) = is_space c

-- str.split()
unfoldable pub words : Text → List Text
unfolding add_letter starts_with_space is_space
words [] = []
words (c ∷ s) =
    let rest = words s in if is_space c then rest else add_letter c (starts_with_space s) rest

-- json.dumps of one text, with ensure_ascii=False
unfoldable pub escaped : ℕ → Text
unfolding hex_fixed
escaped c =
    if c == 0x22
    then 0x5c ∷ 0x22 ∷ []
    else if c == 0x5c
    then 0x5c ∷ 0x5c ∷ []
    else if c == 0x0a
    then 0x5c ∷ b'n' ∷ []
    else if c == 0x0d
    then 0x5c ∷ b'r' ∷ []
    else if c == 0x09
    then 0x5c ∷ b't' ∷ []
    else if c == 0x0c
    then 0x5c ∷ b'f' ∷ []
    else if c == 0x08
    then 0x5c ∷ b'b' ∷ []
    else if ltb c 0x20
    then 0x5c ∷ b'u' ∷ hex_fixed 4 c []
    else c ∷ []

unfoldable pub json_text : Text → Text
unfolding escaped
json_text [] = []
json_text (c ∷ s) = escaped c ++ json_text s

-- json.dumps((namespace, value), ensure_ascii=False, separators=(",", ":"))
unfoldable pub identifier_key : ExternalIdentifier → Text
unfolding json_text
identifier_key i =
    (b'[' ∷ 0x22 ∷ [])
    ++ (json_text i.namespace
        ++ ((0x22 ∷ b',' ∷ 0x22 ∷ []) ++ (json_text i.value ++ (0x22 ∷ b']' ∷ []))))

-- _identifier_values
unfoldable pub identifier_values : List ExternalIdentifier → List Text
unfolding identifier_key sorted_set
identifier_values values = sorted_set (map identifier_key values)

module _ (casefold : Text → Text) where
  -- _normalize_text
  unfoldable pub normalize_text : Text → Text
  unfolding words join_spaces
  normalize_text value = casefold (join_spaces (words value))

  -- _text_values
  unfoldable pub text_values : List Text → List Text
  unfolding normalize_text sorted_set
  text_values values = sorted_set (keep (λ key. not (is_empty key)) (map normalize_text values))

  unfoldable pub context_of : Option Text → Text
  unfolding normalize_text
  context_of none = []
  context_of (some context) = normalize_text context

  unfoldable pub player_count_key : PlayerCount → Text
  unfolding context_of decimal
  player_count_key count =
      let context = context_of count.context in
      let range = decimal count.minimum ++ (b'-' ∷ decimal count.maximum) in
      if is_empty context then range else range ++ (b'@' ∷ context)

  -- _player_count_values
  unfoldable pub player_count_values : List PlayerCount → List Text
  unfolding player_count_key sorted_set
  player_count_values values = sorted_set (map player_count_key values)
