-- ===== src/Iso9660/Listing.antt =====
-- iso9660.py: `read_directory` of a directory that holds the records of a list of files.
use mathlib.Core.List.{append-nil, append_assoc}
use rom_metadata_framework.Prelude.{
  ℕ, zero, suc, ◌+◌, ◌≤◌, ◌<◌, ◌≡◌, ◌≢◌, ap, true, false, some, List, [], ◌∷◌, ◌++◌, map, length,
  length-append, All, =t=_iff, Bytes, codes, arith, ltb, leb,
}
use rom_metadata_framework.Prelude.{Result, ok}
use rom_metadata_framework.Iso9660.Types.{Error, DirectoryEntry}
use rom_metadata_framework.Iso9660.Records.{parse_directory_entry}
use rom_metadata_framework.Iso9660.Reader.{
  Reader, keep_child, entries_from, read_extent, read_directory,
}
use rom_metadata_framework.Iso9660.RoundTrip.{
  Item, encode_item, entry_of, IsStorable, parse_directory_entry-encode,
}

abbrev pub encode_items : List Item → Bytes
encode_items [] = []
encode_items (item ∷ items) = encode_item item ++ encode_items items

-- An item that is not one of the two entries which `read_directory` skips.
pub record IsListed (item : Item) : Type 0 where
  pub storable : IsStorable item
  pub not_self : item.name ≢ codes "."
  pub not_parent : item.name ≢ codes ".."

keep_child-listed :
    (item : Item) (rest : List DirectoryEntry)
    → IsListed item
    → keep_child (some (entry_of item)) rest ≡ entry_of item ∷ rest
unfolding keep_child
keep_child-listed item rest h =
    ground (
      arith,
      =t=_iff item.name (codes "."),
      =t=_iff item.name (codes ".."),
      h.not_self,
      h.not_parent,
    )

entries_from-end :
    (data' : Bytes) (fuel offset : ℕ)
    → length data' ≤ offset
    → entries_from data' fuel offset ≡ ok []
unfolding entries_from
entries_from-end data' zero offset h = ground arith
entries_from-end data' (suc fuel) offset h = ground arith

-- One round of the loop.
entries_from-step :
    (data' : Bytes) (fuel offset next : ℕ) (item : Item) (rest : List DirectoryEntry)
    → IsListed item
    → offset < length data'
    → offset < next
    → parse_directory_entry data' offset ≡ ok (some (entry_of item), next)
    → entries_from data' fuel next ≡ ok rest
    → entries_from data' (suc fuel) offset ≡ ok (entry_of item ∷ rest)
unfolding entries_from
entries_from-step data' fuel offset next item rest listed inside forward parsed later =
    ground (arith, parsed, later, keep_child-listed item rest listed)

entries_from-regroup :
    (before xs after : Bytes) (fuel : ℕ) {r : Result Error (List DirectoryEntry)}
    → entries_from ((before ++ xs) ++ after) fuel (length (before ++ xs)) ≡ r
    → entries_from (before ++ (xs ++ after)) fuel (length before + length xs) ≡ r
entries_from-regroup before xs after fuel h =
    rw (← append_assoc before xs after, ← length-append before xs) h

entries_from-encode :
    (items : List Item) (before : Bytes) (fuel : ℕ)
    → length items ≤ fuel
    → All IsListed items
    → entries_from (before ++ encode_items items) fuel (length before) ≡ ok (map entry_of items)
entries_from-encode [] before fuel room h =
    entries_from-end (before ++ []) fuel (length before)
      (omega (arith, ap (λ (b : Bytes). length b) (append-nil before)))
entries_from-encode (item ∷ items) before zero room h = absurd (omega arith)
entries_from-encode (item ∷ items) before (suc fuel) room (h, t) =
    entries_from-step (before ++ (encode_item item ++ encode_items items)) fuel (length before)
      (length before + length (encode_item item)) item (map entry_of items) h
      (omega (arith, length-append before (encode_item item ++ encode_items items))) (omega arith)
      (parse_directory_entry-encode before (encode_items items) item h.storable)
      (entries_from-regroup before (encode_item item) (encode_items items) fuel
        (entries_from-encode items (before ++ encode_item item) fuel (omega arith) t))

length-encode_items : (items : List Item) → length items ≤ length (encode_items items)
length-encode_items [] = omega arith
length-encode_items (item ∷ items) =
    omega (arith, length-append (encode_item item) (encode_items items), length-encode_items items)

module _ (reader : Reader) (entry : DirectoryEntry) (items : List Item) where
  -- A directory within the reader's limit whose data is the records of a list of files, one
  -- directly behind the other, is read as the entries of these files, in their order and with
  -- their versions cut off.
  pub read_directory-encode :
      entry.directory ≡ true
      → 0 < entry.size
      → entry.size ≤ reader.max_directory_size
      → read_extent reader entry.extent entry.size ≡ ok (encode_items items)
      → All IsListed items
      → read_directory reader entry ≡ ok (map entry_of items)
  unfolding read_directory
  read_directory-encode isdir positive bounded stored listed =
      let p : leb entry.size 0 ≡ false = ground arith in
      let q : ltb reader.max_directory_size entry.size ≡ false = ground arith in
      rw (isdir, p, q, stored)
        (entries_from-encode items [] (length (encode_items items)) (length-encode_items items)
          listed)
