-- ===== src/Iso9660/Reader.antt =====
-- iso9660.py: `BoundedIso9660`. The upper case of `str.upper` is the interpreter's Unicode table, a
-- parameter of which nothing is assumed; the limits are natural numbers.
use rom_metadata_framework.Prelude.{
  ℕ, zero, suc, ◌+◌, ◌-◌, ◌*◌, ◌==◌, ltb, leb, not, ◌||◌, ◌&&◌, if◌then◌else◌, Bool, true, false,
  Option, none, some, List, [], ◌∷◌, length, Text, codes, ◌=t=◌, path_parts, Bytes, slice, byte_at,
}
use rom_metadata_framework.Prelude.{Result, ok, err, ◌>>=◌, ◌>>◌, raise_if}
use rom_metadata_framework.Source.{Source, read_at}
use rom_metadata_framework.Iso9660.Types.{
  iso_sector_size, iso_pvd_offset, iso_pvd_size, iso_standard_identifier, Error, not_regular_file,
  pvd_truncated, pvd_not_present, bad_block_size, root_record_invalid, root_record_truncated,
  extent_beyond_file, extends_beyond_file, not_a_directory, invalid_size, exceeds_limit, truncated,
  no_forward_progress, path_not_present, path_is_directory, out_of_fuel, DirectoryEntry,
}
use rom_metadata_framework.Iso9660.Records.{
  decode_ascii_field, read_both_endian_u16, read_both_endian_u32, parse_directory_entry,
}

pub record Reader : Type 0 where
  pub source : Source
  pub file_size : ℕ
  pub max_directory_size : ℕ
  pub volume_identifier : Text
  pub root : DirectoryEntry

-- __init__
unfoldable pub open_reader : Source → ℕ → Result Error Reader
open_reader source max_directory_size = do
  raise_if (not source.regular) not_regular_file
  let pvd = read_at source iso_pvd_offset iso_pvd_size
  raise_if (not (length pvd == iso_pvd_size)) pvd_truncated
  raise_if
      (not (byte_at pvd 0 == 1)
        || not (slice pvd 1 6 =t= iso_standard_identifier)
        || not (byte_at pvd 6 == 1))
      pvd_not_present
  logical_block_size ← read_both_endian_u16 pvd 128
  raise_if (not (logical_block_size == iso_sector_size)) bad_block_size
  let root_record_length = byte_at pvd 156
  raise_if (ltb root_record_length 34) root_record_invalid
  let root_record = slice pvd 156 (156 + root_record_length)
  raise_if (not (length root_record == root_record_length)) root_record_truncated
  extent ← read_both_endian_u32 root_record 2
  size ← read_both_endian_u32 root_record 10
  ok (record {
    source = source;
    file_size = source.st_size;
    max_directory_size = max_directory_size;
    volume_identifier = decode_ascii_field (slice pvd 40 72);
    root = record { name = codes "root"; extent = extent; size = size; directory = true };
  })

-- validate_extent, which returns nothing
unfoldable pub validate_extent : Reader → ℕ → ℕ → Result Error (Unit {0})
validate_extent reader extent size = do
  let offset = extent * iso_sector_size
  raise_if (ltb reader.file_size offset) extent_beyond_file
  raise_if (ltb (reader.file_size - offset) size) extends_beyond_file

-- `child is None or child.name in {".", ".."}` skips the record
unfoldable pub keep_child : Option DirectoryEntry → List DirectoryEntry → List DirectoryEntry
unfolding ◌=t=◌
keep_child none rest = rest
keep_child (some child) rest =
    if (child.name =t= codes ".") || (child.name =t= codes "..") then rest else child ∷ rest

-- The loop of `read_directory`, by rounds left, from an offset of the directory's data.
unfoldable pub entries_from : Bytes → ℕ → ℕ → Result Error (List DirectoryEntry)
unfolding keep_child
entries_from data' zero offset = if ltb offset (length data') then err out_of_fuel else ok []
entries_from data' (suc fuel) offset = elim (ltb offset (length data')) [
  | false ↦ ok []
  | true ↦ parse_directory_entry data' offset >>= λ parsed. elim (leb parsed.1 offset) [
    | true ↦ err no_forward_progress
    | false ↦ entries_from data' fuel parsed.1 >>= λ rest. ok (keep_child parsed.0 rest)
  ]
]

-- The part of `read_directory` that reads the data.
unfoldable pub read_extent : Reader → ℕ → ℕ → Result Error Bytes
unfolding validate_extent read_at
read_extent reader extent size = do
  validate_extent reader extent size
  let data' = read_at reader.source (extent * iso_sector_size) size
  raise_if (not (length data' == size)) truncated
  ok data'

-- read_directory: as many rounds as the data has bytes
unfoldable pub read_directory : Reader → DirectoryEntry → Result Error (List DirectoryEntry)
unfolding read_extent entries_from
read_directory reader entry = do
  raise_if (not entry.directory) not_a_directory
  raise_if (leb entry.size 0) invalid_size
  raise_if (ltb reader.max_directory_size entry.size) exceeds_limit
  data' ← read_extent reader entry.extent entry.size
  entries_from data' (length data') 0

abbrev is_last : List Text → Bool
is_last [] = true
is_last (part ∷ parts) = false

-- The tests of `read_file` on what `find` gave, and the read.
unfoldable pub read_found : Reader → ℕ → Option DirectoryEntry → Result Error Bytes
unfolding read_extent
read_found reader max_size none = err path_not_present
read_found reader max_size (some entry) = do
  raise_if entry.directory path_is_directory
  raise_if (leb entry.size 0) invalid_size
  raise_if (ltb max_size entry.size) exceeds_limit
  read_extent reader entry.extent entry.size

module _ (upper : Text → Text) where
  -- next(entry for entry in entries if entry.name.upper() == wanted)
  unfoldable pub first_named : Text → List DirectoryEntry → Option DirectoryEntry
  unfolding ◌=t=◌
  first_named wanted [] = none
  first_named wanted (entry ∷ rest) =
      if upper entry.name =t= wanted then some entry else first_named wanted rest

  module _ (reader : Reader) where
    unfoldable pub find_from : DirectoryEntry → List Text → Result Error (Option DirectoryEntry)
    unfolding first_named
    find_from current [] = ok (some current)
    find_from current (part ∷ rest) = read_directory reader current >>= λ entries.
        elim (first_named (upper part) entries) [
          | none ↦ ok none
          | some found ↦ elim (not (is_last rest) && not found.directory) [
            | true ↦ ok none
            | false ↦ find_from found rest
          ]
        ]

    -- find: the empty path is the root
    unfoldable pub find : Text → Result Error (Option DirectoryEntry)
    unfolding path_parts find_from
    find path = find_from reader.root (path_parts path)

    unfoldable pub read_file : Text → ℕ → Result Error Bytes
    unfolding read_found
    read_file path max_size = do found ← find path; read_found reader max_size found
