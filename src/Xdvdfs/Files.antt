-- ===== src/Xdvdfs/Files.antt =====
-- xdvdfs.py: `find`, `read_file_range` and `read_file`. The case folding of `str.casefold` is the
-- interpreter's Unicode table, a parameter of which nothing is assumed.
use rom_metadata_framework.Prelude.{
  ℕ, ◌+◌, ◌-◌, ◌==◌, ltb, leb, ◌&&◌, not, if◌then◌else◌, Bool, true, false, Option, none, some,
  List, [], ◌∷◌, length, Text, ◌=t=◌, path_parts, Bytes,
}
use rom_metadata_framework.Prelude.{Result, ok, err, ◌>>=◌, ◌>>◌, raise_if}
use rom_metadata_framework.Prelude.{ℤ, pos, negsuc}
use rom_metadata_framework.Source.{read_at}
use rom_metadata_framework.Xdvdfs.Types.{
  Error, negative_offset, negative_size, exceeds_limit, path_not_present, path_is_directory,
  range_starts_beyond_file, range_extends_beyond_file, truncated, invalid_size, DirectoryEntry,
  directory,
}
use rom_metadata_framework.Xdvdfs.Reader.{Reader, validate_extent}
use rom_metadata_framework.Xdvdfs.Directory.{list_directory}

abbrev is_last : List Text → Bool
is_last [] = true
is_last (part ∷ parts) = false

-- The entry that `find` gave, for the two readers of files.
unfoldable pub regular_file : Option DirectoryEntry → Result Error DirectoryEntry
regular_file none = err path_not_present
regular_file (some entry) = if directory entry then err path_is_directory else ok entry

-- The part of `read_file_range` behind the tests of the entry.
unfoldable pub read_range : Reader → ℕ → ℕ → DirectoryEntry → Result Error Bytes
unfolding validate_extent read_at
read_range reader offset size entry = do
  raise_if (ltb entry.size offset) range_starts_beyond_file
  raise_if (ltb (entry.size - offset) size) range_extends_beyond_file
  file_offset ←
      validate_extent reader.file_size reader.volume.partition_offset entry.sector entry.size
  let data' = read_at reader.source (file_offset + offset) size
  raise_if (not (length data' == size)) truncated
  ok data'

-- The part of `read_file` behind the tests of the entry.
unfoldable pub read_whole : Reader → ℕ → DirectoryEntry → Result Error Bytes
unfolding validate_extent read_at
read_whole reader max_size entry = do
  raise_if (leb entry.size 0) invalid_size
  raise_if (ltb max_size entry.size) exceeds_limit
  offset ← validate_extent reader.file_size reader.volume.partition_offset entry.sector entry.size
  let data' = read_at reader.source offset entry.size
  raise_if (not (length data' == entry.size)) truncated
  ok data'

module _ (casefold : Text → Text) where
  -- next(candidate for candidate in entries if candidate.name.casefold() == wanted)
  unfoldable pub first_named : Text → List DirectoryEntry → Option DirectoryEntry
  unfolding ◌=t=◌
  first_named wanted [] = none
  first_named wanted (candidate ∷ rest) =
      if casefold candidate.name =t= wanted then some candidate else first_named wanted rest

  module _ (depth : ℕ) (reader : Reader) where
    unfoldable pub find_from :
        Option DirectoryEntry → List Text → Result Error (Option DirectoryEntry)
    unfolding first_named
    find_from current [] = ok current
    find_from current (part ∷ rest) = list_directory depth reader current >>= λ entries.
        elim (first_named (casefold part) entries) [
          | none ↦ ok none
          | some found ↦ elim (not (is_last rest) && not (directory found)) [
            | true ↦ ok none
            | false ↦ find_from (some found) rest
          ]
        ]

    unfoldable pub find : Text → Result Error (Option DirectoryEntry)
    unfolding path_parts find_from
    find path = find_from none (path_parts path)

    unfoldable pub read_file_range : Text → ℤ → ℤ → ℕ → Result Error Bytes
    unfolding regular_file read_range
    read_file_range path (negsuc n) size max_size = err negative_offset
    read_file_range path (pos offset) (negsuc n) max_size = err negative_size
    read_file_range path (pos offset) (pos size) max_size = do
      raise_if (ltb max_size size) exceeds_limit
      found ← find path
      entry ← regular_file found
      read_range reader offset size entry

    unfoldable pub read_file : Text → ℕ → Result Error Bytes
    unfolding regular_file read_whole
    read_file path max_size = do
      found ← find path
      entry ← regular_file found
      read_whole reader max_size entry
