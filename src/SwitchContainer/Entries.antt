-- ===== src/SwitchContainer/Entries.antt =====
-- switch_container.py: `find_entry`, `read_entry_range` and `parse_xci`. The case folding of
-- `str.casefold` is the interpreter's Unicode table, a parameter of which nothing is assumed.
use rom_metadata_framework.Prelude.{
  Bool, ℕ, ◌+◌, ◌%◌, ◌==◌, ltb, not, ◌||◌, Option, none, some, List, [], ◌∷◌, keep, Text, codes,
  ◌=t=◌, Bytes, slice, ℤ, pos, negsuc,
}
use rom_metadata_framework.Prelude.{Result, ok, err, ◌>>=◌, ◌>>◌, raise_if}
use rom_metadata_framework.Source.{Source}
use rom_metadata_framework.SwitchContainer.Types.{
  xci_magic, xci_header_size, xci_magic_offset, xci_root_hfs0_offset_field, default_max_file_count,
  default_max_string_table_size, Error, not_regular_file, negative_offset, negative_size,
  range_exceeds_limit, range_beyond_entry, duplicate_name, xci_magic_missing,
  xci_root_offset_invalid, secure_partition_missing, ContainerEntry, ContainerTable, XciStructure,
}
use rom_metadata_framework.SwitchContainer.Tables.{read_exact, field, parse_hfs0}
use rom_metadata_framework.SwitchContainer.Names.{or_raise}

-- At most one match is an answer.
unfoldable pub only_match : List ContainerEntry → Result Error (Option ContainerEntry)
only_match [] = ok none
only_match (entry ∷ []) = ok (some entry)
only_match (entry ∷ entry' ∷ more) = err duplicate_name

unfoldable pub read_entry_range : Source → ContainerEntry → ℤ → ℤ → ℕ → Result Error Bytes
unfolding read_exact
read_entry_range source entry (negsuc n) size max_size = err negative_offset
read_entry_range source entry (pos offset) (negsuc n) max_size = err negative_size
read_entry_range source entry (pos offset) (pos size) max_size = do
  raise_if (ltb max_size size) range_exceeds_limit
  raise_if (ltb entry.size (offset + size)) range_beyond_entry
  raise_if (not source.regular) not_regular_file
  read_exact source (entry.offset + offset) size

module _ (casefold : Text → Text) where
  abbrev pub named : Text → ContainerEntry → Bool
  named name entry = casefold entry.name =t= casefold name

  unfoldable pub find_entry : ContainerTable → Text → Result Error (Option ContainerEntry)
  unfolding only_match ◌=t=◌
  find_entry table name = only_match (keep (named name) table.entries)

  -- The part of `parse_xci` behind the header.
  unfoldable pub parse_partitions : Source → ℕ → Result Error XciStructure
  unfolding find_entry or_raise parse_hfs0
  parse_partitions source root_offset = do
    root ← parse_hfs0 source (pos root_offset) 16 default_max_string_table_size
    found ← find_entry root (codes "secure")
    secure_entry ← or_raise found secure_partition_missing
    secure ←
        parse_hfs0 source (pos secure_entry.offset) default_max_file_count
          default_max_string_table_size
    ok (record { root_hfs0_offset = root_offset; root = root; secure = secure })

  unfoldable pub parse_xci : Source → Result Error XciStructure
  unfolding parse_partitions
  parse_xci source = do
    raise_if (not source.regular) not_regular_file
    header ← read_exact source 0 xci_header_size
    raise_if (not (slice header xci_magic_offset (xci_magic_offset + 4) =t= xci_magic))
        xci_magic_missing
    let root_offset = field header xci_root_hfs0_offset_field (xci_root_hfs0_offset_field + 8)
    raise_if (ltb root_offset xci_header_size || not (root_offset % 0x200 == 0))
        xci_root_offset_invalid
    parse_partitions source root_offset
