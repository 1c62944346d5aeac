-- ===== src/SwitchContainer/Tables.antt =====
-- switch_container.py: `_read_exact`, `parse_pfs0` and `parse_hfs0`. An offset may be negative, the
-- limits are natural numbers. What the two parsers do alike is one definition here.
use rom_metadata_framework.Prelude.{
  ℕ, zero, suc, ◌+◌, ◌*◌, ◌==◌, ltb, not, if◌then◌else◌, none, some, List, [], ◌∷◌, length, Text,
  codes, ◌=t=◌, Bytes, slice, from_little, ℤ, pos, negsuc,
}
use rom_metadata_framework.Prelude.{Result, ok, err, ◌>>=◌, ◌>>◌, raise_if}
use rom_metadata_framework.Source.{Source, read_at}
use rom_metadata_framework.SwitchContainer.Types.{
  pfs0_magic, hfs0_magic, pfs0_entry_size, hfs0_entry_size, Error, not_regular_file,
  negative_offset, range_beyond_source, truncated, too_many_files, string_table_too_large,
  magic_missing, extent_beyond_source, hashed_size_exceeds_entry, ContainerEntry, ContainerTable,
}
use rom_metadata_framework.SwitchContainer.Names.{read_name, hex}

-- _read_exact, from its test of the range on
unfoldable pub read_exact : Source → ℕ → ℕ → Result Error Bytes
read_exact source offset size =
    if ltb source.st_size (offset + size)
    then err range_beyond_source
    else (let data' = read_at source offset size in
        if not (length data' == size) then err truncated else ok data')

-- int.from_bytes(data[from:to], "little")
unfoldable pub field : Bytes → ℕ → ℕ → ℕ
field data' from to = from_little (slice data' from to)

-- _validate_table_bounds
unfoldable pub validate_table_bounds : ℕ → ℕ → ℕ → ℕ → Result Error (Unit {0})
validate_table_bounds count string_size max_files max_string_table_size = do
  raise_if (ltb max_files count) too_many_files
  raise_if (ltb max_string_table_size string_size) string_table_too_large

-- What both parsers read before their loops.
pub record Layout : Type 0 where
  pub count : ℕ
  pub string_size : ℕ
  pub entries_raw : Bytes
  pub strings : Bytes

-- The two tables behind a header with these fields.
unfoldable pub read_tables : Source → ℕ → ℕ → ℕ → ℕ → ℕ → ℕ → Result Error Layout
unfolding validate_table_bounds
read_tables source entry_size offset count string_size max_files max_string_table_size = do
  validate_table_bounds count string_size max_files max_string_table_size
  entries_raw ← read_exact source (offset + 0x10) (count * entry_size)
  strings ← read_exact source (offset + 0x10 + count * entry_size) string_size
  ok (record {
    count = count;
    string_size = string_size;
    entries_raw = entries_raw;
    strings = strings;
  })

unfoldable pub read_layout : Source → Bytes → ℕ → ℕ → ℕ → ℕ → Result Error Layout
read_layout source magic entry_size offset max_files max_string_table_size = do
  fixed ← read_exact source offset 0x10
  raise_if (not (slice fixed 0 4 =t= magic)) magic_missing
  read_tables source entry_size offset (field fixed 4 8) (field fixed 8 12) max_files
      max_string_table_size

-- The body of the loop of `parse_pfs0`, on one item of the table.
unfoldable pub pfs0_entry : Source → Bytes → ℕ → Bytes → Result Error ContainerEntry
pfs0_entry source strings data_offset item = do
  let relative = field item 0x00 0x08
  let size = field item 0x08 0x10
  name ← read_name strings (field item 0x10 0x14)
  raise_if (ltb source.st_size (data_offset + relative + size)) extent_beyond_source
  ok (record {
    name = name;
    offset = data_offset + relative;
    size = size;
    hashed_size = none;
    hash_hex = none;
  })

-- The body of the loop of `parse_hfs0`.
unfoldable pub hfs0_entry : Source → Bytes → ℕ → Bytes → Result Error ContainerEntry
hfs0_entry source strings data_offset item = do
  let relative = field item 0x00 0x08
  let size = field item 0x08 0x10
  let hashed_size = field item 0x14 0x18
  name ← read_name strings (field item 0x10 0x14)
  raise_if (ltb source.st_size (data_offset + relative + size)) extent_beyond_source
  raise_if (ltb size hashed_size) hashed_size_exceeds_entry
  ok (record {
    name = name;
    offset = data_offset + relative;
    size = size;
    hashed_size = some hashed_size;
    hash_hex = some (hex (slice item 0x20 0x40));
  })

-- for index in range(count), with so many rounds left
unfoldable pub entries_from :
    (Bytes → Result Error ContainerEntry) → Bytes → ℕ → ℕ → ℕ → Result Error (List ContainerEntry)
entries_from body entries_raw entry_size zero index = ok []
entries_from body entries_raw entry_size (suc left) index =
    body (slice entries_raw (index * entry_size) (index * entry_size + entry_size)) >>= λ entry.
    entries_from body entries_raw entry_size left (index + 1) >>= λ rest. ok (entry ∷ rest)

-- What differs between the two formats.
pub record Format : Type 0 where
  pub name : Text
  pub magic : Bytes
  pub entry_size : ℕ
  pub body : Source → Bytes → ℕ → Bytes → Result Error ContainerEntry

abbrev pub pfs0 : Format
pfs0 = record {
  name = codes "pfs0";
  magic = pfs0_magic;
  entry_size = pfs0_entry_size;
  body = pfs0_entry;
}

abbrev pub hfs0 : Format
hfs0 = record {
  name = codes "hfs0";
  magic = hfs0_magic;
  entry_size = hfs0_entry_size;
  body = hfs0_entry;
}

-- The text that the two parsers share, at an offset that is not negative.
unfoldable pub parse_at : Format → Source → ℕ → ℕ → ℕ → Result Error ContainerTable
unfolding read_layout entries_from
parse_at format source offset max_files max_string_table_size = do
  layout ← read_layout source format.magic format.entry_size offset max_files max_string_table_size
  let data_offset = offset + 0x10 + layout.count * format.entry_size + layout.string_size
  entries ←
      entries_from (format.body source layout.strings data_offset) layout.entries_raw
        format.entry_size layout.count 0
  ok (record {
    format = format.name;
    offset = offset;
    data_offset = data_offset;
    entries = entries;
  })

-- `_source_size` raises before `_read_exact` does for a negative offset.
unfoldable pub parse_container : Format → Source → ℤ → ℕ → ℕ → Result Error ContainerTable
unfolding parse_at
parse_container format source (negsuc n) max_files max_string_table_size =
    raise_if (not source.regular) not_regular_file >> err negative_offset
parse_container format source (pos offset) max_files max_string_table_size =
    raise_if (not source.regular) not_regular_file
    >> parse_at format source offset max_files max_string_table_size

unfoldable pub parse_pfs0 : Source → ℤ → ℕ → ℕ → Result Error ContainerTable
unfolding parse_container pfs0_entry
parse_pfs0 = parse_container pfs0

unfoldable pub parse_hfs0 : Source → ℤ → ℕ → ℕ → Result Error ContainerTable
unfolding parse_container hfs0_entry
parse_hfs0 = parse_container hfs0
