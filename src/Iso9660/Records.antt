-- ===== src/Iso9660/Records.antt =====
-- iso9660.py: the decoders of fields and of one directory record.
use rom_metadata_framework.Prelude.{
  ℕ, ◌+◌, ◌*◌, ◌/◌, ◌==◌, ltb, leb, min, not, ◌||◌, bit_and, if◌then◌else◌, Option, none, some, [],
  ◌∷◌, map, length, Text, codes, ◌=t=◌, strip_right, Bytes, slice, byte_at, from_little, from_big,
}
use rom_metadata_framework.Prelude.{Result, ok, err, ◌>>=◌, ◌>>◌, raise_if}
use rom_metadata_framework.Iso9660.Types.{
  iso_sector_size, Error, endian_values_disagree, record_beyond_data, record_too_short,
  identifier_truncated, DirectoryEntry,
}

-- One byte under `decode("ascii", errors="replace")`.
abbrev pub replace_byte : ℕ → ℕ
replace_byte b = if ltb b 128 then b else 0xfffd

-- decode_ascii_field: the blanks of the right end are spaces and NULs
unfoldable pub decode_ascii_field : Bytes → Text
unfolding strip_right
decode_ascii_field value = strip_right (λ c. c == b' ' || c == 0) (map replace_byte value)

unfoldable pub read_both_endian_u16 : Bytes → ℕ → Result Error ℕ
unfolding slice from_little from_big
read_both_endian_u16 data' offset =
    let little = from_little (slice data' offset (offset + 2)) in
    let big = from_big (slice data' (offset + 2) (offset + 4)) in
    if not (little == big) then err endian_values_disagree else ok little

unfoldable pub read_both_endian_u32 : Bytes → ℕ → Result Error ℕ
unfolding slice from_little from_big
read_both_endian_u32 data' offset =
    let little = from_little (slice data' offset (offset + 4)) in
    let big = from_big (slice data' (offset + 4) (offset + 8)) in
    if not (little == big) then err endian_values_disagree else ok little

-- name.split(";", 1)[0]
unfoldable pub before_semicolon : Text → Text
before_semicolon [] = []
before_semicolon (c ∷ s) = let rest = before_semicolon s in if c == b';' then [] else c ∷ rest

-- The name of a record, whose two special identifiers are single bytes.
unfoldable pub entry_name : Bytes → Text
unfolding before_semicolon decode_ascii_field ◌=t=◌
entry_name raw_name =
    if raw_name =t= (0 ∷ [])
    then codes "."
    else if raw_name =t= (1 ∷ [])
    then codes ".."
    else before_semicolon (decode_ascii_field raw_name)

-- The fields of a record of its full length.
unfoldable pub parse_record : Bytes → Result Error DirectoryEntry
unfolding byte_at
parse_record record' = do
  raise_if (ltb (length record') 34) record_too_short
  let name_end = 33 + byte_at record' 32
  raise_if (ltb (length record') name_end) identifier_truncated
  extent ← read_both_endian_u32 record' 2
  size ← read_both_endian_u32 record' 10
  ok (record {
    name = entry_name (slice record' 33 name_end);
    extent = extent;
    size = size;
    directory = not (bit_and (byte_at record' 25) 2 == 0);
  })

-- parse_directory_entry: an entry or none, with the next offset
unfoldable pub parse_directory_entry : Bytes → ℕ → Result Error (Option DirectoryEntry × ℕ)
unfolding byte_at slice
parse_directory_entry data' offset =
    let record_length = byte_at data' offset in
    let end' = offset + record_length in
    let next_sector = (offset / iso_sector_size + 1) * iso_sector_size in
    if leb (length data') offset
    then ok (none, length data')
    else if record_length == 0
    then ok (none, min next_sector (length data'))
    else if ltb (length data') end'
    then err record_beyond_data
    else parse_record (slice data' offset end') >>= λ entry. ok (some entry, end')
