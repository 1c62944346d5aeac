-- ===== src/Iso9660/Reads.antt =====
-- iso9660.py: what `__init__` and `read_file` have established when they return.
use rom_metadata_framework.Prelude.{
  ℕ, ◌+◌, ◌*◌, ◌≤◌, ◌<◌, ◌≡◌, ◌∙◌, refl, ap, true, false, Option, none, some, length, Text, Bytes,
  slice, byte_at, from_little, from_big, =t=_iff, arith,
}
use rom_metadata_framework.Prelude.{ok, bind-eq-ok}
use rom_metadata_framework.Source.{Source, read_at}
use rom_metadata_framework.Iso9660.Types.{
  DirectoryEntry, iso_sector_size, iso_pvd_offset, iso_pvd_size, iso_standard_identifier,
}
use rom_metadata_framework.Iso9660.Records.{read_both_endian_u16, read_both_endian_u32}
use rom_metadata_framework.Iso9660.Reader.{
  Reader, open_reader, read_extent, read_found, find, read_file,
}

-- The bytes of one extent, inside the source.
pub record IsExtent (reader : Reader) (extent size : ℕ) (data' : Bytes) : Type 0 where
  pub within : extent * iso_sector_size + size ≤ reader.file_size
  pub complete : length data' ≡ size
  pub stored : data' ≡ read_at reader.source (extent * iso_sector_size) size

read_extent-IsExtent :
    (reader : Reader) (extent size : ℕ) {data' : Bytes}
    → read_extent reader extent size ≡ ok data'
    → IsExtent reader extent size data'
unfolding read_extent
read_extent-IsExtent reader extent size h = ground arith

pub record IsFile (reader : Reader) (max_size : ℕ) (entry : DirectoryEntry) (data' : Bytes)
    : Type 0 where
  pub regular : entry.directory ≡ false
  pub positive : 0 < entry.size
  pub bounded : entry.size ≤ max_size
  pub extent : IsExtent reader entry.extent entry.size data'

read_found-IsFile :
    (reader : Reader) (max_size : ℕ) (found : Option DirectoryEntry) {data' : Bytes}
    → read_found reader max_size found ≡ ok data'
    → (entry : DirectoryEntry) × (found ≡ some entry) × IsFile reader max_size entry data'
unfolding read_found
read_found-IsFile reader max_size none h = absurd (cc h)
read_found-IsFile reader max_size (some entry) {data'} h = (
  entry,
  refl,
  record {
    regular = ground arith;
    positive = ground arith;
    bounded = ground arith;
    extent = read_extent-IsExtent reader entry.extent entry.size (ground arith);
  },
)

-- A file that `read_file` returns is that of the entry which `find` gave: no directory, of positive
-- size within the limit, its extent inside the source and read in full.
pub read_file-IsFile :
    (upper : Text → Text) (reader : Reader) (path : Text) (max_size : ℕ) {data' : Bytes}
    → read_file upper reader path max_size ≡ ok data'
    → (entry : DirectoryEntry) × (find upper reader path ≡ ok (some entry))
      × IsFile reader max_size entry data'
unfolding read_file
read_file-IsFile upper reader path max_size h =
    let (found, f, rest) = bind-eq-ok (find upper reader path) _ h in
    let (entry, e, file) = read_found-IsFile reader max_size found rest in
    (entry, f ∙ ap ok e, file)

abbrev pub root_record : Source → Bytes
root_record source =
    let pvd = read_at source iso_pvd_offset iso_pvd_size in slice pvd 156 (156 + byte_at pvd 156)

-- The four bytes at the offset, the lowest first, and the four behind, the highest first, are the number.
pub record IsBothEndian (data' : Bytes) (offset n : ℕ) : Type 0 where
  pub little : from_little (slice data' offset (offset + 4)) ≡ n
  pub big : from_big (slice data' (offset + 4) (offset + 8)) ≡ n

read_both_endian_u32-IsBothEndian :
    (data' : Bytes) (offset n : ℕ)
    → read_both_endian_u32 data' offset ≡ ok n
    → IsBothEndian data' offset n
unfolding read_both_endian_u32
read_both_endian_u32-IsBothEndian data' offset n h = record {
  little = ground (arith, h);
  big = ground (arith, h);
}

-- What the primary volume descriptor of an accepted image says.
pub record IsVolume (source : Source) (max_directory_size : ℕ) (reader : Reader) : Type 0 where
  pub regular : source.regular ≡ true
  pub complete : length (read_at source iso_pvd_offset iso_pvd_size) ≡ iso_pvd_size
  pub primary : byte_at (read_at source iso_pvd_offset iso_pvd_size) 0 ≡ 1
  pub standard : slice (read_at source iso_pvd_offset iso_pvd_size) 1 6 ≡ iso_standard_identifier
  pub version : byte_at (read_at source iso_pvd_offset iso_pvd_size) 6 ≡ 1
  pub block_size :
      read_both_endian_u16 (read_at source iso_pvd_offset iso_pvd_size) 128 ≡ ok iso_sector_size
  pub root_length : 34 ≤ byte_at (read_at source iso_pvd_offset iso_pvd_size) 156
  pub root_complete :
      length (root_record source) ≡ byte_at (read_at source iso_pvd_offset iso_pvd_size) 156
  pub root_directory : reader.root.directory ≡ true
  pub extent_orders : IsBothEndian (root_record source) 2 reader.root.extent
  pub size_orders : IsBothEndian (root_record source) 10 reader.root.size
  pub root_extent : read_both_endian_u32 (root_record source) 2 ≡ ok reader.root.extent
  pub root_size : read_both_endian_u32 (root_record source) 10 ≡ ok reader.root.size
  pub same_source : reader.source ≡ source
  pub same_size : reader.file_size ≡ source.st_size
  pub same_limit : reader.max_directory_size ≡ max_directory_size

-- A reader that `__init__` returns is of a regular file whose primary volume descriptor is complete,
-- has the standard's type, identifier and version and blocks of 2048 bytes; its root is a directory
-- with the extent and the size on which both byte orders of the root record agree.
pub open_reader-IsVolume :
    (source : Source) (max_directory_size : ℕ) {reader : Reader}
    → open_reader source max_directory_size ≡ ok reader
    → IsVolume source max_directory_size reader
unfolding open_reader
open_reader-IsVolume source max_directory_size {reader} h = ground (
  arith,
  =t=_iff (slice (read_at source iso_pvd_offset iso_pvd_size) 1 6) iso_standard_identifier,
  read_both_endian_u32-IsBothEndian (root_record source) 2 reader.root.extent,
  read_both_endian_u32-IsBothEndian (root_record source) 10 reader.root.size,
)
