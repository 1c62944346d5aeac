-- ===== src/Xdvdfs/Reader.antt =====
-- xdvdfs.py: `BoundedXdvdfs.__init__`, `_read_descriptor`, `_validate_extent` and
-- `_read_directory_table`. The limits are natural numbers; a partition offset may be negative.
use rom_metadata_framework.Prelude.{
  ℕ, ◌+◌, ◌-◌, ◌*◌, ◌==◌, ltb, leb, not, ◌||◌, if◌then◌else◌, Option, none, some, List, [], ◌∷◌,
  length, Bytes, slice, from_little, ◌=t=◌,
}
use rom_metadata_framework.Prelude.{Result, ok, err, ◌>>=◌, ◌>>◌, raise_if}
use rom_metadata_framework.Prelude.{ℤ, pos, negsuc}
use rom_metadata_framework.Source.{Source, read_at}
use rom_metadata_framework.Xdvdfs.Types.{
  sector_size, magic, Error, not_regular_file, descriptor_not_present, root_invalid_size,
  root_exceeds_limit, extent_beyond_file, extends_beyond_file, not_a_directory, invalid_size,
  exceeds_limit, truncated, DirectoryEntry, directory, VolumeDescriptor,
}

-- _u16le and _u32le
unfoldable pub u16le : Bytes → ℕ → ℕ
unfolding slice from_little
u16le data' offset = from_little (slice data' offset (offset + 2))

unfoldable pub u32le : Bytes → ℕ → ℕ
unfolding slice from_little
u32le data' offset = from_little (slice data' offset (offset + 4))

pub record Reader : Type 0 where
  pub source : Source
  pub file_size : ℕ
  pub max_directory_size : ℕ
  pub max_directory_nodes : ℕ
  pub volume : VolumeDescriptor

-- _validate_extent, on the two fields of the reader that it reads
unfoldable pub validate_extent : ℕ → ℕ → ℕ → ℕ → Result Error ℕ
validate_extent file_size partition_offset sector size =
    let offset = partition_offset + sector * sector_size in
    if ltb file_size offset
    then err extent_beyond_file
    else if ltb (file_size - offset) size
    then err extends_beyond_file
    else ok offset

-- _read_descriptor: `ok none` where the source returns `None`
unfoldable pub read_descriptor : Source → ℕ → ℤ → Result Error (Option VolumeDescriptor)
unfolding validate_extent
read_descriptor source max_directory_size (negsuc n) = ok none
read_descriptor source max_directory_size (pos partition_offset) =
    let descriptor_offset = partition_offset + 32 * sector_size in
    let data' = read_at source descriptor_offset sector_size in
    let root_sector = u32le data' 0x14 in
    let root_size = u32le data' 0x18 in
    if ltb source.st_size descriptor_offset || ltb (source.st_size - descriptor_offset) sector_size
    then ok none
    else if not (length data' == sector_size)
    then ok none
    else if not (slice data' 0 20 =t= magic)
    then ok none
    else if not (slice data' 0x7EC 0x800 =t= magic)
    then ok none
    else if leb root_size 0
    then err root_invalid_size
    else if ltb max_directory_size root_size
    then err root_exceeds_limit
    else validate_extent source.st_size partition_offset root_sector root_size >>= λ _. ok (
        some (record {
          partition_offset = partition_offset;
          descriptor_offset = descriptor_offset;
          root_sector = root_sector;
          root_size = root_size;
        }))

-- The loop of `__init__` over the partition offsets, up to the first descriptor.
unfoldable pub first_descriptor : Source → ℕ → List ℤ → Result Error (Option VolumeDescriptor)
first_descriptor source max_directory_size [] = ok none
first_descriptor source max_directory_size (partition_offset ∷ rest) =
    read_descriptor source max_directory_size partition_offset >>= λ candidate. elim candidate [
      | some descriptor ↦ ok (some descriptor)
      | none ↦ first_descriptor source max_directory_size rest
    ]

-- The end of `__init__`: no descriptor raises, and a descriptor makes the reader.
unfoldable pub with_descriptor : Source → ℕ → ℕ → Option VolumeDescriptor → Result Error Reader
with_descriptor source max_directory_size max_directory_nodes none = err descriptor_not_present
with_descriptor source max_directory_size max_directory_nodes (some descriptor) = ok (record {
  source = source;
  file_size = source.st_size;
  max_directory_size = max_directory_size;
  max_directory_nodes = max_directory_nodes;
  volume = descriptor;
})

-- __init__
unfoldable pub open_reader : Source → List ℤ → ℕ → ℕ → Result Error Reader
unfolding first_descriptor with_descriptor
open_reader source partition_offsets max_directory_size max_directory_nodes = do
  raise_if (not source.regular) not_regular_file
  descriptor ← first_descriptor source max_directory_size partition_offsets
  with_descriptor source max_directory_size max_directory_nodes descriptor

-- The checked part of `_read_directory_table`, from the sector and the size on.
unfoldable pub read_table : Reader → ℕ → ℕ → Result Error Bytes
unfolding validate_extent read_at
read_table reader sector size = do
  raise_if (leb size 0) invalid_size
  raise_if (ltb reader.max_directory_size size) exceeds_limit
  offset ← validate_extent reader.file_size reader.volume.partition_offset sector size
  let data' = read_at reader.source offset size
  raise_if (not (length data' == size)) truncated
  ok data'

-- _read_directory_table: no entry is the root directory
unfoldable pub read_directory_table : Reader → Option DirectoryEntry → Result Error Bytes
unfolding read_table directory
read_directory_table reader none =
    read_table reader reader.volume.root_sector reader.volume.root_size
read_directory_table reader (some entry) = do
  raise_if (not (directory entry)) not_a_directory
  read_table reader entry.sector entry.size
