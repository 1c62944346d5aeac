-- ===== src/Xdvdfs/Types.antt =====
-- xdvdfs.py: constants, the error of each `raise`, directory entries and the volume descriptor.
use rom_metadata_framework.Prelude.{ℕ, ◌*◌, Bool, not, ◌==◌, bit_and, Text, Bytes, codes}

abbrev pub sector_size : ℕ
sector_size = 2048

abbrev pub magic : Bytes
magic = codes "MICROSOFT*XBOX*MEDIA"

abbrev pub default_max_directory_size : ℕ
default_max_directory_size = 8 * 1024 * 1024

abbrev pub default_max_file_size : ℕ
default_max_file_size = 1024 * 1024

abbrev pub default_max_directory_nodes : ℕ
default_max_directory_nodes = 4096

-- One constructor for each message of `XdvdfsFormatError`; the message's own text is left out.
-- `recursion_error` is the interpreter's `RecursionError`, which `list_directory` does not catch.
pub data Error : Type 0 where
  not_regular_file descriptor_not_present root_invalid_size root_exceeds_limit : Error
  extent_beyond_file extends_beyond_file not_a_directory invalid_size exceeds_limit : Error
  truncated too_many_nodes node_outside_data name_beyond_data name_not_ascii name_empty : Error
  negative_offset negative_size path_not_present path_is_directory : Error
  range_starts_beyond_file range_extends_beyond_file recursion_error : Error

pub record DirectoryEntry : Type 0 where
  pub name : Text
  pub sector : ℕ
  pub size : ℕ
  pub attributes : ℕ

-- The property `directory`.
unfoldable pub directory : DirectoryEntry → Bool
directory entry = not (bit_and entry.attributes 0x10 == 0)

pub record VolumeDescriptor : Type 0 where
  pub partition_offset : ℕ
  pub descriptor_offset : ℕ
  pub root_sector : ℕ
  pub root_size : ℕ
