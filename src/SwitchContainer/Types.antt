-- ===== src/SwitchContainer/Types.antt =====
-- switch_container.py: constants, the error of each `raise`, entries and tables.
use rom_metadata_framework.Prelude.{ℕ, ◌*◌, Option, List, Text, Bytes, codes}

abbrev pub pfs0_magic : Bytes
pfs0_magic = codes "PFS0"

abbrev pub hfs0_magic : Bytes
hfs0_magic = codes "HFS0"

abbrev pub xci_magic : Bytes
xci_magic = codes "HEAD"

abbrev pub pfs0_entry_size : ℕ
pfs0_entry_size = 0x18

abbrev pub hfs0_entry_size : ℕ
hfs0_entry_size = 0x40

abbrev pub xci_header_size : ℕ
xci_header_size = 0x200

abbrev pub xci_magic_offset : ℕ
xci_magic_offset = 0x100

abbrev pub xci_root_hfs0_offset_field : ℕ
xci_root_hfs0_offset_field = 0x130

abbrev pub default_max_file_count : ℕ
default_max_file_count = 4096

abbrev pub default_max_string_table_size : ℕ
default_max_string_table_size = 4 * 1024 * 1024

-- One constructor for each message of `SwitchContainerError`, without the names that it quotes.
pub data Error : Type 0 where
  not_regular_file negative_offset negative_size range_beyond_source truncated : Error
  name_outside_table name_not_terminated name_empty name_not_utf8 : Error
  too_many_files string_table_too_large magic_missing extent_beyond_source : Error
  hashed_size_exceeds_entry duplicate_name range_exceeds_limit range_beyond_entry : Error
  xci_magic_missing xci_root_offset_invalid secure_partition_missing : Error

pub record ContainerEntry : Type 0 where
  pub name : Text
  pub offset : ℕ
  pub size : ℕ
  pub hashed_size : Option ℕ
  pub hash_hex : Option Text

pub record ContainerTable : Type 0 where
  pub format : Text
  pub offset : ℕ
  pub data_offset : ℕ
  pub entries : List ContainerEntry

pub record XciStructure : Type 0 where
  pub root_hfs0_offset : ℕ
  pub root : ContainerTable
  pub secure : ContainerTable
