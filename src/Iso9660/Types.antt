-- ===== src/Iso9660/Types.antt =====
-- iso9660.py: constants, the error of each `raise` and the directory entry.
use rom_metadata_framework.Prelude.{ℕ, ◌*◌, Bool, Text, Bytes, codes}

abbrev pub iso_sector_size : ℕ
iso_sector_size = 2048

abbrev pub iso_pvd_offset : ℕ
iso_pvd_offset = 16 * iso_sector_size

abbrev pub iso_pvd_size : ℕ
iso_pvd_size = iso_sector_size

abbrev pub iso_standard_identifier : Bytes
iso_standard_identifier = codes "CD001"

-- One constructor for each message of `Iso9660FormatError`, without the names that it quotes.
-- `out_of_fuel` is no error of the source: it marks a model of the loop stopped too early.
pub data Error : Type 0 where
  endian_values_disagree record_beyond_data record_too_short identifier_truncated : Error
  not_regular_file pvd_truncated pvd_not_present bad_block_size : Error
  root_record_invalid root_record_truncated : Error
  extent_beyond_file extends_beyond_file not_a_directory invalid_size exceeds_limit : Error
  truncated no_forward_progress path_not_present path_is_directory out_of_fuel : Error

pub record DirectoryEntry : Type 0 where
  pub name : Text
  pub extent : ℕ
  pub size : ℕ
  pub directory : Bool
