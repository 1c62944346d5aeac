-- ===== src/SwitchContainer/Tests.antt =====
-- Small containers, and the theorems at them.
use rom_metadata_framework.Prelude.{
  ℕ, zero, suc, ◌≤◌, ◌≡◌, refl, true, none, some, [], ◌∷◌, ◌++◌, Text, Bytes, codes, ◌=t=◌, arith,
  pos, ok, err, slice, from_little,
}
use rom_metadata_framework.Source.{Source, read_at}
use rom_metadata_framework.SwitchContainer.Types.{
  ContainerEntry, ContainerTable, XciStructure, too_many_files,
}
use rom_metadata_framework.SwitchContainer.Names.{read_name, decode_utf8, or_raise, hex}
use rom_metadata_framework.SwitchContainer.Tables.{
  parse_pfs0, parse_hfs0, parse_at, read_exact, read_layout, read_tables, validate_table_bounds,
  entries_from, pfs0_entry, hfs0_entry, field, pfs0, hfs0,
}
use rom_metadata_framework.SwitchContainer.Entries.{
  find_entry, parse_partitions, read_entry_range, parse_xci,
}
use rom_metadata_framework.SwitchContainer.Bounds.{
  IsTable, IsInside, parse_pfs0-IsTable, parse_hfs0-IsTable,
}
use rom_metadata_framework.SwitchContainer.Lookup.{Answers, find_entry-Answers}
use rom_metadata_framework.SwitchContainer.Access.{
  IsRange, IsImage, read_entry_range-IsRange, read_entry_range-returns, parse_xci-IsImage,
}

zeros : ℕ → Bytes → Bytes
zeros zero rest = rest
zeros (suc n) rest = 0 ∷ zeros n rest

-- a number below 256 in so many bytes behind it
abbrev small : ℕ → ℕ → Bytes → Bytes
small n behind rest = n ∷ zeros behind rest

archive : Bytes
unfolding zeros
archive =
    codes "PFS0"
    ++ small 1 3 (
        small 2 3
          (small 0 3 (small 1 7 (small 2 7 (small 0 3 (small 0 3 (b'A' ∷ 0 ∷ 7 ∷ 8 ∷ 9 ∷ [])))))))

abbrev archive_source : Source
archive_source = record { regular = true; st_size = 45; content = archive }

abbrev entry_a : ContainerEntry
entry_a = record { name = codes "A"; offset = 43; size = 2; hashed_size = none; hash_hex = none }

abbrev archive_table : ContainerTable
archive_table = record {
  format = codes "pfs0";
  offset = 0;
  data_offset = 42;
  entries = entry_a ∷ [];
}

parsed_archive : parse_pfs0 archive_source (pos 0) 4 64 ≡ ok archive_table
unfolding parse_pfs0 parse_at read_layout read_tables read_exact validate_table_bounds entries_from
    pfs0_entry field read_name or_raise decode_utf8 archive zeros read_at slice ◌=t=◌ from_little
parsed_archive = refl

too_many : parse_pfs0 archive_source (pos 0) 0 64 ≡ err too_many_files
unfolding parse_pfs0 parse_at read_layout read_tables read_exact validate_table_bounds field archive
    zeros read_at slice ◌=t=◌ from_little
too_many = refl

parse_pfs0-IsTable_example :
    (n : ℕ) × (pos 0 ≡ pos n) × IsTable pfs0 archive_source n 4 64 archive_table
parse_pfs0-IsTable_example = parse_pfs0-IsTable archive_source (pos 0) 4 64 parsed_archive

abbrev same : Text → Text
same s = s

find_entry-Answers_example :
    Answers same (codes "A") archive_table.entries (find_entry same archive_table (codes "A"))
find_entry-Answers_example = find_entry-Answers same (codes "A") archive_table

read_a : read_entry_range archive_source entry_a (pos 1) (pos 1) 9 ≡ ok (9 ∷ [])
unfolding read_entry_range read_exact archive zeros read_at
read_a = refl

read_entry_range-IsRange_example : IsRange archive_source entry_a (pos 1) (pos 1) 9 (9 ∷ [])
read_entry_range-IsRange_example =
    read_entry_range-IsRange archive_source entry_a (pos 1) (pos 1) 9 read_a

entry_a-IsInside : IsInside archive_source 42 entry_a
entry_a-IsInside = record {
  behind = omega arith;
  within = omega arith;
  named = λ e. cc;
  hashed = λ n e. absurd (cc e);
}

whole : archive_source.st_size ≤ 45
whole = omega arith

read_entry_range-returns_example :
    read_entry_range archive_source entry_a (pos 1) (pos 1) 9 ≡ ok (read_at archive_source 44 1)
unfolding archive zeros
read_entry_range-returns_example =
    read_entry_range-returns archive_source 42 entry_a 1 1 9 entry_a-IsInside refl whole
      (omega arith) (omega arith)

-- an HFS0 table of one entry
abbrev hashed_entry : Bytes → ℕ → Bytes → Bytes
hashed_entry magic size rest =
    magic
    ++ small 1 3
        (small 8 3 (small 0 3 (small 0 7 (small size 7 (small 0 3 (small 1 3 (zeros 40 rest)))))))

card : Bytes
unfolding zeros
card = zeros 0x100 (
    codes "HEAD"
    ++ zeros 0x2c (
        0
        ∷ small 2 6 (
            zeros 0xc8 (
              hashed_entry (codes "HFS0") 90 (
                codes "secure"
                ++ 0 ∷ 0 ∷ hashed_entry (codes "HFS0") 2 (codes "program" ++ 0 ∷ 7 ∷ 7 ∷ []))))))

card_source : Source
card_source = record { regular = true; st_size = 690; content = card }

-- the hash of 32 zeros
no_hash : Text
unfolding zeros hex
no_hash = hex (zeros 32 [])

abbrev structure : XciStructure
structure = record {
  root_hfs0_offset = 0x200;
  root = record {
    format = codes "hfs0";
    offset = 0x200;
    data_offset = 600;
    entries =
        record {
          name = codes "secure";
          offset = 600;
          size = 90;
          hashed_size = some 1;
          hash_hex = some no_hash;
        }
        ∷ [];
  };
  secure = record {
    format = codes "hfs0";
    offset = 600;
    data_offset = 688;
    entries =
        record {
          name = codes "program";
          offset = 688;
          size = 2;
          hashed_size = some 1;
          hash_hex = some no_hash;
        }
        ∷ [];
  };
}

parsed_card : parse_xci same card_source ≡ ok structure
unfolding parse_xci parse_partitions parse_hfs0 parse_at read_layout read_tables read_exact
    validate_table_bounds entries_from hfs0_entry hex no_hash field read_name or_raise decode_utf8
    find_entry card card_source zeros read_at slice ◌=t=◌ from_little
parsed_card = refl

abbrev secure_table : ContainerTable
secure_table = structure.secure

parsed_secure : parse_hfs0 card_source (pos 600) 4 64 ≡ ok secure_table
unfolding parse_hfs0 parse_at read_layout read_tables read_exact validate_table_bounds entries_from
    hfs0_entry hex no_hash field read_name or_raise decode_utf8 card card_source zeros read_at slice
    ◌=t=◌ from_little
parsed_secure = refl

parse_hfs0-IsTable_example :
    (n : ℕ) × (pos 600 ≡ pos n) × IsTable hfs0 card_source n 4 64 secure_table
parse_hfs0-IsTable_example = parse_hfs0-IsTable card_source (pos 600) 4 64 parsed_secure

parse_xci-IsImage_example : IsImage same card_source (read_at card_source 0 0x200) structure
parse_xci-IsImage_example = parse_xci-IsImage same card_source parsed_card
