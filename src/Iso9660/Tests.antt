-- ===== src/Iso9660/Tests.antt =====
-- A small image, the theorems at it, and the errors of the reader.
use rom_metadata_framework.Prelude.{
  ℕ, zero, suc, ◌≡◌, ◌≢◌, refl, true, some, List, [], ◌∷◌, ◌++◌, map, Text, Bytes, codes, arith, ok,
  err, ◌=t=◌, slice, byte_at,
}
use rom_metadata_framework.Source.{Source, read_at}
use rom_metadata_framework.Iso9660.Types.{
  DirectoryEntry, no_forward_progress, out_of_fuel, record_too_short, path_is_directory,
}
use rom_metadata_framework.Iso9660.Records.{
  parse_directory_entry, parse_record, entry_name, read_both_endian_u16, read_both_endian_u32,
  decode_ascii_field,
}
use rom_metadata_framework.Iso9660.Reader.{
  Reader, open_reader, read_directory, read_extent, find, read_file,
}
use rom_metadata_framework.Iso9660.Progress.{read_directory-terminates}
use rom_metadata_framework.Iso9660.RoundTrip.{Item, entry_of}
use rom_metadata_framework.Iso9660.Listing.{IsListed, encode_items, read_directory-encode}
use rom_metadata_framework.Iso9660.Reads.{IsFile, read_file-IsFile, IsVolume, open_reader-IsVolume}

abbrev item_a : Item
item_a = record { name = codes "A.BIN"; version = codes "1"; extent = 0; size = 4; flags = 0 }

abbrev item_b : Item
item_b = record { name = codes "SUB"; version = codes "1"; extent = 0; size = 78; flags = 2 }

abbrev items : List Item
items = item_a ∷ item_b ∷ []

abbrev source : Source
source = record { regular = true; st_size = 78; content = encode_items items }

abbrev reader : Reader
reader = record {
  source = source;
  file_size = 78;
  max_directory_size = 2048;
  volume_identifier = codes "TEST";
  root = record { name = codes "root"; extent = 0; size = 78; directory = true };
}

abbrev same : Text → Text
same s = s

list_root : read_directory reader reader.root ≡ ok (entry_of item_a ∷ entry_of item_b ∷ [])
unfolding read_directory parse_directory_entry parse_record entry_name read_both_endian_u32
list_root = refl

read_directory-terminates_example :
    (read_directory reader reader.root ≢ err no_forward_progress)
    × (read_directory reader reader.root ≢ err out_of_fuel)
read_directory-terminates_example = read_directory-terminates reader reader.root

item_a-IsListed : IsListed item_a
item_a-IsListed = record {
  storable = record {
    plain = omega arith;
    named = λ e. cc e;
    extent_fits = omega arith;
    size_fits = omega arith;
    identifier_fits = omega arith;
  };
  not_self = λ e. cc e;
  not_parent = λ e. cc e;
}

item_b-IsListed : IsListed item_b
item_b-IsListed = record {
  storable = record {
    plain = omega arith;
    named = λ e. cc e;
    extent_fits = omega arith;
    size_fits = omega arith;
    identifier_fits = omega arith;
  };
  not_self = λ e. cc e;
  not_parent = λ e. cc e;
}

stored : read_extent reader 0 78 ≡ ok (encode_items items)
unfolding read_extent
stored = refl

read_directory-encode_example : read_directory reader reader.root ≡ ok (map entry_of items)
read_directory-encode_example =
    read_directory-encode reader reader.root items refl (omega arith) (omega arith) stored
      (item_a-IsListed, (item_b-IsListed, tt))

read_a : read_file same reader (codes "/SUB/A.BIN") 4 ≡ ok (40 ∷ 0 ∷ 0 ∷ 0 ∷ [])
unfolding read_file find read_directory parse_directory_entry parse_record entry_name
    read_both_endian_u32
read_a = refl

read_file-IsFile_example :
    (entry : DirectoryEntry) × (find same reader (codes "/SUB/A.BIN") ≡ ok (some entry))
    × IsFile reader 4 entry (40 ∷ 0 ∷ 0 ∷ 0 ∷ [])
read_file-IsFile_example = read_file-IsFile same reader (codes "/SUB/A.BIN") 4 read_a

errors :
    (read_file same reader (codes "//") 4 ≡ err path_is_directory)
    × (parse_directory_entry (7 ∷ 0 ∷ 0 ∷ 0 ∷ 0 ∷ 0 ∷ 0 ∷ []) 0 ≡ err record_too_short)
unfolding read_file find parse_directory_entry parse_record
errors = (refl, refl)

long : ℕ → Bytes → Bytes
long zero rest = rest
long (suc n) rest = 0 ∷ long n rest

-- 16 sectors, then the descriptor, whose root record names sector 20 and 2048 bytes
image : Bytes
unfolding long
image = long 32768 (
    1
    ∷ (codes "CD001"
        ++ (1
            ∷ long 33 (
                codes "DISC"
                ++ long 84 (
                    0
                    ∷ 8
                    ∷ 8
                    ∷ 0
                    ∷ long 24 (
                        34
                        ∷ 0
                        ∷ 20
                        ∷ 0
                        ∷ 0
                        ∷ 0
                        ∷ 0
                        ∷ 0
                        ∷ 0
                        ∷ 20
                        ∷ 0
                        ∷ 8
                        ∷ 0
                        ∷ 0
                        ∷ 0
                        ∷ 0
                        ∷ 8
                        ∷ 0
                        ∷ long 1874 []))))))

abbrev image_source : Source
image_source = record { regular = true; st_size = 34816; content = image }

abbrev image_reader : Reader
image_reader = record {
  source = image_source;
  file_size = 34816;
  max_directory_size = 4096;
  volume_identifier = codes "DISC";
  root = record { name = codes "root"; extent = 20; size = 2048; directory = true };
}

opened : open_reader image_source 4096 ≡ ok image_reader
unfolding open_reader image long read_at byte_at slice ◌=t=◌ read_both_endian_u16
    read_both_endian_u32 decode_ascii_field
opened = refl

open_reader-IsVolume_example : IsVolume image_source 4096 image_reader
open_reader-IsVolume_example = open_reader-IsVolume image_source 4096 opened
