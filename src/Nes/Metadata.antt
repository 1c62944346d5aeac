-- ===== src/Nes/Metadata.antt =====
-- nes.py: `_nes_local_metadata`, and the mappings of `identify`, each as the list of its items.
use rom_metadata_framework.Prelude.{
  Bool, ℕ, ◌/◌, ◌^◌, ◌==◌, not, if◌then◌else◌, Option, none, some, List, [], ◌∷◌, ◌++◌, Text, codes,
  String, Bytes, byte_at, bit_and,
}
use rom_metadata_framework.LocalMetadata.{LocalContentMetadata, no_metadata}
use rom_metadata_framework.Hashing.Digests.{hex_fixed}
use rom_metadata_framework.Naming.Components.{decimal}
use rom_metadata_framework.Nes.Header.{Fields, nes2_ram_size, representation}

abbrev pub Items : Type 0
Items = List (Text × Text)

-- `key: str(n)`
unfoldable pub item : String → ℕ → Text × Text
unfolding decimal
item key n = (codes key, decimal n)

-- `key: f"{byte:02x}"`
unfoldable pub hex_item : String → ℕ → Text × Text
unfolding hex_fixed
hex_item key b = (codes key, hex_fixed 2 b [])

-- str(flag).lower()
abbrev flag : Bool → Text
flag b = if b then codes "true" else codes "false"

unfoldable pub submapper_items : Option ℕ → Items
unfolding item
submapper_items none = []
submapper_items (some n) = item "submapper" n ∷ []

unfoldable pub nametable_layout : ℕ → Text
nametable_layout flags6 =
    if not (bit_and flags6 0x08 == 0)
    then codes "four-screen"
    else if not (bit_and flags6 0x01 == 0)
    then codes "horizontal"
    else codes "vertical"

-- _NES_TIMING_MODES
unfoldable pub timing_mode : ℕ → Text
timing_mode code =
    if code == 0
    then codes "ntsc"
    else if code == 1
    then codes "pal"
    else if code == 2
    then codes "multi-region"
    else codes "dendy"

-- _NES_CONSOLE_TYPES
unfoldable pub console_type : ℕ → Text
console_type code =
    if code == 0
    then codes "regular"
    else if code == 1
    then codes "vs-system"
    else if code == 2
    then codes "playchoice-10"
    else codes "extended"

-- The items that the console type adds.
unfoldable pub console_items : ℕ → ℕ → Items
unfolding item
console_items console_code byte13 =
    if console_code == 1
    then item "vs_ppu_type" (bit_and byte13 0x0f)
      ∷ item "vs_hardware_type" (bit_and (byte13 / 2 ^ 4) 0x0f)
      ∷ []
    else if console_code == 3
    then item "extended_console_type" (bit_and byte13 0x0f) ∷ []
    else []

unfoldable pub nes2_hardware : Bytes → Items
unfolding item nes2_ram_size timing_mode console_type console_items byte_at
nes2_hardware header =
    let console_code = bit_and (byte_at header 7) 0x03 in
    item "prg_ram_size" (nes2_ram_size (bit_and (byte_at header 10) 0x0f))
    ∷ item "prg_nvram_size" (nes2_ram_size (bit_and (byte_at header 10 / 2 ^ 4) 0x0f))
    ∷ item "chr_ram_size" (nes2_ram_size (bit_and (byte_at header 11) 0x0f))
    ∷ item "chr_nvram_size" (nes2_ram_size (bit_and (byte_at header 11 / 2 ^ 4) 0x0f))
    ∷ (codes "timing_mode", timing_mode (bit_and (byte_at header 12) 0x03))
    ∷ (codes "console_type", console_type console_code)
    ∷ item "misc_rom_count" (bit_and (byte_at header 14) 0x03)
    ∷ item "default_expansion_device" (bit_and (byte_at header 15) 0x3f)
    ∷ console_items console_code (byte_at header 13)

unfoldable pub nes2_bytes : Bytes → Items
unfolding hex_item byte_at
nes2_bytes header =
    hex_item "byte10" (byte_at header 10)
    ∷ hex_item "byte11" (byte_at header 11)
    ∷ hex_item "byte12" (byte_at header 12)
    ∷ hex_item "byte13" (byte_at header 13)
    ∷ hex_item "byte14" (byte_at header 14)
    ∷ hex_item "byte15" (byte_at header 15)
    ∷ []

unfoldable pub nes_local_metadata : Bytes → Fields → LocalContentMetadata
unfolding item hex_item submapper_items nametable_layout nes2_hardware nes2_bytes representation
    byte_at
nes_local_metadata header f =
    let flags6 = byte_at header 6 in
    record no_metadata {
      platform = some (codes "nes");
      hardware =
          (item "mapper" f.mapper
            ∷ item "prg_rom_size" f.prg_size
            ∷ item "chr_rom_size" f.chr_size
            ∷ (codes "nametable_layout", nametable_layout flags6)
            ∷ (codes "battery_or_nvram", flag (not (bit_and flags6 0x02 == 0)))
            ∷ (codes "trainer", codes "false")
            ∷ submapper_items f.submapper)
          ++ (if f.is_nes2 then nes2_hardware header else []);
      media = (codes "representation", representation f) ∷ [];
      native_metadata =
          hex_item "flags6" flags6
          ∷ hex_item "flags7" (byte_at header 7)
          ∷ (if f.is_nes2 then nes2_bytes header else []);
    }

-- content.metadata
unfoldable pub content_metadata : Fields → Items
unfolding item submapper_items
content_metadata f =
    (codes "normalization", codes "prg+chr")
    ∷ item "prg_rom_size" f.prg_size
    ∷ item "chr_rom_size" f.chr_size
    ∷ item "mapper" f.mapper
    ∷ (codes "trainer", codes "false")
    ∷ submapper_items f.submapper

unfoldable pub header_metadata : Bytes → Fields → Items
unfolding item hex_item submapper_items byte_at
header_metadata header f =
    hex_item "flags6" (byte_at header 6)
    ∷ hex_item "flags7" (byte_at header 7)
    ∷ item "mapper" f.mapper
    ∷ item "prg_rom_size" f.prg_size
    ∷ item "chr_rom_size" f.chr_size
    ∷ (codes "trainer", codes "false")
    ∷ submapper_items f.submapper
