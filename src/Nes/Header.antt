-- ===== src/Nes/Header.antt =====
-- nes.py: the fields of an iNES or NES 2.0 header.
use rom_metadata_framework.Prelude.{
  Bool, ℕ, ◌+◌, ◌*◌, ◌/◌, ◌^◌, ◌==◌, not, if◌then◌else◌, Option, none, some, [], ◌∷◌, Text, codes,
  Bytes, byte_at, bit_and, bit_or,
}

abbrev pub nes_magic : Bytes
nes_magic = b'N' ∷ b'E' ∷ b'S' ∷ 0x1a ∷ []

abbrev pub nes_header_size : ℕ
nes_header_size = 16

-- _nes2_rom_size
unfoldable pub nes2_rom_size : ℕ → ℕ → ℕ → ℕ
nes2_rom_size lsb msb_nibble unit_size =
    if not (msb_nibble == 0x0f)
    then bit_or (msb_nibble * 2 ^ 8) lsb * unit_size
    else 2 ^ (lsb / 4) * (bit_and lsb 0x03 * 2 + 1)

-- _nes2_ram_size
unfoldable pub nes2_ram_size : ℕ → ℕ
nes2_ram_size shift = if shift == 0 then 0 else 64 * 2 ^ shift

-- What `identify` reads from the sixteen bytes.
pub record Fields : Type 0 where
  pub is_nes2 : Bool
  pub has_trainer : Bool
  pub prg_size : ℕ
  pub chr_size : ℕ
  pub mapper : ℕ
  pub submapper : Option ℕ

unfoldable pub fields : Bytes → Fields
unfolding nes2_rom_size byte_at
fields header =
    let flags6 = byte_at header 6 in
    let flags7 = byte_at header 7 in
    let is_nes2 = bit_and flags7 0x0c == 0x08 in
    let low = bit_or (flags6 / 2 ^ 4) (bit_and flags7 0xf0) in
    record {
      is_nes2 = is_nes2;
      has_trainer = not (bit_and flags6 0x04 == 0);
      prg_size =
          if is_nes2
          then nes2_rom_size (byte_at header 4) (bit_and (byte_at header 9) 0x0f) (16 * 1024)
          else byte_at header 4 * 16 * 1024;
      chr_size =
          if is_nes2
          then nes2_rom_size (byte_at header 5) (bit_and (byte_at header 9 / 2 ^ 4) 0x0f) (8 * 1024)
          else byte_at header 5 * 8 * 1024;
      mapper = if is_nes2 then bit_or low (bit_and (byte_at header 8) 0x0f * 2 ^ 8) else low;
      submapper = if is_nes2 then some (bit_and (byte_at header 8 / 2 ^ 4) 0x0f) else none;
    }

unfoldable pub representation : Fields → Text
representation f = if f.is_nes2 then codes "nes2" else codes "ines"
