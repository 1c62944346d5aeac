-- ===== src/Platforms/Registry.antt =====
-- platforms.py: `PLATFORMS` and `BACKEND_PLATFORM_MAPPINGS`.
use rom_metadata_framework.Prelude.{ℕ, List, [], ◌∷◌, Text, codes, String}
use rom_metadata_framework.Platforms.Keys.{PlatformDefinition, BackendPlatformMapping}

abbrev platform : String → String → String → List Text → PlatformDefinition
platform name display_name manufacturer aliases = record {
  name = codes name;
  display_name = codes display_name;
  manufacturer = codes manufacturer;
  aliases = aliases;
}

abbrev mapping : String → String → ℕ → BackendPlatformMapping
mapping backend platform identifier = record {
  backend = codes backend;
  platform = codes platform;
  identifier = identifier;
}

unfoldable pub platforms : List PlatformDefinition
platforms =
    platform "snes" "Super Nintendo Entertainment System" "Nintendo"
      (codes "super-nintendo" ∷ codes "super-nintendo-entertainment-system" ∷ [])
    ∷ platform "genesis" "Sega Genesis / Mega Drive" "Sega"
        (codes "mega-drive" ∷ codes "sega-genesis" ∷ [])
    ∷ platform "n64" "Nintendo 64" "Nintendo" (codes "nintendo-64" ∷ [])
    ∷ platform "gb" "Game Boy" "Nintendo" (codes "game-boy" ∷ codes "gameboy" ∷ [])
    ∷ platform "gba" "Game Boy Advance" "Nintendo"
        (codes "game-boy-advance" ∷ codes "gameboy-advance" ∷ [])
    ∷ platform "gbc" "Game Boy Color" "Nintendo"
        (codes "game-boy-color" ∷ codes "gameboy-color" ∷ [])
    ∷ platform "nes" "Nintendo Entertainment System" "Nintendo"
        (codes "nintendo-entertainment-system" ∷ [])
    ∷ platform "psx" "PlayStation" "Sony"
        (codes "playstation" ∷ codes "ps1" ∷ codes "sony-playstation" ∷ [])
    ∷ platform "gc" "Nintendo GameCube" "Nintendo" (
        codes "gamecube"
        ∷ codes "game-cube"
        ∷ codes "nintendo-gamecube"
        ∷ codes "gcn"
        ∷ codes "ngc"
        ∷ [])
    ∷ platform "nds" "Nintendo DS" "Nintendo" (codes "nintendo-ds" ∷ codes "ds" ∷ [])
    ∷ platform "wii" "Wii" "Nintendo" (codes "nintendo-wii" ∷ [])
    ∷ platform "ps2" "PlayStation 2" "Sony"
        (codes "playstation-2" ∷ codes "sony-playstation-2" ∷ [])
    ∷ platform "ps3" "PlayStation 3" "Sony"
        (codes "playstation-3" ∷ codes "sony-playstation-3" ∷ [])
    ∷ platform "xbox" "Xbox" "Microsoft" (codes "original-xbox" ∷ codes "xbox-original" ∷ [])
    ∷ platform "xbox360" "Xbox 360" "Microsoft" (codes "xbox-360" ∷ codes "xbox-360-console" ∷ [])
    ∷ platform "switch" "Nintendo Switch" "Nintendo"
        (codes "nintendo-switch" ∷ codes "nintendo-switch-console" ∷ [])
    ∷ platform "psp" "PlayStation Portable" "Sony"
        (codes "playstation-portable" ∷ codes "sony-psp" ∷ [])
    ∷ []

unfoldable pub backend_platform_mappings : List BackendPlatformMapping
backend_platform_mappings =
    mapping "rcheevos" "genesis" 1
    ∷ mapping "rcheevos" "n64" 2
    ∷ mapping "rcheevos" "snes" 3
    ∷ mapping "rcheevos" "gb" 4
    ∷ mapping "rcheevos" "gba" 5
    ∷ mapping "rcheevos" "gbc" 6
    ∷ mapping "rcheevos" "nes" 7
    ∷ mapping "rcheevos" "psx" 12
    ∷ mapping "rcheevos" "gc" 16
    ∷ mapping "rcheevos" "nds" 18
    ∷ mapping "rcheevos" "wii" 19
    ∷ mapping "rcheevos" "ps2" 21
    ∷ mapping "rcheevos" "xbox" 22
    ∷ mapping "rcheevos" "psp" 41
    ∷ []
