-- ===== src/Nes/Tests.antt =====
-- A small NES 2.0 image, and the theorems at it.
use rom_metadata_framework.Prelude.{true, false, ◌≤◌, ◌<◌, ◌≡◌, refl, ◌⊎◌, [], ◌∷◌, codes, ◌=t=◌}
use rom_metadata_framework.Prelude.{ok, err}
use rom_metadata_framework.Source.{Source, read_at}
use rom_metadata_framework.Routing.Normalizers.{is_supported, supported, unsafe}
use rom_metadata_framework.Hashing.Digests.{digests}
use rom_metadata_framework.Hashing.Samples.{same, hashers, streaming}
use rom_metadata_framework.Nes.Header.{fields}
use rom_metadata_framework.Nes.Adapter.{
  NesContentIdentity, unexpected_end, has_magic, expected_size, headerless_identity,
  headered_identity, probe_details, probe, identify, hash_region, or_invalid,
}
use rom_metadata_framework.Nes.Regions.{hash_region-digests}
use rom_metadata_framework.Nes.Probing.{
  header_of, IsComplete, IsDetected, HashesOnly, probe-identify,
}

-- One unit of three bytes of program, in the form with an exponent, and none of graphics.
abbrev image : Source
image = record {
  regular = true;
  st_size = 19;
  content =
      b'N' ∷ b'E' ∷ b'S' ∷ 0x1a ∷ 0x01 ∷ 0x00 ∷ 0x10 ∷ 0x08 ∷ 0x00 ∷ 0x0f ∷ 0x00 ∷ 0x00 ∷ 0x00
      ∷ 0x00 ∷ 0x00 ∷ 0x00 ∷ 7 ∷ 8 ∷ 9 ∷ [];
}

abbrev without_end : Source
without_end = record image { st_size = 18 }

probed :
    ((probe_details false same (codes "x.nes") image).0 ≡ supported)
    × ((probe_details false same (codes "x.nes") without_end).0 ≡ unsafe)
    × ((fields (header_of image)).mapper ≡ 1)
unfolding probe_details has_magic ◌=t=◌ fields expected_size read_at
probed = (refl, refl, refl)

hash_region-digests_example :
    (19 ≤ 19
      → hash_region false same hashers image 16 3
        ≡ or_invalid false same hashers (digests hashers same (7 ∷ 8 ∷ 9 ∷ [])))
    × (0 < 3 → 19 < 19 → hash_region false same hashers image 16 3 ≡ err unexpected_end)
hash_region-digests_example = hash_region-digests false same hashers image 16 3 streaming

identified :
    HashesOnly false same hashers image (7 ∷ 8 ∷ 9 ∷ []) (headered_identity (header_of image))
unfolding identify has_magic ◌=t=◌ fields expected_size read_at hash_region digests
identified = refl

probe-identify_example :
    (is_supported (probe false same (codes "x.nes") image) ≡ true
      → (IsComplete image
          × IsDetected image
          × HashesOnly false same hashers image
              (7 ∷ 8 ∷ 9 ∷ [])
              (headered_identity (header_of image)))
        ⊎ ((has_magic (header_of image) ≡ false)
            × (false ≡ true)
            × HashesOnly false same hashers image image.content headerless_identity))
    × ((i : NesContentIdentity)
        → identify false same hashers image ≡ ok i
        → has_magic (header_of image) ≡ true
        → is_supported (probe false same (codes "x.nes") image) ≡ true)
probe-identify_example = probe-identify false same hashers image (codes "x.nes") refl streaming
