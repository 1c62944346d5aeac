-- ===== src/Platforms/Tests.antt =====
-- The framework's own registry builds an index, and the theorem at it. A `lower` that changes ASCII
-- letters alone is enough here.
use rom_metadata_framework.Prelude.{
  ◌+◌, ◌≡◌, ◌&&◌, leb, if◌then◌else◌, refl, [], ◌∷◌, map, All, Text, codes, ◌=t=◌, elem_text, ok,
  err, strip, is_space,
}
use rom_metadata_framework.Platforms.Keys.{PlatformDefinition, normalize_key, unknown_platform}
use rom_metadata_framework.Platforms.Registry.{platforms}
use rom_metadata_framework.Platforms.Index.{
  PlatformIndex, lookup, build_platform_index, resolve_platform, canonical_platform_name,
}
use rom_metadata_framework.Platforms.Resolution.{build_platform_index-resolves}

abbrev lower : Text → Text
lower = map (λ c. if leb b'A' c && leb c b'Z' then c + 32 else c)

-- The index of the registry, written by evaluation.
index : PlatformIndex
unfolding build_platform_index platforms lookup normalize_key ◌=t=◌ elem_text strip is_space
index = elim (build_platform_index lower platforms) [ ok i ↦ i | err e ↦ [] ]

built : build_platform_index lower platforms ≡ ok index
unfolding build_platform_index platforms lookup normalize_key ◌=t=◌ elem_text strip is_space index
built = refl

names :
    (canonical_platform_name lower index (codes " Game__Cube ") ≡ ok (codes "gc"))
    × (canonical_platform_name lower index (codes "atari") ≡ err unknown_platform)
unfolding canonical_platform_name build_platform_index platforms lookup normalize_key ◌=t=◌
    elem_text strip is_space index
names = (refl, refl)

build_platform_index-resolves_example :
    All (λ p. All (λ k. resolve_platform lower index k ≡ ok p) (p.name ∷ p.aliases)) platforms
    × ((value : Text) (p : PlatformDefinition)
        → resolve_platform lower index value ≡ ok p
        → (resolve_platform lower index p.name ≡ ok p)
          × (canonical_platform_name lower index p.name ≡ ok p.name))
build_platform_index-resolves_example = build_platform_index-resolves lower platforms built
