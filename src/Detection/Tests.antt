-- ===== src/Detection/Tests.antt =====
-- Two detectors, one of them the owner of the preferred platform, and the theorem at them.
use rom_metadata_framework.Prelude.{
  Bool, true, false, ℕ, ◌≡◌, refl, none, some, List, [], ◌∷◌, Text, codes, ◌=t=◌, strip, is_space,
  elem_text, ok, err,
}
use rom_metadata_framework.Platforms.Keys.{PlatformDefinition, normalize_key}
use rom_metadata_framework.Platforms.Index.{PlatformIndex, lookup}
use rom_metadata_framework.Detection.Candidates.{PlatformCandidate}
use rom_metadata_framework.Detection.Composite.{
  Composite, unknown_platform, restricted_without_platform, detector_raised, composite_detector,
  detect,
}
use rom_metadata_framework.Detection.Distinct.{IsDistinct, detect-IsDistinct}

abbrev candidate : Text → ℕ → List ℕ → PlatformCandidate ℕ
candidate platform confidence evidence = record {
  platform = platform;
  confidence = confidence;
  evidence = evidence;
}

abbrev composite : Composite ℕ
composite = record {
  detectors =
      record { name = codes "dolphin"; detects = ok (candidate (codes "gc") 60 (1 ∷ []) ∷ []) }
      ∷ record {
        name = codes "ps2";
        detects =
            ok (candidate (codes "ps2") 70 (2 ∷ []) ∷ candidate (codes "gc") 90 (3 ∷ []) ∷ []);
      }
      ∷ [];
  preferred_platform = none;
  restrict_platform = false;
}

abbrev supports : Text → Text → Bool
supports name platform = name =t= platform

abbrev same : Text → Text
same s = s

-- Two platforms, the first with an alias.
abbrev ps2 : PlatformDefinition
ps2 = record {
  name = codes "ps2";
  display_name = codes "PlayStation 2";
  manufacturer = codes "Sony";
  aliases = codes "playstation2" ∷ [];
}

abbrev wii : PlatformDefinition
wii = record {
  name = codes "wii";
  display_name = codes "Wii";
  manufacturer = codes "Nintendo";
  aliases = [];
}

abbrev index : PlatformIndex
index = (codes "ps2", ps2) ∷ (codes "playstation2", ps2) ∷ (codes "wii", wii) ∷ []

detections :
    (detect supports same index composite none false
      ≡ ok (candidate (codes "gc") 90 (1 ∷ 3 ∷ []) ∷ candidate (codes "ps2") 70 (2 ∷ []) ∷ []))
    × (detect supports same index composite (some (codes "playstation2")) false
        ≡ ok (candidate (codes "ps2") 70 (2 ∷ []) ∷ candidate (codes "gc") 90 (3 ∷ []) ∷ []))
    × (detect supports same index composite (some (codes "ps2")) true
        ≡ ok (candidate (codes "ps2") 70 (2 ∷ []) ∷ candidate (codes "gc") 90 (3 ∷ []) ∷ []))
    × (detect supports same index composite (some (codes "atari")) false ≡ err unknown_platform)
unfolding detect lookup normalize_key ◌=t=◌ strip is_space elem_text
detections = (refl, refl, refl, refl)

constructed :
    (composite_detector same index composite.detectors (some (codes "playstation2")) false
      ≡ ok (record composite { preferred_platform = some (codes "ps2") }))
    × (composite_detector same index composite.detectors none true
        ≡ err restricted_without_platform)
unfolding composite_detector lookup normalize_key ◌=t=◌ strip is_space elem_text
constructed = (refl, refl)

-- A detector that raises, where no platform is preferred and where it is not the owner.
abbrev broken : Composite ℕ
broken = record composite {
  detectors = record { name = codes "wii"; detects = err detector_raised } ∷ composite.detectors;
}

raised :
    (detect supports same index broken none false ≡ err detector_raised)
    × (detect supports same index broken (some (codes "ps2")) false
        ≡ ok (candidate (codes "ps2") 70 (2 ∷ []) ∷ candidate (codes "gc") 90 (3 ∷ []) ∷ []))
unfolding detect lookup normalize_key ◌=t=◌ strip is_space elem_text
raised = (refl, refl)

detected :
    detect supports same index composite (some (codes "playstation2")) false
    ≡ ok (candidate (codes "ps2") 70 (2 ∷ []) ∷ candidate (codes "gc") 90 (3 ∷ []) ∷ [])
unfolding detect lookup normalize_key ◌=t=◌ strip is_space elem_text
detected = refl

detect-IsDistinct_example :
    IsDistinct (candidate (codes "ps2") 70 (2 ∷ []) ∷ candidate (codes "gc") 90 (3 ∷ []) ∷ [])
detect-IsDistinct_example =
    detect-IsDistinct supports same index composite (some (codes "playstation2")) false detected
