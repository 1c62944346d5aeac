-- ===== src/Detection/Composite.antt =====
-- detection.py: `CompositePlatformDetector`. A detector is its name with what it finds at the path,
-- or an exception that it raises; which detectors own a canonical platform is the parameter `supports`,
-- and equal detectors have one name.
use rom_metadata_framework.Prelude.{
  Bool, true, false, ℕ, ltb, ◌||◌, ◌&&◌, not, if◌then◌else◌, Option, none, some, List, [], ◌∷◌,
  ◌++◌, keep, any, Text, ◌=t=◌,
}
use rom_metadata_framework.Prelude.{Result, ok, err, ◌>>=◌, ◌>>◌, raise_if}
use rom_metadata_framework.Platforms.Index.{PlatformIndex, canonical_platform_name, is_some}
use rom_metadata_framework.Detection.Candidates.{PlatformCandidate}

pub data Error : Type 0 where
  unknown_platform restricted_without_platform detector_raised : Error

pub record Detector {ℓ} (Evidence : Type ℓ) : Type ℓ where
  pub name : Text
  pub detects : Result Error (List (PlatformCandidate Evidence))

pub record Composite {ℓ} (Evidence : Type ℓ) : Type ℓ where
  pub detectors : List (Detector Evidence)
  pub preferred_platform : Option Text
  pub restrict_platform : Bool

unfoldable pub max_confidence : ℕ → ℕ → ℕ
max_confidence a b = if ltb a b then b else a

-- `canonical_platform_name` of the platform that is preferred, where there is one
unfoldable pub canonical_preference :
    (Text → Text) → PlatformIndex → Option Text → Result Error (Option Text)
unfolding canonical_platform_name
canonical_preference lower index none = ok none
canonical_preference lower index (some p) = elim (canonical_platform_name lower index p) [
  | ok canonical ↦ ok (some canonical)
  | err e ↦ err unknown_platform
]

-- The argument, or the field where there is none.
unfoldable pub given_or : Option Text → Option Text → Option Text
given_or none field = field
given_or (some p) field = some p

abbrev pub is_empty_list {ℓ} : {A : Type ℓ} → List A → Bool
is_empty_list [] = true
is_empty_list (x ∷ xs) = false

module _ {ℓ} {Evidence : Type ℓ} where
  -- The candidate of two detectors for one platform.
  unfoldable pub merged :
      PlatformCandidate Evidence → PlatformCandidate Evidence → PlatformCandidate Evidence
  unfolding max_confidence
  merged existing c = record {
    platform = c.platform;
    confidence = max_confidence existing.confidence c.confidence;
    evidence = existing.evidence ++ c.evidence;
  }

  -- candidates[candidate.platform] = ..., on a dict in the order of its insertions
  unfoldable pub add_candidate :
      List (PlatformCandidate Evidence)
      → PlatformCandidate Evidence
      → List (PlatformCandidate Evidence)
  unfolding merged
  add_candidate [] c = c ∷ []
  add_candidate (d ∷ ds) c =
      let rest = add_candidate ds c in
      if d.platform =t= c.platform then merged d c ∷ ds else d ∷ rest

  unfoldable pub add_all :
      List (PlatformCandidate Evidence)
      → List (PlatformCandidate Evidence)
      → List (PlatformCandidate Evidence)
  unfolding add_candidate
  add_all ds [] = ds
  add_all ds (c ∷ cs) = add_all (add_candidate ds c) cs

  unfoldable pub run_detectors :
      List (PlatformCandidate Evidence)
      → List (Detector Evidence)
      → Result Error (List (PlatformCandidate Evidence))
  unfolding add_all
  run_detectors ds [] = ok ds
  run_detectors ds (detector ∷ detectors) =
      detector.detects >>= λ found. run_detectors (add_all ds found) detectors

  abbrev pub has_platform : Text → PlatformCandidate Evidence → Bool
  has_platform p c = c.platform =t= p

  -- __post_init__
  unfoldable pub composite_detector :
      (Text → Text)
      → PlatformIndex
      → List (Detector Evidence)
      → Option Text
      → Bool
      → Result Error (Composite Evidence)
  unfolding canonical_preference
  composite_detector lower index detectors preferred_platform restrict_platform = do
    preferred ← canonical_preference lower index preferred_platform
    raise_if (restrict_platform && not (is_some preferred)) restricted_without_platform
    ok (record {
      detectors = detectors;
      preferred_platform = preferred;
      restrict_platform = restrict_platform;
    })

  module _ (supports : Text → Text → Bool) where
    abbrev pub owners : Text → List (Detector Evidence) → List (Detector Evidence)
    owners p = keep (λ (d : Detector Evidence). supports d.name p)

    abbrev pub others : Text → List (Detector Evidence) → List (Detector Evidence)
    others p = keep (λ (d : Detector Evidence). not (supports d.name p))

    -- Behind the choice of the platform and of the restriction.
    unfoldable pub detect_preferring :
        List (Detector Evidence)
        → Option Text
        → Bool
        → Result Error (List (PlatformCandidate Evidence))
    unfolding run_detectors
    detect_preferring detectors none restrict =
        if restrict then ok [] else run_detectors [] detectors
    detect_preferring detectors (some p) restrict =
        if is_empty_list (owners p detectors)
        then (if restrict then ok [] else run_detectors [] (others p detectors))
        else (run_detectors [] (owners p detectors) >>= λ candidates.
            if any (has_platform p) candidates || restrict
            then ok candidates
            else run_detectors candidates (others p detectors))

    unfoldable pub detect :
        (Text → Text)
        → PlatformIndex
        → Composite Evidence
        → Option Text
        → Bool
        → Result Error (List (PlatformCandidate Evidence))
    unfolding detect_preferring given_or canonical_preference
    detect lower index composite preferred_platform restrict_platform = do
      preferred ←
          canonical_preference lower index
            (given_or preferred_platform composite.preferred_platform)
      detect_preferring composite.detectors preferred
          (restrict_platform || composite.restrict_platform)
