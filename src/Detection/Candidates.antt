-- ===== src/Detection/Candidates.antt =====
-- detection.py: candidates, `best` and `is_ambiguous`. The evidence of a candidate is a list of any
-- type, since no decision looks inside; a confidence is a natural number, as the constructor wants it.
use rom_metadata_framework.Prelude.{
  Bool, false, ℕ, ltb, leb, ◌==◌, if◌then◌else◌, Option, none, some, List, [], ◌∷◌, Text,
}

pub record PlatformCandidate {ℓ} (Evidence : Type ℓ) : Type ℓ where
  pub platform : Text
  pub confidence : ℕ
  pub evidence : List Evidence

module _ {ℓ} {Evidence : Type ℓ} where
  -- max with a key: the first of the items with the highest one
  unfoldable pub max_from :
      PlatformCandidate Evidence → List (PlatformCandidate Evidence) → PlatformCandidate Evidence
  max_from best [] = best
  max_from best (c ∷ cs) = max_from (if ltb best.confidence c.confidence then c else best) cs

  unfoldable pub best : List (PlatformCandidate Evidence) → Option (PlatformCandidate Evidence)
  unfolding max_from
  best [] = none
  best (c ∷ cs) = some (max_from c cs)

  -- sorted(..., reverse=True): falling confidence, and items of one confidence in their order
  unfoldable pub insert :
      PlatformCandidate Evidence
      → List (PlatformCandidate Evidence)
      → List (PlatformCandidate Evidence)
  insert c [] = c ∷ []
  insert c (d ∷ ds) =
      let rest = insert c ds in if leb d.confidence c.confidence then c ∷ d ∷ ds else d ∷ rest

  unfoldable pub sorted : List (PlatformCandidate Evidence) → List (PlatformCandidate Evidence)
  unfolding insert
  sorted [] = []
  sorted (c ∷ cs) = insert c (sorted cs)

  unfoldable pub first_two_equal : List (PlatformCandidate Evidence) → Bool
  first_two_equal [] = false
  first_two_equal (c ∷ []) = false
  first_two_equal (c ∷ d ∷ cs) = c.confidence == d.confidence

  unfoldable pub is_ambiguous : List (PlatformCandidate Evidence) → Bool
  unfolding sorted first_two_equal
  is_ambiguous candidates = first_two_equal (sorted candidates)
