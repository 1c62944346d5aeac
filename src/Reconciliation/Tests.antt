-- ===== src/Reconciliation/Tests.antt =====
-- Three candidates, two of them the best, and the theorems at them.
use rom_metadata_framework.Prelude.{
  true, ℕ, ◌≤◌, ◌≡◌, ◌↔◌, refl, none, some, List, [], ◌∷◌, length, All, Text, codes, strip,
  elem_text, ◌=t=◌,
}
use rom_metadata_framework.Evidence.{CanonicalReleaseIdentity}
use rom_metadata_framework.Detection.Candidates.{PlatformCandidate, best, is_ambiguous}
use rom_metadata_framework.Detection.Ranking.{ranked, best-ranked}
use rom_metadata_framework.Reconciliation.Platform.{
  agreement, ambiguous, reconcile_platform, agreed,
}
use rom_metadata_framework.Reconciliation.Release as Release
use rom_metadata_framework.Reconciliation.Release.{has_conflict, reconcile_release_matches}
use rom_metadata_framework.Reconciliation.Outcomes.{
  Confirms, reconcile_platform-agreement, reconcile_release_matches-agreement,
}

abbrev candidate : Text → ℕ → PlatformCandidate ℕ
candidate platform confidence = record {
  platform = platform;
  confidence = confidence;
  evidence = [];
}

abbrev several : List (PlatformCandidate ℕ)
several = candidate (codes "nes") 10 ∷ candidate (codes "gc") 80 ∷ candidate (codes "wii") 80 ∷ []

best_of_several : best several ≡ some (candidate (codes "gc") 80)
unfolding best
best_of_several = refl

several-is_ambiguous : is_ambiguous several ≡ true
unfolding is_ambiguous
several-is_ambiguous = refl

best-ranked_example :
    ((rest : List (PlatformCandidate ℕ)) × (ranked 80 several ≡ candidate (codes "gc") 80 ∷ rest))
    × All (λ (c : PlatformCandidate ℕ). c.confidence ≤ 80) several
    × ((is_ambiguous several ≡ true) ↔ (2 ≤ length (ranked 80 several)))
best-ranked_example = best-ranked several best_of_several

outcomes :
    ((reconcile_platform several (some (codes " wii "))).status ≡ agreement)
    × ((reconcile_platform several (some (codes "nes"))).status ≡ ambiguous)
unfolding reconcile_platform best is_ambiguous agreed strip elem_text ◌=t=◌
outcomes = (refl, refl)

reconcile_platform-agreement_example :
    ((reconcile_platform several (some (codes "wii"))).status ≡ agreement)
    ↔ Confirms several (some (codes "wii"))
reconcile_platform-agreement_example = reconcile_platform-agreement several (some (codes "wii"))

abbrev release : Text → CanonicalReleaseIdentity
release platform = record {
  release_name = codes "Game";
  platform = platform;
  source = codes "playmatch";
  source_id = codes "1";
  title = none;
  evidence = [];
  catalogue_evidence = [];
  conflicts = [];
}

reconcile_release_matches-agreement_example :
    (((reconcile_release_matches
          (some (release (codes "gc")))
          (some (release (codes "wii")))).status
        ≡ Release.agreement)
      ↔ ((p : CanonicalReleaseIdentity) × (n : CanonicalReleaseIdentity) × (some
              (release (codes "gc"))
            ≡ some p)
          × (some (release (codes "wii")) ≡ some n)
          × (p.platform ≡ n.platform)
          × (p.release_name ≡ n.release_name)))
    × (has_conflict
          (reconcile_release_matches (some (release (codes "gc"))) (some (release (codes "wii"))))
        ≡ has_conflict (
            reconcile_release_matches (some (release (codes "wii"))) (some (release (codes "gc")))))
    × (has_conflict
            (reconcile_release_matches (some (release (codes "gc"))) (some (release (codes "wii"))))
          ≡ true
        → (reconcile_release_matches
            (some (release (codes "gc")))
            (some (release (codes "wii")))).selected
          ≡ none)
reconcile_release_matches-agreement_example =
    reconcile_release_matches-agreement (some (release (codes "gc"))) (some (release (codes "wii")))
