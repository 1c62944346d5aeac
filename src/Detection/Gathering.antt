-- ===== src/Detection/Gathering.antt =====
-- detection.py: what the dict of candidates holds for a platform when reports are added to it.
use rom_metadata_framework.Prelude.{
  Bool, true, false, ℕ, ◌||◌, if◌then◌else◌, ◌≡◌, refl, sym, ap, ◌∙◌, List, [], ◌∷◌, ◌++◌, any,
  Text, =t=_iff, arith,
}
use mathlib.Core.List.{append-nil, append_assoc}
use rom_metadata_framework.Detection.Candidates.{PlatformCandidate}
use rom_metadata_framework.Detection.Composite.{
  max_confidence, merged, add_candidate, add_all, has_platform,
}

module _ {ℓ} {Evidence : Type ℓ} where
  -- The confidence and the evidence of a platform among candidates, nothing where it is not there.
  unfoldable pub confidence_at : Text → List (PlatformCandidate Evidence) → ℕ
  confidence_at p [] = 0
  confidence_at p (c ∷ cs) =
      let rest = confidence_at p cs in if has_platform p c then c.confidence else rest

  unfoldable pub evidence_at : Text → List (PlatformCandidate Evidence) → List Evidence
  evidence_at p [] = []
  evidence_at p (c ∷ cs) =
      let rest = evidence_at p cs in if has_platform p c then c.evidence else rest

  -- The highest confidence and all the evidence that the reports have for a platform, behind what is
  -- there already.
  unfoldable pub highest : Text → ℕ → List (PlatformCandidate Evidence) → ℕ
  highest p m [] = m
  highest p m (c ∷ cs) =
      highest p (if has_platform p c then max_confidence m c.confidence else m) cs

  unfoldable pub gathered : Text → List (PlatformCandidate Evidence) → List Evidence
  gathered p [] = []
  gathered p (c ∷ cs) =
      let rest = gathered p cs in if has_platform p c then c.evidence ++ rest else rest

  confidence_at-add :
      (p : Text) (ds : List (PlatformCandidate Evidence)) (c : PlatformCandidate Evidence)
      → confidence_at p (add_candidate ds c) ≡ (
          if has_platform p c
          then max_confidence (confidence_at p ds) c.confidence
          else confidence_at p ds)
  unfolding confidence_at add_candidate merged max_confidence
  confidence_at-add p [] c = ground arith
  confidence_at-add p (d ∷ ds) c = ground (
    arith,
    =t=_iff d.platform c.platform,
    =t=_iff d.platform p,
    =t=_iff c.platform p,
    confidence_at-add p ds c,
  )

  evidence_at-add :
      (p : Text) (ds : List (PlatformCandidate Evidence)) (c : PlatformCandidate Evidence)
      → evidence_at p (add_candidate ds c)
        ≡ (if has_platform p c then evidence_at p ds ++ c.evidence else evidence_at p ds)
  unfolding evidence_at add_candidate merged
  evidence_at-add p [] c = ground arith
  evidence_at-add p (d ∷ ds) c = ground (
    arith,
    =t=_iff d.platform c.platform,
    =t=_iff d.platform p,
    =t=_iff c.platform p,
    evidence_at-add p ds c,
  )

  pub any-add :
      (p : Text) (ds : List (PlatformCandidate Evidence)) (c : PlatformCandidate Evidence)
      → any (has_platform p) (add_candidate ds c) ≡ any (has_platform p) ds || has_platform p c
  unfolding add_candidate merged
  any-add p [] c = ground arith
  any-add p (d ∷ ds) c = ground (
    arith,
    =t=_iff d.platform c.platform,
    =t=_iff d.platform p,
    =t=_iff c.platform p,
    any-add p ds c,
  )

  pub confidence_at-add_all :
      (p : Text) (cs ds : List (PlatformCandidate Evidence))
      → confidence_at p (add_all ds cs) ≡ highest p (confidence_at p ds) cs
  unfolding add_all highest
  confidence_at-add_all p [] ds = refl
  confidence_at-add_all p (c ∷ cs) ds =
      confidence_at-add_all p cs (add_candidate ds c)
      ∙ ap (λ m. highest p m cs) (confidence_at-add p ds c)

  gather :
      (b : Bool) (es fs gs : List Evidence)
      → (if b then es ++ fs else es) ++ gs ≡ es ++ (if b then fs ++ gs else gs)
  gather true es fs gs = append_assoc es fs gs
  gather false es fs gs = refl

  pub evidence_at-add_all :
      (p : Text) (cs ds : List (PlatformCandidate Evidence))
      → evidence_at p (add_all ds cs) ≡ evidence_at p ds ++ gathered p cs
  unfolding add_all gathered
  evidence_at-add_all p [] ds = sym (append-nil (evidence_at p ds))
  evidence_at-add_all p (c ∷ cs) ds =
      evidence_at-add_all p cs (add_candidate ds c)
      ∙ ap (λ es. es ++ gathered p cs) (evidence_at-add p ds c)
      ∙ gather (has_platform p c) (evidence_at p ds) c.evidence (gathered p cs)

  pub any-add_all :
      (p : Text) (cs ds : List (PlatformCandidate Evidence))
      → any (has_platform p) (add_all ds cs) ≡ any (has_platform p) ds || any (has_platform p) cs
  unfolding add_all
  any-add_all p [] ds = ground arith
  any-add_all p (c ∷ cs) ds = ground (arith, any-add_all p cs (add_candidate ds c), any-add p ds c)
