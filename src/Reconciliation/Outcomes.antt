-- ===== src/Reconciliation/Outcomes.antt =====
-- reconciliation.py and release_reconciliation.py: when the evidence agrees, and what is selected.
use rom_metadata_framework.Prelude.{
  true, false, ◌≤◌, ◌≡◌, ◌↔◌, inl, inr, refl, sym, ap, subst, Option, none, some, List, [], ◌∷◌,
  length, map, Bool-cases, Text, =t=_iff, elem_text, arith,
}
use rom_metadata_framework.Evidence.{CanonicalReleaseIdentity}
use rom_metadata_framework.Detection.Candidates.{PlatformCandidate, best, is_ambiguous}
use rom_metadata_framework.Detection.Ranking.{ranked, best-ranked}
use rom_metadata_framework.Reconciliation.Platform.{
  PlatformStatus, agreement, stated, without_candidate, agreed, among_several, against_one,
  top_platforms, reconcile_stated, reconcile_platform,
}
use rom_metadata_framework.Reconciliation.Release as Release
use rom_metadata_framework.Reconciliation.Release.{has_conflict, reconcile_release_matches}

several :
    (top : List Text) (s : Option Text)
    → ((among_several top s).status ≡ agreement)
      ↔ ((p : Text) × (s ≡ some p) × (elem_text p top ≡ true))
unfolding among_several agreed
several top none = (λ h. absurd (cc h), λ (p, e, m). absurd (cc e))
several top (some p) = (λ h. (p, refl, ground (arith, h)), λ (q, e, m). ground (arith, e, m))

one :
    (here : Text) (s : Option Text)
    → ((against_one here s).status ≡ agreement)
      ↔ ((p : Text) × (s ≡ some p) × (elem_text p (here ∷ []) ≡ true))
unfolding against_one agreed elem_text
one here none = (λ h. absurd (cc h), λ (p, e, m). absurd (cc e))
one here (some p) = (
  λ h. (p, refl, ground (arith, h, =t=_iff here p, =t=_iff p here)),
  λ (q, e, m). ground (arith, e, m, =t=_iff here p, =t=_iff p here, =t=_iff q here),
)

module _ {ℓ} {Evidence : Type ℓ} where
  -- What the provider states is the platform of a candidate of the highest confidence.
  abbrev pub Confirms : List (PlatformCandidate Evidence) → Option Text → Type ℓ
  Confirms candidates provider =
      (p : Text) × (b : PlatformCandidate Evidence) × (stated provider ≡ some p)
      × (best candidates ≡ some b)
      × (elem_text p
            (map (λ (c : PlatformCandidate Evidence). c.platform) (ranked b.confidence candidates))
          ≡ true)

  alone_at_top :
      (xs : List (PlatformCandidate Evidence)) (b : PlatformCandidate Evidence)
      {rest : List (PlatformCandidate Evidence)}
      → xs ≡ b ∷ rest
      → length xs ≤ 1
      → xs ≡ b ∷ []
  alone_at_top [] b e le = absurd (cc e)
  alone_at_top (x ∷ []) b e le = ground (arith, e)
  alone_at_top (x ∷ y ∷ ys) b e le = absurd (omega arith)

  Agrees :
      List (PlatformCandidate Evidence) → Option (PlatformCandidate Evidence) → Option Text → Type ℓ
  Agrees candidates o s =
      (p : Text) × (b : PlatformCandidate Evidence) × (s ≡ some p)
      × (o ≡ some b)
      × (elem_text p (top_platforms b.confidence candidates) ≡ true)

  some-injective : {x y : PlatformCandidate Evidence} → some x ≡ some y → x ≡ y
  some-injective e = cc e

  from_top :
      (candidates : List (PlatformCandidate Evidence)) (b : PlatformCandidate Evidence)
      (s : Option Text) (status : PlatformStatus)
      → ((status ≡ agreement) ↔ (
          (p : Text) × (s ≡ some p) × (elem_text p (top_platforms b.confidence candidates) ≡ true)))
      → (status ≡ agreement) ↔ Agrees candidates (some b) s
  unfolding Agrees
  from_top candidates b s status (there, back) = (
    λ h. let (p, e, m) = there h in (p, b, e, refl, m),
    λ (p, c, e, f, m). back (
      p,
      e,
      subst
          (λ (x : PlatformCandidate Evidence).
            elem_text p (top_platforms x.confidence candidates) ≡ true)
          (sym (some-injective f)) m,
    ),
  )

  reconcile_stated-Agrees :
      (candidates : List (PlatformCandidate Evidence)) (o : Option (PlatformCandidate Evidence))
      (s : Option Text)
      → best candidates ≡ o
      → ((reconcile_stated o candidates s).status ≡ agreement) ↔ Agrees candidates o s
  unfolding reconcile_stated without_candidate Agrees
  reconcile_stated-Agrees candidates none none h =
      (λ e. absurd (cc e), λ (p, b, e, f, m). absurd (cc e))
  reconcile_stated-Agrees candidates none (some q) h =
      (λ e. absurd (cc e), λ (p, b, e, f, m). absurd (cc f))
  reconcile_stated-Agrees candidates (some c) s h = elim (Bool-cases (is_ambiguous candidates)) [
    | inl many ↦ rw many (
        from_top candidates c s (among_several (top_platforms c.confidence candidates) s).status
          (several (top_platforms c.confidence candidates) s))
    | inr single ↦ rw single (
        from_top candidates c s (against_one c.platform s).status (
          subst
            (λ top.
              ((against_one c.platform s).status ≡ agreement)
              ↔ ((p : Text) × (s ≡ some p) × (elem_text p top ≡ true)))
            (sym (only_one single)) (one c.platform s)))
  ]
    where
      only_one :
          is_ambiguous candidates ≡ false → top_platforms c.confidence candidates ≡ c.platform ∷ []
      only_one single =
          let (first, below, twice) = best-ranked candidates h in
          unfold top_platforms in
          ap (map (λ (d : PlatformCandidate Evidence). d.platform)) (
            alone_at_top (ranked c.confidence candidates) c first.1 (ground (arith, single, twice)))

  -- `reconcile_platform` reports an agreement exactly where the provider states the platform of one of
  -- the candidates with the highest confidence.
  pub reconcile_platform-agreement :
      (candidates : List (PlatformCandidate Evidence)) (provider : Option Text)
      → ((reconcile_platform candidates provider).status ≡ agreement) ↔ Confirms candidates provider
  unfolding reconcile_platform top_platforms Agrees
  reconcile_platform-agreement candidates provider =
      reconcile_stated-Agrees candidates (best candidates) (stated provider) refl

  -- Where the provider states a platform, that is the one which is selected, whatever the candidates
  -- are; where it states none, nothing is selected from several best candidates.
  pub reconcile_platform-selected :
      (candidates : List (PlatformCandidate Evidence)) (provider : Option Text)
      → ((p : Text)
          → stated provider ≡ some p
          → (reconcile_platform candidates provider).selected_platform ≡ some p)
        × (stated provider ≡ none
            → is_ambiguous candidates ≡ true
            → (reconcile_platform candidates provider).selected_platform ≡ none)
  unfolding reconcile_platform reconcile_stated without_candidate among_several against_one agreed
  reconcile_platform-selected candidates provider = selects (best candidates) (stated provider)
    where
      selects :
          (o : Option (PlatformCandidate Evidence)) (s : Option Text)
          → ((p : Text) → s ≡ some p → (reconcile_stated o candidates s).selected_platform ≡ some p)
            × (s ≡ none
                → is_ambiguous candidates ≡ true
                → (reconcile_stated o candidates s).selected_platform ≡ none)
      selects none none = (λ p e. cc e, λ e a. refl)
      selects none (some q) = (λ p e. cc e, λ e a. absurd (cc e))
      selects (some c) none = (λ p e. absurd (cc e), λ e a. ground (arith, a))
      selects (some c) (some q) = (λ p e. ground (arith, e), λ e a. absurd (cc e))

-- `reconcile_release_matches` reports an agreement exactly where both matches are there and name the
-- same platform and release; a conflict is one whichever match comes first, and selects neither.
pub reconcile_release_matches-agreement :
    (physical normalized : Option CanonicalReleaseIdentity)
    → (((reconcile_release_matches physical normalized).status ≡ Release.agreement) ↔ (
        (p : CanonicalReleaseIdentity) × (n : CanonicalReleaseIdentity) × (physical ≡ some p)
        × (normalized ≡ some n)
        × (p.platform ≡ n.platform)
        × (p.release_name ≡ n.release_name)))
      × (has_conflict (reconcile_release_matches physical normalized)
          ≡ has_conflict (reconcile_release_matches normalized physical))
      × (has_conflict (reconcile_release_matches physical normalized) ≡ true
          → (reconcile_release_matches physical normalized).selected ≡ none)
unfolding reconcile_release_matches has_conflict
reconcile_release_matches-agreement none none =
    ((λ h. absurd (cc h), λ (p, n, e, f, g, r). absurd (cc e)), refl, λ h. absurd (cc h))
reconcile_release_matches-agreement (some p) none =
    ((λ h. absurd (cc h), λ (p', n, e, f, g, r). absurd (cc f)), refl, λ h. absurd (cc h))
reconcile_release_matches-agreement none (some n) =
    ((λ h. absurd (cc h), λ (p, n', e, f, g, r). absurd (cc e)), refl, λ h. absurd (cc h))
reconcile_release_matches-agreement (some p) (some n) =
    let platforms = =t=_iff p.platform n.platform in
    let names = =t=_iff p.release_name n.release_name in
    let platforms' = =t=_iff n.platform p.platform in
    let names' = =t=_iff n.release_name p.release_name in
    (
      (
        λ h. (p, n, refl, refl, ground (arith, h), ground (arith, h)),
        λ (p', n', e, f, g, r). ground (arith, e, f, g, r),
      ),
      ground arith,
      λ h. ground (arith, h),
    )
