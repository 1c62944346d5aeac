-- ===== src/Reconciliation/Agreement.antt =====
-- reconciliation.py: the release that the reconciliation of two matches selects.
use rom_metadata_framework.Prelude.{
  ◌≡◌, sym, ap, ◌∙◌, inl, inr, ◌⊎◌, Option, none, some, =t=_iff, arith, some-injective,
}
use rom_metadata_framework.Evidence.{CanonicalReleaseIdentity}
use rom_metadata_framework.Reconciliation.Release.{reconcile_release_matches}

-- The release that both matches agree on, or that of the one match.
pub selects :
    (physical normalized : Option CanonicalReleaseIdentity) {m : CanonicalReleaseIdentity}
    → (reconcile_release_matches physical normalized).selected ≡ some m
    → ((physical ≡ some m) ⊎ (normalized ≡ some m))
      × ((p n : CanonicalReleaseIdentity)
          → physical ≡ some p
          → normalized ≡ some n
          → (p.platform ≡ n.platform) × (p.release_name ≡ n.release_name))
unfolding reconcile_release_matches
selects none none h = absurd (cc h)
selects (some p) none h = (inl h, λ p' n e f. absurd (cc f))
selects none (some n) h = (inr h, λ p n' e f. absurd (cc e))
selects (some p) (some n) h =
    let platforms : p.platform ≡ n.platform = ground (arith, h, =t=_iff p.platform n.platform) in
    let names : p.release_name ≡ n.release_name =
      ground (arith, h, =t=_iff p.platform n.platform, =t=_iff p.release_name n.release_name) in
    (
      inl (ground (arith, h)),
      λ p' n' e f. both p n p' n' platforms names (some-injective e) (some-injective f),
    )
  where
    both :
        (p n p' n' : CanonicalReleaseIdentity)
        → p.platform ≡ n.platform
        → p.release_name ≡ n.release_name
        → p ≡ p'
        → n ≡ n'
        → (p'.platform ≡ n'.platform) × (p'.release_name ≡ n'.release_name)
    both p n p' n' platforms names e f = (
      sym (ap (λ (x : CanonicalReleaseIdentity). x.platform) e)
          ∙ platforms
          ∙ ap (λ (x : CanonicalReleaseIdentity). x.platform) f,
      sym (ap (λ (x : CanonicalReleaseIdentity). x.release_name) e)
          ∙ names
          ∙ ap (λ (x : CanonicalReleaseIdentity). x.release_name) f,
    )

-- Both name the same release.
abbrev pub IsSameRelease : CanonicalReleaseIdentity → CanonicalReleaseIdentity → Type 0
IsSameRelease a b = (a.platform ≡ b.platform) × (a.release_name ≡ b.release_name)

-- The selected match and any match are of the same release.
pub selected-same :
    (physical normalized : Option CanonicalReleaseIdentity) (s m : CanonicalReleaseIdentity)
    → (reconcile_release_matches physical normalized).selected ≡ some s
    → (physical ≡ some m) ⊎ (normalized ≡ some m)
    → IsSameRelease m s
selected-same physical normalized s m h one =
    let (from, agreed) = selects physical normalized h in
    elim one [
      | inl p ↦ elim from [ inl q ↦ equal (some-injective (sym p ∙ q)) | inr q ↦ agreed m s p q ]
      | inr n ↦ elim from [
        | inl q ↦ (sym (agreed s m q n).0, sym (agreed s m q n).1)
        | inr q ↦ equal (some-injective (sym n ∙ q))
      ]
    ]
  where
    equal : m ≡ s → IsSameRelease m s
    equal e = (ap (λ x. x.platform) e, ap (λ x. x.release_name) e)
