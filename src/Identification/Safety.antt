-- ===== src/Identification/Safety.antt =====
-- identification.py: what it takes for a verification to be safe for canonical naming.
use rom_metadata_framework.Prelude.{
  true, false, ◌||◌, ◌≡◌, ◌≢◌, refl, ap, inl, inr, ◌⊎◌, Option, none, some, Text, arith, Bool-cases,
  some-injective,
}
use rom_metadata_framework.Evidence.{CanonicalReleaseIdentity}
use rom_metadata_framework.Verification.Policy.{
  known_good, known_bad, VerificationPolicy, verify_release,
}
use rom_metadata_framework.Identification.Types.{IdentificationResult}
use rom_metadata_framework.Identification.Results.{
  IdentificationVerification, conflicting, is_known_good, is_known_bad, content_known_good,
  has_known_bad, has_conflicts, safe_for_canonical_naming, report_of, verify_identification,
}

module _ (lower : Text → Text) (policy : VerificationPolicy) where
  report_of-good :
      (match : Option CanonicalReleaseIdentity)
      → is_known_good (report_of lower policy match) ≡ true
      → (m : CanonicalReleaseIdentity) × (match ≡ some m)
        × ((verify_release lower policy m).status ≡ known_good)
  unfolding report_of is_known_good
  report_of-good none h = absurd (cc h)
  report_of-good (some m) h = (m, refl, ground (arith, h))

  report_of-not_bad :
      (match : Option CanonicalReleaseIdentity) (m : CanonicalReleaseIdentity)
      → is_known_bad (report_of lower policy match) ≡ false
      → match ≡ some m
      → (verify_release lower policy m).status ≢ known_bad
  unfolding report_of is_known_bad
  report_of-not_bad none m h e bad = absurd (cc e)
  report_of-not_bad (some n) m h e bad =
      ground (arith, h, ap (λ x. (verify_release lower policy x).status) (some-injective e), bad)

  module _ {ℓ} {Evidence : Type ℓ} (r : IdentificationResult Evidence) where
    -- One of the matches of a result.
    abbrev pub IsMatch : CanonicalReleaseIdentity → Type 0
    IsMatch m = (r.physical_match ≡ some m) ⊎ (r.normalized_match ≡ some m)

    safe_parts :
        (v : IdentificationVerification)
        → safe_for_canonical_naming v ≡ true
        → ((is_known_good v.physical || is_known_good v.normalized) ≡ true)
          × (is_known_bad v.physical ≡ false)
          × (is_known_bad v.normalized ≡ false)
          × (conflicting v.release_reconciliation ≡ false)
    unfolding safe_for_canonical_naming content_known_good has_known_bad has_conflicts
    safe_parts v h = ground (arith, h)

    -- Where the verification of a result is safe for naming, one match is known good, none is known bad,
    -- and the two do not contradict each other.
    pub safe-known_good :
        safe_for_canonical_naming (verify_identification lower policy r) ≡ true
        → ((m : CanonicalReleaseIdentity) × IsMatch m
            × ((verify_release lower policy m).status ≡ known_good))
          × ((m : CanonicalReleaseIdentity)
              → IsMatch m
              → (verify_release lower policy m).status ≢ known_bad)
          × (conflicting r.release_reconciliation ≡ false)
    unfolding verify_identification
    safe-known_good h =
        let (good, physical, normalized, calm) =
          safe_parts (verify_identification lower policy r) h in
        (
          elim (Bool-cases (is_known_good (report_of lower policy r.physical_match))) [
            | inl e ↦ let (m, is, status) = report_of-good r.physical_match e in (m, inl is, status)
            | inr e ↦
                let (m, is, status) = report_of-good r.normalized_match (ground (arith, good, e)) in
                (m, inr is, status)
          ],
          λ m one. elim one [
            | inl p ↦ report_of-not_bad r.physical_match m physical p
            | inr n ↦ report_of-not_bad r.normalized_match m normalized n
          ],
          calm,
        )
