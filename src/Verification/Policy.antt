-- ===== src/Verification/Policy.antt =====
-- verification.py: the policy, and `verify_release`. `lower` stands for `str.lower`. A report's
-- reasons, one fixed text for each status, are left out. Its conflicts are always the identity's: the
-- source passes them on with the status of a conflict, and there are none with any other status.
use rom_metadata_framework.Prelude.{
  Bool, true, false, not, ◌&&◌, ◌||◌, if◌then◌else◌, Option, none, some, List, [], ◌∷◌, map, keep,
  any, Text, codes, strip, is_empty, elem_text, ◌=t=◌,
}
use rom_metadata_framework.Evidence.{
  CatalogueEvidence, CanonicalReleaseIdentity, is_content_match, is_strong_content_match,
}

pub data VerificationStatus : Type 0 where
  known_good known_bad catalogue_match conflict probable unknown : VerificationStatus

abbrev pub bad_statuses : List Text
bad_statuses =
    codes "bad" ∷ codes "bad dump" ∷ codes "baddump" ∷ codes "corrupt" ∷ codes "corrupted" ∷ []

pub record VerificationPolicy : Type 0 where
  pub trusted_authorities : List Text
  pub accepted_verified_statuses : List Text
  pub require_current_catalogue : Bool

abbrev pub default_verification_policy : VerificationPolicy
default_verification_policy = record {
  trusted_authorities = codes "no-intro" ∷ codes "redump" ∷ [];
  accepted_verified_statuses = codes "verified" ∷ [];
  require_current_catalogue = true;
}

pub record VerificationReport : Type 0 where
  pub status : VerificationStatus
  pub evidence : List CatalogueEvidence
  pub conflicts : List Text

abbrev pub has_items {ℓ} : {A : Type ℓ} → List A → Bool
has_items [] = false
has_items (x ∷ xs) = true

abbrev pub is_none {ℓ} : {A : Type ℓ} → Option A → Bool
is_none none = true
is_none (some a) = false

-- `value is True`
abbrev pub is_true : Option Bool → Bool
is_true none = false
is_true (some b) = b

-- item.file_status in _BAD_STATUSES
unfoldable pub is_bad_status : Option Text → Bool
is_bad_status none = false
is_bad_status (some status) = elem_text status bad_statuses

-- The test of the first loop of `verify_release`.
unfoldable pub is_bad : CatalogueEvidence → Bool
unfolding is_bad_status
is_bad e = is_content_match e && is_bad_status e.file_status

module _ (lower : Text → Text) where
  -- {text.strip().lower() for text in texts if text.strip()}
  unfoldable pub normalized : List Text → List Text
  normalized texts = map (λ t. lower (strip t)) (keep (λ t. not (is_empty (strip t))) texts)

  -- VerificationPolicy.__post_init__
  unfoldable pub verification_policy : VerificationPolicy → VerificationPolicy
  unfolding normalized
  verification_policy raw = record {
    trusted_authorities = normalized raw.trusted_authorities;
    accepted_verified_statuses = normalized raw.accepted_verified_statuses;
    require_current_catalogue = raw.require_current_catalogue;
  }

  unfoldable pub is_among : List Text → Option Text → Bool
  is_among texts none = false
  is_among texts (some t) = elem_text (lower (strip t)) texts

  unfoldable pub trusts_authority : VerificationPolicy → Option Text → Bool
  unfolding is_among
  trusts_authority policy authority = is_among policy.trusted_authorities authority

  unfoldable pub accepts_status : VerificationPolicy → Option Text → Bool
  unfolding is_among
  accepts_status policy status = is_among policy.accepted_verified_statuses status

  unfoldable pub is_redump : Option Text → Bool
  is_redump none = false
  is_redump (some authority) = lower (strip authority) =t= codes "redump"

  unfoldable pub accepts_catalogue_evidence : VerificationPolicy → CatalogueEvidence → Bool
  unfolding trusts_authority accepts_status is_redump
  accepts_catalogue_evidence policy e =
      if not (trusts_authority policy e.authority)
      then false
      else if accepts_status policy e.file_status
      then true
      else is_redump e.authority && is_none e.file_status

  unfoldable pub is_current : VerificationPolicy → CatalogueEvidence → Bool
  is_current policy e =
      is_true e.current_in_latest_catalogue || not policy.require_current_catalogue

  -- The test of the second loop.
  unfoldable pub is_good : VerificationPolicy → CatalogueEvidence → Bool
  unfolding accepts_catalogue_evidence is_current
  is_good policy e =
      is_strong_content_match e
      && accepts_catalogue_evidence policy e
      && is_current policy e
      && not (is_none e.catalogue_name)

  -- The status, from the tests in their order.
  unfoldable pub status_of : VerificationPolicy → CanonicalReleaseIdentity → VerificationStatus
  unfolding is_bad is_good
  status_of policy identity =
      if has_items identity.conflicts
      then conflict
      else if any is_bad identity.catalogue_evidence
      then known_bad
      else if any (is_good policy) identity.catalogue_evidence
      then known_good
      else if any is_content_match identity.catalogue_evidence
      then catalogue_match
      else if has_items identity.evidence
      then probable
      else unknown

  unfoldable pub verify_release : VerificationPolicy → CanonicalReleaseIdentity → VerificationReport
  unfolding status_of
  verify_release policy identity = record {
    status = status_of policy identity;
    evidence = identity.catalogue_evidence;
    conflicts = identity.conflicts;
  }
