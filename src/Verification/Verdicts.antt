-- ===== src/Verification/Verdicts.antt =====
-- verification.py: when `verify_release` gives which status.
use rom_metadata_framework.Prelude.{
  Bool, true, false, not, ◌&&◌, ◌||◌, ◌≡◌, ◌≢◌, ◌↔◌, ◌⊎◌, inl, inr, refl, sym, ap, Option, none,
  some, List, [], ◌∷◌, any, All, Exists, any-true, any-false, any-perm, All-any, Exists-any,
  Exists-All, Permᴰ, Bool-cases, Text, codes, strip, elem_text, =t=_iff, arith,
}
use rom_metadata_framework.Evidence.{
  CatalogueEvidence, CanonicalReleaseIdentity, is_content_match, is_strong_content_match,
}
use rom_metadata_framework.Verification.Policy.{
  known_good, VerificationPolicy, is_none, is_true, is_among, trusts_authority, accepts_status,
  accepts_catalogue_evidence, is_redump, is_current, is_bad, is_bad_status, bad_statuses, is_good,
  status_of, verify_release,
}

-- A record of exactly this content that the catalogue lists as bad.
pub record IsBad (e : CatalogueEvidence) : Type 0 where
  pub matched : is_content_match e ≡ true
  pub status : Text
  pub listed : e.file_status ≡ some status
  pub bad : elem_text status bad_statuses ≡ true

IsBad-is_bad : (e : CatalogueEvidence) → IsBad e → is_bad e ≡ true
unfolding is_bad is_bad_status
IsBad-is_bad e b = ground (arith, b.matched, b.listed, b.bad)

is_bad-IsBad : (e : CatalogueEvidence) → is_bad e ≡ true → IsBad e
unfolding is_bad is_bad_status
is_bad-IsBad e h =
    let (status, listed, bad) = listed_status e.file_status (ground (arith, h)) in
    record { matched = ground (arith, h); status = status; listed = listed; bad = bad }
  where
    listed_status :
        (s : Option Text)
        → is_bad_status s ≡ true
        → (t : Text) × (s ≡ some t) × (elem_text t bad_statuses ≡ true)
    listed_status none h = absurd (cc h)
    listed_status (some t) h = (t, refl, h)

module _ (lower : Text → Text) (policy : VerificationPolicy) where
  -- An authority that the policy trusts, or a status that it accepts.
  abbrev pub IsListed : List Text → Option Text → Type 0
  IsListed texts given = (t : Text) × (given ≡ some t) × (elem_text (lower (strip t)) texts ≡ true)

  -- Redump records carry no status; the exact hash alone accepts them.
  abbrev pub IsRedump : CatalogueEvidence → Type 0
  IsRedump e =
      (t : Text) × (e.authority ≡ some t)
      × (lower (strip t) ≡ codes "redump")
      × (e.file_status ≡ none)

  -- What the policy wants of a record to call the content known good.
  pub record IsGood (e : CatalogueEvidence) : Type 0 where
    pub strong :
        (e.match_method ≡ codes "SHA256")
        ⊎ ((e.match_method ≡ codes "SHA1") ⊎ (e.match_method ≡ codes "MD5"))
    pub trusted : IsListed policy.trusted_authorities e.authority
    pub accepted : IsListed policy.accepted_verified_statuses e.file_status ⊎ IsRedump e
    pub current :
        policy.require_current_catalogue ≡ true → e.current_in_latest_catalogue ≡ some true
    pub named : e.catalogue_name ≢ none

  is_among-IsListed :
      (texts : List Text) (given : Option Text)
      → is_among lower texts given ≡ true
      → IsListed texts given
  unfolding is_among
  is_among-IsListed texts none h = absurd (cc h)
  is_among-IsListed texts (some t) h = (t, refl, h)

  IsListed-is_among :
      (texts : List Text) (given : Option Text)
      → IsListed texts given
      → is_among lower texts given ≡ true
  unfolding is_among
  IsListed-is_among texts none (t, e, h) = absurd (cc e)
  IsListed-is_among texts (some s) (t, e, h) = ground (arith, e, h)

  strong_methods :
      (e : CatalogueEvidence)
      → (is_strong_content_match e ≡ true) ↔ (
          (e.match_method ≡ codes "SHA256")
          ⊎ ((e.match_method ≡ codes "SHA1") ⊎ (e.match_method ≡ codes "MD5")))
  unfolding is_strong_content_match elem_text
  strong_methods e = ground (
    arith,
    =t=_iff e.match_method (codes "SHA256"),
    =t=_iff e.match_method (codes "SHA1"),
    =t=_iff e.match_method (codes "MD5"),
  )

  is_redump-IsRedump :
      (e : CatalogueEvidence)
      → ((is_redump lower e.authority && is_none e.file_status) ≡ true) ↔ IsRedump e
  unfolding is_redump
  is_redump-IsRedump e = redump e.authority e.file_status
    where
      redump :
          (a s : Option Text)
          → ((is_redump lower a && is_none s) ≡ true)
            ↔ ((t : Text) × (a ≡ some t) × (lower (strip t) ≡ codes "redump") × (s ≡ none))
      redump none s = (λ h. absurd (cc h), λ (t, e, r, n). absurd (cc e))
      redump (some a) none = (
        λ h. (a, refl, ground (arith, h, =t=_iff (lower (strip a)) (codes "redump")), refl),
        λ (t, e, r, n). ground (arith, e, r, =t=_iff (lower (strip a)) (codes "redump")),
      )
      redump (some a) (some s) = (λ h. ground (arith, h), λ (t, e, r, n). absurd (cc n))

  accepted_parts :
      (e : CatalogueEvidence)
      → (accepts_catalogue_evidence lower policy e ≡ true) ↔ (
          (trusts_authority lower policy e.authority ≡ true)
          × ((accepts_status lower policy e.file_status ≡ true)
              ⊎ ((is_redump lower e.authority && is_none e.file_status) ≡ true)))
  unfolding accepts_catalogue_evidence
  accepted_parts e = ground arith

  current_parts :
      (e : CatalogueEvidence)
      → (is_current lower policy e ≡ true)
        ↔ (policy.require_current_catalogue ≡ true → e.current_in_latest_catalogue ≡ some true)
  unfolding is_current
  current_parts e = go e.current_in_latest_catalogue policy.require_current_catalogue
    where
      go : (c : Option Bool) (r : Bool) → ((is_true c || not r) ≡ true) ↔ (r ≡ true → c ≡ some true)
      go none true = ground arith
      go none false = ground arith
      go (some true) r = ground arith
      go (some false) true = ground arith
      go (some false) false = ground arith

  good_parts :
      (e : CatalogueEvidence)
      → (is_good lower policy e ≡ true) ↔ (
          (is_strong_content_match e ≡ true)
          × (accepts_catalogue_evidence lower policy e ≡ true)
          × (is_current lower policy e ≡ true)
          × (is_none e.catalogue_name ≡ false))
  unfolding is_good
  good_parts e = ground arith

  is_good-iff-IsGood : (e : CatalogueEvidence) → (is_good lower policy e ≡ true) ↔ IsGood e
  unfolding trusts_authority accepts_status
  is_good-iff-IsGood e = (there, back)
    where
      there : is_good lower policy e ≡ true → IsGood e
      there h =
          let (strong, accepts, current, named) = (good_parts e).0 h in
          let (trusted, accepted) = (accepted_parts e).0 accepts in
          record {
            strong = (strong_methods e).0 strong;
            trusted = is_among-IsListed policy.trusted_authorities e.authority trusted;
            accepted = elim accepted [
              | inl s ↦ inl (is_among-IsListed policy.accepted_verified_statuses e.file_status s)
              | inr r ↦ inr ((is_redump-IsRedump e).0 r)
            ];
            current = (current_parts e).0 current;
            named = λ n. cc (named, ap is_none n);
          }

      back : IsGood e → is_good lower policy e ≡ true
      back g = (good_parts e).1 (
        (strong_methods e).1 g.strong,
        (accepted_parts e).1 (
          IsListed-is_among policy.trusted_authorities e.authority g.trusted,
          elim g.accepted [
            | inl s ↦ inl (IsListed-is_among policy.accepted_verified_statuses e.file_status s)
            | inr r ↦ inr ((is_redump-IsRedump e).1 r)
          ],
        ),
        (current_parts e).1 g.current,
        present e.catalogue_name g.named,
      )
        where
          present : (o : Option Text) → o ≢ none → is_none o ≡ false
          present none h = absurd (h refl)
          present (some t) h = refl

  good_status :
      (identity : CanonicalReleaseIdentity)
      → (status_of lower policy identity ≡ known_good) ↔ (
          (identity.conflicts ≡ [])
          × (any is_bad identity.catalogue_evidence ≡ false)
          × (any (is_good lower policy) identity.catalogue_evidence ≡ true))
  unfolding status_of
  good_status identity = go identity.conflicts
    where
      go :
          (c : List Text)
          → (status_of lower policy (record identity { conflicts = c }) ≡ known_good) ↔ (
              (c ≡ [])
              × (any is_bad identity.catalogue_evidence ≡ false)
              × (any (is_good lower policy) identity.catalogue_evidence ≡ true))
      go [] = ground arith
      go (x ∷ c) = (λ h. absurd (cc h), λ (n, b, g). absurd (cc n))

  All-map :
      {P Q : CatalogueEvidence → Type 0} (xs : List CatalogueEvidence)
      → ((e : CatalogueEvidence) → P e → Q e)
      → All P xs
      → All Q xs
  All-map [] f h = tt
  All-map (x ∷ xs) f (hx, h) = (f x hx, All-map xs f h)

  Exists-map :
      {P Q : CatalogueEvidence → Type 0} (xs : List CatalogueEvidence)
      → ((e : CatalogueEvidence) → P e → Q e)
      → Exists P xs
      → Exists Q xs
  Exists-map xs f e = record {
    before = e.before;
    item = e.item;
    after = e.after;
    split = e.split;
    holds = f e.item e.holds;
  }

  not-IsBad : (e : CatalogueEvidence) → is_bad e ≡ false → ¬ IsBad e
  not-IsBad e h b = cc (h, IsBad-is_bad e b)

  not-is_bad : (e : CatalogueEvidence) → ¬ IsBad e → is_bad e ≡ false
  not-is_bad e h = elim (Bool-cases (is_bad e)) [
    | inl hit ↦ absurd (h (is_bad-IsBad e hit))
    | inr miss ↦ miss
  ]

  -- `verify_release` calls the content known good exactly where the identity has no conflicts, no record
  -- of the content is listed as bad, and one record satisfies the policy: a strong hash, an authority
  -- that is trusted, a status that is accepted or a Redump record without one, a catalogue that is
  -- current if the policy wants that, and a catalogue's name.
  pub verify_release-known_good :
      (identity : CanonicalReleaseIdentity)
      → ((verify_release lower policy identity).status ≡ known_good) ↔ (
          (identity.conflicts ≡ [])
          × All (λ e. ¬ IsBad e) identity.catalogue_evidence
          × Exists IsGood identity.catalogue_evidence)
  unfolding verify_release
  verify_release-known_good identity = (
    λ h.
        let (none_left, unsuspected, good) = (good_status identity).0 h in
        (
          none_left,
          All-map identity.catalogue_evidence not-IsBad
              (any-false is_bad identity.catalogue_evidence unsuspected),
          Exists-map identity.catalogue_evidence (λ e. (is_good-iff-IsGood e).0)
              (any-true (is_good lower policy) identity.catalogue_evidence good),
        ),
    λ (none_left, unsuspected, good). (good_status identity).1 (
      none_left,
      All-any is_bad identity.catalogue_evidence
          (All-map identity.catalogue_evidence not-is_bad unsuspected),
      Exists-any (is_good lower policy) identity.catalogue_evidence
          (Exists-map identity.catalogue_evidence (λ e. (is_good-iff-IsGood e).1) good),
    ),
  )

  -- The order of the records does not matter: permuting them leaves the status as it is.
  pub verify_release-perm :
      (identity : CanonicalReleaseIdentity) {records : List CatalogueEvidence}
      → Permᴰ identity.catalogue_evidence records
      → (verify_release lower policy (record identity { catalogue_evidence = records })).status
        ≡ (verify_release lower policy identity).status
  unfolding verify_release status_of
  verify_release-perm identity {records} p =
      rw
        (
          sym (any-perm is_bad p),
          sym (any-perm (is_good lower policy) p),
          sym (any-perm is_content_match p),
        )
        refl

  -- A match by CRC alone never makes content known good.
  pub verify_release-weak :
      (identity : CanonicalReleaseIdentity)
      → All (λ e. e.match_method ≡ codes "CRC") identity.catalogue_evidence
      → (verify_release lower policy identity).status ≢ known_good
  verify_release-weak identity weak h =
      let (none_left, unsuspected, good) = (verify_release-known_good identity).0 h in
      let (e, g, crc) = Exists-All good weak in
      elim g.strong [
        | inl sha256 ↦ ground (arith, sha256, crc)
        | inr (inl sha1) ↦ ground (arith, sha1, crc)
        | inr (inr md5) ↦ ground (arith, md5, crc)
      ]
