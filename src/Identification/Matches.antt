-- ===== src/Identification/Matches.antt =====
-- identification.py: where the matches of a result come from, and which of them is selected.
use rom_metadata_framework.Prelude.{
  Bool, ℕ, true, false, ◌≡◌, refl, sym, ap, ◌∙◌, subst, Option, none, some, some-injective, [], ◌∷◌,
  Text, strip, arith, inl, inr, ◌⊎◌, ok-injective,
}
use rom_metadata_framework.Prelude.{Result, ok, err}
use rom_metadata_framework.Evidence.{CanonicalReleaseIdentity}
use rom_metadata_framework.Detection.Candidates.{best}
use rom_metadata_framework.Platforms.Index.{PlatformIndex}
use rom_metadata_framework.Selection.{IdentificationSelection}
use rom_metadata_framework.Reconciliation.Release.{reconcile_release_matches}
use rom_metadata_framework.Reconciliation.Agreement.{selects}
use rom_metadata_framework.LocalMetadata.{same_metadata}
use rom_metadata_framework.Identification.Types.{
  Error, resolver_unavailable, no_supporting_normalizer, HashSet, NormalizedContentIdentity,
  RomIdentity, LookupIdentity, lookup_identity, ProviderLookupStatus, NormalizationResult,
  IdentificationResult, StructuralInspectionResult, same_representation,
}
use rom_metadata_framework.Identification.Collaborators.{
  Collaborators, hashes, normalizes, looks_up_physical, looks_up_normalized,
}
use rom_metadata_framework.Identification.Rules.{
  Early, Normalized, outcome, if_supported, merge_structural_evidence, without_content, name_or,
  size_or, should_normalize, platform_of, identity_of,
}
use rom_metadata_framework.Identification.Checks.{begin_selected, assess_requested_identity}
use rom_metadata_framework.Identification.Engine.{
  detection_of, inspection_of, look_up_content, normalize, conclude, identify_hashed, identify_file,
}
use rom_metadata_framework.Identification.Results.{canonical_match, reconciled}
use rom_metadata_framework.Identification.Runs.{continue-ok}

-- A match that stands in an outcome was the resolver's answer.
outcome-some :
    (answer : Result Error (Option CanonicalReleaseIdentity))
    {looked : Option CanonicalReleaseIdentity × ProviderLookupStatus} {m : CanonicalReleaseIdentity}
    → outcome answer ≡ ok looked
    → looked.0 ≡ some m
    → answer ≡ ok (some m)
unfolding outcome
outcome-some (ok none) h e = absurd (
    cc (
      ap (λ (l : Option CanonicalReleaseIdentity × ProviderLookupStatus). l.0) (ok-injective h),
      e,
    ))
outcome-some (ok (some m')) h e =
    ap ok (
      ap (λ (l : Option CanonicalReleaseIdentity × ProviderLookupStatus). l.0) (ok-injective h) ∙ e)
outcome-some (err resolver_unavailable) h e = absurd (
    cc (
      ap (λ (l : Option CanonicalReleaseIdentity × ProviderLookupStatus). l.0) (ok-injective h),
      e,
    ))
outcome-some (err f) h e = absurd (cc h)

-- What a normalizer's result, where there is one, was.
if_supported-some :
    (answer : Result Error NormalizationResult) {n : NormalizationResult}
    → if_supported answer ≡ ok (some n)
    → answer ≡ ok n
unfolding if_supported
if_supported-some (ok n') h = ap ok (some-injective (ok-injective h))
if_supported-some (err no_supporting_normalizer) h = absurd (cc h)
if_supported-some (err e) h = absurd (cc h)

lookup_identity-fields :
    (name : Text) (size : ℕ) (hashes' : HashSet) {wanted : LookupIdentity}
    → lookup_identity name size hashes' ≡ ok wanted
    → (wanted.hashes ≡ hashes') × (wanted.file_name ≡ strip name) × (wanted.file_size ≡ size)
unfolding lookup_identity
lookup_identity-fields name size hashes' h = ground (arith, h)

module _ {ℓ} {Evidence : Type ℓ} (c : Collaborators Evidence) where
  -- The resolver answered a lookup of the content that the normalizer gave with this match: under the
  -- hashes of that content, and the name and size of the file.
  pub record IsContentAnswer (physical : RomIdentity) (content : Option NormalizedContentIdentity)
      (m : CanonicalReleaseIdentity) : Type 0 where
    pub normalization : NormalizationResult
    pub normalized : c.normalizer ≡ some (ok normalization)
    pub kept : content ≡ some normalization.content
    pub wanted : LookupIdentity
    pub same_hashes : wanted.hashes ≡ normalization.content.hashes
    pub same_name : wanted.file_name ≡ strip (name_or c.path_name physical.file_name)
    pub same_size : wanted.file_size ≡ size_or c.st_size physical.file_size
    pub answered : c.identify_lookup wanted ≡ ok (some m)

  -- It answered with this match, for the hashes of the file or for the content of the result.
  abbrev pub IsAnswer : IdentificationResult Evidence → CanonicalReleaseIdentity → Type 0
  IsAnswer r m =
      ((c.hash ≡ ok r.physical_identity) × (c.identify r.physical_identity ≡ ok (some m)))
      ⊎ IsContentAnswer r.physical_identity r.normalized_content m

  abbrev AnsweredNormalized :
      RomIdentity → Option NormalizedContentIdentity → Option CanonicalReleaseIdentity → Type 0
  AnsweredNormalized physical content match =
      (m : CanonicalReleaseIdentity) → match ≡ some m → IsContentAnswer physical content m

  module _ (lower casefold : Text → Text) (index : PlatformIndex) where
    look_up_content-answered :
        (physical : RomIdentity) (found : Normalized) (n : Option NormalizationResult)
        {n' : Normalized}
        → ((result : NormalizationResult) → n ≡ some result → c.normalizer ≡ some (ok result))
        → AnsweredNormalized physical found.content found.match
        → (look_up_content lower casefold index c physical found n).1 ≡ ok n'
        → AnsweredNormalized physical n'.content n'.match
    unfolding look_up_content
    look_up_content-answered physical found none given answered h =
        subst (λ (x : Normalized). AnsweredNormalized physical x.content x.match) (ok-injective h)
          answered
    look_up_content-answered physical found (some n) given answered h =
        let (representation, merged, rest) =
          continue-ok []
            (merge_structural_evidence same_representation found.representation
              n.physical_representation)
            _ h in
        let (metadata, merged', rest') =
          continue-ok [] (merge_structural_evidence same_metadata found.metadata n.local_metadata) _
            rest in
        let (wanted, named, rest'') =
          continue-ok []
            (lookup_identity (name_or c.path_name physical.file_name)
              (size_or c.st_size physical.file_size) n.content.hashes)
            _ rest' in
        let (looked, answer, made) =
          continue-ok (looks_up_normalized wanted ∷ []) (outcome (c.identify_lookup wanted)) _
            rest'' in
        subst (λ (x : Normalized). AnsweredNormalized physical x.content x.match)
          (ok-injective made)
          (λ m e.
            let (hashes_of, name_of, size_of) = lookup_identity-fields _ _ n.content.hashes named in
            record {
              normalization = n;
              normalized = given n refl;
              kept = refl;
              wanted = wanted;
              same_hashes = hashes_of;
              same_name = name_of;
              same_size = size_of;
              answered = outcome-some (c.identify_lookup wanted) answer e;
            })

    normalize-answered :
        (wanted : Bool) (physical : RomIdentity) (found : Normalized)
        (n : Option (Result Error NormalizationResult)) {n' : Normalized}
        → c.normalizer ≡ n
        → AnsweredNormalized physical found.content found.match
        → (normalize lower casefold index c wanted physical found n).1 ≡ ok n'
        → AnsweredNormalized physical n'.content n'.match
    unfolding normalize
    normalize-answered wanted physical found none given answered h =
        subst (λ (x : Normalized). AnsweredNormalized physical x.content x.match) (ok-injective h)
          answered
    normalize-answered false physical found (some n) given answered h =
        subst (λ (x : Normalized). AnsweredNormalized physical x.content x.match) (ok-injective h)
          answered
    normalize-answered true physical found (some n) given answered h =
        let (result, supported, rest) = continue-ok (normalizes ∷ []) (if_supported n) _ h in
        look_up_content-answered physical found result
          (λ x e. given ∙ ap some (if_supported-some n (supported ∙ ap ok e))) answered rest

    without_content-match :
        (found : Option StructuralInspectionResult) → (without_content found).match ≡ none
    unfolding without_content
    without_content-match none = refl
    without_content-match (some f) = refl

    without_content-answered :
        (physical : RomIdentity) (found : Option StructuralInspectionResult)
        → AnsweredNormalized physical (without_content found).content (without_content found).match
    without_content-answered physical found m e =
        absurd (none_some (sym (without_content-match found) ∙ e))
      where
        none_some : none ≡ some m → ⊥
        none_some h = cc h

    -- A result whose matches are the resolver's answers, reconciled.
    pub record IsAnswered (r : IdentificationResult Evidence) : Type ℓ where
      pub hashed : c.hash ≡ ok r.physical_identity
      pub physical :
          (m : CanonicalReleaseIdentity)
          → r.physical_match ≡ some m
          → c.identify r.physical_identity ≡ ok (some m)
      pub normalized :
          AnsweredNormalized r.physical_identity r.normalized_content r.normalized_match
      pub reconciliation :
          r.release_reconciliation
          ≡ some (reconcile_release_matches r.physical_match r.normalized_match)

    identify_hashed-IsAnswered :
        (force : Bool) (selection : Option IdentificationSelection) (early : Early Evidence)
        {r : IdentificationResult Evidence}
        → (identify_hashed lower casefold index c force selection early).1 ≡ ok r
        → IsAnswered r
    unfolding identify_hashed conclude
    identify_hashed-IsAnswered force selection early {r} h =
        let (physical, hashed, rest) = continue-ok (hashes ∷ []) c.hash _ h in
        let (detection, detected, rest') =
          continue-ok (detection_of lower casefold index c early.0).0
            (detection_of lower casefold index c early.0).1 _ rest in
        let (looked, answer, rest'') =
          continue-ok (looks_up_physical physical ∷ []) (outcome (c.identify physical)) _ rest' in
        let (found, inspected, rest3) =
          continue-ok (inspection_of lower casefold index c c.inspector early.1).0
            (inspection_of lower casefold index c c.inspector early.1).1 _ rest'' in
        let structure = without_content found in
        let wanted = should_normalize force looked.0 looked.1 detection structure.metadata in
        let run = normalize lower casefold index c wanted physical structure c.normalizer in
        let (n, normalized, rest4) = continue-ok run.0 run.1 _ rest3 in
        let (requested, assessed, made) =
          continue-ok []
            (assess_requested_identity lower casefold index (identity_of selection)
              (platform_of (best detection)) n.metadata)
            _ rest4 in
        subst IsAnswered (ok-injective made) (record {
          hashed = hashed;
          physical = λ m e. outcome-some (c.identify physical) answer e;
          normalized =
              normalize-answered wanted physical structure c.normalizer refl
                (without_content-answered physical found) normalized;
          reconciliation = refl;
        })

    pub identify_file-IsAnswered :
        (force : Bool) (selection : Option IdentificationSelection)
        {r : IdentificationResult Evidence}
        → (identify_file lower casefold index c force selection).1 ≡ ok r
        → IsAnswered r
    unfolding identify_file
    identify_file-IsAnswered force selection h =
        let begun = begin_selected lower casefold index c selection in
        let (early, b, rest) = continue-ok begun.0 begun.1 _ h in
        identify_hashed-IsAnswered force selection early rest

    -- The release of a result was an answer of the resolver: to the hashes of the file, or to a lookup
    -- under the hashes of the content that the normalizer gave, which the result keeps, with the name and
    -- the size of the file; and if both were matched, the two have one platform and one name.
    pub identify_file-canonical_match :
        (force : Bool) (selection : Option IdentificationSelection)
        {r : IdentificationResult Evidence} {m : CanonicalReleaseIdentity}
        → (identify_file lower casefold index c force selection).1 ≡ ok r
        → canonical_match r ≡ some m
        → IsAnswer r m
          × ((p n : CanonicalReleaseIdentity)
              → r.physical_match ≡ some p
              → r.normalized_match ≡ some n
              → (p.platform ≡ n.platform) × (p.release_name ≡ n.release_name))
    unfolding canonical_match reconciled
    identify_file-canonical_match force selection {r} {m} h e =
        let a = identify_file-IsAnswered force selection h in
        let selected : (reconcile_release_matches r.physical_match r.normalized_match).selected
            ≡ some m =
          sym
            (ap (λ o. (reconciled o r.physical_match r.normalized_match).selected) a.reconciliation)
          ∙ e in
        let (one, agreed) = selects r.physical_match r.normalized_match selected in
        (
          elim one [ inl p ↦ inl (a.hashed, a.physical m p) | inr n ↦ inr (a.normalized m n) ],
          agreed,
        )
