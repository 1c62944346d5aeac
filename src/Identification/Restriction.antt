-- ===== src/Identification/Restriction.antt =====
-- identification.py: what a restriction keeps from being done.
use rom_metadata_framework.Prelude.{
  Bool, true, ◌≡◌, refl, sym, ap, ◌∙◌, subst, Option, none, some, List, [], ◌∷◌, ◌++◌, All, Text,
  =t=_iff, Bool-cases, inl, inr, ◌⊎◌, arith,
}
use rom_metadata_framework.Prelude.{Result, ok, err}
use rom_metadata_framework.Detection.Candidates.{PlatformCandidate, best}
use rom_metadata_framework.Platforms.Index.{PlatformIndex}
use rom_metadata_framework.Selection.{RequestedIdentity, IdentificationSelection, identifiers_equal}
use rom_metadata_framework.Identification.Types.{Error, StructuralInspectionResult}
use rom_metadata_framework.Identification.Collaborators.{
  Collaborators, Event, stage, detects, inspects, M, continue,
}
use rom_metadata_framework.Identification.Runs.{continue-All, continue-ok}
use rom_metadata_framework.Identification.Rules.{Early, platform_of}
use rom_metadata_framework.Identification.Checks.{
  primary_identifier, require_platform, require_identifier, inspected_identity, check_identity,
  check_restricted, begin_selected,
}
use rom_metadata_framework.Identification.Engine.{identify_hashed, identify_file}

-- A call that reads a bounded part of the file: no hashing, no normalization, no provider.
unfoldable pub IsBounded : Event → Type 0
IsBounded (stage text) = Unit
IsBounded detects = Unit
IsBounded inspects = Unit
IsBounded _ = ⊥

quiet {ℓ κ} :
    {A : Type ℓ} {B : Type κ} (r : Result Error A) (f : A → M B)
    → ((a : A) → (f a).0 ≡ [])
    → (continue [] r f).0 ≡ []
quiet (ok a) f h = h a
quiet (err e) f h = refl

quiet_behind {ℓ} :
    {A : Type ℓ} (m : M (Unit {0})) (a : A)
    → m.0 ≡ []
    → (continue m.0 m.1 (λ u. ([], ok (some a)))).0 ≡ []
quiet_behind (t, ok u) a h = ap (λ l. l ++ []) h
quiet_behind (t, err e) a h = h

-- What the inspector answers, where there is one.
abbrev Inspector : Type 0
Inspector = Option (Result Error (Option StructuralInspectionResult))

module _ (lower casefold : Text → Text) (index : PlatformIndex) where
  -- The inspector's result is a structure, and it carries the identifier asked for.
  pub record IsIdentified (platform : Text) (i : RequestedIdentity) (inspector : Inspector)
      : Type 0 where
    pub structure : StructuralInspectionResult
    pub inspected : inspector ≡ some (ok (some structure))
    pub observed : Text
    pub read :
        primary_identifier lower casefold index structure.local_metadata platform
        ≡ ok (some observed)
    pub equal : identifiers_equal casefold observed i.identifier ≡ true

  abbrev pub HasIdentity : Text → Option RequestedIdentity → Inspector → Type 0
  HasIdentity platform none inspector = Unit
  HasIdentity platform (some i) inspector = IsIdentified platform i inspector

  require_identifier-ok :
      (i : RequestedIdentity) (observed : Option Text) {u : Unit {0}}
      → (require_identifier lower casefold index i observed).1 ≡ ok u
      → (o : Text) × (observed ≡ some o) × (identifiers_equal casefold o i.identifier ≡ true)
  unfolding require_identifier
  require_identifier-ok i none h = absurd (cc h)
  require_identifier-ok i (some o) h = (o, refl, ground (arith, h))

  require_identifier-quiet :
      (i : RequestedIdentity) (observed : Option Text)
      → (require_identifier lower casefold index i observed).0 ≡ []
  unfolding require_identifier
  require_identifier-quiet i none = refl
  require_identifier-quiet i (some o) = ground arith

  inspected_identity-ok :
      (platform : Text) (i : RequestedIdentity) (found : Option StructuralInspectionResult)
      {kept : Option StructuralInspectionResult}
      → (inspected_identity lower casefold index platform i found).1 ≡ ok kept
      → IsIdentified platform i (some (ok found))
  unfolding inspected_identity
  inspected_identity-ok platform i none h = absurd (cc h)
  inspected_identity-ok platform i (some structure) h =
      let (observed, read, rest) =
        continue-ok [] (primary_identifier lower casefold index structure.local_metadata platform) _
          h in
      let (u, passed, made) =
        continue-ok (require_identifier lower casefold index i observed).0
          (require_identifier lower casefold index i observed).1 _ rest in
      let (o, is_some, equal) = require_identifier-ok i observed passed in
      record {
        structure = structure;
        inspected = refl;
        observed = o;
        read = read ∙ ap ok is_some;
        equal = equal;
      }

  inspected_identity-quiet :
      (platform : Text) (i : RequestedIdentity) (found : Option StructuralInspectionResult)
      → (inspected_identity lower casefold index platform i found).0 ≡ []
  unfolding inspected_identity
  inspected_identity-quiet platform i none = refl
  inspected_identity-quiet platform i (some structure) =
      quiet (primary_identifier lower casefold index structure.local_metadata platform) _
        λ observed.
          quiet_behind (require_identifier lower casefold index i observed) structure
            (require_identifier-quiet i observed)

  check_identity-IsBounded :
      (platform : Text) (identity : Option RequestedIdentity)
      (inspector : Option (Result Error (Option StructuralInspectionResult)))
      → All IsBounded (check_identity lower casefold index platform identity inspector).0
  unfolding check_identity IsBounded
  check_identity-IsBounded platform none inspector = tt
  check_identity-IsBounded platform (some i) none = tt
  check_identity-IsBounded platform (some i) (some (err e)) = (tt, (tt, tt))
  check_identity-IsBounded platform (some i) (some (ok found)) =
      (tt, (tt, subst (All IsBounded) (sym (inspected_identity-quiet platform i found)) tt))

  check_identity-ok :
      (platform : Text) (identity : Option RequestedIdentity)
      (inspector : Option (Result Error (Option StructuralInspectionResult)))
      {kept : Option StructuralInspectionResult}
      → (check_identity lower casefold index platform identity inspector).1 ≡ ok kept
      → HasIdentity platform identity inspector
  unfolding check_identity
  check_identity-ok platform none inspector h = tt
  check_identity-ok platform (some i) none h = absurd (cc h)
  check_identity-ok platform (some i) (some (err e)) h = absurd (cc h)
  check_identity-ok platform (some i) (some (ok found)) h = inspected_identity-ok platform i found h

  require_platform-quiet :
      (p : Text) (identity : Option RequestedIdentity) (detected : Option Text)
      → (require_platform p identity detected).0 ≡ []
  unfolding require_platform
  require_platform-quiet p identity none = refl
  require_platform-quiet p identity (some d) = ground arith

  require_platform-ok :
      (p : Text) (identity : Option RequestedIdentity) (detected : Option Text) {u : Unit {0}}
      → (require_platform p identity detected).1 ≡ ok u
      → detected ≡ some p
  unfolding require_platform
  require_platform-ok p identity none h = absurd (cc h)
  require_platform-ok p identity (some d) h = ground (arith, h, =t=_iff d p)

  module _ {ℓ} {Evidence : Type ℓ} (c : Collaborators Evidence) where
    -- What the checks of a restricted selection have established when they pass.
    pub record IsEstablished (platform : Text) (identity : Option RequestedIdentity) : Type ℓ where
      pub detection : List (PlatformCandidate Evidence)
      pub detected : c.detect ≡ ok detection
      pub requested : platform_of (best detection) ≡ some platform
      pub identified : HasIdentity platform identity c.inspector

    check_restricted-IsBounded :
        (platform : Option Text) (identity : Option RequestedIdentity)
        → All IsBounded (check_restricted lower casefold index c platform identity).0
    unfolding check_restricted IsBounded
    check_restricted-IsBounded none identity = tt
    check_restricted-IsBounded (some p) identity = (
      tt,
      continue-All IsBounded (detects ∷ []) c.detect _ (tt, tt)
          λ d e.
            continue-All IsBounded _ (require_platform p identity (platform_of (best d))).1 _
              (subst (All IsBounded)
                (sym (require_platform-quiet p identity (platform_of (best d)))) tt)
              λ u e'.
                continue-All IsBounded _
                  (check_identity lower casefold index p identity c.inspector).1 _
                  (check_identity-IsBounded p identity c.inspector) λ found e''. tt,
    )

    check_restricted-IsEstablished :
        (p : Text) (identity : Option RequestedIdentity) {early : Early Evidence}
        → (check_restricted lower casefold index c (some p) identity).1 ≡ ok early
        → IsEstablished p identity
    unfolding check_restricted
    check_restricted-IsEstablished p identity h =
        let (d, detected, rest) = continue-ok (detects ∷ []) c.detect _ h in
        let (u, passed, rest') =
          continue-ok (require_platform p identity (platform_of (best d))).0
            (require_platform p identity (platform_of (best d))).1 _ rest in
        let (found, checked, made) =
          continue-ok (check_identity lower casefold index p identity c.inspector).0
            (check_identity lower casefold index p identity c.inspector).1 _ rest' in
        record {
          detection = d;
          detected = detected;
          requested = require_platform-ok p identity (platform_of (best d)) passed;
          identified = check_identity-ok p identity c.inspector checked;
        }

    begin_selected-IsBounded :
        (selection : Option IdentificationSelection)
        → All IsBounded (begin_selected lower casefold index c selection).0
    unfolding begin_selected
    begin_selected-IsBounded none = tt
    begin_selected-IsBounded (some s) = elim (Bool-cases s.restrict) [
      | inl restrict ↦ rw restrict (check_restricted-IsBounded s.platform s.identity)
      | inr free ↦ rw free tt
    ]

    -- A run under a restricted selection either ends in an error and makes no call but those of the
    -- detector and the inspector, so that nothing is hashed, normalized or looked up; or the detector
    -- put the platform asked for first and, where an identity was asked for, the inspector returned a
    -- structure whose primary identifier for that platform equals the identifier asked for.
    pub identify_file-restricted :
        (force : Bool) (p : Text) (identity : Option RequestedIdentity)
        → let s : IdentificationSelection = record {
          platform = some p;
          identity = identity;
          restrict = true;
        } in
          ((e : Error) × ((identify_file lower casefold index c force (some s)).1 ≡ err e)
            × All IsBounded (identify_file lower casefold index c force (some s)).0)
          ⊎ IsEstablished p identity
    unfolding identify_file begin_selected
    identify_file-restricted force p identity =
        split (check_restricted lower casefold index c (some p) identity) refl
      where
        split :
            (m : M (Early Evidence))
            → check_restricted lower casefold index c (some p) identity ≡ m
            → let run = continue m.0 m.1 (
                identify_hashed lower casefold index c force
                  (some (record { platform = some p; identity = identity; restrict = true }))) in
              ((e : Error) × (run.1 ≡ err e) × All IsBounded run.0) ⊎ IsEstablished p identity
        split (t, ok early) e =
            inr (check_restricted-IsEstablished p identity (ap (λ (m : M (Early Evidence)). m.1) e))
        split (t, err f) e = inl (
          f,
          refl,
          subst (λ (m : M (Early Evidence)). All IsBounded m.0) e
              (check_restricted-IsBounded (some p) identity),
        )
