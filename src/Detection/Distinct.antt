-- ===== src/Detection/Distinct.antt =====
-- detection.py: the result of the composite detector has one candidate for each platform.
use rom_metadata_framework.Prelude.{
  Bool, true, false, ◌||◌, if◌then◌else◌, ◌≡◌, refl, sym, ap, ◌∙◌, subst, Option, none, some, List,
  [], ◌∷◌, any, ◌=t=◌, =t=_iff, Bool-cases, inl, inr, arith, Text, Result, ok, err, ◌>>=◌,
}
use rom_metadata_framework.Platforms.Index.{PlatformIndex}
use rom_metadata_framework.Detection.Candidates.{PlatformCandidate}
use rom_metadata_framework.Detection.Composite.{
  Error, Detector, Composite, given_or, is_empty_list, merged, add_candidate, add_all,
  run_detectors, has_platform, owners, others, canonical_preference, detect_preferring, detect,
}
use rom_metadata_framework.Detection.Gathering.{any-add}

module _ {ℓ} {Evidence : Type ℓ} where
  -- No platform stands twice among the candidates.
  unfoldable pub IsDistinct : List (PlatformCandidate Evidence) → Type 0
  IsDistinct [] = Unit
  IsDistinct (c ∷ cs) = (any (has_platform c.platform) cs ≡ false) × IsDistinct cs

  add_candidate-IsDistinct :
      (ds : List (PlatformCandidate Evidence)) (c : PlatformCandidate Evidence)
      → IsDistinct ds
      → IsDistinct (add_candidate ds c)
  unfolding IsDistinct add_candidate merged
  add_candidate-IsDistinct [] c h = (refl, tt)
  add_candidate-IsDistinct (d ∷ ds) c (hd, h) = elim (Bool-cases (d.platform =t= c.platform)) [
    | inl same ↦
        let e = (=t=_iff d.platform c.platform).0 same in
        rw same (ap (λ p. any (has_platform p) ds) (sym e) ∙ hd, h)
    | inr apart ↦ rw apart (
      any-add d.platform ds c
          ∙ ground (arith, hd, apart, =t=_iff d.platform c.platform, =t=_iff c.platform d.platform),
      add_candidate-IsDistinct ds c h,
    )
  ]

  add_all-IsDistinct :
      (cs ds : List (PlatformCandidate Evidence)) → IsDistinct ds → IsDistinct (add_all ds cs)
  unfolding add_all
  add_all-IsDistinct [] ds h = h
  add_all-IsDistinct (c ∷ cs) ds h =
      add_all-IsDistinct cs (add_candidate ds c) (add_candidate-IsDistinct ds c h)

  -- No platform stands twice among the candidates that are returned, if any are.
  unfoldable HasDistinct : Result Error (List (PlatformCandidate Evidence)) → Type 0
  HasDistinct (ok cs) = IsDistinct cs
  HasDistinct (err e) = Unit

  bind-HasDistinct {κ} :
      {A : Type κ} (r : Result Error A) (f : A → Result Error (List (PlatformCandidate Evidence)))
      → ((a : A) → r ≡ ok a → HasDistinct (f a))
      → HasDistinct (r >>= f)
  unfolding HasDistinct
  bind-HasDistinct (ok a) f h = h a refl
  bind-HasDistinct (err e) f h = tt

  if-HasDistinct :
      (b : Bool) (x y : Result Error (List (PlatformCandidate Evidence)))
      → HasDistinct x
      → HasDistinct y
      → HasDistinct (if b then x else y)
  if-HasDistinct true x y hx hy = hx
  if-HasDistinct false x y hx hy = hy

  run_detectors-HasDistinct :
      (detectors : List (Detector Evidence)) (ds : List (PlatformCandidate Evidence))
      → IsDistinct ds
      → HasDistinct (run_detectors ds detectors)
  unfolding run_detectors HasDistinct
  run_detectors-HasDistinct [] ds h = h
  run_detectors-HasDistinct (d ∷ detectors) ds h = bind-HasDistinct d.detects _ λ found e.
      run_detectors-HasDistinct detectors (add_all ds found) (add_all-IsDistinct found ds h)

  module _ (supports : Text → Text → Bool) where
    detect_preferring-HasDistinct :
        (detectors : List (Detector Evidence)) (preferred : Option Text) (restrict : Bool)
        → HasDistinct (detect_preferring supports detectors preferred restrict)
    unfolding detect_preferring HasDistinct IsDistinct
    detect_preferring-HasDistinct detectors none restrict =
        if-HasDistinct restrict _ _ tt (run_detectors-HasDistinct detectors [] tt)
    detect_preferring-HasDistinct detectors (some p) restrict =
        if-HasDistinct (is_empty_list (owners supports p detectors)) _ _
          (if-HasDistinct restrict _ _ tt
            (run_detectors-HasDistinct (others supports p detectors) [] tt))
          (bind-HasDistinct (run_detectors [] (owners supports p detectors)) _ λ cs e.
            let distinct : IsDistinct cs =
              subst HasDistinct e (run_detectors-HasDistinct (owners supports p detectors) [] tt) in
            if-HasDistinct (any (has_platform p) cs || restrict) _ _ distinct
              (run_detectors-HasDistinct (others supports p detectors) cs distinct))

    -- Whatever the detectors report and however they are routed, no platform stands twice in what
    -- `detect` returns.
    pub detect-IsDistinct :
        (lower : Text → Text) (index : PlatformIndex) (composite : Composite Evidence)
        (preferred : Option Text) (restrict : Bool) {cs : List (PlatformCandidate Evidence)}
        → detect supports lower index composite preferred restrict ≡ ok cs
        → IsDistinct cs
    unfolding detect HasDistinct
    detect-IsDistinct lower index composite preferred restrict h =
        let o = given_or preferred composite.preferred_platform in
        subst HasDistinct h (
          bind-HasDistinct (canonical_preference lower index o) _ λ q e.
            detect_preferring-HasDistinct composite.detectors q
              (restrict || composite.restrict_platform))
