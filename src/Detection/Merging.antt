-- ===== src/Detection/Merging.antt =====
-- detection.py: what the composite detector makes of its detectors' reports.
use rom_metadata_framework.Prelude.{
  Bool, true, false, ◌||◌, if◌then◌else◌, ◌≡◌, refl, sym, ap, ◌∙◌, Option, none, some, List, [],
  ◌∷◌, ◌++◌, any, Text,
}
use rom_metadata_framework.Prelude.{Result, ok, err, ◌>>=◌, All}
use mathlib.Core.List.{append_assoc}
use rom_metadata_framework.Detection.Candidates.{PlatformCandidate}
use rom_metadata_framework.Detection.Composite.{
  Detector, Composite, is_empty_list, add_candidate, add_all, run_detectors, has_platform, owners,
  others, detect_preferring, Error,
}
use rom_metadata_framework.Detection.Gathering.{any-add_all}

module _ {ℓ} {Evidence : Type ℓ} where
  abbrev pub given :
      Result Error (List (PlatformCandidate Evidence)) → List (PlatformCandidate Evidence)
  given (ok cs) = cs
  given (err e) = []

  -- All that the detectors find, in their order; one that raises gives nothing.
  unfoldable pub reports : List (Detector Evidence) → List (PlatformCandidate Evidence)
  reports [] = []
  reports (d ∷ ds) = given d.detects ++ reports ds

  -- A detector that does not raise.
  abbrev pub IsAnswering : Detector Evidence → Type ℓ
  IsAnswering d = (cs : List (PlatformCandidate Evidence)) × (d.detects ≡ ok cs)

  add_all-append :
      (ds xs ys : List (PlatformCandidate Evidence))
      → add_all ds (xs ++ ys) ≡ add_all (add_all ds xs) ys
  unfolding add_all
  add_all-append ds [] ys = refl
  add_all-append ds (x ∷ xs) ys = add_all-append (add_candidate ds x) xs ys

  run_detectors-reports :
      (detectors : List (Detector Evidence)) (ds : List (PlatformCandidate Evidence))
      → All IsAnswering detectors
      → run_detectors ds detectors ≡ ok (add_all ds (reports detectors))
  unfolding run_detectors reports add_all
  run_detectors-reports [] ds h = refl
  run_detectors-reports (d ∷ detectors) ds ((cs, e), h) =
      ap
        (λ (x : Result Error (List (PlatformCandidate Evidence))).
          x >>= λ found. run_detectors (add_all ds found) detectors)
        e
      ∙ run_detectors-reports detectors (add_all ds cs) h
      ∙ ap ok (
          sym (add_all-append ds cs (reports detectors))
          ∙ ap (λ found. add_all ds (found ++ reports detectors)) (sym (ap given e)))

  reports-append :
      (xs ys : List (Detector Evidence)) → reports (xs ++ ys) ≡ reports xs ++ reports ys
  unfolding reports
  reports-append [] ys = refl
  reports-append (x ∷ xs) ys =
      ap (λ rs. given x.detects ++ rs) (reports-append xs ys)
      ∙ sym (append_assoc (given x.detects) (reports xs) (reports ys))

  All-parts :
      (xs ys : List (Detector Evidence))
      → All IsAnswering (xs ++ ys)
      → All IsAnswering xs × All IsAnswering ys
  All-parts [] ys h = (tt, h)
  All-parts (x ∷ xs) ys (hx, h) = let (hs, hy) = All-parts xs ys h in ((hx, hs), hy)

  first_part :
      (b : Bool) (own other : List (Detector Evidence))
      → All IsAnswering (if b then own else own ++ other)
      → All IsAnswering own
  first_part true own other h = h
  first_part false own other h = (All-parts own other h).0

  -- The second group, which runs if it is wanted.
  either_run :
      (b : Bool) (own other : List (Detector Evidence))
      → All IsAnswering (if b then own else own ++ other)
      → (if b
          then ok (add_all [] (reports own))
          else run_detectors (add_all [] (reports own)) other)
        ≡ ok (add_all [] (reports (if b then own else own ++ other)))
  either_run true own other h = refl
  either_run false own other h =
      run_detectors-reports other (add_all [] (reports own)) (All-parts own other h).1
      ∙ ap ok (
          sym (add_all-append [] (reports own) (reports other))
          ∙ ap (add_all []) (sym (reports-append own other)))

  routed :
      (own other : List (Detector Evidence)) (p : Text) (restrict : Bool)
      → All IsAnswering
          (if any (has_platform p) (reports own) || restrict then own else own ++ other)
      → (if is_empty_list own
          then (if restrict then ok [] else run_detectors [] other)
          else (run_detectors [] own >>= λ candidates.
              if any (has_platform p) candidates || restrict
              then ok candidates
              else run_detectors candidates other))
        ≡ ok (
            add_all [] (
              reports
                (if any (has_platform p) (reports own) || restrict then own else own ++ other)))
  routed [] other p true h = unfold reports add_all in refl
  routed [] other p false h = unfold reports in run_detectors-reports other [] h
  routed (d ∷ own) other p restrict h =
      ap
        (λ (x : Result Error (List (PlatformCandidate Evidence))). x >>= λ candidates.
          if any (has_platform p) candidates || restrict
          then ok candidates
          else run_detectors candidates other)
        (run_detectors-reports (d ∷ own) []
          (first_part (any (has_platform p) (reports (d ∷ own)) || restrict) (d ∷ own) other h))
      ∙ ap
          (λ b.
            if b || restrict
            then ok (add_all [] (reports (d ∷ own)))
            else run_detectors (add_all [] (reports (d ∷ own))) other)
          (any-add_all p (reports (d ∷ own)) [])
      ∙ either_run (any (has_platform p) (reports (d ∷ own)) || restrict) (d ∷ own) other h

  module _ (supports : Text → Text → Bool) where
    -- The detectors that are invoked: the owners of the preferred platform, and behind them the others
    -- if no owner reports that platform and the routing is not restricted.
    unfoldable pub invoked :
        List (Detector Evidence) → Option Text → Bool → List (Detector Evidence)
    invoked detectors none restrict = if restrict then [] else detectors
    invoked detectors (some p) restrict =
        if any (has_platform p) (reports (owners supports p detectors)) || restrict
        then owners supports p detectors
        else owners supports p detectors ++ others supports p detectors

    pub detect_preferring-invoked :
        (detectors : List (Detector Evidence)) (preferred : Option Text) (restrict : Bool)
        → All IsAnswering (invoked detectors preferred restrict)
        → detect_preferring supports detectors preferred restrict
          ≡ ok (add_all [] (reports (invoked detectors preferred restrict)))
    unfolding detect_preferring invoked
    detect_preferring-invoked detectors none true h = unfold add_all reports in refl
    detect_preferring-invoked detectors none false h = run_detectors-reports detectors [] h
    detect_preferring-invoked detectors (some p) restrict h =
        routed (owners supports p detectors) (others supports p detectors) p restrict h
