-- ===== src/Routing/Selection.antt =====
-- routing.py: which normalizer `select` picks, and which are probed.
use rom_metadata_framework.Prelude.{
  Bool, true, false, ◌≡◌, refl, sym, ap, ◌∙◌, subst, none, List, [], ◌∷◌, ◌++◌, map, keep, All,
  Text, Bool-cases, inl, inr, arith, strip, =t=_iff,
}
use rom_metadata_framework.Prelude.{ok, bind-eq-ok}
use rom_metadata_framework.Platforms.Index.{PlatformIndex}
use rom_metadata_framework.Routing.Normalizers.{
  Normalizer, Probe, Probed, is_match, is_supported, CompositeNormalizer, select_from, probe_group,
  probe_preferring, given_or, canonical_preference, probe_normalizers, select,
}

-- A result that supports the file, and the only one of the list that does.
pub record IsOnlyMatch (probes : List Probed) (n : Normalizer) : Type 0 where
  pub before : List Probed
  pub after : List Probed
  pub probe : Probe
  pub split : probes ≡ before ++ ((n, probe) ∷ after)
  pub matches : is_supported probe ≡ true
  pub earlier : All (λ (r : Probed). is_match r ≡ false) before
  pub later : All (λ (r : Probed). is_match r ≡ false) after

keep-nil : (rs : List Probed) → keep is_match rs ≡ [] → All (λ (r : Probed). is_match r ≡ false) rs
keep-nil [] h = tt
keep-nil (r ∷ rs) h = elim (Bool-cases (is_match r)) [
  | inl hit ↦ absurd (cc (h, hit))
  | inr miss ↦ (miss, keep-nil rs (ground (arith, h, miss)))
]

IsOnlyMatch-cons :
    (r : Probed) (rs : List Probed) (n : Normalizer)
    → is_match r ≡ false
    → IsOnlyMatch rs n
    → IsOnlyMatch (r ∷ rs) n
IsOnlyMatch-cons r rs n miss o = record {
  before = r ∷ o.before;
  after = o.after;
  probe = o.probe;
  split = ap (◌∷◌ r) o.split;
  matches = o.matches;
  earlier = (miss, o.earlier);
  later = o.later;
}

keep-IsOnlyMatch : (rs : List Probed) (r : Probed) → keep is_match rs ≡ r ∷ [] → IsOnlyMatch rs r.0
keep-IsOnlyMatch [] r h = absurd (cc h)
keep-IsOnlyMatch (q ∷ rs) r h = elim (Bool-cases (is_match q)) [
  | inl hit ↦ found hit (ground (arith, h, hit)) (ground (arith, h, hit))
  | inr miss ↦ IsOnlyMatch-cons q rs r.0 miss (keep-IsOnlyMatch rs r (ground (arith, h, miss)))
]
  where
    found : is_match q ≡ true → q ≡ r → keep is_match rs ≡ [] → IsOnlyMatch (q ∷ rs) r.0
    found hit same rest = record {
      before = [];
      after = rs;
      probe = r.1;
      split = ap (λ x. x ∷ rs) same;
      matches = sym (ap is_match same) ∙ hit;
      earlier = tt;
      later = keep-nil rs rest;
    }

select_from-eq-ok :
    (probes kept : List Probed) {n : Normalizer}
    → select_from probes kept ≡ ok n
    → (r : Probed) × (kept ≡ r ∷ []) × (r.0 ≡ n)
unfolding select_from
select_from-eq-ok probes [] h = absurd (cc h)
select_from-eq-ok probes (r ∷ []) h = (r, refl, cc h)
select_from-eq-ok probes (r ∷ r' ∷ rs) h = absurd (cc h)

-- A normalizer that `select` returns supports the file, and no other that was probed does.
pub select-IsOnlyMatch :
    (supports : Text → Text → Bool) (lower : Text → Text) (index : PlatformIndex)
    (composite : CompositeNormalizer) {n : Normalizer}
    → select supports lower index composite ≡ ok n
    → (probes : List Probed) × (probe_normalizers supports lower index composite none false
        ≡ ok probes)
      × IsOnlyMatch probes n
unfolding select
select-IsOnlyMatch supports lower index composite h =
    let (probes, first, rest) =
      bind-eq-ok (probe_normalizers supports lower index composite none false) _ h in
    let (r, single, same) = select_from-eq-ok probes (keep is_match probes) rest in
    (probes, first, subst (IsOnlyMatch probes) same (keep-IsOnlyMatch probes r single))

-- A normalizer that gives this probe, which bears its name.
abbrev pub IsAnswer : Probed → Type 0
IsAnswer (n, probe) = (n.probe ≡ ok probe) × (probe.normalizer ≡ strip n.name)

abbrev pub normalizers_of : List Probed → List Normalizer
normalizers_of = map (λ (r : Probed). r.0)

probe_group-answers : (rs : List Probed) → All IsAnswer rs → probe_group (normalizers_of rs) ≡ ok rs
unfolding probe_group
probe_group-answers [] h = refl
probe_group-answers ((n, probe) ∷ rs) ((given, named), h) =
    rw given
      (ground (arith, named, =t=_iff probe.normalizer (strip n.name), probe_group-answers rs h))

keep-skips :
    (rs qs : List Probed)
    → All (λ (r : Probed). is_match r ≡ false) rs
    → keep is_match (rs ++ qs) ≡ keep is_match qs
keep-skips [] qs h = refl
keep-skips (r ∷ rs) qs (hr, h) = ground (arith, hr, keep-skips rs qs h)

keep-none : (rs : List Probed) → All (λ (r : Probed). is_match r ≡ false) rs → keep is_match rs ≡ []
keep-none [] h = refl
keep-none (r ∷ rs) (hr, h) = ground (arith, hr, keep-none rs h)

-- Without a preferred platform, and where each normalizer gives a probe that bears its name, the one
-- normalizer that supports the file is selected, whatever keeps the others from it.
pub select-returns :
    (supports : Text → Text → Bool) (lower : Text → Text) (index : PlatformIndex)
    (before after : List Probed) (n : Normalizer) (probe : Probe)
    → All IsAnswer (before ++ ((n, probe) ∷ after))
    → is_supported probe ≡ true
    → All (λ (r : Probed). is_match r ≡ false) before
    → All (λ (r : Probed). is_match r ≡ false) after
    → select supports lower index (record {
      normalizers = normalizers_of (before ++ ((n, probe) ∷ after));
      preferred_platform = none;
      restrict_platform = false;
    })
      ≡ ok n
unfolding select probe_normalizers probe_preferring given_or canonical_preference
select-returns supports lower index before after n probe answers match miss miss' =
    let kept : keep is_match (before ++ ((n, probe) ∷ after)) ≡ (n, probe) ∷ [] =
      keep-skips before ((n, probe) ∷ after) miss ∙ ground (arith, match, keep-none after miss') in
    rw (probe_group-answers (before ++ ((n, probe) ∷ after)) answers, kept)
      (unfold select_from in refl)
