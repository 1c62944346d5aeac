-- ===== src/Routing/Normalizers.antt =====
-- routing.py: `CompositeNormalizer`, with the probes of normalization.py. A normalizer is its name with
-- the probe that it gives for the path, or an exception that it raises; which normalizers own a
-- canonical platform is the parameter `supports`, and equal normalizers have one name.
use rom_metadata_framework.Prelude.{
  Bool, true, false, not, ◌||◌, if◌then◌else◌, Option, none, some, List, [], ◌∷◌, ◌++◌, map, keep,
  any, Text, ◌=t=◌, strip, is_empty, elem_text,
}
use rom_metadata_framework.Prelude.{Result, ok, err, ◌>>=◌, ◌>>◌, raise_if}
use rom_metadata_framework.Platforms.Index.{PlatformIndex, canonical_platform_name}

pub data Error : Type 0 where
  contract_error probe_failure no_supporting_normalizer ambiguous_normalizer : Error
  restricted_without_platform name_empty names_not_unique unknown_platform probe_raised : Error

pub data ProbeStatus : Type 0 where
  unsupported supported unsafe backend_unavailable backend_failure : ProbeStatus

pub record Probe : Type 0 where
  pub normalizer : Text
  pub status : ProbeStatus

unfoldable pub is_supported : Probe → Bool
is_supported p = elim p.status [ supported ↦ true | _ ↦ false ]

unfoldable pub terminal_failure : Probe → Bool
terminal_failure p = elim p.status [
  | unsafe ↦ true
  | backend_unavailable ↦ true
  | backend_failure ↦ true
  | _ ↦ false
]

pub record Normalizer : Type 0 where
  pub name : Text
  pub probe : Result Error Probe

pub record CompositeNormalizer : Type 0 where
  pub normalizers : List Normalizer
  pub preferred_platform : Option Text
  pub restrict_platform : Bool

abbrev pub Probed : Type 0
Probed = Normalizer × Probe

abbrev pub is_match : Probed → Bool
is_match r = is_supported r.1

abbrev is_none : Option Text → Bool
is_none none = true
is_none (some p) = false

-- len(set(names)) != len(names)
unfoldable pub has_repeats : List Text → Bool
unfolding elem_text
has_repeats [] = false
has_repeats (name ∷ names) = elem_text name names || has_repeats names

-- __init__
unfoldable pub composite_normalizer :
    List Normalizer → Option Text → Bool → Result Error CompositeNormalizer
unfolding has_repeats
composite_normalizer normalizers preferred_platform restrict_platform = do
  raise_if (elim restrict_platform [ true ↦ is_none preferred_platform | false ↦ false ])
      restricted_without_platform
  let names = map (λ (n : Normalizer). strip n.name) normalizers
  raise_if (any is_empty names) name_empty
  raise_if (has_repeats names) names_not_unique
  ok (record {
    normalizers = normalizers;
    preferred_platform = preferred_platform;
    restrict_platform = restrict_platform;
  })

-- probe_group
unfoldable pub probe_group : List Normalizer → Result Error (List Probed)
probe_group [] = ok []
probe_group (n ∷ ns) =
    let rest = probe_group ns in
    n.probe >>= λ probe.
    raise_if (not (probe.normalizer =t= strip n.name)) contract_error
    >> (rest >>= λ rs. ok ((n, probe) ∷ rs))

abbrev is_empty_group : List Normalizer → Bool
is_empty_group [] = true
is_empty_group (n ∷ ns) = false

unfoldable pub given_or : Option Text → Option Text → Option Text
given_or none field = field
given_or (some p) field = some p

-- `canonical_platform_name` of the platform that is preferred, where there is one
unfoldable pub canonical_preference :
    (Text → Text) → PlatformIndex → Option Text → Result Error (Option Text)
unfolding canonical_platform_name
canonical_preference lower index none = ok none
canonical_preference lower index (some p) = elim (canonical_platform_name lower index p) [
  | ok canonical ↦ ok (some canonical)
  | err e ↦ err unknown_platform
]

-- The selection behind the probes.
unfoldable pub select_from : List Probed → List Probed → Result Error Normalizer
select_from probes [] = err (
    if any (λ (r : Probed). terminal_failure r.1) probes
    then probe_failure
    else no_supporting_normalizer)
select_from probes (r ∷ []) = ok r.0
select_from probes (r ∷ r' ∷ rs) = err ambiguous_normalizer

module _ (supports : Text → Text → Bool) where
  unfoldable pub probe_preferring :
      List Normalizer → Option Text → Bool → Result Error (List Probed)
  unfolding probe_group
  probe_preferring normalizers none restrict = if restrict then ok [] else probe_group normalizers
  probe_preferring normalizers (some p) restrict =
      let own = keep (λ (n : Normalizer). supports n.name p) normalizers in
      let other = keep (λ (n : Normalizer). not (supports n.name p)) normalizers in
      if is_empty_group own
      then (if restrict then ok [] else probe_group other)
      else (probe_group own >>= λ results.
          if any is_match results || restrict
          then ok results
          else (probe_group other >>= λ more. ok (results ++ more)))

  module _ (lower : Text → Text) (index : PlatformIndex) where
    unfoldable pub probe_normalizers :
        CompositeNormalizer → Option Text → Bool → Result Error (List Probed)
    unfolding probe_preferring given_or canonical_preference
    probe_normalizers composite preferred_platform restrict_platform = do
      preferred ←
          canonical_preference lower index
            (given_or preferred_platform composite.preferred_platform)
      probe_preferring composite.normalizers preferred
          (restrict_platform || composite.restrict_platform)

    unfoldable pub supporting_normalizers : CompositeNormalizer → Result Error (List Normalizer)
    unfolding probe_normalizers
    supporting_normalizers composite = do
      probes ← probe_normalizers composite none false
      ok (map (λ (r : Probed). r.0) (keep is_match probes))

    unfoldable pub select : CompositeNormalizer → Result Error Normalizer
    unfolding probe_normalizers select_from
    select composite = do
      probes ← probe_normalizers composite none false
      select_from probes (keep is_match probes)
