-- ===== src/Routing/Tests.antt =====
-- Three normalizers, one of which supports the file, and the theorems at them.
use rom_metadata_framework.Prelude.{
  Bool, false, ◌≡◌, refl, none, List, [], ◌∷◌, Text, codes, ◌=t=◌, strip, ok, err,
}
use rom_metadata_framework.Routing.Normalizers.{
  Probe, ProbeStatus, supported, unsupported, backend_failure, Normalizer, Probed, is_supported,
  terminal_failure, CompositeNormalizer, probe_failure, ambiguous_normalizer, probe_raised,
  probe_group, probe_normalizers, select,
}
use rom_metadata_framework.Routing.Selection.{IsOnlyMatch, select-IsOnlyMatch, select-returns}

abbrev probed : Text → ProbeStatus → Probed
probed name status =
    let probe : Probe = record { normalizer = name; status = status } in
    (record { name = name; probe = ok probe }, probe)

abbrev nes : Normalizer
nes = (probed (codes "nes") supported).0

abbrev failed : Normalizer
failed = (probed (codes "dolphin") backend_failure).0

abbrev unfit : Normalizer
unfit = (probed (codes "ps2") unsupported).0

abbrev broken : Normalizer
broken = record { name = codes "dolphin"; probe = err probe_raised }

abbrev composite : List Normalizer → CompositeNormalizer
composite normalizers = record {
  normalizers = normalizers;
  preferred_platform = none;
  restrict_platform = false;
}

abbrev supports : Text → Text → Bool
supports name platform = name =t= platform

abbrev same : Text → Text
same s = s

selected : select supports same [] (composite (failed ∷ nes ∷ unfit ∷ [])) ≡ ok nes
unfolding select probe_group ◌=t=◌ strip is_supported
selected = refl

refused :
    (select supports same [] (composite (unfit ∷ failed ∷ [])) ≡ err probe_failure)
    × (select supports same [] (composite (nes ∷ nes ∷ [])) ≡ err ambiguous_normalizer)
    × (select supports same [] (composite (nes ∷ broken ∷ [])) ≡ err probe_raised)
unfolding select probe_group ◌=t=◌ strip is_supported terminal_failure
refused = (refl, refl, refl)

select-IsOnlyMatch_example :
    (probes : List Probed) × (probe_normalizers supports same []
        (composite (failed ∷ nes ∷ unfit ∷ []))
        none
        false
      ≡ ok probes)
    × IsOnlyMatch probes nes
select-IsOnlyMatch_example =
    select-IsOnlyMatch supports same [] (composite (failed ∷ nes ∷ unfit ∷ [])) selected

select-returns_example : select supports same [] (composite (failed ∷ nes ∷ unfit ∷ [])) ≡ ok nes
unfolding strip is_supported
select-returns_example =
    select-returns supports same [] (probed (codes "dolphin") backend_failure ∷ [])
      (probed (codes "ps2") unsupported ∷ []) nes (probed (codes "nes") supported).1
      ((refl, refl), ((refl, refl), ((refl, refl), tt))) refl (refl, tt) (refl, tt)
