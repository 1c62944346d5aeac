-- ===== src/Naming/Tests.antt =====
-- A disc image whose identification is verified, the name that it gets, and the theorems at it.
use rom_metadata_framework.Prelude.{
  true, false, ◌≡◌, refl, none, some, [], codes, ◌=t=◌, elem_text, strip, strip_left, strip_right,
  is_space,
}
use rom_metadata_framework.Prelude.{ok}
use rom_metadata_framework.Evidence.{is_content_match, is_strong_content_match}
use rom_metadata_framework.Platforms.Keys.{normalize_key}
use rom_metadata_framework.Platforms.Index.{lookup, canonical_platform_name}
use rom_metadata_framework.Selection.{
  get, equals_platform, local_primary_identifier, identifiers_equal,
}
use rom_metadata_framework.Detection.Candidates.{best}
use rom_metadata_framework.Reconciliation.Platform.{reconcile_platform}
use rom_metadata_framework.Reconciliation.Release.{has_conflict, reconcile_release_matches}
use rom_metadata_framework.Verification.Policy.{
  default_verification_policy, is_bad, is_good, verify_release,
}
use rom_metadata_framework.Identification.Rules.{platform_of, outcome}
use rom_metadata_framework.Identification.Checks.{primary_identifier, assess_requested_identity}
use rom_metadata_framework.Identification.Engine.{identify_file}
use rom_metadata_framework.Identification.Results.{
  IdentificationVerification, canonical_match, safe_for_canonical_naming, content_known_good,
  representation_known_good, verify_identification,
}
use rom_metadata_framework.Identification.Samples.{
  same, index, release, disc, selection, result, run-result,
}
use rom_metadata_framework.Naming.Components.{sanitize_filename_component, path_name, suffix}
use rom_metadata_framework.Naming.Inputs.{naming_input_from}
use rom_metadata_framework.Naming.Plans.{
  NamingPolicy, RenamePlan, plan_rename, plan_identification_rename,
}
use rom_metadata_framework.Naming.SingleName.{IsFileName, plan_identification_rename-IsFileName}
use rom_metadata_framework.Naming.Trust.{IsTrusted, plan_identification_rename-IsTrusted}

sanitized :
    (sanitize_filename_component (codes " a/b:  c. ") ≡ ok (codes "a_b_ c"))
    × (sanitize_filename_component (codes "Game .") ≡ ok (codes "Game "))
    × (suffix (codes "a.b.iso") ≡ codes ".iso")
    × (suffix (codes ".iso") ≡ codes "")
    × (path_name (codes "/roms//x.iso/.") ≡ codes "x.iso")
unfolding sanitize_filename_component suffix path_name is_space ◌=t=◌ strip strip_right
sanitized = (refl, refl, refl, refl, refl)

abbrev naming : NamingPolicy
naming = record { preserve_extension = true }

abbrev verification : IdentificationVerification
verification = verify_identification same default_verification_policy result

abbrev plan : RenamePlan
plan = record {
  source_name = codes "dump.iso";
  destination_name = codes "Game_ Two_Three [SLES-50001] (Europe) (Disc 2 of 2) (Rev 1.01).iso";
  safe_to_apply = true;
  operation = codes "rename";
  conflicts = [];
  content_known_good = true;
  representation_known_good = true;
}

planned :
    plan_identification_rename naming same
      (codes "/roms/dump.iso")
      result
      (some verification)
      (codes "rename")
    ≡ ok plan
unfolding plan_identification_rename canonical_match result identify_file platform_of best
    primary_identifier local_primary_identifier canonical_platform_name normalize_key lookup
    identifiers_equal outcome assess_requested_identity reconcile_release_matches naming_input_from
    sanitize_filename_component elem_text ◌=t=◌ strip strip_left strip_right is_space get
    equals_platform path_name suffix verify_identification verify_release is_bad is_good
    is_content_match is_strong_content_match safe_for_canonical_naming content_known_good
    representation_known_good reconcile_platform has_conflict
planned = refl

plan_identification_rename-IsFileName_example : IsFileName true plan.destination_name
plan_identification_rename-IsFileName_example =
    plan_identification_rename-IsFileName naming same (codes "/roms/dump.iso") result
      (some verification) (codes "rename") planned

plan_identification_rename-IsTrusted_example :
    IsTrusted disc same same index default_verification_policy result
plan_identification_rename-IsTrusted_example =
    plan_identification_rename-IsTrusted disc same same index false (some selection)
      default_verification_policy naming (codes "/roms/dump.iso") (codes "rename") run-result
      planned refl

plan_of_release :
    plan_rename naming (codes "dump.iso") release none (codes "copy")
    ≡ ok (record {
      source_name = codes "dump.iso";
      destination_name = codes "Game.iso";
      safe_to_apply = false;
      operation = codes "copy";
      conflicts = [];
      content_known_good = false;
      representation_known_good = false;
    })
unfolding plan_rename sanitize_filename_component elem_text ◌=t=◌ strip strip_left strip_right
    is_space path_name suffix
plan_of_release = refl
