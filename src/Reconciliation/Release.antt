-- ===== src/Reconciliation/Release.antt =====
-- release_reconciliation.py: `reconcile_release_matches`. The one message of a conflict is left out: a
-- result has one just when `has_conflict` holds of it.
use rom_metadata_framework.Prelude.{
  Bool, true, false, not, if◌then◌else◌, Option, none, some, ◌=t=◌,
}
use rom_metadata_framework.Evidence.{CanonicalReleaseIdentity}

pub data ReleaseStatus : Type 0 where
  agreement physical_only normalized_only platform_conflict release_conflict unresolved :
      ReleaseStatus

pub record ReleaseReconciliation : Type 0 where
  pub status : ReleaseStatus
  pub selected : Option CanonicalReleaseIdentity
  pub physical : Option CanonicalReleaseIdentity
  pub normalized : Option CanonicalReleaseIdentity

unfoldable pub has_conflict : ReleaseReconciliation → Bool
has_conflict r = elim r.status [ platform_conflict ↦ true | release_conflict ↦ true | _ ↦ false ]

unfoldable pub reconcile_release_matches :
    Option CanonicalReleaseIdentity → Option CanonicalReleaseIdentity → ReleaseReconciliation
reconcile_release_matches none none = record {
  status = unresolved;
  selected = none;
  physical = none;
  normalized = none;
}
reconcile_release_matches (some p) none = record {
  status = physical_only;
  selected = some p;
  physical = some p;
  normalized = none;
}
reconcile_release_matches none (some n) = record {
  status = normalized_only;
  selected = some n;
  physical = none;
  normalized = some n;
}
reconcile_release_matches (some p) (some n) =
    if not (p.platform =t= n.platform)
    then record {
      status = platform_conflict;
      selected = none;
      physical = some p;
      normalized = some n;
    }
    else if not (p.release_name =t= n.release_name)
    then record {
      status = release_conflict;
      selected = none;
      physical = some p;
      normalized = some n;
    }
    else record { status = agreement; selected = some p; physical = some p; normalized = some n }
