-- ===== src/Reconciliation/Platform.antt =====
-- reconciliation.py: `reconcile_platform`. The one message of a conflict is left out: a result has one
-- just when its status is that of a conflict.
use rom_metadata_framework.Prelude.{
  ℕ, ◌==◌, if◌then◌else◌, Option, none, some, List, map, keep, Text, strip, is_empty, elem_text,
  ◌=t=◌,
}
use rom_metadata_framework.Detection.Candidates.{PlatformCandidate, best, is_ambiguous}

pub data PlatformStatus : Type 0 where
  agreement provider_only local_only ambiguous conflict unresolved : PlatformStatus

pub record PlatformReconciliation : Type 0 where
  pub status : PlatformStatus
  pub selected_platform : Option Text
  pub local_platform : Option Text
  pub provider_platform : Option Text

-- The provider's platform without the spaces around it, if anything is left.
unfoldable pub stated : Option Text → Option Text
stated none = none
stated (some p) = let t = strip p in if is_empty t then none else some t

-- The result when no candidate was found, when the best are several, and when one is the best.
unfoldable pub without_candidate : Option Text → PlatformReconciliation
without_candidate none = record {
  status = unresolved;
  selected_platform = none;
  local_platform = none;
  provider_platform = none;
}
without_candidate (some p) = record {
  status = provider_only;
  selected_platform = some p;
  local_platform = none;
  provider_platform = some p;
}

unfoldable pub agreed : Text → Text → PlatformReconciliation
agreed selected here = record {
  status = agreement;
  selected_platform = some selected;
  local_platform = some here;
  provider_platform = some selected;
}

unfoldable pub among_several : List Text → Option Text → PlatformReconciliation
unfolding agreed
among_several top none = record {
  status = ambiguous;
  selected_platform = none;
  local_platform = none;
  provider_platform = none;
}
among_several top (some p) = if elem_text p top then agreed p p else record {
  status = ambiguous;
  selected_platform = some p;
  local_platform = none;
  provider_platform = some p;
}

unfoldable pub against_one : Text → Option Text → PlatformReconciliation
unfolding agreed
against_one here none = record {
  status = local_only;
  selected_platform = some here;
  local_platform = some here;
  provider_platform = none;
}
against_one here (some p) = if here =t= p then agreed p here else record {
  status = conflict;
  selected_platform = some p;
  local_platform = some here;
  provider_platform = some p;
}

module _ {ℓ} {Evidence : Type ℓ} where
  unfoldable pub top_platforms : ℕ → List (PlatformCandidate Evidence) → List Text
  top_platforms top candidates =
      map (λ (c : PlatformCandidate Evidence). c.platform)
        (keep (λ (c : PlatformCandidate Evidence). c.confidence == top) candidates)

  -- With the best candidate, all candidates and what the provider states.
  unfoldable pub reconcile_stated :
      Option (PlatformCandidate Evidence)
      → List (PlatformCandidate Evidence)
      → Option Text
      → PlatformReconciliation
  unfolding without_candidate among_several against_one top_platforms
  reconcile_stated none candidates provider = without_candidate provider
  reconcile_stated (some c) candidates provider =
      if is_ambiguous candidates
      then among_several (top_platforms c.confidence candidates) provider
      else against_one c.platform provider

  unfoldable pub reconcile_platform :
      List (PlatformCandidate Evidence) → Option Text → PlatformReconciliation
  unfolding stated reconcile_stated
  reconcile_platform candidates provider_platform =
      reconcile_stated (best candidates) candidates (stated provider_platform)
