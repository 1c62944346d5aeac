-- ===== src/Naming/Trust.antt =====
-- naming.py and identification.py: what a plan marked safe rests on.
use rom_metadata_framework.Prelude.{
  Bool, true, ◌≡◌, ◌≢◌, refl, sym, ap, ◌∙◌, inl, inr, ◌⊎◌, Option, none, some, List, [], All,
  Exists, Text, is_empty, arith, bind-eq-ok,
}
use rom_metadata_framework.Prelude.{ok, raise_if}
use rom_metadata_framework.Evidence.{CanonicalReleaseIdentity}
use rom_metadata_framework.Platforms.Index.{PlatformIndex}
use rom_metadata_framework.Selection.{IdentificationSelection}
use rom_metadata_framework.Reconciliation.Release.{reconcile_release_matches}
use rom_metadata_framework.Reconciliation.Agreement.{IsSameRelease, selected-same}
use rom_metadata_framework.Verification.Policy.{VerificationPolicy, known_bad, verify_release}
use rom_metadata_framework.Verification.Verdicts.{IsBad, IsGood, verify_release-known_good}
use rom_metadata_framework.Identification.Types.{IdentificationResult}
use rom_metadata_framework.Identification.Collaborators.{Collaborators}
use rom_metadata_framework.Identification.Engine.{identify_file}
use rom_metadata_framework.Identification.Results.{
  IdentificationVerification, canonical_match, reconciled, safe_for_canonical_naming,
  verify_identification,
}
use rom_metadata_framework.Identification.Matches.{IsAnswer, IsAnswered, identify_file-IsAnswered}
use rom_metadata_framework.Identification.Safety.{safe-known_good}
use rom_metadata_framework.Naming.Components.{path_name}
use rom_metadata_framework.Naming.Inputs.{naming_input_from}
use rom_metadata_framework.Naming.Plans.{
  NamingPolicy, RenamePlan, rename_plan, holds_of, structured_filename, extension_of, plan_for,
  plan_match, plan_identification_rename,
}

rename_plan-safe :
    (plan : RenamePlan) {made : RenamePlan}
    → rename_plan plan ≡ ok made
    → made.safe_to_apply ≡ plan.safe_to_apply
unfolding rename_plan
rename_plan-safe plan h = ground (arith, h)

plan_for-safe :
    (naming : NamingPolicy) (source destination : Text) (own : List Text)
    (v : IdentificationVerification) (operation : Text) {plan : RenamePlan}
    → plan_for naming source destination own (some v) operation ≡ ok plan
    → plan.safe_to_apply ≡ true
    → safe_for_canonical_naming v ≡ true
unfolding plan_for holds_of
plan_for-safe naming source destination own v operation h safe =
    ground (arith, rename_plan-safe _ h, safe)

module _ {ℓ} {Evidence : Type ℓ} (lower : Text → Text) where
  plan_match-safe :
      (naming : NamingPolicy) (source : Text) (match : Option CanonicalReleaseIdentity)
      (r : IdentificationResult Evidence) (v : IdentificationVerification) (operation : Text)
      {plan : RenamePlan}
      → plan_match naming lower source match r (some v) operation ≡ ok plan
      → plan.safe_to_apply ≡ true
      → (s : CanonicalReleaseIdentity) × (match ≡ some s) × (safe_for_canonical_naming v ≡ true)
  unfolding plan_match
  plan_match-safe naming source none r v operation h safe = absurd (cc h)
  plan_match-safe naming source (some s) r v operation h safe =
      let (input, given, h1) = bind-eq-ok (naming_input_from lower s r.local_metadata) _ h in
      let (name, chosen, made) =
        bind-eq-ok (structured_filename naming input (extension_of source)) _ h1 in
      (s, refl, plan_for-safe naming source name s.conflicts v operation made safe)

  plan_identification_rename-safe :
      (naming : NamingPolicy) (source_name : Text) (r : IdentificationResult Evidence)
      (v : IdentificationVerification) (operation : Text) {plan : RenamePlan}
      → plan_identification_rename naming lower source_name r (some v) operation ≡ ok plan
      → plan.safe_to_apply ≡ true
      → (s : CanonicalReleaseIdentity) × (canonical_match r ≡ some s)
        × (safe_for_canonical_naming v ≡ true)
  unfolding plan_identification_rename
  plan_identification_rename-safe naming source_name r v operation h safe =
      let (u, filled, h1) = bind-eq-ok (raise_if (is_empty (path_name source_name)) _) _ h in
      plan_match-safe naming (path_name source_name) (canonical_match r) r v operation h1 safe

module _ {ℓ} {Evidence : Type ℓ} (c : Collaborators Evidence) (lower casefold : Text → Text)
    (index : PlatformIndex) where
  IsMatch-IsAnswer :
      {r : IdentificationResult Evidence} {m : CanonicalReleaseIdentity}
      → IsAnswered c lower casefold index r
      → (r.physical_match ≡ some m) ⊎ (r.normalized_match ≡ some m)
      → IsAnswer c r m
  IsMatch-IsAnswer {r} {m} a one = elim one [
    | inl p ↦ inl (a.hashed, a.physical m p)
    | inr n ↦ inr (a.normalized m n)
  ]

  -- What a safe plan rests on: a release is selected, and the resolver gave a match of that release
  -- whose records satisfy the policy.
  pub record IsTrusted (policy : VerificationPolicy) (r : IdentificationResult Evidence)
      : Type 0 where
    pub selected : CanonicalReleaseIdentity
    pub chosen : canonical_match r ≡ some selected
    pub match : CanonicalReleaseIdentity
    pub answered : IsAnswer c r match
    pub same : IsSameRelease match selected
    pub settled : match.conflicts ≡ []
    pub unsuspected : All (λ e. ¬ IsBad e) match.catalogue_evidence
    pub good : Exists (IsGood lower policy) match.catalogue_evidence
    pub none_bad :
        (m : CanonicalReleaseIdentity)
        → (r.physical_match ≡ some m) ⊎ (r.normalized_match ≡ some m)
        → (verify_release lower policy m).status ≢ known_bad

  -- Where an identification returns a result, its verification is handed to the planner, and the plan is
  -- marked safe to apply, a release is selected; the resolver answered with a match of that platform and
  -- name, for the hashes of the file or under the hashes of the content that the normalizer gave; and
  -- that match has no conflicts, no record listed as bad, and a record that satisfies the policy. No
  -- match is known bad.
  pub plan_identification_rename-IsTrusted :
      (force : Bool) (selection : Option IdentificationSelection) (policy : VerificationPolicy)
      (naming : NamingPolicy) (source_name operation : Text) {r : IdentificationResult Evidence}
      {plan : RenamePlan}
      → (identify_file lower casefold index c force selection).1 ≡ ok r
      → plan_identification_rename naming lower source_name r
          (some (verify_identification lower policy r))
          operation
        ≡ ok plan
      → plan.safe_to_apply ≡ true
      → IsTrusted policy r
  unfolding canonical_match reconciled
  plan_identification_rename-IsTrusted force selection policy naming source_name operation {r} h
        planned safe =
      let a = identify_file-IsAnswered c lower casefold index force selection h in
      let (s, chosen, calm) =
        plan_identification_rename-safe lower naming source_name r
          (verify_identification lower policy r) operation planned safe in
      let ((m, one, status), none_bad, agreed) = safe-known_good lower policy r calm in
      let (settled, unsuspected, good) = (verify_release-known_good lower policy m).0 status in
      let selects_s : (reconcile_release_matches r.physical_match r.normalized_match).selected
          ≡ some s =
        sym (ap (λ o. (reconciled o r.physical_match r.normalized_match).selected) a.reconciliation)
        ∙ chosen in
      record {
        selected = s;
        chosen = chosen;
        match = m;
        answered = IsMatch-IsAnswer a one;
        same = selected-same r.physical_match r.normalized_match s m selects_s one;
        settled = settled;
        unsuspected = unsuspected;
        good = good;
        none_bad = none_bad;
      }
