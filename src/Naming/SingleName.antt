-- ===== src/Naming/SingleName.antt =====
-- naming.py: the name of a plan is one file name, of the directory that the file is in.
use rom_metadata_framework.Prelude.{
  Bool, true, false, ◌==◌, not, ◌&&◌, any-append, if◌then◌else◌, ◌≡◌, ◌≢◌, refl, ap, subst, Option,
  none, some, List, [], ◌∷◌, ◌++◌, All-append, arith, Text, codes, ◌=t=◌, strip, strip_left,
  is_empty, split_on, cons_head, ok-injective, bind-eq-ok,
}
use rom_metadata_framework.Prelude.{ok, raise_if}
use rom_metadata_framework.Evidence.{CanonicalReleaseIdentity}
use rom_metadata_framework.Identification.Types.{IdentificationResult}
use rom_metadata_framework.Identification.Results.{IdentificationVerification, canonical_match}
use rom_metadata_framework.Naming.Components.{
  is_invalid, is_dot, sanitize_filename_component, last_part, path_name, join_spaces,
}
use rom_metadata_framework.Naming.Inputs.{NamingInput, naming_input_from}
use rom_metadata_framework.Naming.Plans.{
  NamingPolicy, RenamePlan, rename_plan, with_extension, bracketed, extra_parts, extension_of,
  canonical_filename, structured_filename, plan_for, plan_rename, plan_match,
  plan_identification_rename,
}
use rom_metadata_framework.Naming.Characters.{
  IsClean, has_more, space-allowed, sanitize-IsClean, strip-All, strip_left-All, join_spaces-All,
}
use rom_metadata_framework.Naming.Pieces.{
  IsWithin, IsClean-IsWithin, path_name-IsWithin, IsWithinOption, extension_of-IsWithin,
  bracketed-IsClean, extra_parts-IsClean,
}

-- The name in front of the extension.
has_more-append : (a b : Text) → has_more a ≡ true → has_more (a ++ b) ≡ true
unfolding has_more
has_more-append a b h = ground (arith, any-append (λ c. not (is_dot c)) a b, h)

has_more-join :
    (title : Text) (parts : List Text)
    → has_more title ≡ true
    → has_more (join_spaces (title ∷ parts)) ≡ true
unfolding join_spaces
has_more-join title [] h = h
has_more-join title (part ∷ parts) h = has_more-append title _ h

-- A name of a file in the directory itself: one part, and neither empty nor one of the dots; and where
-- no extension is kept, without any invalid character.
pub record IsFileName (preserve : Bool) (name : Text) : Type 0 where
  pub one_part : path_name name ≡ name
  pub filled : name ≢ []
  pub not_parent : name ≢ codes ".."
  pub clean : preserve ≡ false → IsClean name

split_on-one : (s : Text) → IsWithin s → split_on b'/' s ≡ s ∷ []
unfolding split_on cons_head
split_on-one [] h = refl
split_on-one (c ∷ s) h = rw (h.0, split_on-one s h.1) refl

has_more-other : (s dots : Text) → has_more s ≡ true → has_more dots ≡ false → s ≢ dots
has_more-other s dots h d e = cc (h, d, e)

has_more-part : (s : Text) → has_more s ≡ true → (not (is_empty s) && not (s =t= codes ".")) ≡ true
unfolding has_more is_dot ◌=t=◌
has_more-part [] h = absurd (cc h)
has_more-part (c ∷ s) h = from s refl
  where
    from : (t : Text) → s ≡ t → not ((c ∷ t) =t= codes ".") ≡ true
    from [] e = ground (arith, h, e)
    from (d ∷ t) e = ground arith

IsWithin-IsFileName :
    (preserve : Bool) (name : Text)
    → IsWithin name
    → has_more name ≡ true
    → (preserve ≡ false → IsClean name)
    → IsFileName preserve name
unfolding path_name last_part has_more is_dot
IsWithin-IsFileName preserve name within more clean = record {
  one_part = rw (split_on-one name within) (rw (has_more-part name more) refl);
  filled = has_more-other name [] more refl;
  not_parent = has_more-other name (codes "..") more refl;
  clean = clean;
}

with_extension-IsFileName :
    (preserve : Bool) (base : Text) (extension : Option Text)
    → IsClean base
    → has_more base ≡ true
    → IsWithinOption extension
    → IsFileName preserve (with_extension preserve base extension)
unfolding with_extension
with_extension-IsFileName preserve base none clean more w =
    IsWithin-IsFileName preserve base (IsClean-IsWithin base clean) more (λ _. clean)
with_extension-IsFileName false base (some extension) clean more w =
    IsWithin-IsFileName false base (IsClean-IsWithin base clean) more (λ _. clean)
with_extension-IsFileName true base (some extension) clean more w =
    from (strip_left is_dot (strip extension)) (
      strip_left-All (λ c. (c == b'/') ≡ false) is_dot (strip extension)
        (strip-All (λ c. (c == b'/') ≡ false) extension w))
  where
    from :
        (e : Text) → IsWithin e → IsFileName true (if is_empty e then base else base ++ (b'.' ∷ e))
    from [] we = IsWithin-IsFileName true base (IsClean-IsWithin base clean) more (λ _. clean)
    from (c ∷ e) we =
        IsWithin-IsFileName true (base ++ (b'.' ∷ c ∷ e))
          (All-append (λ d. (d == b'/') ≡ false) base _ (IsClean-IsWithin base clean) (refl, we))
          (has_more-append base _ more) (λ kept. absurd (cc kept))

module _ (policy : NamingPolicy) where
  canonical_filename-IsFileName :
      (identity : CanonicalReleaseIdentity) (extension : Option Text) {name : Text}
      → IsWithinOption extension
      → canonical_filename policy identity extension ≡ ok name
      → IsFileName policy.preserve_extension name
  unfolding canonical_filename
  canonical_filename-IsFileName identity extension w h =
      let (base, clean, made) =
        bind-eq-ok (sanitize_filename_component identity.release_name) _ h in
      subst (IsFileName policy.preserve_extension) (ok-injective made) (
        with_extension-IsFileName policy.preserve_extension base extension
          (sanitize-IsClean identity.release_name clean).0
          (sanitize-IsClean identity.release_name clean).1 w)

  structured_filename-IsFileName :
      (naming : NamingInput) (extension : Option Text) {name : Text}
      → IsWithinOption extension
      → structured_filename policy naming extension ≡ ok name
      → IsFileName policy.preserve_extension name
  unfolding structured_filename is_invalid
  structured_filename-IsFileName naming extension w h =
      let (title, titled, h1) = bind-eq-ok (sanitize_filename_component naming.title) _ h in
      let (identifier, named, h2) =
        bind-eq-ok (bracketed b'[' b']' naming.primary_identifier) _ h1 in
      let (extra, more, made) = bind-eq-ok (extra_parts naming) _ h2 in
      let clean = sanitize-IsClean naming.title titled in
      subst (IsFileName policy.preserve_extension) (ok-injective made) (
        with_extension-IsFileName policy.preserve_extension
          (join_spaces (title ∷ (identifier ++ extra))) extension
          (join_spaces-All (λ c. is_invalid c ≡ false) (title ∷ (identifier ++ extra)) space-allowed
            (
              clean.0,
              All-append IsClean identifier extra
                  (bracketed-IsClean b'[' b']' naming.primary_identifier refl refl named)
                  (extra_parts-IsClean naming more),
            ))
          (has_more-join title (identifier ++ extra) clean.1) w)

  rename_plan-keeps :
      (plan : RenamePlan) {made : RenamePlan} → rename_plan plan ≡ ok made → plan ≡ made
  unfolding rename_plan
  rename_plan-keeps plan h = ground (arith, h)

  plan_for-names :
      (source destination : Text) (own : List Text)
      (verification : Option IdentificationVerification) (operation : Text) {plan : RenamePlan}
      → plan_for policy source destination own verification operation ≡ ok plan
      → destination ≡ plan.destination_name
  unfolding plan_for
  plan_for-names source destination own verification operation h =
      ap (λ (p : RenamePlan). p.destination_name) (rename_plan-keeps _ h)

  -- The name that `plan_rename` chooses is the name of a file in the directory of the source: one part
  -- of a path, neither empty nor "." nor ".."; and if no extension is kept, without invalid characters.
  pub plan_rename-IsFileName :
      (source_name : Text) (identity : CanonicalReleaseIdentity)
      (verification : Option IdentificationVerification) (operation : Text) {plan : RenamePlan}
      → plan_rename policy source_name identity verification operation ≡ ok plan
      → IsFileName policy.preserve_extension plan.destination_name
  unfolding plan_rename
  plan_rename-IsFileName source_name identity verification operation h =
      let source = path_name source_name in
      let (u, filled, h1) = bind-eq-ok (raise_if (is_empty source) _) _ h in
      let (name, chosen, made) =
        bind-eq-ok (canonical_filename policy identity (extension_of source)) _ h1 in
      subst (IsFileName policy.preserve_extension)
        (plan_for-names source name identity.conflicts verification operation made)
        (canonical_filename-IsFileName identity (extension_of source)
          (extension_of-IsWithin source (path_name-IsWithin source_name)) chosen)

  module _ {ℓ} {Evidence : Type ℓ} (lower : Text → Text) where
    plan_match-IsFileName :
        (source : Text) (match : Option CanonicalReleaseIdentity)
        (result : IdentificationResult Evidence) (verification : Option IdentificationVerification)
        (operation : Text) {plan : RenamePlan}
        → IsWithin source
        → plan_match policy lower source match result verification operation ≡ ok plan
        → IsFileName policy.preserve_extension plan.destination_name
    unfolding plan_match
    plan_match-IsFileName source none result verification operation w h = absurd (cc h)
    plan_match-IsFileName source (some c) result verification operation w h =
        let (naming, given, h1) =
          bind-eq-ok (naming_input_from lower c result.local_metadata) _ h in
        let (name, chosen, made) =
          bind-eq-ok (structured_filename policy naming (extension_of source)) _ h1 in
        subst (IsFileName policy.preserve_extension)
          (plan_for-names source name c.conflicts verification operation made)
          (structured_filename-IsFileName naming (extension_of source)
            (extension_of-IsWithin source w) chosen)

    -- The name that `plan_identification_rename` chooses, title, identifier, region, disc and revision
    -- together, is the name of a file in the directory of the source: one part of a path, neither empty
    -- nor "." nor ".."; and if no extension is kept, without invalid characters.
    pub plan_identification_rename-IsFileName :
        (source_name : Text) (result : IdentificationResult Evidence)
        (verification : Option IdentificationVerification) (operation : Text) {plan : RenamePlan}
        → plan_identification_rename policy lower source_name result verification operation
          ≡ ok plan
        → IsFileName policy.preserve_extension plan.destination_name
    unfolding plan_identification_rename
    plan_identification_rename-IsFileName source_name result verification operation h =
        let source = path_name source_name in
        let (u, filled, h1) = bind-eq-ok (raise_if (is_empty source) _) _ h in
        plan_match-IsFileName source (canonical_match result) result verification operation
          (path_name-IsWithin source_name) h1
