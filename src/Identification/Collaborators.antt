-- ===== src/Identification/Collaborators.antt =====
-- identification.py: what `identify_file` calls, and the monad in which it runs: the calls that it made,
-- in order, and its result or exception. A progress callback is taken to be given.
use rom_metadata_framework.Prelude.{ℕ, Option, List, [], ◌∷◌, ◌++◌, Text, String, codes}
use rom_metadata_framework.Prelude.{Result, ok, err}
use rom_metadata_framework.Evidence.{CanonicalReleaseIdentity}
use rom_metadata_framework.Detection.Candidates.{PlatformCandidate}
use rom_metadata_framework.Identification.Types.{
  Error, RomIdentity, LookupIdentity, StructuralInspectionResult, NormalizationResult,
}

-- The file, the hashing of it, the detector, the resolver, and the inspector and normalizer if there
-- are any; each answers or raises.
pub record Collaborators {ℓ} (Evidence : Type ℓ) : Type ℓ where
  pub path_name : Text
  pub st_size : ℕ
  pub hash : Result Error RomIdentity
  pub detect : Result Error (List (PlatformCandidate Evidence))
  pub identify : RomIdentity → Result Error (Option CanonicalReleaseIdentity)
  pub identify_lookup : LookupIdentity → Result Error (Option CanonicalReleaseIdentity)
  pub inspector : Option (Result Error (Option StructuralInspectionResult))
  pub normalizer : Option (Result Error NormalizationResult)

pub data Event : Type 0 where
  stage : Text → Event
  detects inspects hashes normalizes : Event
  looks_up_physical : RomIdentity → Event
  looks_up_normalized : LookupIdentity → Event

abbrev pub M {ℓ} : Type ℓ → Type ℓ
M A = List Event × Result Error A

-- The rest of a run behind a result.
abbrev pub continue {ℓ κ} :
    {A : Type ℓ} {B : Type κ} → List Event → Result Error A → (A → M B) → M B
continue t (ok a) f = (t ++ (f a).0, (f a).1)
continue t (err e) f = (t, err e)

module _ {ℓ κ} {A : Type ℓ} {B : Type κ} where
  infixl 5 ◌>>=◌
  abbrev pub ◌>>=◌ : M A → (A → M B) → M B
  m >>= f = continue m.0 m.1 f

module _ {ℓ} {B : Type ℓ} where
  infixl 5 ◌>>◌
  abbrev pub ◌>>◌ : M (Unit {0}) → M B → M B
  m >> k = m >>= λ _. k

module _ {ℓ} {A : Type ℓ} where
  abbrev pub pure : A → M A
  pure a = ([], ok a)

  abbrev pub raise : Error → M A
  raise e = ([], err e)

  abbrev pub lift : Result Error A → M A
  lift r = ([], r)

  -- A call of a collaborator.
  abbrev pub call : Event → Result Error A → M A
  call e r = (e ∷ [], r)

-- _emit_progress
abbrev pub emit_progress : String → M (Unit {0})
emit_progress text = (stage (codes text) ∷ [], ok tt)
