-- ===== src/Identification/Runs.antt =====
-- identification.py: the calls and the result of a run, from those of its parts.
use rom_metadata_framework.Prelude.{◌≡◌, refl, List, All, All-append}
use rom_metadata_framework.Prelude.{Result, ok, err}
use rom_metadata_framework.Identification.Types.{Error}
use rom_metadata_framework.Identification.Collaborators.{Event, M, continue}

module _ {ℓ κ} {A : Type ℓ} {B : Type κ} where
  -- What holds of the calls of a run and of those behind its result holds of all.
  pub continue-All {μ} :
      (P : Event → Type μ) (t : List Event) (r : Result Error A) (f : A → M B)
      → All P t
      → ((a : A) → r ≡ ok a → All P (f a).0)
      → All P (continue t r f).0
  continue-All P t (ok a) f before behind = All-append P t (f a).0 before (behind a refl)
  continue-All P t (err e) f before behind = before

  -- A run that ends well has a first result and a rest that ends well.
  pub continue-ok :
      (t : List Event) (r : Result Error A) (f : A → M B) {b : B}
      → (continue t r f).1 ≡ ok b
      → (a : A) × (r ≡ ok a) × ((f a).1 ≡ ok b)
  continue-ok t (ok a) f h = (a, refl, h)
  continue-ok t (err e) f h = absurd (cc h)
