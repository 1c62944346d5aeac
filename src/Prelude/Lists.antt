-- ===== src/Prelude/Lists.antt =====
-- Lists measured and indexed by native numbers, under the library's names, and predicates on lists.
use Prim.Native.Nat.{ℕ, zero, suc, ◌+◌, ◌-◌, min}
use mathlib.Core.Path.{◌≡◌, refl, ap, ◌∙◌, subst}
use mathlib.Core.Logic.{inl, inr}
use mathlib.Core.List.{Permᴰ}
use mathlib.Core.Bool.{Bool, true, false, ◌||◌}
use mathlib.Core.List.{List, [], ◌∷◌, ◌++◌}
use native.Mathlib.Omega.{arith}
use rom_metadata_framework.Prelude.Tests.{◌==◌, if◌then◌else◌, Bool-cases}

module _ {ℓ} {A : Type ℓ} where
  abbrev pub length : List A → ℕ
  length [] = 0
  length (x ∷ xs) = suc (length xs)

  abbrev pub get_or : List A → ℕ → A → A
  get_or [] i d = d
  get_or (x ∷ xs) zero d = x
  get_or (x ∷ xs) (suc i) d = get_or xs i d

  abbrev pub take : ℕ → List A → List A
  take zero xs = []
  take (suc n) [] = []
  take (suc n) (x ∷ xs) = x ∷ take n xs

  abbrev pub drop : ℕ → List A → List A
  drop zero xs = xs
  drop (suc n) [] = []
  drop (suc n) (x ∷ xs) = drop n xs

  pub length-take : (n : ℕ) (xs : List A) → length (take n xs) ≡ min n (length xs)
  length-take zero xs = omega arith
  length-take (suc n) [] = omega arith
  length-take (suc n) (x ∷ xs) = omega (arith, length-take n xs)

  pub length-drop : (n : ℕ) (xs : List A) → length (drop n xs) ≡ length xs - n
  length-drop zero xs = omega arith
  length-drop (suc n) [] = omega arith
  length-drop (suc n) (x ∷ xs) = omega (arith, length-drop n xs)

  pub length-append : (xs ys : List A) → length (xs ++ ys) ≡ length xs + length ys
  length-append [] ys = omega arith
  length-append (x ∷ xs) ys = omega (arith, length-append xs ys)

  -- The test holds for some item, for every item.
  abbrev pub any : (A → Bool) → List A → Bool
  any p [] = false
  any p (x ∷ xs) = p x || any p xs

  abbrev pub keep : (A → Bool) → List A → List A
  keep p [] = []
  keep p (x ∷ xs) = let rest = keep p xs in if p x then x ∷ rest else rest

-- A statement about every item of a list.
abbrev pub All {ℓ κ} : {A : Type ℓ} → (A → Type κ) → List A → Type κ
All P [] = Unit
All P (x ∷ xs) = P x × All P xs

pub All-append {ℓ κ} :
    {A : Type ℓ} (P : A → Type κ) (xs ys : List A) → All P xs → All P ys → All P (xs ++ ys)
All-append P [] ys hx hy = hy
All-append P (x ∷ xs) ys hx hy = (hx.0, All-append P xs ys hx.1 hy)

-- `x in xs`, on numbers.
abbrev pub elem : ℕ → List ℕ → Bool
elem a [] = false
elem a (x ∷ xs) = a == x || elem a xs

-- An item of a list for which a statement holds.
pub record Exists {ℓ κ} {A : Type ℓ} (P : A → Type κ) (xs : List A) : Type (ℓ ⊔ κ) where
  pub before : List A
  pub item : A
  pub after : List A
  pub split : xs ≡ before ++ (item ∷ after)
  pub holds : P item

module _ {ℓ κ} {A : Type ℓ} (P : A → Type κ) where
  pub Exists-head : (x : A) (xs : List A) → P x → Exists P (x ∷ xs)
  Exists-head x xs h = record { before = []; item = x; after = xs; split = refl; holds = h }

  pub Exists-tail : (x : A) (xs : List A) → Exists P xs → Exists P (x ∷ xs)
  Exists-tail x xs e = record {
    before = x ∷ e.before;
    item = e.item;
    after = e.after;
    split = ap (◌∷◌ x) e.split;
    holds = e.holds;
  }

module _ {ℓ} {A : Type ℓ} (p : A → Bool) where
  pub any-true : (xs : List A) → any p xs ≡ true → Exists (λ x. p x ≡ true) xs
  any-true [] h = absurd (cc h)
  any-true (x ∷ xs) h = elim (Bool-cases (p x)) [
    | inl hit ↦ Exists-head (λ y. p y ≡ true) x xs hit
    | inr miss ↦ Exists-tail (λ y. p y ≡ true) x xs (any-true xs (ground (arith, h, miss)))
  ]

  pub any-false : (xs : List A) → any p xs ≡ false → All (λ x. p x ≡ false) xs
  any-false [] h = tt
  any-false (x ∷ xs) h = (ground (arith, h), any-false xs (ground (arith, h)))

  pub All-any : (xs : List A) → All (λ x. p x ≡ false) xs → any p xs ≡ false
  All-any [] h = refl
  All-any (x ∷ xs) (hx, h) = ground (arith, hx, All-any xs h)

  pub any-append : (xs ys : List A) → any p (xs ++ ys) ≡ any p xs || any p ys
  any-append [] ys = refl
  any-append (x ∷ xs) ys = ground (arith, any-append xs ys)

  pub Exists-any : (xs : List A) → Exists (λ x. p x ≡ true) xs → any p xs ≡ true
  Exists-any xs e =
      ap (any p) e.split ∙ any-append e.before (e.item ∷ e.after) ∙ ground (arith, e.holds)

  pub any-perm : {xs ys : List A} → Permᴰ xs ys → any p xs ≡ any p ys
  any-perm Permᴰ.nil = refl
  any-perm (Permᴰ.cons e q) = ground (arith, ap p e, any-perm q)
  any-perm (Permᴰ.swap e f) = ground (arith, ap p e, ap p f)
  any-perm (Permᴰ.trans q r) = any-perm q ∙ any-perm r

module _ {ℓ κ μ} {A : Type ℓ} {P : A → Type κ} {Q : A → Type μ} where
  pub Exists-All : {xs : List A} → Exists P xs → All Q xs → (x : A) × P x × Q x
  Exists-All e all = (e.item, e.holds, at e.before (subst (All Q) e.split all))
    where
      at : (ys : List A) → All Q (ys ++ (e.item ∷ e.after)) → Q e.item
      at [] (q, qs) = q
      at (y ∷ ys) (q, qs) = at ys qs
