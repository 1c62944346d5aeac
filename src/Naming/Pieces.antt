-- ===== src/Naming/Pieces.antt =====
-- naming.py: the pieces of a name, free of separators or of all invalid characters.
use rom_metadata_framework.Prelude.{
  Bool, false, ℕ, zero, suc, ℤ, pos, negsuc, ◌+◌, ◌/◌, ◌%◌, ◌==◌, ltb, any, any-false, keep,
  if◌then◌else◌, ◌≡◌, refl, subst, inl, inr, Option, none, some, List, [], ◌∷◌, ◌++◌, All,
  All-append, Bool-cases, arith, Text, codes, strip_left, is_empty, split_on, cons_head,
  ok-injective, bind-eq-ok,
}
use rom_metadata_framework.Prelude.{ok}
use rom_metadata_framework.Naming.Components.{
  is_invalid, is_dot, sanitize_filename_component, path_name, split_last_dot, suffix_of, suffix,
  decimal_from, decimal, decimal_int,
}
use rom_metadata_framework.Naming.Inputs.{NamingInput, exceeds}
use rom_metadata_framework.Naming.Plans.{
  bracketed, disc_part, revision_part, structured_parts, extra_parts, extension_of,
}
use rom_metadata_framework.Naming.Characters.{
  IsClean, minus-allowed, digit-allowed, sanitize-IsClean, strip_left-All, last_part-All,
  split_last_dot-All,
}

-- No separator of directories stands in it.
abbrev pub IsWithin : Text → Type 0
IsWithin s = All (λ c. (c == b'/') ≡ false) s

pub IsClean-IsWithin : (s : Text) → IsClean s → IsWithin s
unfolding is_invalid
IsClean-IsWithin [] h = tt
IsClean-IsWithin (c ∷ s) (hc, h) = (ground (arith, hc), IsClean-IsWithin s h)

-- The suffix of a path's last part has no separator either.
cons_head-IsWithin :
    (c : ℕ) (parts : List Text)
    → (c == b'/') ≡ false
    → All IsWithin parts
    → All IsWithin (cons_head c parts)
unfolding cons_head
cons_head-IsWithin c [] h hs = ((h, tt), tt)
cons_head-IsWithin c (part ∷ parts) h hs = ((h, hs.0), hs.1)

split_on-IsWithin : (s : Text) → All IsWithin (split_on b'/' s)
unfolding split_on
split_on-IsWithin [] = (tt, tt)
split_on-IsWithin (c ∷ s) = elim (Bool-cases (c == b'/')) [
  | inl e ↦ rw e (tt, split_on-IsWithin s)
  | inr e ↦ rw e (cons_head-IsWithin c (split_on b'/' s) e (split_on-IsWithin s))
]

keep-All {ℓ κ} :
    {A : Type ℓ} (P : A → Type κ) (p : A → Bool) (xs : List A) → All P xs → All P (keep p xs)
keep-All P p [] h = tt
keep-All P p (x ∷ xs) h = elim (Bool-cases (p x)) [
  | inl e ↦ rw e (h.0, keep-All P p xs h.1)
  | inr e ↦ rw e (keep-All P p xs h.1)
]

pub path_name-IsWithin : (text : Text) → IsWithin (path_name text)
unfolding path_name
path_name-IsWithin text =
    last_part-All (λ c. (c == b'/') ≡ false) _
      (keep-All IsWithin _ (split_on b'/' text) (split_on-IsWithin text))

suffix-IsWithin : (name : Text) → IsWithin name → IsWithin (suffix name)
unfolding suffix
suffix-IsWithin name h =
    from (split_last_dot name)
      (λ a b e. (split_last_dot-All (λ c. (c == b'/') ≡ false) name a b h e).1)
  where
    from :
        (o : Option (Text × Text))
        → ((a b : Text) → o ≡ some (a, b) → IsWithin b)
        → IsWithin (suffix_of o)
    from none behind = tt
    from (some ([], b)) behind = tt
    from (some (c ∷ a, [])) behind = tt
    from (some (c ∷ a, d ∷ b)) behind = (refl, behind (c ∷ a) (d ∷ b) refl)

abbrev pub IsWithinOption : Option Text → Type 0
IsWithinOption none = Unit
IsWithinOption (some s) = IsWithin s

pub extension_of-IsWithin : (source : Text) → IsWithin source → IsWithinOption (extension_of source)
unfolding extension_of
extension_of-IsWithin source h =
    from (strip_left is_dot (suffix source))
      (strip_left-All (λ c. (c == b'/') ≡ false) is_dot (suffix source) (suffix-IsWithin source h))
  where
    from : (e : Text) → IsWithin e → IsWithinOption (if is_empty e then none else some e)
    from [] w = tt
    from (c ∷ e) w = w

-- The pieces of a structured name are clean.
IsClean-literal : (s : Text) → any is_invalid s ≡ false → IsClean s
IsClean-literal = any-false is_invalid

IsClean-append : (a b : Text) → IsClean a → IsClean b → IsClean (a ++ b)
IsClean-append = All-append (λ c. is_invalid c ≡ false)

decimal_from-IsClean :
    (fuel n : ℕ) (digits : Text) → IsClean digits → IsClean (decimal_from fuel n digits)
unfolding decimal_from
decimal_from-IsClean zero n digits h = h
decimal_from-IsClean (suc fuel) n digits h = elim (Bool-cases (ltb n 10)) [
  | inl e ↦ rw e (digit, h)
  | inr e ↦ rw e (decimal_from-IsClean fuel (n / 10) _ (digit, h))
]
  where
    digit : is_invalid (b'0' + n % 10) ≡ false
    digit = digit-allowed n

decimal_int-IsClean : (n : ℤ) → IsClean (decimal_int n)
unfolding decimal_int decimal
decimal_int-IsClean (pos n) = decimal_from-IsClean (suc n) n [] tt
decimal_int-IsClean (negsuc n) = (minus-allowed, decimal_from-IsClean (suc (n + 1)) (n + 1) [] tt)

disc_part-IsClean : (n t : Option ℤ) → All IsClean (disc_part n t)
unfolding disc_part is_invalid
disc_part-IsClean (some n) (some t) = elim (Bool-cases (exceeds t (pos 1))) [
  | inl e ↦ rw e (
    IsClean-append (codes "(Disc ") _ (IsClean-literal (codes "(Disc ") refl) (
        IsClean-append (decimal_int n) _ (decimal_int-IsClean n) (
          IsClean-append (codes " of ") _ (IsClean-literal (codes " of ") refl) (
            IsClean-append (decimal_int t) (codes ")") (decimal_int-IsClean t)
              (IsClean-literal (codes ")") refl)))),
    tt,
  )
  | inr e ↦ rw e tt
]
disc_part-IsClean (some n) none = tt
disc_part-IsClean none t = tt

pub bracketed-IsClean :
    (left right : ℕ) (value : Option Text) {parts : List Text}
    → is_invalid left ≡ false
    → is_invalid right ≡ false
    → bracketed left right value ≡ ok parts
    → All IsClean parts
unfolding bracketed
bracketed-IsClean left right none l r h = subst (All IsClean) (ok-injective h) tt
bracketed-IsClean left right (some value) l r h =
    let (s, clean, made) = bind-eq-ok (sanitize_filename_component value) _ h in
    subst (All IsClean) (ok-injective made)
      ((l, IsClean-append s (right ∷ []) (sanitize-IsClean value clean).0 (r, tt)), tt)

revision_part-IsClean :
    (value : Option Text) {parts : List Text} → revision_part value ≡ ok parts → All IsClean parts
unfolding revision_part is_invalid
revision_part-IsClean none h = subst (All IsClean) (ok-injective h) tt
revision_part-IsClean (some value) h =
    let (s, clean, made) = bind-eq-ok (sanitize_filename_component value) _ h in
    subst (All IsClean) (ok-injective made) (
      IsClean-append (codes "(Rev ") _ (IsClean-literal (codes "(Rev ") refl) (
          IsClean-append s (codes ")") (sanitize-IsClean value clean).0
            (IsClean-literal (codes ")") refl)),
      tt,
    )

structured_parts-IsClean :
    (naming : NamingInput) {parts : List Text}
    → structured_parts naming ≡ ok parts
    → All IsClean parts
unfolding structured_parts is_invalid
structured_parts-IsClean naming h =
    let (region, has_region, h1) = bind-eq-ok (bracketed b'(' b')' naming.region) _ h in
    let (qualifier, has_qualifier, h2) =
      bind-eq-ok (bracketed b'(' b')' naming.media_qualifier) _ h1 in
    let (revision, has_revision, made) = bind-eq-ok (revision_part naming.revision) _ h2 in
    subst (All IsClean) (ok-injective made) (
      All-append IsClean region _ (bracketed-IsClean b'(' b')' naming.region refl refl has_region) (
        All-append IsClean (disc_part naming.disc_number naming.disc_total) _
          (disc_part-IsClean naming.disc_number naming.disc_total)
          (All-append IsClean qualifier revision
            (bracketed-IsClean b'(' b')' naming.media_qualifier refl refl has_qualifier)
            (revision_part-IsClean naming.revision has_revision))))

pub extra_parts-IsClean :
    (naming : NamingInput) {parts : List Text} → extra_parts naming ≡ ok parts → All IsClean parts
unfolding extra_parts
extra_parts-IsClean naming {parts} h = elim (Bool-cases naming.title_is_structured) [
  | inl e ↦ structured_parts-IsClean naming (ground (arith, h, e))
  | inr e ↦ let nothing : [] ≡ parts = ground (arith, h, e) in subst (All IsClean) nothing tt
]
