-- ===== src/Naming/Characters.antt =====
-- naming.py: which characters the pieces of a file name keep, and that a piece is more than dots.
use rom_metadata_framework.Prelude.{
  Bool, true, false, ℕ, ◌+◌, ◌%◌, ◌==◌, not, any, if◌then◌else◌, ◌≡◌, refl, subst, inl, inr, Option,
  none, some, List, [], ◌∷◌, All, All-append, Bool-cases, arith, Text, is_space, strip, strip_left,
  strip_right, cons_kept, is_empty, ok-injective, bind-eq-ok, raise_if-eq-ok,
}
use rom_metadata_framework.Prelude.{ok, raise_if}
use rom_metadata_framework.Naming.Components.{
  is_invalid, replace_invalid, space_before, collapse_spaces, is_dot, sanitize_filename_component,
  last_part, split_last_dot, join_spaces,
}

module _ {κ} (P : ℕ → Type κ) where
  pub cons_kept-All : (b : Bool) (c : ℕ) (s : Text) → P c → All P s → All P (cons_kept b c s)
  unfolding cons_kept
  cons_kept-All true c [] pc ps = tt
  cons_kept-All false c [] pc ps = (pc, tt)
  cons_kept-All b c (d ∷ s) pc ps = (pc, ps)

  pub strip_right-All : (p : ℕ → Bool) (s : Text) → All P s → All P (strip_right p s)
  unfolding strip_right
  strip_right-All p [] ps = tt
  strip_right-All p (c ∷ s) ps =
      cons_kept-All (p c) c (strip_right p s) ps.0 (strip_right-All p s ps.1)

  pub strip_left-All : (p : ℕ → Bool) (s : Text) → All P s → All P (strip_left p s)
  unfolding strip_left
  strip_left-All p [] ps = tt
  strip_left-All p (c ∷ s) ps = elim (Bool-cases (p c)) [
    | inl e ↦ rw e (strip_left-All p s ps.1)
    | inr e ↦ rw e ps
  ]

  pub strip-All : (s : Text) → All P s → All P (strip s)
  unfolding strip
  strip-All s ps = strip_right-All is_space (strip_left is_space s) (strip_left-All is_space s ps)

  space_before-All : (s : Text) → P b' ' → All P s → All P (space_before s)
  unfolding space_before
  space_before-All [] space ps = (space, tt)
  space_before-All (c ∷ s) space ps = elim (Bool-cases (c == b' ')) [
    | inl e ↦ rw e ps
    | inr e ↦ rw e (space, ps)
  ]

  pub collapse_spaces-All : (s : Text) → P b' ' → All P s → All P (collapse_spaces s)
  unfolding collapse_spaces
  collapse_spaces-All [] space ps = tt
  collapse_spaces-All (c ∷ s) space ps = elim (Bool-cases (is_space c)) [
    | inl e ↦ rw e (space_before-All (collapse_spaces s) space (collapse_spaces-All s space ps.1))
    | inr e ↦ rw e (ps.0, collapse_spaces-All s space ps.1)
  ]

  pub join_spaces-All : (parts : List Text) → P b' ' → All (All P) parts → All P (join_spaces parts)
  unfolding join_spaces
  join_spaces-All [] space h = tt
  join_spaces-All (part ∷ []) space h = h.0
  join_spaces-All (part ∷ next ∷ parts) space h =
      All-append P part (b' ' ∷ join_spaces (next ∷ parts)) h.0
        (space, join_spaces-All (next ∷ parts) space h.1)

  pub last_part-All : (parts : List Text) → All (All P) parts → All P (last_part parts)
  unfolding last_part
  last_part-All [] h = tt
  last_part-All (part ∷ []) h = h.0
  last_part-All (part ∷ next ∷ parts) h = last_part-All (next ∷ parts) h.1

  -- Both sides of the last dot consist of characters of the text.
  pub split_last_dot-All :
      (s a b : Text) → All P s → split_last_dot s ≡ some (a, b) → All P a × All P b
  unfolding split_last_dot
  split_last_dot-All [] a b ps h = absurd (cc h)
  split_last_dot-All (c ∷ s) a b ps h =
      from (split_last_dot s) (λ x y. split_last_dot-All s x y ps.1) h
    where
      from :
          (o : Option (Text × Text))
          → ((x y : Text) → o ≡ some (x, y) → All P x × All P y)
          → ◌≡◌ {A = Option (Text × Text)}
              (elim o as (λ k. Option (Text × Text)) [
                | some (x, y) ↦ some (c ∷ x, y)
                | none ↦ if c == b'.' then some ([], s) else none
              ])
              (some (a, b))
          → All P a × All P b
      from (some (x, y)) halves h' =
          let (px, py) = halves x y refl in
          let k : (c ∷ x ≡ a) × (y ≡ b) = ground (arith, h') in
          (subst (All P) k.0 (ps.0, px), subst (All P) k.1 py)
      from none halves h' = elim (Bool-cases (c == b'.')) [
        | inl dot ↦
            let k : ([] ≡ a) × (s ≡ b) = ground (arith, h', dot) in
            (subst (All P) k.0 tt, subst (All P) k.1 ps.1)
        | inr other ↦ absurd (ground (arith, h', other))
      ]

-- A piece without the characters that a file name must not have.
abbrev pub IsClean : Text → Type 0
IsClean s = All (λ c. is_invalid c ≡ false) s

-- A character that is not a dot stands somewhere in it.
unfoldable pub has_more : Text → Bool
unfolding is_dot
has_more = any (λ c. not (is_dot c))

replace_invalid-IsClean : (s : Text) → IsClean (replace_invalid s)
unfolding replace_invalid is_invalid
replace_invalid-IsClean [] = tt
replace_invalid-IsClean (c ∷ s) = (ground arith, replace_invalid-IsClean s)

strip_right-has_more :
    (s : Text) → is_empty (strip_right is_dot s) ≡ false → has_more (strip_right is_dot s) ≡ true
unfolding strip_right has_more
strip_right-has_more [] h = absurd (cc h)
strip_right-has_more (c ∷ s) h = from (strip_right is_dot s) (strip_right-has_more s) h
  where
    from :
        (rest : Text)
        → (is_empty rest ≡ false → any (λ x. not (is_dot x)) rest ≡ true)
        → is_empty (cons_kept (is_dot c) c rest) ≡ false
        → any (λ x. not (is_dot x)) (cons_kept (is_dot c) c rest) ≡ true
    from [] more e = dot (is_dot c) refl e
      where
        dot :
            (b : Bool)
            → is_dot c ≡ b
            → is_empty (cons_kept b c []) ≡ false
            → any (λ x. not (is_dot x)) (cons_kept b c []) ≡ true
        dot true is e = absurd (cc e)
        dot false is e = rw is refl
    from (d ∷ rest) more e = ground (arith, more refl)

pub space-allowed : is_invalid b' ' ≡ false
unfolding is_invalid
space-allowed = refl

pub minus-allowed : is_invalid b'-' ≡ false
unfolding is_invalid
minus-allowed = refl

pub digit-allowed : (n : ℕ) → is_invalid (b'0' + n % 10) ≡ false
unfolding is_invalid
digit-allowed n = ground arith

-- What the sanitizer returns is free of invalid characters and more than dots.
pub sanitize-IsClean :
    (value : Text) {s : Text}
    → sanitize_filename_component value ≡ ok s
    → IsClean s × (has_more s ≡ true)
unfolding sanitize_filename_component
sanitize-IsClean value {s} h =
    let t = strip (collapse_spaces (replace_invalid value)) in
    let (u, filled, made) = bind-eq-ok (raise_if (is_empty (strip_right is_dot t)) _) _ h in
    subst (λ x. IsClean x × (has_more x ≡ true)) (ok-injective made)
      (
        strip_right-All (λ c. is_invalid c ≡ false) is_dot t
            (strip-All (λ c. is_invalid c ≡ false) (collapse_spaces (replace_invalid value))
              (collapse_spaces-All (λ c. is_invalid c ≡ false) (replace_invalid value) space-allowed
                (replace_invalid-IsClean value))),
        strip_right-has_more t (raise_if-eq-ok _ _ filled),
      )
