-- ===== src/Prelude/Texts.antt =====
-- Python's `str` as the list of its code points: equality, `strip`, `split`, membership.
use Prim.Native.Nat.{ℕ}
use Prim.Native.Char.{code}
use Prim.Native.String.{String}
use mathlib.Core.Path.{◌≡◌}
use mathlib.Core.Logic.{◌↔◌}
use mathlib.Core.Bool.{Bool, true, false, not, ◌&&◌, ◌||◌}
use mathlib.Core.List.{List, [], ◌∷◌}
use native.Mathlib.Omega.{arith}
use rom_metadata_framework.Prelude.Lists.{keep}
use rom_metadata_framework.Prelude.Tests.{leb, ◌==◌, if◌then◌else◌}

abbrev pub Text : Type 0
Text = List ℕ

-- A literal of the source.
abbrev pub codes : String → Text
codes String.[] = []
codes (String.◌∷◌ c s) = code c ∷ codes s

infix 50 ◌=t=◌
unfoldable pub ◌=t=◌ : Text → Text → Bool
[] =t= [] = true
(x ∷ xs) =t= (y ∷ ys) = x == y && (xs =t= ys)
_ =t= _ = false

pub =t=_iff : (a b : Text) → ((a =t= b) ≡ true) ↔ (a ≡ b)
unfolding ◌=t=◌
=t=_iff (x ∷ a) (y ∷ b) = ground (arith, =t=_iff a b)
=t=_iff _ _ = ground arith

-- `str.isspace` of one code point.
unfoldable pub is_space : ℕ → Bool
is_space c =
    (leb 9 c && leb c 13)
    || (leb 28 c && leb c 32)
    || c == 0x85
    || c == 0xa0
    || c == 0x1680
    || (leb 0x2000 c && leb c 0x200a)
    || c == 0x2028
    || c == 0x2029
    || c == 0x202f
    || c == 0x205f
    || c == 0x3000

unfoldable pub strip_left : (ℕ → Bool) → Text → Text
strip_left p [] = []
strip_left p (c ∷ s) = let rest = strip_left p s in if p c then rest else c ∷ s

-- `c ∷ rest`, unless nothing is left behind `c` and `c` goes too
unfoldable pub cons_kept : Bool → ℕ → Text → Text
cons_kept drop c [] = if drop then [] else c ∷ []
cons_kept drop c (d ∷ s) = c ∷ d ∷ s

unfoldable pub strip_right : (ℕ → Bool) → Text → Text
unfolding cons_kept
strip_right p [] = []
strip_right p (c ∷ s) = cons_kept (p c) c (strip_right p s)

-- `str.strip()`
unfoldable pub strip : Text → Text
unfolding strip_left strip_right is_space
strip s = strip_right is_space (strip_left is_space s)

-- `not s`
abbrev pub is_empty : Text → Bool
is_empty [] = true
is_empty (c ∷ s) = false

unfoldable pub elem_text : Text → List Text → Bool
unfolding ◌=t=◌
elem_text a [] = false
elem_text a (x ∷ xs) = (a =t= x) || elem_text a xs

-- `str.split(separator)` on one character: the parts between its occurrences.
unfoldable pub cons_head : ℕ → List Text → List Text
cons_head c [] = (c ∷ []) ∷ []
cons_head c (part ∷ parts) = (c ∷ part) ∷ parts

unfoldable pub split_on : ℕ → Text → List Text
unfolding cons_head
split_on sep [] = [] ∷ []
split_on sep (c ∷ s) = let rest = split_on sep s in if c == sep then [] ∷ rest else cons_head c rest

-- `tuple(part for part in path.strip("/").split("/") if part)`
unfoldable pub path_parts : Text → List Text
unfolding split_on strip_left strip_right
path_parts path =
    keep (λ part. not (is_empty part))
      (split_on b'/' (strip_right (λ c. c == b'/') (strip_left (λ c. c == b'/') path)))
