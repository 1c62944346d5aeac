-- ===== src/Source.antt =====
-- A file that a reader opens: `Path.is_file`, `Path.stat().st_size`, and `seek` with `read`.
-- The size that `stat` reported and the bytes that a later `read` finds are kept apart, since the
-- file may shrink between the two calls; the readers test for that.
use Prim.Native.Nat.add
use rom_metadata_framework.Prelude.{
  zero, suc, List, [], ◌∷◌, ap, ◌∙◌, slice, ℕ, ◌+◌, ◌-◌, ◌≤◌, ◌≡◌, refl, Bool, arith, length, take,
  drop, length-take, length-drop, Bytes, min,
}

pub record Source : Type 0 where
  pub regular : Bool
  pub st_size : ℕ
  pub content : Bytes

-- handle.seek(offset); handle.read(size)
unfoldable pub read_at : Source → ℕ → ℕ → Bytes
read_at source offset size = take size (drop offset source.content)

pub length-read_at :
    (s : Source) (offset size : ℕ)
    → length (read_at s offset size) ≡ min size (length s.content - offset)
unfolding read_at
length-read_at s offset size =
    omega (arith, length-take size (drop offset s.content), length-drop offset s.content)

module _ {ℓ} {A : Type ℓ} where
  take-drop-take :
      (offset size whole : ℕ) (xs : List A)
      → offset + size ≤ whole
      → take size (drop offset (take whole xs)) ≡ take size (drop offset xs)
  take-drop-take zero zero whole xs h = refl
  take-drop-take zero (suc size) zero xs h = absurd (omega arith)
  take-drop-take zero (suc size) (suc whole) [] h = refl
  take-drop-take zero (suc size) (suc whole) (x ∷ xs) h =
      ap (◌∷◌ x) (take-drop-take zero size whole xs (omega arith))
  take-drop-take (suc offset) size zero xs h = absurd (omega arith)
  take-drop-take (suc offset) size (suc whole) [] h = refl
  take-drop-take (suc offset) size (suc whole) (x ∷ xs) h =
      take-drop-take offset size whole xs (omega arith)

  pub drop-drop :
      (offset start : ℕ) (xs : List A) → drop offset (drop start xs) ≡ drop (start + offset) xs
  drop-drop offset zero xs = rw add.zero
  drop-drop offset (suc start) [] = rw add.suc (drop-nil offset)
    where
      drop-nil : (n : ℕ) → drop n (let l : List A = [] in l) ≡ []
      drop-nil zero = refl
      drop-nil (suc n) = refl
  drop-drop offset (suc start) (x ∷ xs) = rw add.suc (drop-drop offset start xs)

-- A range of what was read is what a read of that range gives.
pub slice-read_at :
    (s : Source) (start whole offset size : ℕ)
    → offset + size ≤ whole
    → slice (read_at s start whole) offset (offset + size) ≡ read_at s (start + offset) size
unfolding slice read_at
slice-read_at s start whole offset size h =
    let n : offset + size - offset ≡ size = omega arith in
    rw n (
      take-drop-take offset size whole (drop start s.content) h
      ∙ ap (take size) (drop-drop offset start s.content))
