-- ===== src/Prelude/ByteStrings.antt =====
-- Python's `bytes`: slices, `int.from_bytes` and the bounds of what a slice decodes to.
use Prim.Native.Nat.{ℕ, ◌+◌, ◌-◌, ◌*◌, min}
use mathlib.Core.Path.{◌≡◌}
use mathlib.Core.List.{List, [], ◌∷◌}
use native.Mathlib.Omega.{arith}
use rom_metadata_framework.Prelude.Lists.{length, take, drop, get_or, length-take, length-drop}

abbrev pub Bytes : Type 0
Bytes = List ℕ

-- data[from : to], whose ends Python clamps to the data.
unfoldable pub slice : Bytes → ℕ → ℕ → Bytes
slice data' from to = take (to - from) (drop from data')

-- data[index], below the length.
unfoldable pub byte_at : Bytes → ℕ → ℕ
byte_at data' index = get_or data' index 0

-- int.from_bytes(data, "little")
unfoldable pub from_little : Bytes → ℕ
from_little [] = 0
from_little (b ∷ bs) = b + 256 * from_little bs

from_big_onto : ℕ → Bytes → ℕ
from_big_onto acc [] = acc
from_big_onto acc (b ∷ bs) = from_big_onto (acc * 256 + b) bs

-- int.from_bytes(data, "big")
unfoldable pub from_big : Bytes → ℕ
unfolding from_big_onto
from_big = from_big_onto 0

pub length-slice :
    (data' : Bytes) (from to : ℕ)
    → length (slice data' from to) ≡ min (to - from) (length data' - from)
unfolding slice
length-slice data' from to =
    omega (arith, length-take (to - from) (drop from data'), length-drop from data')
