-- ===== src/Hashing/Samples.antt =====
-- hashing.py: hash functions that add the bytes up, for the tests.
use rom_metadata_framework.Prelude.{ℕ, ◌+◌, ◌≡◌, refl, [], ◌∷◌, ◌++◌, Text, Bytes}
use rom_metadata_framework.Hashing.Digests.{Hasher, IsStreaming, Hashers, AreStreaming, hex_fixed}

abbrev pub same : Text → Text
same s = s

abbrev sum : ℕ → Bytes → ℕ
sum n [] = n
sum n (b ∷ bs) = sum (n + b) bs

sum-pieces : (n : ℕ) (a b : Bytes) → sum (sum n a) b ≡ sum n (a ++ b)
sum-pieces n [] b = refl
sum-pieces n (x ∷ a) b = sum-pieces (n + x) a b

abbrev hasher : ℕ → Hasher
hasher width = record { State = ℕ; new = 0; update = sum; hexdigest = λ n. hex_fixed width n [] }

abbrev pub hashers : Hashers
hashers = record { crc32 = sum; md5 = hasher 32; sha1 = hasher 40; sha256 = hasher 64 }

sum-IsStreaming : IsStreaming ℕ sum
sum-IsStreaming = record { nothing = λ n. refl; pieces = sum-pieces }

pub streaming : AreStreaming hashers
streaming = record {
  crc32 = sum-IsStreaming;
  md5 = sum-IsStreaming;
  sha1 = sum-IsStreaming;
  sha256 = sum-IsStreaming;
}
