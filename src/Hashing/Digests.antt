-- ===== src/Hashing/Digests.antt =====
-- hashing.py and nes.py: the four hashes that both compute. A hash of hashlib is what it starts from,
-- its `update` and its `hexdigest`; `zlib.crc32` is a function of a chunk and the value so far.
use rom_metadata_framework.Prelude.{
  ℕ, zero, suc, ◌+◌, ◌-◌, ◌/◌, ◌%◌, ◌^◌, ltb, if◌then◌else◌, ◌≡◌, some, [], ◌∷◌, ◌++◌, Text, Bytes,
}
use rom_metadata_framework.Prelude.{Result}
use rom_metadata_framework.Identification.Types.{Error, HashSet, hash_set}

pub record Hasher : Type 1 where
  pub State : Type 0
  pub new : State
  pub update : State → Bytes → State
  pub hexdigest : State → Text

-- As the documentation of hashlib and zlib says: updates with two pieces are an update with both, one
-- behind the other, and a piece that is empty changes nothing.
pub record IsStreaming (State : Type 0) (update : State → Bytes → State) : Type 0 where
  pub nothing : (s : State) → update s [] ≡ s
  pub pieces : (s : State) (a b : Bytes) → update (update s a) b ≡ update s (a ++ b)

pub record Hashers : Type 1 where
  pub crc32 : ℕ → Bytes → ℕ
  pub md5 : Hasher
  pub sha1 : Hasher
  pub sha256 : Hasher

pub record AreStreaming (hashers : Hashers) : Type 0 where
  pub crc32 : IsStreaming ℕ hashers.crc32
  pub md5 : IsStreaming hashers.md5.State hashers.md5.update
  pub sha1 : IsStreaming hashers.sha1.State hashers.sha1.update
  pub sha256 : IsStreaming hashers.sha256.State hashers.sha256.update

-- f"{n:0{width}x}" of a number that has no more digits
unfoldable pub hex_fixed : ℕ → ℕ → Text → Text
hex_fixed zero n digits = digits
hex_fixed (suc width) n digits =
    let d = n % 16 in
    hex_fixed width (n / 16) ((if ltb d 10 then b'0' + d else b'a' + (d - 10)) ∷ digits)

module _ (hashers : Hashers) where
  -- The values of the four hashes in a loop.
  abbrev pub Running : Type 0
  Running = ℕ × (hashers.md5.State × (hashers.sha1.State × hashers.sha256.State))

  unfoldable pub begin : Running
  begin = (0, (hashers.md5.new, (hashers.sha1.new, hashers.sha256.new)))

  -- What the body of the loop does with a chunk.
  unfoldable pub absorb : Running → Bytes → Running
  absorb (crc, (md5, (sha1, sha256))) chunk = (
    hashers.crc32 crc chunk,
    (
      hashers.md5.update md5 chunk,
      (hashers.sha1.update sha1 chunk, hashers.sha256.update sha256 chunk),
    ),
  )

  -- The `HashSet` at the end.
  unfoldable pub finish : (Text → Text) → Running → Result Error HashSet
  unfolding hex_fixed hash_set
  finish lower (crc, (md5, (sha1, sha256))) = hash_set lower (record {
    crc32 = some (hex_fixed 8 (crc % 2 ^ 32) []);
    md5 = some (hashers.md5.hexdigest md5);
    sha1 = some (hashers.sha1.hexdigest sha1);
    sha256 = some (hashers.sha256.hexdigest sha256);
  })

  -- The four hashes of all the bytes at once.
  unfoldable pub digests : (Text → Text) → Bytes → Result Error HashSet
  unfolding begin absorb finish
  digests lower data' = finish lower (absorb begin data')
