-- ===== src/Hashing/Streaming.antt =====
-- hashing.py and nes.py: to hash in pieces is to hash at once.
use rom_metadata_framework.Prelude.{
  Bool, true, false, ℕ, zero, suc, pos, negsuc, ◌+◌, ◌-◌, ◌≤◌, ◌<◌, not, if◌then◌else◌, ◌≡◌, refl,
  sym, ap, ◌∙◌, inl, inr, Bool-cases, List, [], ◌∷◌, ◌++◌, Text, is_empty, length, take, drop,
  length-drop, Bytes, arith,
}
use rom_metadata_framework.Prelude.{err, ◌>>◌, raise_if}
use rom_metadata_framework.Source.{Source, read_at, length-read_at, drop-drop}
use rom_metadata_framework.Hashing.Digests.{
  Hashers, AreStreaming, Running, begin, absorb, finish, digests,
}
use rom_metadata_framework.Hashing.Files.{
  absorb_from, or_invalid, hash_stream, hash_file, file_not_found, chunk_size_not_positive,
}

pub is_empty-length : (b : Bytes) → 0 < length b → is_empty b ≡ false
is_empty-length [] h = absurd (omega arith)
is_empty-length (x ∷ b) h = refl

pub length-empty : (b : Bytes) → length b ≡ 0 → b ≡ []
length-empty [] h = refl
length-empty (x ∷ b) h = absurd (omega arith)

module _ {ℓ} {A : Type ℓ} where
  -- A list in two pieces, the first of which may be longer than the list.
  pub take-split :
      (c n : ℕ) (xs : List A) → c ≤ n → take n xs ≡ take c xs ++ take (n - c) (drop c xs)
  take-split zero n xs h = ap (λ k. take k xs) (omega arith)
  take-split (suc c) zero xs h = absurd (omega arith)
  take-split (suc c) (suc n) [] h = sym (take-nil (suc n - suc c))
    where
      take-nil : (k : ℕ) → take k (let l : List A = [] in l) ≡ []
      take-nil zero = refl
      take-nil (suc k) = refl
  take-split (suc c) (suc n) (x ∷ xs) h =
      ap (◌∷◌ x)
        (take-split c n xs (omega arith) ∙ ap (λ k. take c xs ++ take k (drop c xs)) (omega arith))

  pub take-all : (n : ℕ) (xs : List A) → length xs ≤ n → take n xs ≡ xs
  take-all zero [] h = refl
  take-all zero (x ∷ xs) h = absurd (omega arith)
  take-all (suc n) [] h = refl
  take-all (suc n) (x ∷ xs) h = ap (◌∷◌ x) (take-all n xs (omega arith))

module _ (hashers : Hashers) (streaming : AreStreaming hashers) where
  pub absorb-nothing : (r : Running hashers) → absorb hashers r [] ≡ r
  unfolding absorb
  absorb-nothing (crc, (md5, (sha1, sha256))) =
      rw
        (
          streaming.crc32.nothing crc,
          streaming.md5.nothing md5,
          streaming.sha1.nothing sha1,
          streaming.sha256.nothing sha256,
        )
        refl

  pub absorb-pieces :
      (r : Running hashers) (a b : Bytes)
      → absorb hashers (absorb hashers r a) b ≡ absorb hashers r (a ++ b)
  unfolding absorb
  absorb-pieces (crc, (md5, (sha1, sha256))) a b =
      rw
        (
          streaming.crc32.pieces crc a b,
          streaming.md5.pieces md5 a b,
          streaming.sha1.pieces sha1 a b,
          streaming.sha256.pieces sha256 a b,
        )
        refl

module _ {ℓ} {A : Type ℓ} where
  pub take-rest : (n : ℕ) (xs : List A) → take n xs ++ drop (length (take n xs)) xs ≡ xs
  take-rest zero xs = refl
  take-rest (suc n) [] = refl
  take-rest (suc n) (x ∷ xs) = ap (◌∷◌ x) (take-rest n xs)

-- What the loop has read at one position, and what is left behind it.
pub chunk-rest :
    (source : Source) (position size : ℕ)
    → read_at source position size
        ++ drop (position + length (read_at source position size)) source.content
      ≡ drop position source.content
unfolding read_at
chunk-rest source position size =
    ap (λ l. read_at source position size ++ l)
      (sym (drop-drop (length (read_at source position size)) position source.content))
    ∙ take-rest size (drop position source.content)

module _ (hashers : Hashers) (streaming : AreStreaming hashers) (source : Source) (size : ℕ) where
  absorb_from-drop :
      (fuel position : ℕ) (r : Running hashers)
      → 0 < size
      → length source.content - position < fuel
      → absorb_from hashers fuel source position size r
        ≡ absorb hashers r (drop position source.content)
  unfolding absorb_from
  absorb_from-drop zero position r some_size enough = absurd (omega arith)
  absorb_from-drop (suc fuel) position r some_size enough =
      let chunk = read_at source position size in
      elim (Bool-cases (is_empty chunk)) [
        | inl e ↦ rw e (
            sym (absorb-nothing hashers streaming r)
            ∙ ap (absorb hashers r)
                (sym (length-empty (drop position source.content) (at_end chunk refl e))))
        | inr e ↦ rw e (
            absorb_from-drop fuel (position + length chunk) (absorb hashers r chunk) some_size
              (forward chunk refl e)
            ∙ absorb-pieces hashers streaming r chunk
                (drop (position + length chunk) source.content)
            ∙ ap (absorb hashers r) (chunk-rest source position size))
      ]
    where
      at_end :
          (chunk : Bytes)
          → chunk ≡ read_at source position size
          → is_empty chunk ≡ true
          → length (drop position source.content) ≡ 0
      at_end [] e h = omega (
        arith,
        ap length e,
        length-read_at source position size,
        length-drop position source.content,
        some_size,
      )
      at_end (x ∷ chunk) e h = absurd (cc h)

      forward :
          (chunk : Bytes)
          → chunk ≡ read_at source position size
          → is_empty chunk ≡ false
          → length source.content - (position + length chunk) < fuel
      forward [] e h = absurd (cc h)
      forward (x ∷ chunk) e h =
          omega (arith, ap length e, length-read_at source position size, enough)

hash_stream-digests :
    (hashers : Hashers) (lower : Text → Text) (source : Source) (n : ℕ)
    → AreStreaming hashers
    → hash_stream hashers lower (pos (suc n)) source
      ≡ or_invalid (digests hashers lower source.content)
unfolding hash_stream digests
hash_stream-digests hashers lower source n streaming =
    ap (λ r. or_invalid (finish hashers lower r))
      (absorb_from-drop hashers streaming source (suc n) (length source.content + 1) 0
        (begin hashers) (omega arith) (omega arith))

-- Where the hash functions take a piece behind another as both at once, `hash_file` gives the hashes of
-- all the bytes of the file, whatever positive size its chunks have, and a chunk size that is not
-- positive or a path that is no file is refused.
pub hash_file-digests :
    (hashers : Hashers) (lower : Text → Text) (source : Source)
    → AreStreaming hashers
    → ((n : ℕ)
        → hash_file hashers lower (pos (suc n)) source ≡ (
            if source.regular
            then or_invalid (digests hashers lower source.content)
            else err file_not_found))
      × (hash_file hashers lower (pos 0) source ≡ err chunk_size_not_positive)
      × ((n : ℕ) → hash_file hashers lower (negsuc n) source ≡ err chunk_size_not_positive)
unfolding hash_file
hash_file-digests hashers lower source streaming = (λ n. of_file source.regular n, refl, λ n. refl)
  where
    of_file :
        (regular : Bool) (n : ℕ)
        → (raise_if (not regular) file_not_found >> hash_stream hashers lower (pos (suc n)) source)
          ≡ (if regular
              then or_invalid (digests hashers lower source.content)
              else err file_not_found)
    of_file true n = hash_stream-digests hashers lower source n streaming
    of_file false n = refl
