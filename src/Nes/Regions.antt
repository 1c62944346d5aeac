-- ===== src/Nes/Regions.antt =====
-- nes.py: `_hash_region` hashes the bytes of its range, all of them and no others.
use rom_metadata_framework.Prelude.{
  Bool, false, ℕ, zero, suc, ◌+◌, ◌-◌, ◌*◌, ◌==◌, ◌≤◌, ◌<◌, min, ◌≡◌, refl, sym, ap, ◌∙◌, inl, inr,
  Bool-cases, [], ◌++◌, Text, length, take, drop, arith, ==_iff,
}
use rom_metadata_framework.Prelude.{ok, err}
use rom_metadata_framework.Source.{Source, read_at, length-read_at, drop-drop}
use rom_metadata_framework.Hashing.Digests.{Hashers, AreStreaming, Running, begin, absorb, digests}
use rom_metadata_framework.Hashing.Streaming.{
  is_empty-length, length-empty, take-split, absorb-nothing, absorb-pieces,
}
use rom_metadata_framework.Nes.Adapter.{unexpected_end, or_invalid, absorb_region, hash_region}

module _ (allow_headerless : Bool) (lower : Text → Text) (hashers : Hashers) (source : Source) where
  -- One round that reads a chunk.
  absorb_region-round :
      (fuel position remaining : ℕ) (r : Running hashers)
      → 0 < remaining
      → 0 < length (read_at source position (min (1024 * 1024) remaining))
      → absorb_region allow_headerless lower hashers (suc fuel) source position remaining r
        ≡ absorb_region allow_headerless lower hashers fuel source
            (position + length (read_at source position (min (1024 * 1024) remaining)))
            (remaining - length (read_at source position (min (1024 * 1024) remaining)))
            (absorb hashers r (read_at source position (min (1024 * 1024) remaining)))
  unfolding absorb_region
  absorb_region-round fuel position remaining r some_left some_read =
      let open' : (remaining == 0) ≡ false = ground (arith, some_left) in
      rw (open', is_empty-length (read_at source position (min (1024 * 1024) remaining)) some_read)
        refl

  absorb_region-end :
      (fuel position : ℕ) (r : Running hashers)
      → absorb_region allow_headerless lower hashers fuel source position 0 r ≡ ok r
  unfolding absorb_region
  absorb_region-end zero position r = refl
  absorb_region-end (suc fuel) position r = refl

  absorb_region-stop :
      (fuel position remaining : ℕ) (r : Running hashers)
      → 0 < remaining
      → read_at source position (min (1024 * 1024) remaining) ≡ []
      → absorb_region allow_headerless lower hashers (suc fuel) source position remaining r
        ≡ err unexpected_end
  unfolding absorb_region
  absorb_region-stop fuel position remaining r some_left nothing =
      let open' : (remaining == 0) ≡ false = ground (arith, some_left) in rw (open', nothing) refl

  -- The bytes of a range are a chunk of it and the bytes behind.
  chunk_of_region :
      (position remaining : ℕ)
      → position + remaining ≤ length source.content
      → let chunk = read_at source position (min (1024 * 1024) remaining) in
        chunk ++ take (remaining - length chunk) (drop (position + length chunk) source.content)
        ≡ take remaining (drop position source.content)
  unfolding read_at
  chunk_of_region position remaining fits =
      let c = min (1024 * 1024) remaining in
      let k : length (read_at source position c) ≡ c =
        omega (arith, length-read_at source position c) in
      ap
        (λ n.
          read_at source position c ++ take (remaining - n) (drop (position + n) source.content))
        k
      ∙ ap (λ l. read_at source position c ++ take (remaining - c) l)
          (sym (drop-drop c position source.content))
      ∙ sym (take-split c remaining (drop position source.content) (omega arith))

  module _ (streaming : AreStreaming hashers) where
    absorb_region-take :
        (fuel position remaining : ℕ) (r : Running hashers)
        → remaining ≤ fuel
        → position + remaining ≤ length source.content
        → absorb_region allow_headerless lower hashers fuel source position remaining r
          ≡ ok (absorb hashers r (take remaining (drop position source.content)))
    absorb_region-take fuel position zero r enough fits =
        absorb_region-end fuel position r ∙ ap ok (sym (absorb-nothing hashers streaming r))
    absorb_region-take zero position (suc remaining) r enough fits = absurd (omega arith)
    absorb_region-take (suc fuel) position (suc remaining) r enough fits =
        let left = suc remaining in
        let chunk = read_at source position (min (1024 * 1024) left) in
        let size : length chunk ≡ min (min (1024 * 1024) left) (length source.content - position) =
          length-read_at source position (min (1024 * 1024) left) in
        absorb_region-round fuel position left r (omega arith) (omega (arith, size))
        ∙ absorb_region-take fuel (position + length chunk) (left - length chunk)
            (absorb hashers r chunk) (omega (arith, size, enough)) (omega (arith, size, fits))
        ∙ ap ok (
            absorb-pieces hashers streaming r chunk
              (take (left - length chunk) (drop (position + length chunk) source.content))
            ∙ ap (absorb hashers r) (chunk_of_region position left fits))

  absorb_region-short :
      (fuel position remaining : ℕ) (r : Running hashers)
      → remaining ≤ fuel
      → 0 < remaining
      → length source.content < position + remaining
      → absorb_region allow_headerless lower hashers fuel source position remaining r
        ≡ err unexpected_end
  absorb_region-short zero position remaining r enough some_left short =
      absurd (omega (arith, enough, some_left))
  absorb_region-short (suc fuel) position remaining r enough some_left short =
      let chunk = read_at source position (min (1024 * 1024) remaining) in
      let size : length chunk
          ≡ min (min (1024 * 1024) remaining) (length source.content - position) =
        length-read_at source position (min (1024 * 1024) remaining) in
      elim (Bool-cases (length chunk == 0)) [
        | inl e ↦
            absorb_region-stop fuel position remaining r some_left
              (length-empty chunk ((==_iff (length chunk) 0).0 e))
        | inr e ↦
            let some_read : 0 < length chunk = ground (arith, e) in
            absorb_region-round fuel position remaining r some_left some_read
            ∙ absorb_region-short fuel (position + length chunk) (remaining - length chunk)
                (absorb hashers r chunk) (omega (arith, some_read, enough))
                (omega (arith, size, short, some_left)) (omega (arith, size, short, some_read))
      ]

  -- Where the hash functions take a piece behind another as both at once, `_hash_region` gives the
  -- hashes of exactly the bytes of its range if the file has them all, and otherwise, if the range is
  -- not empty, fails for the end of the file.
  pub hash_region-digests :
      (offset size : ℕ)
      → AreStreaming hashers
      → (offset + size ≤ length source.content
          → hash_region allow_headerless lower hashers source offset size
            ≡ or_invalid allow_headerless lower hashers
                (digests hashers lower (take size (drop offset source.content))))
        × (0 < size
            → length source.content < offset + size
            → hash_region allow_headerless lower hashers source offset size ≡ err unexpected_end)
  unfolding hash_region digests
  hash_region-digests offset size streaming = (
    λ fits.
        rw (absorb_region-take streaming size offset size (begin hashers) (omega arith) fits) refl,
    λ some short.
        rw (absorb_region-short size offset size (begin hashers) (omega arith) some short) refl,
  )
