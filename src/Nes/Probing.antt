-- ===== src/Nes/Probing.antt =====
-- nes.py: what `probe` promises of `identify`.
use rom_metadata_framework.Prelude.{
  Bool, true, false, ℕ, ◌+◌, ◌==◌, ltb, not, ◌≡◌, refl, sym, inl, inr, ◌⊎◌, Bool-cases, List, [],
  ◌∷◌, map, Text, codes, length, take, drop, length-drop, Bytes, arith, ==_iff, bind-eq-ok,
  raise_if-eq-ok,
}
use rom_metadata_framework.Prelude.{ok, ◌>>=◌, raise_if}
use rom_metadata_framework.Source.{Source, read_at}
use rom_metadata_framework.Detection.Candidates.{PlatformCandidate}
use rom_metadata_framework.Routing.Normalizers.{supported, is_supported}
use rom_metadata_framework.Identification.Types
use rom_metadata_framework.Hashing.Digests.{Hashers, AreStreaming, digests}
use rom_metadata_framework.Hashing.Streaming.{take-all}
use rom_metadata_framework.Nes.Header.{Fields, fields}
use rom_metadata_framework.Nes.Adapter.{
  NesContentIdentity, has_magic, expected_size, headerless_identity, headered_identity,
  probe_fields, probe_header, probe_details, probe, or_invalid, identify_headerless,
  identify_headered, identify, detect,
}
use rom_metadata_framework.Nes.Regions.{hash_region-digests}

abbrev pub header_of : Source → Bytes
header_of source = read_at source 0 16

-- What the header and the size say of an image that can be normalized.
pub record IsComplete (source : Source) : Type 0 where
  pub magic : has_magic (header_of source) ≡ true
  pub full : length (header_of source) ≡ 16
  pub no_trainer : (fields (header_of source)).has_trainer ≡ false
  pub whole : source.st_size ≡ expected_size (fields (header_of source))

module _ (allow_headerless : Bool) (lower : Text → Text) (name : Text) (source : Source) where
  probe_fields-facts :
      (f : Fields) (size : ℕ)
      → (elim (probe_fields f size).0 [ supported ↦ true | _ ↦ false ]) ≡ true
      → (f.has_trainer ≡ false) × (size ≡ expected_size f)
  unfolding probe_fields
  probe_fields-facts f size h = ground (arith, h)

  probe-facts :
      is_supported (probe allow_headerless lower name source) ≡ true
      → (source.regular ≡ true)
        × (((has_magic (header_of source) ≡ false) × (allow_headerless ≡ true)) ⊎ IsComplete source)
  unfolding probe probe_details probe_header is_supported
  probe-facts h = elim (Bool-cases source.regular) [
    | inr e ↦ absurd (ground (arith, h, e))
    | inl e ↦ (
      e,
      elim (Bool-cases (has_magic (header_of source))) [
        | inr unmarked ↦ inl (unmarked, ground (arith, h, e, unmarked))
        | inl marked ↦
            let full : (length (header_of source) == 16) ≡ true = ground (arith, h, e, marked) in
            let facts =
              probe_fields-facts (fields (header_of source)) source.st_size
                (ground (arith, h, e, marked, full)) in
            inr (record {
              magic = marked;
              full = (==_iff (length (header_of source)) 16).0 full;
              no_trainer = facts.0;
              whole = facts.1;
            })
      ],
    )
  ]

-- The candidate of an image with a header, and no other.
abbrev pub IsDetected : Source → Type 0
IsDetected source =
    map (λ (c : PlatformCandidate (List (Text × Text))). c.platform) (detect source)
    ≡ codes "nes" ∷ []

module _ (allow_headerless : Bool) (lower : Text → Text) (hashers : Hashers) (source : Source) where
  -- `identify` gives the identity that belongs to the hashes of exactly these bytes, or refuses them
  -- as `HashSet` does.
  abbrev pub HashesOnly : Bytes → (Types.HashSet → NesContentIdentity) → Type 0
  HashesOnly body identity = identify allow_headerless lower hashers source ≡ (
      or_invalid allow_headerless lower hashers (digests hashers lower body) >>= λ hashes.
      ok (identity hashes))

  headered-HashesOnly :
      source.regular ≡ true
      → source.st_size ≡ length source.content
      → AreStreaming hashers
      → IsComplete source
      → HashesOnly (drop 16 source.content) (headered_identity (header_of source))
  unfolding identify identify_headered expected_size
  headered-HashesOnly regular steady streaming c =
      let f = fields (header_of source) in
      let size = f.prg_size + f.chr_size in
      let ends : 16 + f.prg_size + f.chr_size ≡ source.st_size = sym c.whole in
      let full : (length (header_of source) == 16) ≡ true =
        (==_iff (length (header_of source)) 16).1 c.full in
      let not_short : ltb source.st_size (16 + f.prg_size + f.chr_size) ≡ false =
        ground (arith, ends) in
      let not_long : ltb (16 + f.prg_size + f.chr_size) source.st_size ≡ false =
        ground (arith, ends) in
      let hashed =
        (hash_region-digests allow_headerless lower hashers source 16 size streaming).0
          (omega (arith, ends, steady)) in
      let all : take size (drop 16 source.content) ≡ drop 16 source.content =
        take-all size (drop 16 source.content)
          (omega (arith, length-drop 16 source.content, ends, steady)) in
      rw (c.magic, full, c.no_trainer, not_short, not_long, hashed, all, regular) refl

  headerless-HashesOnly :
      source.regular ≡ true
      → source.st_size ≡ length source.content
      → AreStreaming hashers
      → has_magic (header_of source) ≡ false
      → allow_headerless ≡ true
      → HashesOnly source.content headerless_identity
  unfolding identify identify_headerless
  headerless-HashesOnly regular steady streaming unmarked allowed =
      let hashed =
        (hash_region-digests allow_headerless lower hashers source 0 source.st_size streaming).0
          (omega (arith, steady)) in
      let all : take source.st_size source.content ≡ source.content =
        take-all source.st_size source.content (omega (arith, steady)) in
      let not_refused : not allow_headerless ≡ false = ground (arith, allowed) in
      rw (unmarked, hashed, all, not_refused, regular) refl

  IsComplete-IsDetected : source.regular ≡ true → IsComplete source → IsDetected source
  unfolding detect
  IsComplete-IsDetected regular c =
      let full : ltb (length (header_of source)) 16 ≡ false = ground (arith, c.full) in
      rw (full, c.magic, regular) refl

  identify_headered-IsComplete :
      {i : NesContentIdentity}
      → has_magic (header_of source) ≡ true
      → identify_headered allow_headerless lower hashers source (header_of source) ≡ ok i
      → IsComplete source
  unfolding identify_headered
  identify_headered-IsComplete magic h =
      let f = fields (header_of source) in
      let (u1, full, h1) = bind-eq-ok (raise_if (not (length (header_of source) == 16)) _) _ h in
      let (u2, no_trainer, h2) = bind-eq-ok (raise_if f.has_trainer _) _ h1 in
      let (u3, not_short, h3) =
        bind-eq-ok (raise_if (ltb source.st_size (expected_size f)) _) _ h2 in
      let (u4, not_long, h4) =
        bind-eq-ok (raise_if (ltb (expected_size f) source.st_size) _) _ h3 in
      record {
        magic = magic;
        full = ground (arith, raise_if-eq-ok _ _ full);
        no_trainer = raise_if-eq-ok _ _ no_trainer;
        whole = ground (arith, raise_if-eq-ok _ _ not_short, raise_if-eq-ok _ _ not_long);
      }

  identify-IsComplete :
      {i : NesContentIdentity}
      → has_magic (header_of source) ≡ true
      → identify allow_headerless lower hashers source ≡ ok i
      → (source.regular ≡ true) × IsComplete source
  unfolding identify
  identify-IsComplete {i} magic h =
      let (u, regular, h1) = bind-eq-ok (raise_if (not source.regular) _) _ h in
      let h2 : identify_headered allow_headerless lower hashers source (header_of source) ≡ ok i =
        ground (arith, h1, magic) in
      (ground (arith, raise_if-eq-ok _ _ regular), identify_headered-IsComplete magic h2)

  module _ (name : Text) where
    IsComplete-supported :
        source.regular ≡ true
        → IsComplete source
        → is_supported (probe allow_headerless lower name source) ≡ true
    unfolding probe probe_details probe_header probe_fields is_supported
    IsComplete-supported regular c =
        let full : (length (header_of source) == 16) ≡ true =
          (==_iff (length (header_of source)) 16).1 c.full in
        let not_short : ltb source.st_size (expected_size (fields (header_of source))) ≡ false =
          ground (arith, c.whole) in
        let not_long : ltb (expected_size (fields (header_of source))) source.st_size ≡ false =
          ground (arith, c.whole) in
        rw (c.magic, full, not_short, not_long, c.no_trainer, regular) refl

    -- Of a file that does not change meanwhile, and hash functions that take a piece behind another as
    -- both at once: if `probe` calls it supported, `identify` gives the hashes of everything behind a
    -- header that is complete, has no trainer and accounts for the size of the file, and the detector
    -- finds the platform; or it gives those of the whole file, which has no header, where that is
    -- allowed. And if `identify` returns for a file with the header's magic, `probe` calls it supported.
    pub probe-identify :
        source.st_size ≡ length source.content
        → AreStreaming hashers
        → (is_supported (probe allow_headerless lower name source) ≡ true
            → (IsComplete source
                × IsDetected source
                × HashesOnly (drop 16 source.content) (headered_identity (header_of source)))
              ⊎ ((has_magic (header_of source) ≡ false)
                  × (allow_headerless ≡ true)
                  × HashesOnly source.content headerless_identity))
          × ((i : NesContentIdentity)
              → identify allow_headerless lower hashers source ≡ ok i
              → has_magic (header_of source) ≡ true
              → is_supported (probe allow_headerless lower name source) ≡ true)
    probe-identify steady streaming = (
      λ h.
          let (regular, form) = probe-facts allow_headerless lower name source h in
          elim form [
            | inl (unmarked, allowed) ↦
                inr (
                  unmarked,
                  allowed,
                  headerless-HashesOnly regular steady streaming unmarked allowed,
                )
            | inr c ↦
                inl (
                  c,
                  IsComplete-IsDetected regular c,
                  headered-HashesOnly regular steady streaming c,
                )
          ],
      λ i h magic. let (regular, c) = identify-IsComplete magic h in IsComplete-supported regular c,
    )
