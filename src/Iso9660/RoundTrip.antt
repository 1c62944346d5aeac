-- ===== src/Iso9660/RoundTrip.antt =====
-- iso9660.py: a directory record in the layout of the standard is read back as its entry.
use mathlib.Core.List.{map-append}
use rom_metadata_framework.Prelude.{
  ℕ, ◌+◌, ◌-◌, ◌*◌, ◌/◌, ◌%◌, ◌^◌, ◌≤◌, ◌<◌, ◌==◌, ◌≡◌, ◌≢◌, ◌∙◌, refl, ap, Bool, false, some, List,
  [], ◌∷◌, ◌++◌, map, length, length-append, take, drop, All, Text, =t=_iff, strip_right, cons_kept,
  Bytes, slice, byte_at, not, bit_and, arith, ltb, leb, ◌||◌,
}
use rom_metadata_framework.Prelude.{ok}
use rom_metadata_framework.Iso9660.Types.{DirectoryEntry}
use rom_metadata_framework.Iso9660.Records.{
  replace_byte, decode_ascii_field, read_both_endian_u32, before_semicolon, entry_name,
  parse_record, parse_directory_entry,
}

-- The four bytes of a number, the last one first for the big end.
abbrev pub byte_of : ℕ → ℕ → ℕ
byte_of k n = n / 256 ^ k % 256

-- A directory record with this identifier, extent, size and flags. The date, the unit sizes and
-- the volume number are zero.
abbrev pub encode_record : Bytes → ℕ → ℕ → ℕ → Bytes
encode_record raw extent size flags =
    (33 + length raw)
    ∷ 0
    ∷ byte_of 0 extent
    ∷ byte_of 1 extent
    ∷ byte_of 2 extent
    ∷ byte_of 3 extent
    ∷ byte_of 3 extent
    ∷ byte_of 2 extent
    ∷ byte_of 1 extent
    ∷ byte_of 0 extent
    ∷ byte_of 0 size
    ∷ byte_of 1 size
    ∷ byte_of 2 size
    ∷ byte_of 3 size
    ∷ byte_of 3 size
    ∷ byte_of 2 size
    ∷ byte_of 1 size
    ∷ byte_of 0 size
    ∷ 0
    ∷ 0
    ∷ 0
    ∷ 0
    ∷ 0
    ∷ 0
    ∷ 0
    ∷ flags
    ∷ 0
    ∷ 0
    ∷ 0
    ∷ 0
    ∷ 0
    ∷ 0
    ∷ length raw
    ∷ raw

four_bytes :
    (n : ℕ)
    → n < 2 ^ 32
    → byte_of 0 n + 256 * (byte_of 1 n + 256 * (byte_of 2 n + 256 * (byte_of 3 n + 256 * 0))) ≡ n
four_bytes n h = omega arith

four_bytes_big :
    (n : ℕ)
    → n < 2 ^ 32
    → (((0 * 256 + byte_of 3 n) * 256 + byte_of 2 n) * 256 + byte_of 1 n) * 256 + byte_of 0 n ≡ n
four_bytes_big n h = omega arith

module _ (raw : Bytes) (extent size flags : ℕ) where
  extent-encode :
      extent < 2 ^ 32 → read_both_endian_u32 (encode_record raw extent size flags) 2 ≡ ok extent
  unfolding read_both_endian_u32
  extent-encode h = rw (four_bytes extent h, four_bytes_big extent h) (ground arith)

  size-encode :
      size < 2 ^ 32 → read_both_endian_u32 (encode_record raw extent size flags) 10 ≡ ok size
  unfolding read_both_endian_u32
  size-encode h = ground (arith, four_bytes size h, four_bytes_big size h)

take-append {ℓ} : {A : Type ℓ} (xs ys : List A) → take (length xs) (xs ++ ys) ≡ xs
take-append [] ys = refl
take-append (x ∷ xs) ys = ap (◌∷◌ x) (take-append xs ys)

drop-append {ℓ} : {A : Type ℓ} (xs ys : List A) → drop (length xs) (xs ++ ys) ≡ ys
drop-append [] ys = refl
drop-append (x ∷ xs) ys = drop-append xs ys

take-length {ℓ} : {A : Type ℓ} (xs : List A) → take (length xs) xs ≡ xs
take-length [] = refl
take-length (x ∷ xs) = ap (◌∷◌ x) (take-length xs)

-- The data between what stands before it and what stands behind it.
slice-append :
    (before xs after : Bytes)
    → slice (before ++ (xs ++ after)) (length before) (length before + length xs) ≡ xs
unfolding slice
slice-append before xs after =
    let n : length before + length xs - length before ≡ length xs = omega arith in
    rw (n, drop-append before (xs ++ after)) (take-append xs after)

byte_at-append :
    (before : Bytes) (x : ℕ) (after : Bytes) → byte_at (before ++ (x ∷ after)) (length before) ≡ x
unfolding byte_at
byte_at-append [] x after = refl
byte_at-append (b ∷ before) x after = byte_at-append before x after

-- Identifiers: characters from the space up, no semicolon; a version may follow behind one.
abbrev pub IsPlain : Text → Type 0
IsPlain = All (λ c. (32 ≤ c) × (c < 128) × (c ≢ b';'))

map-replace_byte : (name : Text) → IsPlain name → map replace_byte name ≡ name
map-replace_byte [] h = refl
map-replace_byte (c ∷ name) (h, t) = cc (map-replace_byte name t, plain c h.1)
  where
    plain : (c : ℕ) → c < 128 → replace_byte c ≡ c
    plain c h = ground arith

before_semicolon-append :
    (name rest : Text) → IsPlain name → before_semicolon (name ++ (b';' ∷ rest)) ≡ name
unfolding before_semicolon
before_semicolon-append [] rest h = refl
before_semicolon-append (c ∷ name) rest (h, t) =
    ground (arith, before_semicolon-append name rest t, h.2)

-- Stripping the right end keeps all up to a character that stays.
strip_right-append :
    (p : ℕ → Bool) (name : Text) (c : ℕ) (rest : Text)
    → p c ≡ false
    → strip_right p (name ++ (c ∷ rest)) ≡ name ++ (c ∷ strip_right p rest)
unfolding strip_right cons_kept
strip_right-append p [] c rest h = kept (strip_right p rest) h
  where
    kept : (s : Text) → p c ≡ false → cons_kept (p c) c s ≡ c ∷ s
    kept [] h = rw h
    kept (d ∷ s) h = refl
strip_right-append p (d ∷ name) c rest h = rw (strip_right-append p name c rest h) (kept name)
  where
    kept :
        (s : Text)
        → cons_kept (p d) d (s ++ (c ∷ strip_right p rest)) ≡ d ∷ (s ++ (c ∷ strip_right p rest))
    kept [] = refl
    kept (e ∷ s) = refl

abbrev blank : ℕ → Bool
blank c = c == b' ' || c == 0

decode-version :
    (name version : Text)
    → IsPlain name
    → decode_ascii_field (name ++ (b';' ∷ version))
      ≡ name ++ (b';' ∷ strip_right blank (map replace_byte version))
unfolding decode_ascii_field
decode-version name version h =
    rw (map-append replace_byte name (b';' ∷ version), map-replace_byte name h)
      (strip_right-append blank name b';' (map replace_byte version) refl)

entry_name-other :
    (raw : Bytes)
    → raw ≢ 0 ∷ []
    → raw ≢ 1 ∷ []
    → entry_name raw ≡ before_semicolon (decode_ascii_field raw)
unfolding entry_name
entry_name-other raw h0 h1 = ground (arith, =t=_iff raw (0 ∷ []), =t=_iff raw (1 ∷ []))

entry_name-version :
    (name version : Text) → IsPlain name → name ≢ [] → entry_name (name ++ (b';' ∷ version)) ≡ name
entry_name-version [] version h ne = absurd (ne refl)
entry_name-version (c ∷ name) version h ne =
    entry_name-other (c ∷ (name ++ (b';' ∷ version))) (other 0) (other 1)
    ∙ ap before_semicolon (decode-version (c ∷ name) version h)
    ∙ before_semicolon-append (c ∷ name) _ h
  where
    other : (k : ℕ) → c ∷ (name ++ (b';' ∷ version)) ≢ k ∷ []
    other k e = long name (cc e)
      where
        long : (s : Text) → s ++ (b';' ∷ version) ≢ []
        long [] e = cc e
        long (d ∷ s) e = cc e

module _ (raw : Bytes) (extent size flags : ℕ) where
  abbrev encoded : Bytes
  encoded = encode_record raw extent size flags

  identifier-encode : slice encoded 33 (33 + length raw) ≡ raw
  unfolding slice
  identifier-encode =
      let n : 33 + length raw - 33 ≡ length raw = omega arith in rw n (take-length raw)

  parse_record-encode :
      extent < 2 ^ 32
      → size < 2 ^ 32
      → 0 < length raw
      → parse_record encoded
        ≡ ok (record {
          name = entry_name raw;
          extent = extent;
          size = size;
          directory = not (bit_and flags 2 == 0);
        })
  unfolding parse_record
  parse_record-encode he hs hr =
      let long : ltb (length encoded) 34 ≡ false = ground arith in
      let whole : ltb (length encoded) (33 + length raw) ≡ false = ground arith in
      rw (
        long,
        whole,
        extent-encode raw extent size flags he,
        size-encode raw extent size flags hs,
        identifier-encode,
      )

-- A file as it is stored: its name and version, and where its data is.
pub record Item : Type 0 where
  pub name : Text
  pub version : Text
  pub extent : ℕ
  pub size : ℕ
  pub flags : ℕ

abbrev pub identifier : Item → Bytes
identifier item = item.name ++ (b';' ∷ item.version)

abbrev pub encode_item : Item → Bytes
encode_item item = encode_record (identifier item) item.extent item.size item.flags

abbrev pub entry_of : Item → DirectoryEntry
entry_of item = record {
  name = item.name;
  extent = item.extent;
  size = item.size;
  directory = not (bit_and item.flags 2 == 0);
}

-- The fields fit their places in the record.
pub record IsStorable (item : Item) : Type 0 where
  pub plain : IsPlain item.name
  pub named : item.name ≢ []
  pub extent_fits : item.extent < 2 ^ 32
  pub size_fits : item.size < 2 ^ 32
  pub identifier_fits : 33 + length (identifier item) < 256

parse_record-item :
    (item : Item) → IsStorable item → parse_record (encode_item item) ≡ ok (entry_of item)
parse_record-item item s =
    parse_record-encode (identifier item) item.extent item.size item.flags s.extent_fits s.size_fits
      (omega (arith, length-append item.name (b';' ∷ item.version)))
    ∙ ap (λ n. ok (record (entry_of item) { name = n }))
        (entry_name-version item.name item.version s.plain s.named)

-- A record between other data, whose first byte is its length.
parse_directory_entry-at :
    (before xs after : Bytes) (entry : DirectoryEntry)
    → byte_at (before ++ (xs ++ after)) (length before) ≡ length xs
    → 0 < length xs
    → parse_record xs ≡ ok entry
    → parse_directory_entry (before ++ (xs ++ after)) (length before)
      ≡ ok (some entry, length before + length xs)
unfolding parse_directory_entry
parse_directory_entry-at before xs after entry first positive parsed =
    let data' = before ++ (xs ++ after) in
    let total : length data' ≡ length before + (length xs + length after) =
      length-append before (xs ++ after) ∙ ap (λ n. length before + n) (length-append xs after) in
    let inside : leb (length data') (length before) ≡ false = ground (arith, total) in
    let nonzero : (length xs == 0) ≡ false = ground arith in
    let fits : ltb (length data') (length before + length xs) ≡ false = ground (arith, total) in
    rw (inside, first, nonzero, fits, slice-append before xs after, parsed)

-- One record, wherever it stands in a directory: the reader finds its entry and the offset behind.
pub parse_directory_entry-encode :
    (before after : Bytes) (item : Item)
    → IsStorable item
    → parse_directory_entry (before ++ (encode_item item ++ after)) (length before)
      ≡ ok (some (entry_of item), length before + length (encode_item item))
parse_directory_entry-encode before after item s =
    parse_directory_entry-at before (encode_item item) after (entry_of item)
      (byte_at-append before (33 + length (identifier item)) _ ∙ omega arith) (omega arith)
      (parse_record-item item s)
