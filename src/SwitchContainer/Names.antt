-- ===== src/SwitchContainer/Names.antt =====
-- switch_container.py: `_read_name`, with the strict UTF-8 decoding and the hexadecimal digits that
-- Python's `bytes` provides.
use rom_metadata_framework.Prelude.{
  Bool, ℕ, ◌+◌, ◌-◌, ◌*◌, ◌/◌, ◌%◌, ◌≡◌, ◌≢◌, refl, ap, arith, ◌==◌, ltb, leb, ◌&&◌, if◌then◌else◌,
  Option, none, some, [], ◌∷◌, length, drop, Text, is_empty, Bytes,
}
use rom_metadata_framework.Prelude.{
  Result, ok, err, ◌>>=◌, ◌>>◌, raise_if, raise_if-eq-ok, bind-eq-ok,
}
use rom_metadata_framework.SwitchContainer.Types.{
  Error, name_outside_table, name_not_terminated, name_empty, name_not_utf8,
}

-- Between two bytes: how many continuation bytes are missing, the bits so far, and the range of the
-- next byte.
record Pending : Type 0 where
  missing : ℕ
  bits : ℕ
  low : ℕ
  high : ℕ

abbrev idle : Pending
idle = record { missing = 0; bits = 0; low = 0; high = 0 }

abbrev within : ℕ → ℕ → ℕ → Bool
within lo hi b = leb lo b && leb b hi

-- A byte that starts a character: overlong forms, surrogates and values past U+10FFFF are refused.
lead : ℕ → Option Pending
lead b =
    if within 0xc2 0xdf b
    then some (record { missing = 1; bits = b - 0xc0; low = 0x80; high = 0xbf })
    else if b == 0xe0
    then some (record { missing = 2; bits = 0; low = 0xa0; high = 0xbf })
    else if b == 0xed
    then some (record { missing = 2; bits = 13; low = 0x80; high = 0x9f })
    else if within 0xe1 0xef b
    then some (record { missing = 2; bits = b - 0xe0; low = 0x80; high = 0xbf })
    else if b == 0xf0
    then some (record { missing = 3; bits = 0; low = 0x90; high = 0xbf })
    else if within 0xf1 0xf3 b
    then some (record { missing = 3; bits = b - 0xf0; low = 0x80; high = 0xbf })
    else if b == 0xf4
    then some (record { missing = 3; bits = 4; low = 0x80; high = 0x8f })
    else none

-- One byte: the character that it completes, if any, and what is pending behind it.
utf8_step : Pending → ℕ → Option (Option ℕ × Pending)
unfolding lead
utf8_step p b =
    if p.missing == 0
    then (if ltb b 0x80
        then some (some b, idle)
        else elim (lead b) [ none ↦ none | some q ↦ some (none, q) ])
    else if within p.low p.high b
    then (if p.missing == 1
        then some (some (p.bits * 64 + (b - 0x80)), idle)
        else some (
          none,
          record {
            missing = p.missing - 1;
            bits = p.bits * 64 + (b - 0x80);
            low = 0x80;
            high = 0xbf;
          },
        ))
    else none

emit : Option ℕ → Text → Text
emit none s = s
emit (some c) s = c ∷ s

-- What a byte gives in front of the rest, if both are well formed.
attach : Option ℕ → Option Text → Option Text
unfolding emit
attach c none = none
attach c (some s) = some (emit c s)

utf8_next : Option (Option ℕ × Pending) → (Pending → Option Text) → Option Text
utf8_next none go = none
utf8_next (some (c, q)) go = attach c (go q)

utf8_from : Pending → Bytes → Option Text
unfolding utf8_step utf8_next attach
utf8_from p [] = if p.missing == 0 then some [] else none
utf8_from p (b ∷ bs) = utf8_next (utf8_step p b) (λ q. utf8_from q bs)

-- raw.decode("utf-8")
unfoldable pub decode_utf8 : Bytes → Option Text
unfolding utf8_from
decode_utf8 = utf8_from idle

-- bytes.hex()
abbrev hex_digit : ℕ → ℕ
hex_digit n = if ltb n 10 then b'0' + n else b'a' + (n - 10)

unfoldable pub hex : Bytes → Text
hex [] = []
hex (b ∷ bs) = hex_digit (b / 16) ∷ hex_digit (b % 16) ∷ hex bs

-- The bytes before the first NUL: table[offset : table.find(0, offset)], `none` where find gives -1.
unfoldable pub before_nul : Bytes → Option Bytes
before_nul [] = none
before_nul (b ∷ bs) =
    let rest = before_nul bs in
    if b == 0 then some [] else elim rest [ none ↦ none | some raw ↦ some (b ∷ raw) ]

unfoldable pub or_raise {ℓ} : {A : Type ℓ} → Option A → Error → Result Error A
or_raise none e = err e
or_raise (some a) e = ok a

-- _read_name
unfoldable pub read_name : Bytes → ℕ → Result Error Text
unfolding before_nul or_raise decode_utf8
read_name table offset = do
  raise_if (leb (length table) offset) name_outside_table
  raw ← or_raise (before_nul (drop offset table)) name_not_terminated
  raise_if (is_empty raw) name_empty
  or_raise (decode_utf8 raw) name_not_utf8

utf8_step-pending : (p q : Pending) (b : ℕ) → utf8_step p b ≡ some (none, q) → q.missing ≢ 0
unfolding utf8_step
utf8_step-pending p q b h = ground arith

attach-ne-nil :
    (c : Option ℕ) (r : Option Text) (s : Text)
    → (c ≡ none → (t : Text) → r ≡ some t → t ≢ [])
    → attach c r ≡ some s
    → s ≢ []
unfolding attach
attach-ne-nil none none s h e = absurd (cc e)
attach-ne-nil none (some t) s h e = h refl s e
attach-ne-nil (some c) none s h e = absurd (cc e)
attach-ne-nil (some c) (some t) s h e = λ n. cc

next-ne-nil :
    (stepped : Option (Option ℕ × Pending)) (go : Pending → Option Text) (s : Text)
    → ((q : Pending) → stepped ≡ some (none, q) → (t : Text) → go q ≡ some t → t ≢ [])
    → utf8_next stepped go ≡ some s
    → s ≢ []
unfolding utf8_next
next-ne-nil none go s h e = absurd (cc e)
next-ne-nil (some (c, q)) go s h e = attach-ne-nil c (go q) s (λ n. h q (ap (λ d. some (d, q)) n)) e

utf8_from-ne-nil :
    (bs : Bytes) (p : Pending) (s : Text)
    → (p.missing ≡ 0 → bs ≢ [])
    → utf8_from p bs ≡ some s
    → s ≢ []
unfolding utf8_from
utf8_from-ne-nil [] p s some' h = ground (arith, h, some')
utf8_from-ne-nil (b ∷ bs) p s some' h =
    next-ne-nil (utf8_step p b) (λ q. utf8_from q bs) s
      (λ q e t g. utf8_from-ne-nil bs q t (λ z. absurd (utf8_step-pending p q b e z)) g) h

or_raise-eq-ok {ℓ} :
    {A : Type ℓ} (o : Option A) (e : Error) {a : A} → or_raise o e ≡ ok a → o ≡ some a
unfolding or_raise
or_raise-eq-ok none e h = absurd (cc h)
or_raise-eq-ok (some a) e h = cc

-- A name that is read is not empty.
pub read_name-ne-nil :
    (table : Bytes) (offset : ℕ) {name : Text} → read_name table offset ≡ ok name → name ≢ []
unfolding read_name
read_name-ne-nil table offset {name} h =
    let (u, inside, rest) =
      bind-eq-ok (raise_if (leb (length table) offset) name_outside_table) _ h in
    let (raw, found, rest') =
      bind-eq-ok (or_raise (before_nul (drop offset table)) name_not_terminated) _ rest in
    let (v, filled, rest'') = bind-eq-ok (raise_if (is_empty raw) name_empty) _ rest' in
    unfold decode_utf8 in
    utf8_from-ne-nil raw idle name
      (λ _ n. cc (ap is_empty n, raise_if-eq-ok (is_empty raw) name_empty filled))
      (or_raise-eq-ok (decode_utf8 raw) name_not_utf8 rest'')
