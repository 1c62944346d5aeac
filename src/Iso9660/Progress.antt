-- ===== src/Iso9660/Progress.antt =====
-- iso9660.py: the loop of `read_directory` moves forward in every round, so it ends.
use rom_metadata_framework.Prelude.{
  ℕ, zero, suc, ◌+◌, ◌≤◌, ◌<◌, ◌≡◌, ◌≢◌, refl, false, not, Bool-cases, inl, inr, Option, length,
  Bytes, slice, byte_at, arith, ltb, leb, ltb→lt,
}
use rom_metadata_framework.Prelude.{Result, ok, err, ◌>>=◌, raise_if}
use rom_metadata_framework.Iso9660.Types.{
  Error, not_a_directory, invalid_size, exceeds_limit, no_forward_progress, out_of_fuel,
  DirectoryEntry,
}
use rom_metadata_framework.Iso9660.Records.{
  parse_record, parse_directory_entry, read_both_endian_u32,
}
use rom_metadata_framework.Iso9660.Reader.{Reader, entries_from, read_extent, read_directory}

-- A record or a jump to the next sector ends behind its start and inside the data.
pub parse_directory_entry-forward :
    (data' : Bytes) (offset : ℕ) (child : Option DirectoryEntry) (next : ℕ)
    → offset < length data'
    → parse_directory_entry data' offset ≡ ok (child, next)
    → (offset < next) × (next ≤ length data')
unfolding parse_directory_entry
parse_directory_entry-forward data' offset child next inside h = ground arith

-- Neither error is one of the two that the loop itself could raise.
abbrev OtherError {ℓ} : {A : Type ℓ} → Result Error A → Type 0
OtherError (ok a) = Unit
OtherError (err e) = (e ≢ no_forward_progress) × (e ≢ out_of_fuel)

parse_record-OtherError : (record' : Bytes) → OtherError (parse_record record')
unfolding parse_record read_both_endian_u32
parse_record-OtherError record' = ground arith

parse_directory_entry-OtherError :
    (data' : Bytes) (offset : ℕ) → OtherError (parse_directory_entry data' offset)
unfolding parse_directory_entry
parse_directory_entry-OtherError data' offset =
    ground (arith, parse_record-OtherError (slice data' offset (offset + byte_at data' offset)))

bind-OtherError {ℓ κ} :
    {A : Type ℓ} {B : Type κ} (r : Result Error A) (k : A → Result Error B)
    → OtherError r
    → ((a : A) → r ≡ ok a → OtherError (k a))
    → OtherError (r >>= k)
bind-OtherError (ok a) k h g = g a refl
bind-OtherError (err e) k h g = h

entries_from-OtherError :
    (data' : Bytes) (fuel offset : ℕ)
    → length data' ≤ offset + fuel
    → OtherError (entries_from data' fuel offset)
unfolding entries_from
entries_from-OtherError data' zero offset room = ground arith
entries_from-OtherError data' (suc fuel) offset room =
    elim (Bool-cases (ltb offset (length data'))) [
      | inl more ↦
          rw (more, entries_from)
            (bind-OtherError (parse_directory_entry data' offset) _
              (parse_directory_entry-OtherError data' offset)
              λ parsed e.
                let (forward, inside) =
                  parse_directory_entry-forward data' offset parsed.0 parsed.1 (ltb→lt _ _ more)
                    e in
                let ahead : leb parsed.1 offset ≡ false = ground arith in
                rw (ahead, entries_from)
                  (bind-OtherError (entries_from data' fuel parsed.1) _
                    (entries_from-OtherError data' fuel parsed.1 (omega arith)) (λ rest _. tt)))
      | inr done ↦ rw (done, entries_from) tt
    ]

read_extent-OtherError :
    (reader : Reader) (extent size : ℕ) → OtherError (read_extent reader extent size)
unfolding read_extent
read_extent-OtherError reader extent size = ground arith

OtherError-ne {ℓ} :
    {A : Type ℓ} (r : Result Error A)
    → OtherError r
    → (r ≢ err no_forward_progress) × (r ≢ err out_of_fuel)
OtherError-ne (ok a) h = (λ p. cc, λ p. cc)
OtherError-ne (err e) h = (λ p. ground arith, λ p. ground arith)

-- The test "made no forward progress" of `read_directory` never fires, and the loop ends within as
-- many rounds as the directory has bytes: the result is the entries, or another error.
pub read_directory-terminates :
    (reader : Reader) (entry : DirectoryEntry)
    → (read_directory reader entry ≢ err no_forward_progress)
      × (read_directory reader entry ≢ err out_of_fuel)
unfolding read_directory
read_directory-terminates reader entry = OtherError-ne (read_directory reader entry) (
    bind-OtherError (raise_if (not entry.directory) not_a_directory) _ (ground arith) λ _ _.
      bind-OtherError (raise_if (leb entry.size 0) invalid_size) _ (ground arith) λ _ _.
        bind-OtherError (raise_if (ltb reader.max_directory_size entry.size) exceeds_limit) _
          (ground arith)
          λ _ _.
            bind-OtherError (read_extent reader entry.extent entry.size) _
              (read_extent-OtherError reader entry.extent entry.size)
              λ data' _. entries_from-OtherError data' (length data') 0 (omega arith))
