-- ===== src/Hashing/Files.antt =====
-- hashing.py: `hash_file` and `GenericHashAdapter`. The format and the adapter of an identity are left
-- out.
use rom_metadata_framework.Prelude.{
  ℕ, zero, suc, ℤ, pos, ◌+◌, ◌*◌, not, if◌then◌else◌, some, Text, is_empty, length,
}
use rom_metadata_framework.Prelude.{Result, ok, err, ◌>>=◌, ◌>>◌, raise_if}
use rom_metadata_framework.Source.{Source, read_at}
use rom_metadata_framework.Identification.Types
use rom_metadata_framework.Identification.Types.{HashSet, RomIdentity}
use rom_metadata_framework.Hashing.Digests.{Hashers, Running, begin, absorb, finish}

-- The exceptions, and that of `HashSet`.
pub data Error : Type 0 where
  chunk_size_not_positive file_not_found hash_invalid : Error

unfoldable pub or_invalid : Result Types.Error HashSet → Result Error HashSet
or_invalid (ok h) = ok h
or_invalid (err e) = err hash_invalid

abbrev pub default_chunk_size : ℤ
default_chunk_size = pos (1024 * 1024)

module _ (hashers : Hashers) where
  -- The loop from one position of the file on.
  unfoldable pub absorb_from : ℕ → Source → ℕ → ℕ → Running hashers → Running hashers
  unfolding absorb read_at
  absorb_from zero source position size state = state
  absorb_from (suc fuel) source position size state =
      let chunk = read_at source position size in
      let rest =
        absorb_from fuel source (position + length chunk) size (absorb hashers state chunk) in
      if is_empty chunk then state else rest

  module _ (lower : Text → Text) where
    unfoldable pub hash_stream : ℤ → Source → Result Error HashSet
    unfolding absorb_from or_invalid begin finish
    hash_stream (pos (suc n)) source = or_invalid (
        finish hashers lower
          (absorb_from (length source.content + 1) source 0 (suc n) (begin hashers)))
    hash_stream _ source = err chunk_size_not_positive

    unfoldable pub hash_file : ℤ → Source → Result Error HashSet
    unfolding hash_stream
    hash_file (pos (suc n)) source =
        raise_if (not source.regular) file_not_found >> hash_stream (pos (suc n)) source
    hash_file _ source = err chunk_size_not_positive

    -- GenericHashAdapter.identify
    unfoldable pub identify : Text → Source → Result Error RomIdentity
    unfolding hash_file
    identify name source = hash_file default_chunk_size source >>= λ hashes.
        ok (record { file_name = some name; file_size = some source.st_size; hashes = hashes })
