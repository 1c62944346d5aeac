-- ===== src/Hashing/Tests.antt =====
-- A file of five bytes, and the theorem at it.
use rom_metadata_framework.Prelude.{true, ℕ, suc, pos, negsuc, ◌≡◌, refl, [], ◌∷◌, if◌then◌else◌}
use rom_metadata_framework.Prelude.{err}
use rom_metadata_framework.Source.{Source}
use rom_metadata_framework.Hashing.Digests.{digests}
use rom_metadata_framework.Hashing.Files.{
  or_invalid, hash_file, file_not_found, chunk_size_not_positive,
}
use rom_metadata_framework.Hashing.Streaming.{hash_file-digests}
use rom_metadata_framework.Hashing.Samples.{same, hashers, streaming}

abbrev five_bytes : Source
five_bytes = record { regular = true; st_size = 5; content = 1 ∷ 2 ∷ 3 ∷ 4 ∷ 5 ∷ [] }

by_twos :
    hash_file hashers same (pos 2) five_bytes ≡ or_invalid (digests hashers same five_bytes.content)
unfolding hash_file digests
by_twos = refl

hash_file-digests_example :
    ((n : ℕ)
      → hash_file hashers same (pos (suc n)) five_bytes ≡ (
          if five_bytes.regular
          then or_invalid (digests hashers same five_bytes.content)
          else err file_not_found))
    × (hash_file hashers same (pos 0) five_bytes ≡ err chunk_size_not_positive)
    × ((n : ℕ) → hash_file hashers same (negsuc n) five_bytes ≡ err chunk_size_not_positive)
hash_file-digests_example = hash_file-digests hashers same five_bytes streaming
