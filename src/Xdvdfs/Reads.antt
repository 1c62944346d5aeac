-- ===== src/Xdvdfs/Reads.antt =====
-- xdvdfs.py: what `read_file` and `read_file_range` return.
use rom_metadata_framework.Prelude.{
  ℕ, ◌+◌, ◌*◌, ◌≤◌, ◌<◌, ◌≡◌, ◌∙◌, ap, false, Option, none, some, length, Text, Bytes, slice, arith,
  ltb, pos,
}
use rom_metadata_framework.Prelude.{
  ok, raise_if, raise_if-eq-ok, bind-eq-ok, ltb_false→le, le→ltb_false,
}
use rom_metadata_framework.Source.{read_at, length-read_at, slice-read_at}
use rom_metadata_framework.Xdvdfs.Types.{exceeds_limit, sector_size, DirectoryEntry, directory}
use rom_metadata_framework.Xdvdfs.Reader.{Reader}
use rom_metadata_framework.Xdvdfs.Files.{
  regular_file, read_whole, read_range, find, read_file, read_file_range,
}

-- Where the entry's data starts in the source.
abbrev pub start : Reader → DirectoryEntry → ℕ
start reader entry = reader.volume.partition_offset + entry.sector * sector_size

-- The bytes are all of the entry's data, inside the source and within the limit.
pub record IsWholeFile (reader : Reader) (max_size : ℕ) (entry : DirectoryEntry) (data' : Bytes)
    : Type 0 where
  pub regular : directory entry ≡ false
  pub positive : 0 < entry.size
  pub bounded : entry.size ≤ max_size
  pub within : start reader entry + entry.size ≤ reader.file_size
  pub complete : length data' ≡ entry.size
  pub stored : data' ≡ read_at reader.source (start reader entry) entry.size

-- The bytes are a range of the entry's data.
pub record IsFileRange (reader : Reader) (max_size offset size : ℕ) (entry : DirectoryEntry)
    (data' : Bytes) : Type 0 where
  pub regular : directory entry ≡ false
  pub inside : offset + size ≤ entry.size
  pub bounded : size ≤ max_size
  pub within : start reader entry + entry.size ≤ reader.file_size
  pub complete : length data' ≡ size
  pub stored : data' ≡ read_at reader.source (start reader entry + offset) size

regular_file-eq-ok :
    (found : Option DirectoryEntry) {entry : DirectoryEntry}
    → regular_file found ≡ ok entry
    → (found ≡ some entry) × (directory entry ≡ false)
unfolding regular_file
regular_file-eq-ok none h = cc
regular_file-eq-ok (some e) h = ground arith

read_whole-IsWholeFile :
    (reader : Reader) (max_size : ℕ) (entry : DirectoryEntry) {data' : Bytes}
    → directory entry ≡ false
    → read_whole reader max_size entry ≡ ok data'
    → IsWholeFile reader max_size entry data'
unfolding read_whole
read_whole-IsWholeFile reader max_size entry r h = ground arith

read_range-IsFileRange :
    (reader : Reader) (offset size max_size : ℕ) (entry : DirectoryEntry) {data' : Bytes}
    → directory entry ≡ false
    → size ≤ max_size
    → read_range reader offset size entry ≡ ok data'
    → IsFileRange reader max_size offset size entry data'
unfolding read_range
read_range-IsFileRange reader offset size max_size entry r b h = ground arith

module _ (casefold : Text → Text) (depth : ℕ) (reader : Reader) (path : Text) where
  -- A file that `read_file` returns is the data of the entry that `find` gave: a regular file of
  -- positive size within the limit, inside the source, and every byte of it was read.
  pub read_file-IsWholeFile :
      (max_size : ℕ) {data' : Bytes}
      → read_file casefold depth reader path max_size ≡ ok data'
      → (entry : DirectoryEntry) × (find casefold depth reader path ≡ ok (some entry))
        × IsWholeFile reader max_size entry data'
  unfolding read_file
  read_file-IsWholeFile max_size h =
      let (found, f, rest) = bind-eq-ok (find casefold depth reader path) _ h in
      let (entry, g, whole) = bind-eq-ok (regular_file found) _ rest in
      let (e, r) = regular_file-eq-ok found g in
      (entry, f ∙ ap ok e, read_whole-IsWholeFile reader max_size entry r whole)

  -- A range that `read_file_range` returns lies in the entry that `find` gave, has the size that
  -- was asked for, at most the limit, and is the part of the source at the entry's start plus the
  -- offset.
  pub read_file_range-IsFileRange :
      (offset size max_size : ℕ) {data' : Bytes}
      → read_file_range casefold depth reader path (pos offset) (pos size) max_size ≡ ok data'
      → (entry : DirectoryEntry) × (find casefold depth reader path ≡ ok (some entry))
        × IsFileRange reader max_size offset size entry data'
  unfolding read_file_range
  read_file_range-IsFileRange offset size max_size h =
      let (u, small, rest) = bind-eq-ok (raise_if (ltb max_size size) exceeds_limit) _ h in
      let (found, f, rest') = bind-eq-ok (find casefold depth reader path) _ rest in
      let (entry, g, range) = bind-eq-ok (regular_file found) _ rest' in
      let (e, r) = regular_file-eq-ok found g in
      (
        entry,
        f ∙ ap ok e,
        read_range-IsFileRange reader offset size max_size entry r
            (ltb_false→le _ _ (raise_if-eq-ok _ exceeds_limit small)) range,
      )

-- The range of a file of which the whole could be read.
read_range-slice :
    (reader : Reader) (max_size offset size : ℕ) (entry : DirectoryEntry) {data' : Bytes}
    → IsWholeFile reader max_size entry data'
    → offset + size ≤ length data'
    → read_range reader offset size entry ≡ ok (slice data' offset (offset + size))
unfolding read_range
read_range-slice reader max_size offset size entry w h =
    rw
      (
        w.stored,
        slice-read_at reader.source (start reader entry) entry.size offset size
            (omega (arith, w.complete)),
      )
      (ground (
        arith,
        length-read_at reader.source (start reader entry) entry.size,
        length-read_at reader.source (start reader entry + offset) size,
        ap (λ (b : Bytes). length b) w.stored,
      ))

module _ (casefold : Text → Text) (depth : ℕ) (reader : Reader) (path : Text) where
  -- Where `read_file` returns the data of a file, `read_file_range` returns every range of it that
  -- ends inside the file and is no longer than the limit, as the slice of that data.
  pub read_file_range-slice :
      (max_size max_range offset size : ℕ) {data' : Bytes}
      → read_file casefold depth reader path max_size ≡ ok data'
      → offset + size ≤ length data'
      → size ≤ max_range
      → read_file_range casefold depth reader path (pos offset) (pos size) max_range
        ≡ ok (slice data' offset (offset + size))
  unfolding read_file_range regular_file
  read_file_range-slice max_size max_range offset size h inside small =
      let (entry, f, w) = read_file-IsWholeFile casefold depth reader path max_size h in
      rw (le→ltb_false max_range size small, f)
        (rw (w.regular, regular_file) (read_range-slice reader max_size offset size entry w inside))
