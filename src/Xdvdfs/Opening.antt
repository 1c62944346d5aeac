-- ===== src/Xdvdfs/Opening.antt =====
-- xdvdfs.py: what `__init__` has established when it returns a reader.
use rom_metadata_framework.Prelude.{
  ℕ, Bytes, ◌+◌, ◌*◌, ◌≤◌, ◌<◌, ◌≡◌, ◌∙◌, refl, sym, ap, subst, true, Option, none, some, List, [],
  ◌∷◌, ◌++◌, All, arith, not, ℤ, pos, negsuc, =t=_iff, slice, from_little, length,
}
use rom_metadata_framework.Prelude.{ok, raise_if, bind-eq-ok}
use rom_metadata_framework.Source.{Source, read_at}
use rom_metadata_framework.Xdvdfs.Types.{sector_size, magic, VolumeDescriptor}
use rom_metadata_framework.Xdvdfs.Reader.{
  Reader, u32le, read_descriptor, first_descriptor, with_descriptor, open_reader,
}

-- A descriptor that the image carries: both signatures, and a root directory of positive size
-- within the limit that lies inside the file.
pub record IsDescriptor (source : Source) (max_directory_size : ℕ) (d : VolumeDescriptor)
    : Type 0 where
  pub at : d.descriptor_offset ≡ d.partition_offset + 32 * sector_size
  pub first_magic : slice (read_at source d.descriptor_offset sector_size) 0 20 ≡ magic
  pub second_magic : slice (read_at source d.descriptor_offset sector_size) 0x7EC 0x800 ≡ magic
  pub descriptor_within : d.descriptor_offset + sector_size ≤ source.st_size
  -- the fields of the descriptor, four bytes each
  pub root_sector :
      d.root_sector ≡ from_little (slice (read_at source d.descriptor_offset sector_size) 0x14 0x18)
  pub root_size :
      d.root_size ≡ from_little (slice (read_at source d.descriptor_offset sector_size) 0x18 0x1C)
  pub complete : length (read_at source d.descriptor_offset sector_size) ≡ sector_size
  pub positive : 0 < d.root_size
  pub bounded : d.root_size ≤ max_directory_size
  pub root_within : d.partition_offset + d.root_sector * sector_size + d.root_size ≤ source.st_size

-- A word of a descriptor is its four bytes, the lowest first.
u32le-slice :
    (data' : Bytes) (offset : ℕ)
    → u32le data' offset ≡ from_little (slice data' offset (offset + 4))
unfolding u32le
u32le-slice data' offset = refl

module _ (source : Source) (max_directory_size offset : ℕ) where
  read_descriptor-fields :
      {d : VolumeDescriptor}
      → read_descriptor source max_directory_size (pos offset) ≡ ok (some d)
      → (d.partition_offset ≡ offset)
        × (d.descriptor_offset ≡ offset + 32 * sector_size)
        × (d.root_sector ≡ u32le (read_at source (offset + 32 * sector_size) sector_size) 0x14)
        × (d.root_size ≡ u32le (read_at source (offset + 32 * sector_size) sector_size) 0x18)
  unfolding read_descriptor
  read_descriptor-fields h = ground arith

  read_descriptor-guards :
      {d : VolumeDescriptor}
      → read_descriptor source max_directory_size (pos offset) ≡ ok (some d)
      → let data' = read_at source (offset + 32 * sector_size) sector_size in
        (slice data' 0 20 ≡ magic)
        × (slice data' 0x7EC 0x800 ≡ magic)
        × (length data' ≡ sector_size)
        × (offset + 32 * sector_size + sector_size ≤ source.st_size)
        × (0 < d.root_size)
        × (d.root_size ≤ max_directory_size)
        × (offset + d.root_sector * sector_size + d.root_size ≤ source.st_size)
  unfolding read_descriptor
  read_descriptor-guards h =
      let data' = read_at source (offset + 32 * sector_size) sector_size in
      ground (arith, =t=_iff (slice data' 0 20) magic, =t=_iff (slice data' 0x7EC 0x800) magic)

  read_descriptor-IsDescriptor :
      {d : VolumeDescriptor}
      → read_descriptor source max_directory_size (pos offset) ≡ ok (some d)
      → (d.partition_offset ≡ offset) × IsDescriptor source max_directory_size d
  read_descriptor-IsDescriptor {d} h =
      let (partition, at, root_sector, root_size) = read_descriptor-fields h in
      let (first_magic, second_magic, complete, within, positive, bounded, root_within) =
        read_descriptor-guards h in
      let words =
        λ (o : ℕ). u32le-slice (read_at source (offset + 32 * sector_size) sector_size) o in
      (
        partition,
        record {
          at = ground (arith, at, partition);
          first_magic = rw at first_magic;
          second_magic = rw at second_magic;
          descriptor_within = ground (arith, at, within);
          root_sector = rw at (root_sector ∙ words 0x14);
          root_size = rw at (root_size ∙ words 0x18);
          complete = rw at complete;
          positive = positive;
          bounded = bounded;
          root_within = ground (arith, partition, root_within);
        },
      )

-- The reader's descriptor comes from the first partition offset of the list that has one.
pub record IsFound (source : Source) (max_directory_size : ℕ) (offsets : List ℤ)
    (d : VolumeDescriptor) : Type 0 where
  pub before : List ℤ
  pub after : List ℤ
  pub split : offsets ≡ before ++ (pos d.partition_offset ∷ after)
  pub none_before : All (λ o. read_descriptor source max_directory_size o ≡ ok none) before
  pub found : IsDescriptor source max_directory_size d

module _ (source : Source) (max_directory_size : ℕ) where
  IsFound-head :
      (o : ℤ) (offsets : List ℤ) (d : VolumeDescriptor)
      → read_descriptor source max_directory_size o ≡ ok (some d)
      → IsFound source max_directory_size (o ∷ offsets) d
  IsFound-head (negsuc n) offsets d h = absurd (unfold read_descriptor in cc h)
  IsFound-head (pos offset) offsets d h =
      let (e, found) = read_descriptor-IsDescriptor source max_directory_size offset h in
      record { before = []; after = offsets; split = rw e; none_before = tt; found = found }

  IsFound-tail :
      (o : ℤ) (offsets : List ℤ) (d : VolumeDescriptor)
      → read_descriptor source max_directory_size o ≡ ok none
      → IsFound source max_directory_size offsets d
      → IsFound source max_directory_size (o ∷ offsets) d
  IsFound-tail o offsets d h f = record {
    before = o ∷ f.before;
    after = f.after;
    split = ap (◌∷◌ o) f.split;
    none_before = (h, f.none_before);
    found = f.found;
  }

  IsFound-cons :
      (o : ℤ) (offsets : List ℤ) (d : VolumeDescriptor) (candidate : Option VolumeDescriptor)
      → read_descriptor source max_directory_size o ≡ ok candidate
      → (first_descriptor source max_directory_size offsets ≡ ok (some d)
          → IsFound source max_directory_size offsets d)
      → (elim candidate [
        | some descriptor ↦ ok (some descriptor)
        | none ↦ first_descriptor source max_directory_size offsets
      ])
        ≡ ok (some d)
      → IsFound source max_directory_size (o ∷ offsets) d
  IsFound-cons o offsets d none read ih h = IsFound-tail o offsets d read (ih h)
  IsFound-cons o offsets d (some c) read ih h = IsFound-head o offsets d (read ∙ h)

  first_descriptor-IsFound :
      (offsets : List ℤ) (d : VolumeDescriptor)
      → first_descriptor source max_directory_size offsets ≡ ok (some d)
      → IsFound source max_directory_size offsets d
  unfolding first_descriptor
  first_descriptor-IsFound [] d h = absurd (cc h)
  first_descriptor-IsFound (o ∷ offsets) d h =
      let (candidate, read, rest) = bind-eq-ok (read_descriptor source max_directory_size o) _ h in
      IsFound-cons o offsets d candidate read (first_descriptor-IsFound offsets d) rest

  made_reader :
      (d : Option VolumeDescriptor) (max_directory_nodes : ℕ) (reader : Reader)
      → with_descriptor source max_directory_size max_directory_nodes d ≡ ok reader
      → (v : VolumeDescriptor) × (d ≡ some v)
        × (reader ≡ record {
          source = source;
          file_size = source.st_size;
          max_directory_size = max_directory_size;
          max_directory_nodes = max_directory_nodes;
          volume = v;
        })
  unfolding with_descriptor
  made_reader none max_directory_nodes reader h = absurd (cc h)
  made_reader (some v) max_directory_nodes reader h = (v, refl, cc)

  -- A reader that `__init__` returns is of a regular file, keeps the limits that it was given and
  -- the size of the file, and its volume is that of the first partition offset at which the image
  -- carries a descriptor: none was there at the earlier offsets, both signatures are, the sector and
  -- the size of the root directory are the descriptor's fields at 0x14 and 0x18, and that directory
  -- has a positive size within the limit and lies inside the file.
  pub open_reader-IsFound :
      (offsets : List ℤ) (max_directory_nodes : ℕ) {reader : Reader}
      → open_reader source offsets max_directory_size max_directory_nodes ≡ ok reader
      → (source.regular ≡ true)
        × (reader.source ≡ source)
        × (reader.file_size ≡ source.st_size)
        × (reader.max_directory_size ≡ max_directory_size)
        × (reader.max_directory_nodes ≡ max_directory_nodes)
        × IsFound source max_directory_size offsets reader.volume
  unfolding open_reader
  open_reader-IsFound offsets max_directory_nodes {reader} h =
      let (u, regular, rest) = bind-eq-ok (raise_if (not source.regular) _) _ h in
      let (d, first, rest') =
        bind-eq-ok (first_descriptor source max_directory_size offsets) _ rest in
      let (v, same, made) = made_reader d max_directory_nodes reader rest' in
      (
        ground (arith, regular),
        ap (λ (r : Reader). r.source) made,
        ap (λ (r : Reader). r.file_size) made,
        ap (λ (r : Reader). r.max_directory_size) made,
        ap (λ (r : Reader). r.max_directory_nodes) made,
        subst (IsFound source max_directory_size offsets) (sym (ap (λ (r : Reader). r.volume) made))
            (first_descriptor-IsFound offsets v (first ∙ ap ok same)),
      )
