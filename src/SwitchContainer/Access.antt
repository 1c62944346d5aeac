-- ===== src/SwitchContainer/Access.antt =====
-- switch_container.py: the bytes that `read_entry_range` returns, and what `parse_xci` establishes.
use rom_metadata_framework.Prelude.{
  ℕ, ◌+◌, ◌%◌, ◌≤◌, ◌≡◌, refl, sym, ap, ◌∙◌, subst, true, not, ◌||◌, Option, none, some, length,
  Text, codes, Bytes, slice, ◌=t=◌, =t=_iff, arith, ltb, ◌==◌, ℤ, pos, negsuc,
}
use rom_metadata_framework.Prelude.{ok, ◌>>◌, raise_if, bind-eq-ok, ok-injective}
use rom_metadata_framework.Source.{Source, read_at, length-read_at}
use rom_metadata_framework.SwitchContainer.Types.{
  Error, ContainerEntry, ContainerTable, XciStructure, secure_partition_missing,
  default_max_file_count, default_max_string_table_size, range_exceeds_limit, range_beyond_entry,
  not_regular_file, xci_header_size, xci_magic, xci_magic_missing, xci_root_offset_invalid,
}
use rom_metadata_framework.SwitchContainer.Names.{or_raise}
use rom_metadata_framework.SwitchContainer.Tables.{read_exact, field, hfs0, parse_hfs0}
use rom_metadata_framework.SwitchContainer.Entries.{
  find_entry, read_entry_range, parse_partitions, parse_xci,
}
use rom_metadata_framework.SwitchContainer.Bounds.{
  IsInside, IsTable, parse_hfs0-IsTable, read_exact-eq,
}
use rom_metadata_framework.SwitchContainer.Lookup.{IsOnly, found-IsOnly}

-- The bytes of a range of an entry, where the range lies in the entry and the caller's limit.
pub record IsRange (source : Source) (entry : ContainerEntry) (offset size : ℤ) (max_size : ℕ)
    (data' : Bytes) : Type 0 where
  pub start : ℕ
  pub count : ℕ
  pub start_eq : offset ≡ pos start
  pub count_eq : size ≡ pos count
  pub limited : count ≤ max_size
  pub within : start + count ≤ entry.size
  pub bytes : data' ≡ read_at source (entry.offset + start) count
  pub complete : length data' ≡ count

-- The bytes that `read_entry_range` returns are those of the range, counted from the start of the
-- entry, all of them; the range is neither negative nor longer than the limit, and ends in the entry.
pub read_entry_range-IsRange :
    (source : Source) (entry : ContainerEntry) (offset size : ℤ) (max_size : ℕ) {data' : Bytes}
    → read_entry_range source entry offset size max_size ≡ ok data'
    → IsRange source entry offset size max_size data'
unfolding read_entry_range
read_entry_range-IsRange source entry (negsuc n) size max_size h = absurd (cc h)
read_entry_range-IsRange source entry (pos o) (negsuc n) max_size h = absurd (cc h)
read_entry_range-IsRange source entry (pos o) (pos n) max_size {data'} h =
    let (u, limited, rest) = bind-eq-ok (raise_if (ltb max_size n) range_exceeds_limit) _ h in
    let (v, within, rest') =
      bind-eq-ok (raise_if (ltb entry.size (o + n)) range_beyond_entry) _ rest in
    let (w, regular, rest'') =
      bind-eq-ok (raise_if (not source.regular) not_regular_file) _ rest' in
    let (same, complete, fits) = read_exact-eq source (entry.offset + o) n rest'' in
    record {
      start = o;
      count = n;
      start_eq = refl;
      count_eq = refl;
      limited = ground (arith, limited);
      within = ground (arith, within);
      bytes = same;
      complete = complete;
    }

-- For an entry inside a regular file that has not shrunk since its size was taken, every range in the
-- entry and the limit is read: `read_entry_range` returns its bytes.
pub read_entry_range-returns :
    (source : Source) (data_offset : ℕ) (entry : ContainerEntry) (offset size max_size : ℕ)
    → IsInside source data_offset entry
    → source.regular ≡ true
    → source.st_size ≤ length source.content
    → offset + size ≤ entry.size
    → size ≤ max_size
    → read_entry_range source entry (pos offset) (pos size) max_size
      ≡ ok (read_at source (entry.offset + offset) size)
unfolding read_entry_range read_exact
read_entry_range-returns source data_offset entry offset size max_size inside regular whole within
      limited =
    let fits = inside.within in
    let n = length-read_at source (entry.offset + offset) size in ground arith

-- A game card whose partitions have been found: the root table at its offset, the one entry of it that
-- is named "secure" up to case folding, and the table at the start of that partition.
pub record IsCard (casefold : Text → Text) (source : Source) (root_offset : ℕ) (card : XciStructure)
    : Type 0 where
  pub entry : ContainerEntry
  pub place : card.root_hfs0_offset ≡ root_offset
  pub root : IsTable hfs0 source root_offset 16 default_max_string_table_size card.root
  pub only : IsOnly casefold (codes "secure") card.root.entries entry
  pub secure :
      IsTable hfs0 source entry.offset default_max_file_count default_max_string_table_size
        card.secure

-- The header of an image, and the card at the offset that it gives.
pub record IsImage (casefold : Text → Text) (source : Source) (header : Bytes) (card : XciStructure)
    : Type 0 where
  pub signed : slice header 0x100 0x104 ≡ xci_magic
  pub behind : 0x200 ≤ field header 0x130 0x138
  pub aligned : field header 0x130 0x138 % 0x200 ≡ 0
  pub card_at : IsCard casefold source (field header 0x130 0x138) card

pos-injective : {a b : ℕ} → pos a ≡ pos b → a ≡ b
pos-injective h = cc

at_place :
    (source : Source) (n max_files max_size : ℕ) {table : ContainerTable}
    → parse_hfs0 source (pos n) max_files max_size ≡ ok table
    → IsTable hfs0 source n max_files max_size table
at_place source n max_files max_size {table} h =
    let (m, same, t) = parse_hfs0-IsTable source (pos n) max_files max_size h in
    subst (λ k. IsTable hfs0 source k max_files max_size table) (sym (pos-injective same)) t

or_raise-some :
    (o : Option ContainerEntry) (e : Error) {a : ContainerEntry} → or_raise o e ≡ ok a → o ≡ some a
unfolding or_raise
or_raise-some none e h = absurd (cc h)
or_raise-some (some a) e h = cc

module _ (casefold : Text → Text) where
  parse_partitions-IsCard :
      (source : Source) (root_offset : ℕ) {card : XciStructure}
      → parse_partitions casefold source root_offset ≡ ok card
      → IsCard casefold source root_offset card
  unfolding parse_partitions
  parse_partitions-IsCard source root_offset h =
      let (root, first, rest) =
        bind-eq-ok (parse_hfs0 source (pos root_offset) 16 default_max_string_table_size) _ h in
      let (found, second, rest') = bind-eq-ok (find_entry casefold root (codes "secure")) _ rest in
      let (e, third, rest'') = bind-eq-ok (or_raise found secure_partition_missing) _ rest' in
      let (secure, fourth, made) =
        bind-eq-ok
          (parse_hfs0 source (pos e.offset) default_max_file_count default_max_string_table_size) _
          rest'' in
      let named = or_raise-some found secure_partition_missing third in
      subst (IsCard casefold source root_offset) (ok-injective made) (record {
        entry = e;
        place = refl;
        root = at_place source root_offset 16 default_max_string_table_size first;
        only = found-IsOnly casefold (codes "secure") root e (second ∙ ap ok named);
        secure =
            at_place source e.offset default_max_file_count default_max_string_table_size fourth;
      })

  -- What the header has to say about the card.
  behind_header :
      (source : Source) (header : Bytes) {card : XciStructure}
      → (raise_if (not (slice header 0x100 0x104 =t= xci_magic)) xci_magic_missing
          >> (raise_if
                (ltb (field header 0x130 0x138) 0x200
                  || not (field header 0x130 0x138 % 0x200 == 0))
                xci_root_offset_invalid
              >> parse_partitions casefold source (field header 0x130 0x138)))
        ≡ ok card
      → IsImage casefold source header card
  behind_header source header h =
      let (u, signed, rest) =
        bind-eq-ok (raise_if (not (slice header 0x100 0x104 =t= xci_magic)) xci_magic_missing) _
          h in
      let (v, aligned, rest') =
        bind-eq-ok
          (raise_if
            (ltb (field header 0x130 0x138) 0x200 || not (field header 0x130 0x138 % 0x200 == 0))
            xci_root_offset_invalid)
          _ rest in
      record {
        signed = ground (arith, signed, =t=_iff (slice header 0x100 0x104) xci_magic);
        behind = ground (arith, aligned);
        aligned = ground (arith, aligned);
        card_at = parse_partitions-IsCard source (field header 0x130 0x138) rest';
      }

  -- A game card image that `parse_xci` accepts has the magic at 0x100 of its header; the offset of the
  -- root table is the header's field, a multiple of 0x200 that is not in the header; the root table
  -- there has exactly one entry named "secure" up to case folding, and the secure table stands at the
  -- start of that entry.
  pub parse_xci-IsImage :
      (source : Source) {card : XciStructure}
      → parse_xci casefold source ≡ ok card
      → IsImage casefold source (read_at source 0 0x200) card
  unfolding parse_xci
  parse_xci-IsImage source {card} h =
      let (u, regular, rest) = bind-eq-ok (raise_if (not source.regular) not_regular_file) _ h in
      let (header, first, rest') = bind-eq-ok (read_exact source 0 xci_header_size) _ rest in
      let (same, n, w) = read_exact-eq source 0 xci_header_size first in
      subst (λ b. IsImage casefold source b card) same (behind_header source header rest')
