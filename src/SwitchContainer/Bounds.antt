-- ===== src/SwitchContainer/Bounds.antt =====
-- switch_container.py: what `parse_pfs0` and `parse_hfs0` have established when they return.
use rom_metadata_framework.Prelude.{
  ℕ, zero, suc, ◌+◌, ◌*◌, ◌≤◌, ◌≡◌, ◌≢◌, ◌∙◌, refl, ap, subst, not, some, List, [], ◌∷◌, length,
  All, Bytes, slice, ◌=t=◌, =t=_iff, arith, ℤ, pos, negsuc,
}
use rom_metadata_framework.Prelude.{Result, ok, ◌>>◌, raise_if, bind-eq-ok, ok-injective}
use rom_metadata_framework.Source.{Source, read_at}
use rom_metadata_framework.SwitchContainer.Types.{
  Error, ContainerEntry, ContainerTable, magic_missing, not_regular_file,
}
use rom_metadata_framework.SwitchContainer.Names.{read_name, read_name-ne-nil}
use rom_metadata_framework.SwitchContainer.Tables.{
  read_exact, field, Layout, read_layout, read_tables, validate_table_bounds, pfs0_entry,
  hfs0_entry, entries_from, Format, pfs0, hfs0, parse_at, parse_container, parse_pfs0, parse_hfs0,
}

-- An entry behind the tables and inside the source, with a name, hashed no further than its end.
pub record IsInside (source : Source) (data_offset : ℕ) (entry : ContainerEntry) : Type 0 where
  pub behind : data_offset ≤ entry.offset
  pub within : entry.offset + entry.size ≤ source.st_size
  pub named : entry.name ≢ []
  pub hashed : (n : ℕ) → entry.hashed_size ≡ some n → n ≤ entry.size

pfs0_entry-IsInside :
    (source : Source) (strings : Bytes) (data_offset : ℕ) (item : Bytes) {entry : ContainerEntry}
    → pfs0_entry source strings data_offset item ≡ ok entry
    → IsInside source data_offset entry
unfolding pfs0_entry
pfs0_entry-IsInside source strings data_offset item h =
    let (name, read, rest) = bind-eq-ok (read_name strings (field item 0x10 0x14)) _ h in
    let ne = read_name-ne-nil strings (field item 0x10 0x14) read in
    record {
      behind = ground (arith, rest);
      within = ground (arith, rest);
      named = ground (arith, rest, ne);
      hashed = λ n e. ground (arith, rest);
    }

hfs0_entry-IsInside :
    (source : Source) (strings : Bytes) (data_offset : ℕ) (item : Bytes) {entry : ContainerEntry}
    → hfs0_entry source strings data_offset item ≡ ok entry
    → IsInside source data_offset entry
unfolding hfs0_entry
hfs0_entry-IsInside source strings data_offset item h =
    let (name, read, rest) = bind-eq-ok (read_name strings (field item 0x10 0x14)) _ h in
    let ne = read_name-ne-nil strings (field item 0x10 0x14) read in
    record {
      behind = ground (arith, rest);
      within = ground (arith, rest);
      named = ground (arith, rest, ne);
      hashed = λ n e. ground (arith, rest);
    }

entries_from-All {κ} :
    (P : ContainerEntry → Type κ) (body : Bytes → Result Error ContainerEntry) (raw : Bytes)
    (entry_size : ℕ)
    → ((item : Bytes) (e : ContainerEntry) → body item ≡ ok e → P e)
    → (left index : ℕ) (es : List ContainerEntry)
    → entries_from body raw entry_size left index ≡ ok es
    → All P es × (length es ≡ left)
unfolding entries_from
entries_from-All P body raw entry_size each zero index [] h = (tt, refl)
entries_from-All P body raw entry_size each zero index (e ∷ es) h = absurd (cc h)
entries_from-All P body raw entry_size each (suc left) index es h =
    let (e, first, rest) =
      bind-eq-ok (body (slice raw (index * entry_size) (index * entry_size + entry_size))) _ h in
    let (more, later, made) =
      bind-eq-ok (entries_from body raw entry_size left (index + 1)) _ rest in
    let (all, size) = entries_from-All P body raw entry_size each left (index + 1) more later in
    subst (λ l. All P l × (length l ≡ suc left)) (ok-injective made)
      ((each _ e first, all), ap suc size)

pub read_exact-eq :
    (source : Source) (offset size : ℕ) {data' : Bytes}
    → read_exact source offset size ≡ ok data'
    → (data' ≡ read_at source offset size)
      × (length data' ≡ size)
      × (offset + size ≤ source.st_size)
unfolding read_exact
read_exact-eq source offset size h = ground arith

read_tables-lem :
    (source : Source) (entry_size offset count string_size max_files max_string_table_size : ℕ)
    {layout : Layout}
    → read_tables source entry_size offset count string_size max_files max_string_table_size
      ≡ ok layout
    → (layout.count ≡ count)
      × (layout.string_size ≡ string_size)
      × (count ≤ max_files)
      × (string_size ≤ max_string_table_size)
      × (offset + 0x10 + count * entry_size + string_size ≤ source.st_size)
unfolding read_tables validate_table_bounds read_exact
read_tables-lem source entry_size offset count string_size max_files max_string_table_size {layout}
      h =
    ground arith

-- The header of a table, what its fields allow, and the room that the source has for the tables.
pub record IsHeader (format : Format) (source : Source) (fixed : Bytes)
    (offset max_files max_string_table_size : ℕ) : Type 0 where
  pub signed : slice fixed 0 4 ≡ format.magic
  pub few : field fixed 4 8 ≤ max_files
  pub small : field fixed 8 12 ≤ max_string_table_size
  pub room : offset + 0x10 + field fixed 4 8 * format.entry_size + field fixed 8 12 ≤ source.st_size

HasFields : Layout → Bytes → Type 0
HasFields layout fixed = (layout.count ≡ field fixed 4 8) × (layout.string_size ≡ field fixed 8 12)

after-IsHeader :
    (format : Format) (source : Source) (fixed : Bytes) (offset max_files max_string_table_size : ℕ)
    {layout : Layout}
    → (raise_if (not (slice fixed 0 4 =t= format.magic)) magic_missing
        >> read_tables source format.entry_size offset
            (field fixed 4 8)
            (field fixed 8 12)
            max_files
            max_string_table_size)
      ≡ ok layout
    → IsHeader format source fixed offset max_files max_string_table_size × HasFields layout fixed
unfolding HasFields
after-IsHeader format source fixed offset max_files max_string_table_size {layout} h =
    let (u, signed, rest) =
      bind-eq-ok (raise_if (not (slice fixed 0 4 =t= format.magic)) magic_missing) _ h in
    let (counted, measured, few, small, room) =
      read_tables-lem source format.entry_size offset (field fixed 4 8) (field fixed 8 12) max_files
        max_string_table_size rest in
    (
      record {
        signed = ground (arith, signed, =t=_iff (slice fixed 0 4) format.magic);
        few = few;
        small = small;
        room = room;
      },
      (counted, measured),
    )

read_layout-lem :
    (format : Format) (source : Source) (offset max_files max_string_table_size : ℕ)
    {layout : Layout}
    → read_layout source format.magic format.entry_size offset max_files max_string_table_size
      ≡ ok layout
    → IsHeader format source (read_at source offset 0x10) offset max_files max_string_table_size
      × HasFields layout (read_at source offset 0x10)
unfolding read_layout
read_layout-lem format source offset max_files max_string_table_size {layout} h =
    let (fixed, first, rest) = bind-eq-ok (read_exact source offset 0x10) _ h in
    let (same, n, w) = read_exact-eq source offset 0x10 first in
    subst
      (λ b. IsHeader format source b offset max_files max_string_table_size × HasFields layout b)
      same (after-IsHeader format source fixed offset max_files max_string_table_size rest)

-- A table that the source holds at an offset.
pub record IsTable (format : Format) (source : Source) (offset max_files max_string_table_size : ℕ)
    (table : ContainerTable) : Type 0 where
  pub header :
      IsHeader format source (read_at source offset 0x10) offset max_files max_string_table_size
  pub place : table.offset ≡ offset
  pub kind : table.format ≡ format.name
  pub counted : length table.entries ≡ field (read_at source offset 0x10) 4 8
  pub data_place :
      table.data_offset
      ≡ offset
        + 0x10
        + field (read_at source offset 0x10) 4 8 * format.entry_size
        + field (read_at source offset 0x10) 8 12
  pub inside : All (IsInside source table.data_offset) table.entries

-- The body of a loop that only gives entries inside the source.
IsCareful : Format → Type 0
IsCareful format =
    (source : Source) (strings : Bytes) (data_offset : ℕ) (item : Bytes) (entry : ContainerEntry)
    → format.body source strings data_offset item ≡ ok entry
    → IsInside source data_offset entry

parse_at-IsTable :
    (format : Format)
    → IsCareful format
    → (source : Source) (offset max_files max_string_table_size : ℕ) {table : ContainerTable}
    → parse_at format source offset max_files max_string_table_size ≡ ok table
    → IsTable format source offset max_files max_string_table_size table
unfolding parse_at IsCareful HasFields
parse_at-IsTable format careful source offset max_files max_string_table_size {table} h =
    let (layout, first, rest) =
      bind-eq-ok
        (read_layout source format.magic format.entry_size offset max_files max_string_table_size) _
        h in
    let (header, fields) =
      read_layout-lem format source offset max_files max_string_table_size first in
    let data_offset = offset + 0x10 + layout.count * format.entry_size + layout.string_size in
    let body = format.body source layout.strings data_offset in
    let (entries, looped, made) =
      bind-eq-ok (entries_from body layout.entries_raw format.entry_size layout.count 0) _ rest in
    let (all, size) =
      entries_from-All (IsInside source data_offset) body layout.entries_raw format.entry_size
        (λ item e g. careful source layout.strings data_offset item e g) layout.count 0 entries
        looped in
    subst (IsTable format source offset max_files max_string_table_size) (ok-injective made)
      (record {
        header = header;
        place = refl;
        kind = refl;
        counted = size ∙ fields.0;
        data_place = cc (fields.0, fields.1);
        inside = all;
      })

-- An offset that the two parsers accept, and the table there.
parse_container-IsTable :
    (format : Format)
    → IsCareful format
    → (source : Source) (offset : ℤ) (max_files max_string_table_size : ℕ) {table : ContainerTable}
    → parse_container format source offset max_files max_string_table_size ≡ ok table
    → (n : ℕ) × (offset ≡ pos n) × IsTable format source n max_files max_string_table_size table
unfolding parse_container
parse_container-IsTable format careful source (negsuc n) max_files max_string_table_size h =
    let (u, regular, wrong) = bind-eq-ok (raise_if (not source.regular) not_regular_file) _ h in
    absurd (cc wrong)
parse_container-IsTable format careful source (pos n) max_files max_string_table_size h =
    let (u, regular, rest) = bind-eq-ok (raise_if (not source.regular) not_regular_file) _ h in
    (n, refl, parse_at-IsTable format careful source n max_files max_string_table_size rest)

-- A PFS0 table that `parse_pfs0` returns stands at the given offset, which is not negative: the source
-- has the magic and, within both limits, the two sizes there; the data starts behind the tables, which
-- the source has room for; there are as many entries as the header counts,
-- and each has a name and an extent that starts in the data and ends in the source.
pub parse_pfs0-IsTable :
    (source : Source) (offset : ℤ) (max_files max_string_table_size : ℕ) {table : ContainerTable}
    → parse_pfs0 source offset max_files max_string_table_size ≡ ok table
    → (n : ℕ) × (offset ≡ pos n) × IsTable pfs0 source n max_files max_string_table_size table
unfolding parse_pfs0 IsCareful
parse_pfs0-IsTable = parse_container-IsTable pfs0 (λ s b d i e h. pfs0_entry-IsInside s b d i h)

-- An HFS0 table that `parse_hfs0` returns stands at the given offset, which is not negative: the source
-- has the magic and, within both limits, the two sizes there; the data starts behind the tables, which
-- the source has room for; there are as many entries as the header counts, and each has a name, an
-- extent that starts in the data and ends in the source, and a hashed part no longer than itself.
pub parse_hfs0-IsTable :
    (source : Source) (offset : ℤ) (max_files max_string_table_size : ℕ) {table : ContainerTable}
    → parse_hfs0 source offset max_files max_string_table_size ≡ ok table
    → (n : ℕ) × (offset ≡ pos n) × IsTable hfs0 source n max_files max_string_table_size table
unfolding parse_hfs0 IsCareful
parse_hfs0-IsTable = parse_container-IsTable hfs0 (λ s b d i e h. hfs0_entry-IsInside s b d i h)
