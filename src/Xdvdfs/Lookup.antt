-- ===== src/Xdvdfs/Lookup.antt =====
-- xdvdfs.py: `find` against the path that it follows through the listed directories.
use mathlib.Core.Path.{ap₂, fun_ext}
use rom_metadata_framework.Prelude.{
  ℕ, ◌≡◌, ◌≢◌, refl, ap, true, false, Bool-cases, inl, inr, Option, none, some, List, [], ◌∷◌, ◌++◌,
  Text, ◌=t=◌, =t=_iff, path_parts, map, All, arith, not, ◌&&◌,
}
use rom_metadata_framework.Prelude.{Result, ok, ◌>>=◌, bind-eq-ok}
use rom_metadata_framework.Xdvdfs.Types.{Error, DirectoryEntry, directory}
use rom_metadata_framework.Xdvdfs.Reader.{Reader}
use rom_metadata_framework.Xdvdfs.Directory.{list_directory}
use rom_metadata_framework.Xdvdfs.Files.{first_named, find_from, find}

module _ (casefold : Text → Text) where
  -- The first entry of the list whose folded name is this one.
  pub record IsFirst (wanted : Text) (entries : List DirectoryEntry) (found : DirectoryEntry)
      : Type 0 where
    pub before : List DirectoryEntry
    pub after : List DirectoryEntry
    pub split : entries ≡ before ++ (found ∷ after)
    pub earlier : All (λ e. casefold e.name ≢ wanted) before
    pub named : casefold found.name ≡ wanted

  IsFirst-cons :
      (wanted : Text) (e : DirectoryEntry) (es : List DirectoryEntry) (found : DirectoryEntry)
      → casefold e.name ≢ wanted
      → IsFirst wanted es found
      → IsFirst wanted (e ∷ es) found
  IsFirst-cons wanted e es found ne f = record {
    before = e ∷ f.before;
    after = f.after;
    split = ap (◌∷◌ e) f.split;
    earlier = (ne, f.earlier);
    named = f.named;
  }

  first_named-IsFirst :
      (wanted : Text) (entries : List DirectoryEntry) (found : DirectoryEntry)
      → first_named casefold wanted entries ≡ some found
      → IsFirst wanted entries found
  unfolding first_named
  first_named-IsFirst wanted [] found h = cc
  first_named-IsFirst wanted (e ∷ es) found h = elim (Bool-cases (casefold e.name =t= wanted)) [
    | inl same ↦ record {
      before = [];
      after = es;
      split = ground (arith, h, same);
      earlier = tt;
      named = ground (arith, h, same, =t=_iff (casefold e.name) wanted);
    }
    | inr other ↦
        IsFirst-cons wanted e es found (ground (arith, other, =t=_iff (casefold e.name) wanted))
          (first_named-IsFirst wanted es found (ground (arith, h, other)))
  ]

  module _ (depth : ℕ) (reader : Reader) where
    -- From a directory, each name of the path picks the first entry of that name from the listing;
    -- all but the last are directories.
    pub data Resolves : Option DirectoryEntry → List Text → DirectoryEntry → Type 0 where
      last :
          {current : Option DirectoryEntry} {part : Text} {entries : List DirectoryEntry}
          {e : DirectoryEntry}
          → list_directory depth reader current ≡ ok entries
          → IsFirst (casefold part) entries e
          → Resolves current (part ∷ []) e
      step :
          {current : Option DirectoryEntry} {part next : Text} {parts : List Text}
          {entries : List DirectoryEntry} {e d : DirectoryEntry}
          → list_directory depth reader current ≡ ok entries
          → IsFirst (casefold part) entries d
          → directory d ≡ true
          → Resolves (some d) (next ∷ parts) e
          → Resolves current (part ∷ next ∷ parts) e

    -- Where the search goes on from an entry, there was one, and it is a directory.
    descended :
        (found : Option DirectoryEntry) (go : DirectoryEntry → Result Error (Option DirectoryEntry))
        {e : DirectoryEntry}
        → (elim found [
          | none ↦ ok none
          | some d ↦ elim (not false && not (directory d)) [ true ↦ ok none | false ↦ go d ]
        ])
          ≡ ok (some e)
        → (d : DirectoryEntry) × (found ≡ some d) × (directory d ≡ true) × (go d ≡ ok (some e))
    descended none go h = cc
    descended (some d) go h = (d, refl, ground (arith, h), ground (arith, h))

    find_from-Resolves :
        (parts : List Text) (part : Text) (current : Option DirectoryEntry) {e : DirectoryEntry}
        → find_from casefold depth reader current (part ∷ parts) ≡ ok (some e)
        → Resolves current (part ∷ parts) e
    unfolding find_from
    find_from-Resolves [] part current {e} h =
        let (entries, l, rest) = bind-eq-ok (list_directory depth reader current) _ h in
        let f : first_named casefold (casefold part) entries ≡ some e = ground (arith, rest) in
        last l (first_named-IsFirst (casefold part) entries _ f)
    find_from-Resolves (next ∷ parts) part current {e} h =
        let (entries, l, rest) = bind-eq-ok (list_directory depth reader current) _ h in
        let (d, f, isd, later) = descended (first_named casefold (casefold part) entries) _ rest in
        step l (first_named-IsFirst (casefold part) entries d f) isd
          (find_from-Resolves parts next (some d) later)

    find-parts :
        (parts : List Text) {e : DirectoryEntry}
        → find_from casefold depth reader none parts ≡ ok (some e)
        → Resolves none parts e
    find-parts [] h = absurd (unfold find_from in cc h)
    find-parts (part ∷ parts) h = find_from-Resolves parts part none h

    -- An entry that `find` returns is reached from the root by the path: each of its names picks,
    -- among the entries of the directory so far, the first whose case-folded name is its own, and
    -- every name but the last picks a directory.
    pub find-Resolves :
        (path : Text) {e : DirectoryEntry}
        → find casefold depth reader path ≡ ok (some e)
        → Resolves none (path_parts path) e
    unfolding find
    find-Resolves path h = find-parts (path_parts path) h

    -- One level of the search, with the search below it as a function.
    abbrev level :
        Option DirectoryEntry
        → Text
        → (DirectoryEntry → Result Error (Option DirectoryEntry))
        → Result Error (Option DirectoryEntry)
    level current wanted go = list_directory depth reader current >>= λ entries.
        elim (first_named casefold wanted entries) [
          | none ↦ ok none
          | some d ↦ elim (not false && not (directory d)) [ true ↦ ok none | false ↦ go d ]
        ]

    find_from_casefold :
        (ps qs : List Text) (current : Option DirectoryEntry)
        → map casefold ps ≡ map casefold qs
        → find_from casefold depth reader current ps ≡ find_from casefold depth reader current qs
    unfolding find_from
    find_from_casefold [] [] current h = refl
    find_from_casefold [] (q ∷ qs) current h = absurd (cc h)
    find_from_casefold (p ∷ ps) [] current h = absurd (cc h)
    find_from_casefold (p ∷ []) (q ∷ []) current h =
        ap
          (λ w. list_directory depth reader current >>= λ es. elim (first_named casefold w es) [
            | none ↦ ok none
            | some d ↦ ok (some d)
          ])
          (cc h)
    find_from_casefold (p ∷ []) (q ∷ q' ∷ qs) current h = absurd (cc h)
    find_from_casefold (p ∷ p' ∷ ps) (q ∷ []) current h = absurd (cc h)
    find_from_casefold (p ∷ p' ∷ ps) (q ∷ q' ∷ qs) current h =
        ap₂ (level current) (cc h)
          (fun_ext (λ d. find_from_casefold (p' ∷ ps) (q' ∷ qs) (some d) (cc h)))

    -- Two paths whose names fold to the same texts, one by one, are found alike, errors included.
    pub find_casefold :
        (path path' : Text)
        → map casefold (path_parts path) ≡ map casefold (path_parts path')
        → find casefold depth reader path ≡ find casefold depth reader path'
    unfolding find
    find_casefold path path' h = find_from_casefold (path_parts path) (path_parts path') none h
