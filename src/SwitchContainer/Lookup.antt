-- ===== src/SwitchContainer/Lookup.antt =====
-- switch_container.py: what `find_entry` answers.
use rom_metadata_framework.Prelude.{
  ◌≡◌, ◌≢◌, refl, ap, true, false, Option, none, some, List, [], ◌∷◌, ◌++◌, keep, All, Text,
  =t=_iff, arith, Bool-cases, inl, inr,
}
use rom_metadata_framework.Prelude.{Result, ok, err}
use rom_metadata_framework.SwitchContainer.Types.{
  Error, duplicate_name, ContainerEntry, ContainerTable,
}
use rom_metadata_framework.SwitchContainer.Entries.{only_match, named, find_entry}

module _ (casefold : Text → Text) (name : Text) where
  -- An entry of the list whose folded name is the folded one asked for, and no other has it.
  pub record IsOnly (entries : List ContainerEntry) (found : ContainerEntry) : Type 0 where
    pub before : List ContainerEntry
    pub after : List ContainerEntry
    pub split : entries ≡ before ++ (found ∷ after)
    pub alike : casefold found.name ≡ casefold name
    pub earlier : All (λ e. casefold e.name ≢ casefold name) before
    pub later : All (λ e. casefold e.name ≢ casefold name) after

  unlike : (e : ContainerEntry) → named casefold name e ≡ false → casefold e.name ≢ casefold name
  unlike e h = ground (arith, =t=_iff (casefold e.name) (casefold name))

  keep-nil :
      (es : List ContainerEntry)
      → keep (named casefold name) es ≡ []
      → All (λ e. casefold e.name ≢ casefold name) es
  keep-nil [] h = tt
  keep-nil (e ∷ es) h = elim (Bool-cases (named casefold name e)) [
    | inl hit ↦ absurd (cc (h, hit))
    | inr miss ↦ (unlike e miss, keep-nil es (ground (arith, h, miss)))
  ]

  IsOnly-cons :
      (e : ContainerEntry) (es : List ContainerEntry) (found : ContainerEntry)
      → casefold e.name ≢ casefold name
      → IsOnly es found
      → IsOnly (e ∷ es) found
  IsOnly-cons e es found ne o = record {
    before = e ∷ o.before;
    after = o.after;
    split = ap (◌∷◌ e) o.split;
    alike = o.alike;
    earlier = (ne, o.earlier);
    later = o.later;
  }

  keep-IsOnly :
      (es : List ContainerEntry) (found : ContainerEntry)
      → keep (named casefold name) es ≡ found ∷ []
      → IsOnly es found
  keep-IsOnly [] found h = absurd (cc h)
  keep-IsOnly (e ∷ es) found h = elim (Bool-cases (named casefold name e)) [
    | inl hit ↦ first hit (ground (arith, h, hit)) (ground (arith, h, hit))
    | inr miss ↦
        IsOnly-cons e es found (unlike e miss) (keep-IsOnly es found (ground (arith, h, miss)))
  ]
    where
      first :
          named casefold name e ≡ true
          → e ≡ found
          → keep (named casefold name) es ≡ []
          → IsOnly (e ∷ es) found
      first hit same rest = record {
        before = [];
        after = es;
        split = ap (λ x. x ∷ es) same;
        alike = ground (arith, hit, same, =t=_iff (casefold e.name) (casefold name));
        earlier = tt;
        later = keep-nil es rest;
      }

  -- What `find_entry` answers about a list: no entry has the name, or exactly one has it, or two have.
  pub data Answers (entries : List ContainerEntry)
      : Result Error (Option ContainerEntry) → Type 0 where
    absent : All (λ e. casefold e.name ≢ casefold name) entries → Answers entries (ok none)
    only : {e : ContainerEntry} → IsOnly entries e → Answers entries (ok (some e))
    many :
        {e e' : ContainerEntry} {more : List ContainerEntry}
        → keep (named casefold name) entries ≡ e ∷ e' ∷ more
        → Answers entries (err duplicate_name)

  Answers-keep :
      (entries kept : List ContainerEntry)
      → keep (named casefold name) entries ≡ kept
      → Answers entries (only_match kept)
  unfolding only_match
  Answers-keep entries [] h = absent (keep-nil entries h)
  Answers-keep entries (e ∷ []) h = only (keep-IsOnly entries e h)
  Answers-keep entries (e ∷ e' ∷ more) h = many h

  -- `find_entry` returns None when no entry has the name up to case folding, the entry when exactly one
  -- has it, and raises the error for duplicate names otherwise: whatever it returns, it is the entry
  -- that stands in the table with that name while no entry before or behind it has the name.
  pub find_entry-Answers :
      (table : ContainerTable) → Answers table.entries (find_entry casefold table name)
  unfolding find_entry
  find_entry-Answers table = Answers-keep table.entries _ refl

  only_match-some :
      (kept : List ContainerEntry) {e : ContainerEntry}
      → only_match kept ≡ ok (some e)
      → kept ≡ e ∷ []
  unfolding only_match
  only_match-some [] h = absurd (cc h)
  only_match-some (e ∷ []) h = cc
  only_match-some (e ∷ e' ∷ more) h = absurd (cc h)

  pub found-IsOnly :
      (table : ContainerTable) (e : ContainerEntry)
      → find_entry casefold table name ≡ ok (some e)
      → IsOnly table.entries e
  unfolding find_entry
  found-IsOnly table e h = keep-IsOnly table.entries e (only_match-some _ h)
