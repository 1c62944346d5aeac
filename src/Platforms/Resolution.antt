-- ===== src/Platforms/Resolution.antt =====
-- platforms.py: what the index that is built resolves.
use rom_metadata_framework.Prelude.{
  false, not, ◌≡◌, sym, ap, ◌∙◌, subst, some, List, [], ◌∷◌, All, Text, ◌=t=◌, =t=_iff, elem_text,
  arith, inl, inr, ◌⊎◌, Bool-cases, ok-injective,
}
use rom_metadata_framework.Prelude.{ok, raise_if, raise_if-eq-ok, bind-eq-ok}
use rom_metadata_framework.Platforms.Keys.{
  PlatformDefinition, normalize_key, unknown_platform, duplicate_alias, duplicate_canonical,
  name_not_normalized,
}
use rom_metadata_framework.Platforms.Index.{
  PlatformIndex, lookup, is_some, add_keys, index_from, build_platform_index, raising, found,
  resolve_platform, canonical_platform_name,
}

module _ (lower : Text → Text) where
  -- A platform that its own name, which is normal, gives.
  IsNamed : PlatformIndex → PlatformDefinition → Type 0
  IsNamed index p = (normalize_key lower p.name ≡ ok p.name) × (lookup p.name index ≡ some p)

  IsSound : PlatformIndex → Type 0
  IsSound index =
      (key : Text) (p : PlatformDefinition) → lookup key index ≡ some p → IsNamed index p

  -- A key that is free can be added without hiding another.
  lookup-add :
      (index : PlatformIndex) (key key' : Text) (p q : PlatformDefinition)
      → is_some (lookup key index) ≡ false
      → lookup key' index ≡ some q
      → lookup key' ((key, p) ∷ index) ≡ some q
  unfolding lookup
  lookup-add index key key' p q free there = ground (
    arith,
    free,
    there,
    =t=_iff key key',
    λ (e : key ≡ key'). ap (λ k. is_some (lookup k index)) e,
  )

  -- Every key that gives a platform still gives it.
  abbrev Extends : PlatformIndex → PlatformIndex → Type 0
  Extends index index' =
      (key : Text) (q : PlatformDefinition) → lookup key index ≡ some q → lookup key index' ≡ some q

  -- A spelling that the index resolves to the platform.
  abbrev pub Spells : PlatformIndex → PlatformDefinition → Text → Type 0
  Spells index p spelling =
      (key : Text) × (normalize_key lower spelling ≡ ok key) × (lookup key index ≡ some p)

  Spells-Extends :
      (index index' : PlatformIndex) (p : PlatformDefinition) (keys : List Text)
      → Extends index index'
      → All (Spells index p) keys
      → All (Spells index' p) keys
  Spells-Extends index index' p [] more h = tt
  Spells-Extends index index' p (k ∷ keys) more ((key, e, l), h) =
      ((key, e, more key p l), Spells-Extends index index' p keys more h)

  -- Where an entry of the larger index comes from.
  abbrev Adds : PlatformDefinition → PlatformIndex → PlatformIndex → Type 0
  Adds p index index' =
      (key : Text) (q : PlatformDefinition)
      → lookup key index' ≡ some q
      → (q ≡ p) ⊎ (lookup key index ≡ some q)

  Adds-one :
      (p : PlatformDefinition) (index : PlatformIndex) (key : Text)
      → Adds p index ((key, p) ∷ index)
  unfolding lookup
  Adds-one p index key key' q h = elim (Bool-cases (key =t= key')) [
    | inl hit ↦ inl (ground (arith, h, hit))
    | inr miss ↦ inr (ground (arith, h, miss))
  ]

  Adds-trans :
      (p : PlatformDefinition) (i j k : PlatformIndex) → Adds p i j → Adds p j k → Adds p i k
  Adds-trans p i j k ij jk key q h = elim (jk key q h) [ inl e ↦ inl e | inr l ↦ ij key q l ]

  add_keys-Adds :
      (p : PlatformDefinition) (keys : List Text) (index : PlatformIndex) {index' : PlatformIndex}
      → add_keys lower p keys index ≡ ok index'
      → Extends index index' × All (Spells index' p) keys × Adds p index index'
  unfolding add_keys
  add_keys-Adds p [] index h =
      subst (λ i. Extends index i × Unit {0} × Adds p index i) (ok-injective h)
        (λ key q l. l, tt, λ key q l. inr l)
  add_keys-Adds p (k ∷ keys) index {index'} h =
      let (n, normal, rest) = bind-eq-ok (normalize_key lower k) _ h in
      let (u, free, rest') =
        bind-eq-ok (raise_if (is_some (lookup n index)) duplicate_alias) _ rest in
      let (more, spells, adds) = add_keys-Adds p keys ((n, p) ∷ index) rest' in
      let fresh = raise_if-eq-ok (is_some (lookup n index)) duplicate_alias free in
      (
        λ key q l. more key q (lookup-add index n key p q fresh l),
        ((n, normal, more n p (here n p index)), spells),
        Adds-trans p index ((n, p) ∷ index) index' (Adds-one p index n) adds,
      )
    where
      here :
          (n : Text) (p : PlatformDefinition) (i : PlatformIndex) → lookup n ((n, p) ∷ i) ≡ some p
      here n p i = unfold lookup in ground (arith, =t=_iff n n)

  unfoldable pub IsComplete : PlatformIndex → List PlatformDefinition → Type 0
  IsComplete index = All (λ p. All (Spells index p) (p.name ∷ p.aliases))

  IsNamed-spelling :
      (index : PlatformIndex) (p : PlatformDefinition)
      → normalize_key lower p.name ≡ ok p.name
      → Spells index p p.name
      → IsNamed index p
  unfolding IsNamed
  IsNamed-spelling index p normal (key, e, l) =
      (normal, subst (λ k. lookup k index ≡ some p) (ok-injective (sym e ∙ normal)) l)

  index_from-IsSound :
      (ps : List PlatformDefinition) (names : List Text) (index : PlatformIndex)
      {index' : PlatformIndex}
      → IsSound index
      → index_from lower ps names index ≡ ok index'
      → Extends index index' × IsSound index' × IsComplete index' ps
  unfolding index_from IsComplete
  index_from-IsSound [] names index s h =
      subst (λ i. Extends index i × IsSound i × Unit {0}) (ok-injective h) (λ key q l. l, s, tt)
  index_from-IsSound (p ∷ ps) names index {index'} s h =
      let (n, normal, rest) = bind-eq-ok (normalize_key lower p.name) _ h in
      let (u, named, rest') =
        bind-eq-ok (raise_if (not (n =t= p.name)) name_not_normalized) _ rest in
      let (v, free, rest'') =
        bind-eq-ok (raise_if (elem_text n names) duplicate_canonical) _ rest' in
      let (middle, added, rest3) =
        bind-eq-ok (add_keys lower p (p.name ∷ p.aliases) index) _ rest'' in
      let (more, spells, adds) = add_keys-Adds p (p.name ∷ p.aliases) index added in
      let same : n ≡ p.name = ground (arith, named, =t=_iff n p.name) in
      let is_named = IsNamed-spelling middle p (normal ∙ ap ok same) spells.0 in
      let (more', s', complete) =
        index_from-IsSound ps (n ∷ names) middle (sound_middle middle more adds is_named) rest3 in
      (
        λ key q l. more' key q (more key q l),
        s',
        (Spells-Extends middle index' p (p.name ∷ p.aliases) more' spells, complete),
      )
    where
      sound_middle :
          (middle : PlatformIndex)
          → Extends index middle
          → Adds p index middle
          → IsNamed middle p
          → IsSound middle
      sound_middle middle more adds is_named =
          unfold IsSound in
          unfold IsNamed in
          λ key q l. elim (adds key q l) [
            | inl e ↦ subst (IsNamed middle) (sym e) is_named
            | inr old ↦ let (normal, own) = s key q old in (normal, more q.name q own)
          ]

  Spells-resolves :
      (index : PlatformIndex) (p : PlatformDefinition) (spelling : Text)
      → Spells index p spelling
      → resolve_platform lower index spelling ≡ ok p
  unfolding resolve_platform raising found
  Spells-resolves index p spelling (key, e, l) = ground (arith, e, l)

  All-resolve :
      (index : PlatformIndex) (p : PlatformDefinition) (keys : List Text)
      → All (Spells index p) keys
      → All (λ k. resolve_platform lower index k ≡ ok p) keys
  All-resolve index p [] h = tt
  All-resolve index p (k ∷ keys) (s, h) = (Spells-resolves index p k s, All-resolve index p keys h)

  complete_resolves :
      (index : PlatformIndex) (ps : List PlatformDefinition)
      → IsComplete index ps
      → All (λ p. All (λ k. resolve_platform lower index k ≡ ok p) (p.name ∷ p.aliases)) ps
  unfolding IsComplete
  complete_resolves index [] h = tt
  complete_resolves index (p ∷ ps) (s, h) =
      (All-resolve index p (p.name ∷ p.aliases) s, complete_resolves index ps h)

  resolve-looks :
      (index : PlatformIndex) (value : Text) {p : PlatformDefinition}
      → resolve_platform lower index value ≡ ok p
      → (key : Text) × (lookup key index ≡ some p)
  unfolding resolve_platform raising found
  resolve-looks index value h =
      let (key, e, l) = bind-eq-ok (raising unknown_platform (normalize_key lower value)) _ h in
      (key, ground (arith, l))

  empty-IsSound : IsSound []
  unfolding IsSound IsNamed lookup
  empty-IsSound key p h = absurd (cc h)

  -- In an index that was built from a registry, each platform is resolved from its name and from each
  -- of its aliases; and where any value resolves to a platform, the name of that platform resolves to
  -- it too, so the canonical name of a canonical name is itself.
  pub build_platform_index-resolves :
      (ps : List PlatformDefinition) {index : PlatformIndex}
      → build_platform_index lower ps ≡ ok index
      → All (λ p. All (λ k. resolve_platform lower index k ≡ ok p) (p.name ∷ p.aliases)) ps
        × ((value : Text) (p : PlatformDefinition)
            → resolve_platform lower index value ≡ ok p
            → (resolve_platform lower index p.name ≡ ok p)
              × (canonical_platform_name lower index p.name ≡ ok p.name))
  unfolding build_platform_index canonical_platform_name
  build_platform_index-resolves ps {index} h =
      let (more, sound, complete) = index_from-IsSound ps [] [] empty-IsSound h in
      (complete_resolves index ps complete, λ value p r. canonical sound value p r)
    where
      canonical :
          IsSound index
          → (value : Text) (p : PlatformDefinition) → resolve_platform lower index value ≡ ok p
          → (resolve_platform lower index p.name ≡ ok p)
            × (canonical_platform_name lower index p.name ≡ ok p.name)
      canonical sound value p r =
          let (key, l) = resolve-looks index value r in
          let again : resolve_platform lower index p.name ≡ ok p = Spells-resolves index p p.name (
            unfold IsSound in
            unfold IsNamed in let (normal, own) = sound key p l in (p.name, normal, own)) in
          (again, ground (arith, again))
