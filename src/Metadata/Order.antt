-- ===== src/Metadata/Order.antt =====
-- metadata_reconciliation.py: neither the order of the providers nor that of their values matters.
use rom_metadata_framework.Prelude.{
  Bool, true, false, keep, map, ◌≡◌, refl, ap, ◌∙◌, subst, inl, inr, Bool-cases, Option, List, [],
  ◌∷◌, ◌++◌, Permᴰ, Text, ◌=t=◌, =t=_iff, arith,
}
use mathlib.Core.List.{append_assoc}
use mathlib.Core.List.Permᴰ as PermD
use rom_metadata_framework.LocalMetadata.{LocalContentMetadata}
use rom_metadata_framework.Metadata.Records.{ReleaseMetadata, MetadataProviderResult}
use rom_metadata_framework.Metadata.Keys.{
  less, insert, sorted_set, identifier_values, text_values, player_count_values,
}
use rom_metadata_framework.Metadata.Comparison.{
  Field, titles, developers, publishers, regions, languages, player_counts, multiplayer_features,
  identifiers, extended, comparable_metadata_fields, local_values, provider_values,
  reconcile_values, reconcile_metadata,
}

less-irreflexive : (a : Text) → less a a ≡ false
unfolding less
less-irreflexive [] = refl
less-irreflexive (x ∷ a) = ground (arith, less-irreflexive a)

less_trans : (a b c : Text) → less a b ≡ true → less b c ≡ true → less a c ≡ true
unfolding less
less_trans [] b [] h k = absurd (ends b h k)
  where
    ends : (b : Text) → less [] b ≡ true → less b [] ≡ true → ⊥
    ends [] h k = cc h
    ends (y ∷ b) h k = cc k
less_trans [] b (z ∷ c) h k = refl
less_trans (x ∷ a) [] c h k = absurd (cc h)
less_trans (x ∷ a) (y ∷ b) [] h k = absurd (cc k)
less_trans (x ∷ a) (y ∷ b) (z ∷ c) h k = ground (arith, h, k, less_trans a b c)

less_total : (a b : Text) → (a =t= b) ≡ false → less a b ≡ false → less b a ≡ true
unfolding less ◌=t=◌
less_total [] [] e h = absurd (cc e)
less_total [] (y ∷ b) e h = absurd (cc h)
less_total (x ∷ a) [] e h = refl
less_total (x ∷ a) (y ∷ b) e h = ground (arith, e, h, less_total a b)

less_asym : (a b : Text) → less a b ≡ true → less b a ≡ false
less_asym a b h = elim (Bool-cases (less b a)) [
  | inl e ↦ absurd (cc (less_trans a b a h e, less-irreflexive a))
  | inr e ↦ e
]

insert_nil : (a b : Text) → insert a (insert b []) ≡ insert b (insert a [])
unfolding insert
insert_nil a b = ground (
  arith,
  =t=_iff a b,
  =t=_iff b a,
  less_total a b,
  less_asym a b,
  less_asym b a,
  less-irreflexive a,
)

insert-insert : (a b : Text) (s : List Text) → insert a (insert b s) ≡ insert b (insert a s)
unfolding insert
insert-insert a b [] = insert_nil a b
insert-insert a b (x ∷ s) =
    let same = insert-insert a b s in
    ground (
      arith,
      same,
      =t=_iff a b,
      =t=_iff b a,
      =t=_iff a x,
      =t=_iff b x,
      less_total a b,
      less_total a x,
      less_total b x,
      less_asym a b,
      less_asym b a,
      less_asym x b,
      less_asym x a,
      less_trans a b x,
      less_trans b a x,
      less-irreflexive x,
    )

pub sorted_set-perm : {xs ys : List Text} → Permᴰ xs ys → sorted_set xs ≡ sorted_set ys
unfolding sorted_set
sorted_set-perm Permᴰ.nil = refl
sorted_set-perm (Permᴰ.cons {a} {b} {l₁} e q) =
    ap (λ x. insert x (sorted_set l₁)) e ∙ ap (insert b) (sorted_set-perm q)
sorted_set-perm (Permᴰ.swap {a} {b} {a'} {b'} {l} e f) =
    insert-insert a b (sorted_set l)
    ∙ ap (λ x. insert x (insert a (sorted_set l))) f
    ∙ ap (λ x. insert a' (insert x (sorted_set l))) e
sorted_set-perm (Permᴰ.trans q r) = sorted_set-perm q ∙ sorted_set-perm r

keep-perm {ℓ} :
    {A : Type ℓ} (p : A → Bool) {xs ys : List A} → Permᴰ xs ys → Permᴰ (keep p xs) (keep p ys)
keep-perm p Permᴰ.nil = Permᴰ.nil
keep-perm p (Permᴰ.cons {a} {b} e q) = elim (Bool-cases (p b)) [
  | inl h ↦ rw (h, ap p e ∙ h) (Permᴰ.cons e (keep-perm p q))
  | inr h ↦ rw (h, ap p e ∙ h) (keep-perm p q)
]
keep-perm p (Permᴰ.swap {a} {b} {a'} {b'} {l} e f) = elim (Bool-cases (p a')) [
  | inl h ↦ elim (Bool-cases (p b')) [
    | inl k ↦ rw (h, k, ap p e ∙ k, ap p f ∙ h) (Permᴰ.swap e f)
    | inr k ↦ rw (h, k, ap p e ∙ k, ap p f ∙ h) (Permᴰ.cons f (PermD.refl (keep p l)))
  ]
  | inr h ↦ elim (Bool-cases (p b')) [
    | inl k ↦ rw (h, k, ap p e ∙ k, ap p f ∙ h) (Permᴰ.cons e (PermD.refl (keep p l)))
    | inr k ↦ rw (h, k, ap p e ∙ k, ap p f ∙ h) (PermD.refl (keep p l))
  ]
]
keep-perm p (Permᴰ.trans q r) = Permᴰ.trans (keep-perm p q) (keep-perm p r)

module _ {ℓ} {A : Type ℓ} (values : ReleaseMetadata → List A) where
  -- The values of one provider behind those of another, or in front of them.
  swap_front : (x y rest : List A) → Permᴰ (x ++ (y ++ rest)) (y ++ (x ++ rest))
  swap_front x y rest =
      subst (λ l. Permᴰ l (y ++ (x ++ rest))) (append_assoc x y rest)
        (subst (λ l. Permᴰ ((x ++ y) ++ rest) l) (append_assoc y x rest)
          (PermD.append_right rest (PermD.append_comm x y)))

  extended-perm :
      {rs rs' : List MetadataProviderResult}
      → Permᴰ rs rs'
      → Permᴰ (extended values rs) (extended values rs')
  unfolding extended
  extended-perm Permᴰ.nil = Permᴰ.nil
  extended-perm (Permᴰ.cons {a} {b} {l₁} {l₂} e q) =
      subst
        (λ r.
          Permᴰ (values a.metadata ++ extended values l₁) (values r.metadata ++ extended values l₂))
        e (PermD.append_left (values a.metadata) (extended-perm q))
  extended-perm (Permᴰ.swap {a} {b} {a'} {b'} {l} e f) =
      subst
        (λ r.
          Permᴰ (values a.metadata ++ (values b.metadata ++ extended values l))
            (values a'.metadata ++ (values r.metadata ++ extended values l)))
        e
        (subst
          (λ r.
            Permᴰ (values a.metadata ++ (values b.metadata ++ extended values l))
              (values r.metadata ++ (values a.metadata ++ extended values l)))
          f (swap_front (values a.metadata) (values b.metadata) (extended values l)))
  extended-perm (Permᴰ.trans q r) = Permᴰ.trans (extended-perm q) (extended-perm r)

module _ (casefold : Text → Text) {rs rs' : List MetadataProviderResult} (p : Permᴰ rs rs') where
  text_values-perm :
      (values : ReleaseMetadata → List Text)
      → text_values casefold (extended values rs) ≡ text_values casefold (extended values rs')
  unfolding text_values
  text_values-perm values = sorted_set-perm (keep-perm _ (PermD.map _ (extended-perm values p)))

  provider_values-perm :
      (field : Field) → provider_values casefold rs field ≡ provider_values casefold rs' field
  unfolding provider_values identifier_values player_count_values
  provider_values-perm titles = text_values-perm (λ m. m.titles)
  provider_values-perm developers = text_values-perm (λ m. m.developers)
  provider_values-perm publishers = text_values-perm (λ m. m.publishers)
  provider_values-perm regions = text_values-perm (λ m. m.regions)
  provider_values-perm languages = text_values-perm (λ m. m.languages)
  provider_values-perm player_counts =
      sorted_set-perm (PermD.map _ (extended-perm (λ m. m.player_counts) p))
  provider_values-perm multiplayer_features = text_values-perm (λ m. m.multiplayer_features)
  provider_values-perm identifiers =
      sorted_set-perm (PermD.map _ (extended-perm (λ m. m.external_ids) p))

  map_fields :
      {A : Type 0} (f g : Field → A)
      → ((field : Field) → f field ≡ g field)
      → (fields : List Field) → map f fields ≡ map g fields
  map_fields f g h [] = refl
  map_fields f g h (field ∷ fields) =
      ap (λ x. x ∷ map f fields) (h field) ∙ ap (λ l. g field ∷ l) (map_fields f g h fields)

  -- The order in which the providers answered does not matter: the report on their results in any other
  -- order is the same, field by field, values included.
  pub reconcile_metadata-perm :
      (local : Option LocalContentMetadata)
      → reconcile_metadata casefold local rs ≡ reconcile_metadata casefold local rs'
  unfolding reconcile_metadata
  reconcile_metadata-perm local =
      map_fields _ _
        (λ field.
          ap (reconcile_values field (local_values casefold local field))
            (provider_values-perm field))
        comparable_metadata_fields
