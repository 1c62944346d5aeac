-- ===== src/Metadata/Relations.antt =====
-- metadata_reconciliation.py: what the status of a field says of the two tuples of keys.
use rom_metadata_framework.Prelude.{
  true, false, ◌≡◌, ◌≢◌, ◌↔◌, refl, inl, inr, Bool-cases, List, [], ◌∷◌, All, Text, elem_text,
  arith,
}
use rom_metadata_framework.LocalMetadata.{no_items}
use rom_metadata_framework.Metadata.Comparison.{
  agreement, divergent, is_subset, intersection, status_of,
}

-- Every key of the one is among the others.
abbrev pub AllAmong : List Text → List Text → Type 0
AllAmong as' bs = All (λ a. elem_text a bs ≡ true) as'

-- No key of the one is among the others.
abbrev pub NoneAmong : List Text → List Text → Type 0
NoneAmong as' bs = All (λ a. elem_text a bs ≡ false) as'

is_subset-AllAmong : (as' bs : List Text) → (is_subset as' bs ≡ true) ↔ AllAmong as' bs
unfolding is_subset
is_subset-AllAmong [] bs = (λ h. tt, λ h. refl)
is_subset-AllAmong (a ∷ as') bs =
    let rest = is_subset-AllAmong as' bs in
    (λ h. (ground (arith, h), rest.0 (ground (arith, h))), λ (h, hs). ground (arith, h, rest.1 hs))

intersection-NoneAmong :
    (as' bs : List Text) → (no_items (intersection as' bs) ≡ true) ↔ NoneAmong as' bs
unfolding intersection
intersection-NoneAmong [] bs = (λ h. tt, λ h. refl)
intersection-NoneAmong (a ∷ as') bs =
    let rest = intersection-NoneAmong as' bs in
    elim (Bool-cases (elem_text a bs)) [
      | inl e ↦ (λ h. absurd (ground (arith, h, e)), λ (h, hs). absurd (cc (e, h)))
      | inr e ↦ rw e (λ h. (refl, rest.0 h), λ (h, hs). rest.1 hs)
    ]

-- A field is in agreement exactly where both sides have keys and each key of either side is on the
-- other; it is divergent exactly where both sides have keys, but share none.
pub status_of-relations :
    (local provider : List Text)
    → ((status_of local provider ≡ agreement)
        ↔ ((local ≢ []) × (provider ≢ []) × AllAmong local provider × AllAmong provider local))
      × ((status_of local provider ≡ divergent)
          ↔ ((local ≢ []) × (provider ≢ []) × NoneAmong local provider))
unfolding status_of is_subset
status_of-relations [] [] =
    ((λ h. absurd (cc h), λ t. absurd (t.0 refl)), (λ h. absurd (cc h), λ t. absurd (t.0 refl)))
status_of-relations (a ∷ as') [] =
    ((λ h. absurd (cc h), λ t. absurd (t.1 refl)), (λ h. absurd (cc h), λ t. absurd (t.1 refl)))
status_of-relations [] (b ∷ bs) =
    ((λ h. absurd (cc h), λ t. absurd (t.0 refl)), (λ h. absurd (cc h), λ t. absurd (t.0 refl)))
status_of-relations (a ∷ as') (b ∷ bs) =
    let there = is_subset-AllAmong (a ∷ as') (b ∷ bs) in
    let back = is_subset-AllAmong (b ∷ bs) (a ∷ as') in
    let apart = intersection-NoneAmong (a ∷ as') (b ∷ bs) in
    (
      (
        λ h. (filled a as', filled b bs, there.0 (ground (arith, h)), back.0 (ground (arith, h))),
        λ (l, r, all, all'). ground (arith, there.1 all, back.1 all'),
      ),
      (
        λ h. (filled a as', filled b bs, apart.0 (ground (arith, h))),
        λ (l, r, none'). divergent_status (apart.1 none') none'.0,
      ),
    )
  where
    filled : (c : Text) (cs : List Text) → (c ∷ cs) ≢ []
    filled c cs h = cc h

    divergent_status :
        no_items (intersection (a ∷ as') (b ∷ bs)) ≡ true
        → elem_text a (b ∷ bs) ≡ false
        → status_of (a ∷ as') (b ∷ bs) ≡ divergent
    divergent_status e h =
        let not_all : is_subset (a ∷ as') (b ∷ bs) ≡ false = ground (arith, h) in
        rw (not_all, e) refl
