-- ===== src/Detection/Ranking.antt =====
-- detection.py: `best` and `is_ambiguous` against the candidates of the highest confidence.
use rom_metadata_framework.Prelude.{
  true, ℕ, ◌≤◌, ◌<◌, ◌≡◌, ◌↔◌, inl, inr, refl, sym, ap, subst, ◌∙◌, ltb, leb, ◌==◌, if◌then◌else◌,
  some, List, [], ◌∷◌, length, keep, All, Bool-cases, arith,
}
use rom_metadata_framework.Detection.Candidates.{
  PlatformCandidate, max_from, best, insert, sorted, first_two_equal, is_ambiguous,
}

module _ {ℓ} {Evidence : Type ℓ} where
  -- The candidates of one confidence.
  abbrev pub ranked : ℕ → List (PlatformCandidate Evidence) → List (PlatformCandidate Evidence)
  ranked m = keep (λ (c : PlatformCandidate Evidence). c.confidence == m)

  IsBelow : ℕ → List (PlatformCandidate Evidence) → Type 0
  IsBelow m = All (λ (c : PlatformCandidate Evidence). c.confidence ≤ m)

  skip :
      {m : ℕ} {ks : List (PlatformCandidate Evidence)} (b : PlatformCandidate Evidence)
      (cs : List (PlatformCandidate Evidence))
      → b.confidence < m
      → ranked m cs ≡ ks
      → ranked m (b ∷ cs) ≡ ks
  skip b cs less e = ground (arith, less, e)

  behind :
      (x b c : PlatformCandidate Evidence) (cs : List (PlatformCandidate Evidence))
      → b.confidence ≤ x.confidence
      → c.confidence ≤ b.confidence
      → (rest : List (PlatformCandidate Evidence)) → ranked x.confidence (b ∷ cs) ≡ x ∷ rest
      → (rest' : List (PlatformCandidate Evidence)) × (ranked x.confidence (b ∷ c ∷ cs) ≡ x ∷ rest')
  behind x b c cs le falls rest e = elim (Bool-cases (b.confidence == x.confidence)) [
    | inl top ↦ (ranked x.confidence (c ∷ cs), ground (arith, top, e))
    | inr below ↦ (rest, ground (arith, below, e, falls, le))
  ]

  -- The first candidate of the highest confidence.
  IsFirst :
      PlatformCandidate Evidence
      → List (PlatformCandidate Evidence)
      → PlatformCandidate Evidence
      → Type ℓ
  IsFirst b cs x =
      (b.confidence ≤ x.confidence)
      × ((rest : List (PlatformCandidate Evidence)) × (ranked x.confidence (b ∷ cs) ≡ x ∷ rest))

  max_from-IsFirst :
      (b : PlatformCandidate Evidence) (cs : List (PlatformCandidate Evidence))
      → IsFirst b cs (max_from b cs)
  unfolding max_from IsFirst
  max_from-IsFirst b [] = (omega arith, ([], ground arith))
  max_from-IsFirst b (c ∷ cs) = elim (Bool-cases (ltb b.confidence c.confidence)) [
    | inl rises ↦
        let (le, (rest, e)) = max_from-IsFirst c cs in
        subst (IsFirst b (c ∷ cs)) (sym (ap (λ t. max_from (if t then c else b) cs) rises))
          (ground (arith, le, rises), (rest, skip b (c ∷ cs) (ground (arith, le, rises)) e))
    | inr falls ↦
        let (le, (rest, e)) = max_from-IsFirst b cs in
        subst (IsFirst b (c ∷ cs)) (sym (ap (λ t. max_from (if t then c else b) cs) falls))
          (le, behind (max_from b cs) b c cs le (ground (arith, falls)) rest e)
  ]

  -- Sorting keeps the number of candidates of each confidence.
  length-ranked-insert :
      (m : ℕ) (c : PlatformCandidate Evidence) (cs : List (PlatformCandidate Evidence))
      → length (ranked m (insert c cs)) ≡ length (ranked m (c ∷ cs))
  unfolding insert
  length-ranked-insert m c [] = refl
  length-ranked-insert m c (d ∷ ds) = ground (arith, length-ranked-insert m c ds)

  length-ranked-sorted :
      (m : ℕ) (cs : List (PlatformCandidate Evidence))
      → length (ranked m (sorted cs)) ≡ length (ranked m cs)
  unfolding sorted
  length-ranked-sorted m [] = refl
  length-ranked-sorted m (c ∷ cs) =
      length-ranked-insert m c (sorted cs) ∙ ground (arith, length-ranked-sorted m cs)

  -- Every candidate is followed by none above it.
  IsFalling : List (PlatformCandidate Evidence) → Type 0
  IsFalling [] = Unit
  IsFalling (c ∷ cs) = IsBelow c.confidence cs × IsFalling cs

  insert-IsBelow :
      (m : ℕ) (c : PlatformCandidate Evidence) (cs : List (PlatformCandidate Evidence))
      → c.confidence ≤ m
      → IsBelow m cs
      → IsBelow m (insert c cs)
  unfolding insert IsBelow
  insert-IsBelow m c [] le h = (le, tt)
  insert-IsBelow m c (d ∷ ds) le (hd, h) = elim (Bool-cases (leb d.confidence c.confidence)) [
    | inl high ↦ rw high (le, (hd, h))
    | inr low ↦ rw low (hd, insert-IsBelow m c ds le h)
  ]

  IsBelow-mono :
      (m n : ℕ) (cs : List (PlatformCandidate Evidence)) → m ≤ n → IsBelow m cs → IsBelow n cs
  unfolding IsBelow
  IsBelow-mono m n [] le h = tt
  IsBelow-mono m n (c ∷ cs) le (hc, h) = (omega (arith, hc, le), IsBelow-mono m n cs le h)

  insert-IsFalling :
      (c : PlatformCandidate Evidence) (cs : List (PlatformCandidate Evidence))
      → IsFalling cs
      → IsFalling (insert c cs)
  unfolding insert IsFalling IsBelow
  insert-IsFalling c [] h = (tt, tt)
  insert-IsFalling c (d ∷ ds) (hd, h) = elim (Bool-cases (leb d.confidence c.confidence)) [
    | inl high ↦ rw high (
        (
          (
            ground (arith, high),
            IsBelow-mono d.confidence c.confidence ds (ground (arith, high)) hd,
          ),
          (hd, h),
        ))
    | inr low ↦
        rw low
          ((insert-IsBelow d.confidence c ds (ground (arith, low)) hd, insert-IsFalling c ds h))
  ]

  sorted-IsFalling : (cs : List (PlatformCandidate Evidence)) → IsFalling (sorted cs)
  unfolding sorted IsFalling
  sorted-IsFalling [] = tt
  sorted-IsFalling (c ∷ cs) = insert-IsFalling c (sorted cs) (sorted-IsFalling cs)

  sorted-IsBelow :
      (m : ℕ) (cs : List (PlatformCandidate Evidence)) → IsBelow m cs → IsBelow m (sorted cs)
  unfolding sorted IsBelow
  sorted-IsBelow m [] h = tt
  sorted-IsBelow m (c ∷ cs) (hc, h) = insert-IsBelow m c (sorted cs) hc (sorted-IsBelow m cs h)

  max_from-IsBelow :
      (b : PlatformCandidate Evidence) (cs : List (PlatformCandidate Evidence))
      → IsBelow (max_from b cs).confidence cs
  unfolding max_from IsBelow IsFirst
  max_from-IsBelow b [] = tt
  max_from-IsBelow b (c ∷ cs) = elim (Bool-cases (ltb b.confidence c.confidence)) [
    | inl rises ↦
        subst (λ (x : PlatformCandidate Evidence). IsBelow x.confidence (c ∷ cs))
          (sym (ap (λ t. max_from (if t then c else b) cs) rises))
          ((max_from-IsFirst c cs).0, max_from-IsBelow c cs)
    | inr falls ↦
        let le = (max_from-IsFirst b cs).0 in
        subst (λ (x : PlatformCandidate Evidence). IsBelow x.confidence (c ∷ cs))
          (sym (ap (λ t. max_from (if t then c else b) cs) falls))
          (ground (arith, falls, le), max_from-IsBelow b cs)
  ]

  none_ranked :
      (m n : ℕ) (cs : List (PlatformCandidate Evidence)) → n < m → IsBelow n cs → ranked m cs ≡ []
  unfolding IsBelow
  none_ranked m n [] less h = refl
  none_ranked m n (c ∷ cs) less (hc, h) = ground (arith, less, hc, none_ranked m n cs less h)

  falling_two :
      (m : ℕ) (cs : List (PlatformCandidate Evidence))
      → IsFalling cs
      → IsBelow m cs
      → 1 ≤ length (ranked m cs)
      → (first_two_equal cs ≡ true) ↔ (2 ≤ length (ranked m cs))
  unfolding first_two_equal IsFalling IsBelow
  falling_two m [] f b one = ground (arith, one)
  falling_two m (c ∷ []) f b one = ground (arith, one)
  falling_two m (c ∷ d ∷ ds) ((dc, dsc), (dsd, f)) (bc, (bd, b)) one =
      let top : (c.confidence == m) ≡ true = elim (Bool-cases (ltb c.confidence m)) [
        | inl less ↦
            let gone = none_ranked m c.confidence (d ∷ ds) (ground (arith, less)) (dc, dsc) in
            ground (arith, less, gone, one)
        | inr more ↦ ground (arith, more, bc)
      ] in
      elim (Bool-cases (ltb d.confidence m)) [
        | inl less ↦
            let gone = none_ranked m d.confidence ds (ground (arith, less)) dsd in
            ground (arith, top, less, gone)
        | inr more ↦ ground (arith, top, more, bd)
      ]

  -- For a list with a best candidate: that is the first of those with the highest confidence, no
  -- candidate is above it, and `is_ambiguous` says whether another one has the same confidence.
  pub best-ranked :
      (candidates : List (PlatformCandidate Evidence)) {b : PlatformCandidate Evidence}
      → best candidates ≡ some b
      → ((rest : List (PlatformCandidate Evidence)) × (ranked b.confidence candidates ≡ b ∷ rest))
        × All (λ (c : PlatformCandidate Evidence). c.confidence ≤ b.confidence) candidates
        × ((is_ambiguous candidates ≡ true) ↔ (2 ≤ length (ranked b.confidence candidates)))
  unfolding best is_ambiguous IsFirst IsBelow
  best-ranked [] h = absurd (cc h)
  best-ranked (c ∷ cs) h =
      subst
        (λ (x : PlatformCandidate Evidence).
          ((rest : List (PlatformCandidate Evidence)) × (ranked x.confidence (c ∷ cs) ≡ x ∷ rest))
          × All (λ (d : PlatformCandidate Evidence). d.confidence ≤ x.confidence) (c ∷ cs)
          × ((is_ambiguous (c ∷ cs) ≡ true) ↔ (2 ≤ length (ranked x.confidence (c ∷ cs)))))
        (some-injective h) facts
    where
      some-injective : {x y : PlatformCandidate Evidence} → some x ≡ some y → x ≡ y
      some-injective e = cc e

      m : ℕ
      m = (max_from c cs).confidence

      first :
          (rest : List (PlatformCandidate Evidence)) × (ranked m (c ∷ cs) ≡ max_from c cs ∷ rest)
      first = (max_from-IsFirst c cs).1

      below : IsBelow m (c ∷ cs)
      below = ((max_from-IsFirst c cs).0, max_from-IsBelow c cs)

      counted : length (ranked m (sorted (c ∷ cs))) ≡ length (ranked m (c ∷ cs))
      counted = length-ranked-sorted m (c ∷ cs)

      one : 1 ≤ length (ranked m (sorted (c ∷ cs)))
      one = omega (arith, counted, ap length first.1)

      facts :
          ((rest : List (PlatformCandidate Evidence)) × (ranked m (c ∷ cs) ≡ max_from c cs ∷ rest))
          × All (λ (d : PlatformCandidate Evidence). d.confidence ≤ m) (c ∷ cs)
          × ((is_ambiguous (c ∷ cs) ≡ true) ↔ (2 ≤ length (ranked m (c ∷ cs))))
      facts = (
        first,
        below,
        subst (λ n. (is_ambiguous (c ∷ cs) ≡ true) ↔ (2 ≤ n)) counted
            (falling_two m (sorted (c ∷ cs)) (sorted-IsFalling (c ∷ cs))
              (sorted-IsBelow m (c ∷ cs) below) one),
      )
