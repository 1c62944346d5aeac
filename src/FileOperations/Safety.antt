-- ===== src/FileOperations/Safety.antt =====
-- file_operations.py: what a rename does to the two names, alone and beside others.
use rom_metadata_framework.Prelude.{
  ℕ, true, false, not, ◌≡◌, ◌≢◌, ◌⊎◌, inl, inr, refl, ap, Bool-cases, if◌then◌else◌, Option, none,
  some, ◌=t=◌, =t=_iff, ok, err, arith,
}
use rom_metadata_framework.FileOperations.Rename.{
  Outcome, is_symlink, is_file, interrupted, FilePath, path_eq, Node, file, symlink, directory,
  special, Tree, put, lexists, Fate, done, then_interrupted, World, destination_exists, link,
  link_source, check_destination, rename_file_no_overwrite,
}

path_eq_refl : (p : FilePath) → path_eq p p ≡ true
unfolding path_eq
path_eq_refl p = ground (arith, =t=_iff p.parent p.parent, =t=_iff p.name p.name)

path_eq_sound : (p q : FilePath) → path_eq p q ≡ true → p ≡ q
unfolding path_eq
path_eq_sound p q h = ground (arith, =t=_iff p.parent q.parent, =t=_iff p.name q.name)

abbrev nothing : Tree → Tree
nothing t = t

-- Nobody else writes to the tree.
abbrev pub alone : Fate → Fate → Fate → World
alone link_fate unlink_fate cleanup_fate = record {
  gap_symlink = nothing;
  gap_file = nothing;
  gap_exists = nothing;
  gap_link = nothing;
  gap_unlink = nothing;
  link_fate = link_fate;
  unlink_fate = unlink_fate;
  cleanup_fate = cleanup_fate;
}

-- The tree after a rename that was carried out.
abbrev pub moved : Tree → FilePath → FilePath → Tree
moved t source destination q =
    if path_eq source q then none else if path_eq destination q then t source else t q

-- What a rename needs: two names of one directory, the first of a regular file, the second free.
pub record IsReady (t : Tree) (source destination : FilePath) : Type 0 where
  pub same_parent : source.parent ≡ destination.parent
  pub distinct : path_eq source destination ≡ false
  pub inode : ℕ
  pub regular : t source ≡ some (file inode)
  pub free : t destination ≡ none

module _ (t : Tree) (source destination : FilePath) where
  rename_ready :
      (cleanup_fate : Fate)
      → IsReady t source destination
      → ((rename_file_no_overwrite (alone done done cleanup_fate) source destination t).0 ≡ ok tt)
        × ((q : FilePath)
            → (rename_file_no_overwrite (alone done done cleanup_fate) source destination t).1 q
              ≡ moved t source destination q)
  unfolding rename_file_no_overwrite put
  rename_ready cleanup_fate r = (
    ground (
      arith,
      =t=_iff source.parent destination.parent,
      path_eq_refl source,
      r.same_parent,
      r.distinct,
      r.regular,
      r.free,
    ),
    λ q. ground (
      arith,
      =t=_iff source.parent destination.parent,
      path_eq_refl source,
      r.same_parent,
      r.distinct,
      r.regular,
      r.free,
    ),
  )

  module _ (link_fate unlink_fate : Fate) where
    abbrev pub outcome : Outcome
    outcome = rename_file_no_overwrite (alone link_fate unlink_fate done) source destination t

    ok_needs :
        path_eq source destination ≡ false
        → outcome.0 ≡ ok tt
        → (source.parent ≡ destination.parent)
          × (is_symlink (t source) ≡ false)
          × (is_file (t source) ≡ true)
          × (t destination ≡ none)
          × (link_fate ≡ done)
          × (unlink_fate ≡ done)
    unfolding rename_file_no_overwrite put
    ok_needs ne h = ground (arith, =t=_iff source.parent destination.parent)

    ok_same : path_eq source destination ≡ true → (q : FilePath) → outcome.1 q ≡ t q
    unfolding rename_file_no_overwrite
    ok_same e q = ground arith

    err_keeps :
        link_fate ≢ then_interrupted
        → unlink_fate ≢ then_interrupted
        → outcome.0 ≢ ok tt
        → (q : FilePath) → outcome.1 q ≡ t q
    unfolding rename_file_no_overwrite put
    err_keeps unlinked calm failed q =
        ground (arith, path_eq_refl destination, path_eq_sound destination q)

-- A signal behind the link.
link_interrupted :
    (t : Tree) (source destination : FilePath) (unlink_fate : Fate)
    → IsReady t source destination
    → ((outcome t source destination then_interrupted unlink_fate).0 ≡ err interrupted)
      × ((q : FilePath)
          → (outcome t source destination then_interrupted unlink_fate).1 q
            ≡ (if path_eq destination q then t source else t q))
unfolding rename_file_no_overwrite put
link_interrupted t source destination unlink_fate r = (
  ground (
    arith,
    =t=_iff source.parent destination.parent,
    r.same_parent,
    r.distinct,
    r.regular,
    r.free,
  ),
  λ q. ground (
    arith,
    =t=_iff source.parent destination.parent,
    r.same_parent,
    r.distinct,
    r.regular,
    r.free,
  ),
)

is_file-inode :
    (o : Option Node)
    → is_symlink o ≡ false
    → is_file o ≡ true
    → (inode : ℕ) × (o ≡ some (file inode))
is_file-inode none h k = absurd (cc k)
is_file-inode (some (file inode)) h k = (inode, refl)
is_file-inode (some (symlink target)) h k = absurd (cc h)
is_file-inode (some directory) h k = absurd (cc k)
is_file-inode (some special) h k = absurd (cc k)

module _ (t : Tree) (source destination : FilePath) (link_fate unlink_fate : Fate) where
  -- Without others, and where the clean-up is neither refused nor interrupted, a rename that returns
  -- had one name as both and changed nothing, or moved a regular file to a free name of the same
  -- directory and touched no other name; a rename that raises, and not from a signal behind the link
  -- or behind the removal, has left the tree as it was; and one of ready names that a signal behind the
  -- link interrupts leaves the file under both names, and all other names as they were.
  pub rename_alone :
      ((outcome t source destination link_fate unlink_fate).0 ≡ ok tt
        → ((source ≡ destination)
            × ((q : FilePath) → (outcome t source destination link_fate unlink_fate).1 q ≡ t q))
          ⊎ (IsReady t source destination
              × ((q : FilePath)
                  → (outcome t source destination link_fate unlink_fate).1 q
                    ≡ moved t source destination q)))
      × (link_fate ≢ then_interrupted
          → unlink_fate ≢ then_interrupted
          → (outcome t source destination link_fate unlink_fate).0 ≢ ok tt
          → (q : FilePath) → (outcome t source destination link_fate unlink_fate).1 q ≡ t q)
      × (IsReady t source destination
          → link_fate ≡ then_interrupted
          → ((outcome t source destination link_fate unlink_fate).0 ≡ err interrupted)
            × ((q : FilePath)
                → (outcome t source destination link_fate unlink_fate).1 q
                  ≡ (if path_eq destination q then t source else t q)))
  rename_alone = (
    λ h. elim (Bool-cases (path_eq source destination)) [
      | inl e ↦
          inl (
            path_eq_sound source destination e,
            ok_same t source destination link_fate unlink_fate e,
          )
      | inr ne ↦ inr (ready ne h)
    ],
    err_keeps t source destination link_fate unlink_fate,
    λ is_ready late. rw late (link_interrupted t source destination unlink_fate is_ready),
  )
    where
      ready :
          path_eq source destination ≡ false
          → (outcome t source destination link_fate unlink_fate).0 ≡ ok tt
          → IsReady t source destination
            × ((q : FilePath)
                → (outcome t source destination link_fate unlink_fate).1 q
                  ≡ moved t source destination q)
      ready ne h =
          let (p, l, f, d, r, u) = ok_needs t source destination link_fate unlink_fate ne h in
          let (i, n) = is_file-inode (t source) l f in
          let is_ready : IsReady t source destination = record {
            same_parent = p;
            distinct = ne;
            inode = i;
            regular = n;
            free = d;
          } in
          (is_ready, λ q. rw (r, u) ((rename_ready t source destination done is_ready).1 q))

-- Where the two names are ready for a rename and nobody else writes, but a signal comes while the
-- source name is being removed, the call raises `KeyboardInterrupt` and the clean-up removes the only
-- name that is left: neither name exists afterwards.
pub rename_interrupted_loses :
    (t : Tree) (source destination : FilePath)
    → IsReady t source destination
    → ((rename_file_no_overwrite (alone done then_interrupted done) source destination t).0
        ≡ err interrupted)
      × ((rename_file_no_overwrite (alone done then_interrupted done) source destination t).1 source
          ≡ none)
      × ((rename_file_no_overwrite (alone done then_interrupted done) source destination t).1
            destination
          ≡ none)
unfolding rename_file_no_overwrite put
rename_interrupted_loses t source destination r = ground (
  arith,
  =t=_iff source.parent destination.parent,
  path_eq_refl source,
  path_eq_refl destination,
  r.same_parent,
  r.distinct,
  r.regular,
  r.free,
)

module _ (w : World) (source destination : FilePath) where
  -- A destination that is there by then.
  link_taken :
      (n : Node) (u : Tree)
      → u destination ≡ some n
      → link_source w source destination u ≡ (err destination_exists, u)
  unfolding link_source link
  link_taken n u there = ground (arith, there)

  race_destination :
      (n : Node) (u : Tree)
      → w.gap_exists u destination ≡ some n
      → ((check_destination w source destination u).1 ≡ u)
        ⊎ ((check_destination w source destination u).1 ≡ w.gap_exists u)
  unfolding check_destination
  race_destination n u there = elim (Bool-cases (lexists (u destination))) [
    | inl old ↦ inl (rw (old, check_destination))
    | inr free ↦ inr (
        rw (free, check_destination)
          (ap (λ (o : Outcome). o.1) (link_taken n (w.gap_exists u) there)))
  ]

module _ (w : World) (source destination : FilePath) (t : Tree) where
  abbrev pub at_link : Tree
  at_link = w.gap_exists (w.gap_file (w.gap_symlink t))

  race_fails :
      (n : Node)
      → path_eq source destination ≡ false
      → at_link destination ≡ some n
      → (rename_file_no_overwrite w source destination t).0 ≢ ok tt
  unfolding rename_file_no_overwrite
  race_fails n ne there = ground arith

  race_trees :
      (n : Node)
      → path_eq source destination ≡ false
      → at_link destination ≡ some n
      → ((rename_file_no_overwrite w source destination t).1 ≡ at_link)
        ⊎ ((rename_file_no_overwrite w source destination t).1 ≡ w.gap_file (w.gap_symlink t))
        ⊎ ((rename_file_no_overwrite w source destination t).1 ≡ w.gap_symlink t)
        ⊎ ((rename_file_no_overwrite w source destination t).1 ≡ t)
  unfolding rename_file_no_overwrite
  race_trees n ne there = elim (Bool-cases (not (source.parent =t= destination.parent))) [
    | inl apart ↦ inr (inr (inr (rw (apart, rename_file_no_overwrite))))
    | inr near ↦ elim (Bool-cases (is_symlink (t source))) [
      | inl link ↦ inr (inr (inr (rw (near, ne, link, rename_file_no_overwrite))))
      | inr plain ↦ elim (Bool-cases (not (is_file (w.gap_symlink t source)))) [
        | inl gone ↦ inr (inr (inl (rw (near, ne, plain, gone, rename_file_no_overwrite))))
        | inr there' ↦
            rw (near, ne, plain, there', rename_file_no_overwrite)
              (elim (race_destination w source destination n (w.gap_file (w.gap_symlink t)) there) [
                | inl p ↦ inr (inl p)
                | inr p ↦ inl p
              ])
      ]
    ]
  ]

  -- Whatever others do meanwhile: where the destination exists by the time of the link, the rename
  -- fails, and has itself written nothing: the tree is one that the others left.
  pub rename_race :
      (n : Node)
      → path_eq source destination ≡ false
      → at_link destination ≡ some n
      → ((rename_file_no_overwrite w source destination t).0 ≢ ok tt)
        × (((rename_file_no_overwrite w source destination t).1 ≡ at_link)
            ⊎ ((rename_file_no_overwrite w source destination t).1 ≡ w.gap_file (w.gap_symlink t))
            ⊎ ((rename_file_no_overwrite w source destination t).1 ≡ w.gap_symlink t)
            ⊎ ((rename_file_no_overwrite w source destination t).1 ≡ t))
  rename_race n ne there = (race_fails n ne there, race_trees n ne there)

-- Others leave the two names alone, whatever else they do.
pub record SparesNames (w : World) (source destination : FilePath) : Type 0 where
  pub at_symlink :
      (t' : Tree)
      → (w.gap_symlink t' source ≡ t' source) × (w.gap_symlink t' destination ≡ t' destination)
  pub at_file :
      (t' : Tree)
      → (w.gap_file t' source ≡ t' source) × (w.gap_file t' destination ≡ t' destination)
  pub at_exists :
      (t' : Tree)
      → (w.gap_exists t' source ≡ t' source) × (w.gap_exists t' destination ≡ t' destination)
  pub at_link :
      (t' : Tree)
      → (w.gap_link t' source ≡ t' source) × (w.gap_link t' destination ≡ t' destination)
  pub at_unlink :
      (t' : Tree)
      → (w.gap_unlink t' source ≡ t' source) × (w.gap_unlink t' destination ≡ t' destination)

module _ (w : World) (source destination : FilePath) (t : Tree) where
  -- Where others leave the two names alone and no signal comes during a removal, a regular file that
  -- the source named is still named by the source or by the destination, however the rename ends.
  pub rename-keeps_file :
      (inode : ℕ)
      → SparesNames w source destination
      → w.unlink_fate ≢ then_interrupted
      → w.cleanup_fate ≢ then_interrupted
      → t source ≡ some (file inode)
      → ((rename_file_no_overwrite w source destination t).1 source ≡ some (file inode))
        ⊎ ((rename_file_no_overwrite w source destination t).1 destination ≡ some (file inode))
  unfolding rename_file_no_overwrite put
  rename-keeps_file inode s calm calm' there =
      let u = w.gap_symlink t in
      let v = w.gap_file u in
      let x = w.gap_exists v in
      let y = w.gap_link (put x destination (x source)) in
      ground (
        arith,
        s.at_symlink t,
        s.at_file u,
        s.at_exists v,
        s.at_link (put x destination (x source)),
        s.at_unlink y,
        s.at_unlink (put y source none),
        path_eq_refl source,
        path_eq_refl destination,
        path_eq_sound source destination,
        path_eq_sound destination source,
      )
