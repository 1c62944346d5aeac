-- ===== src/Xdvdfs/Preorder.antt =====
-- xdvdfs.py: `list_directory` against the binary trees that a directory table stores.
use mathlib.Core.List.{append-nil, append_assoc}
use Prim.Native.Nat.{max}
use rom_metadata_framework.Prelude.{
  ℕ, zero, suc, ◌+◌, ◌*◌, ◌≤◌, ◌==◌, ◌≡◌, ◌≢◌, ◌∙◌, refl, ap, true, false, Bool-cases, ◌&&◌,
  if◌then◌else◌, inl, inr, Option, List, [], ◌∷◌, ◌++◌, length, length-append, elem, Bytes, arith,
  leb,
}
use rom_metadata_framework.Prelude.{Result, ok, err, ◌>>=◌}
use rom_metadata_framework.Xdvdfs.Types.{Error, recursion_error, DirectoryEntry}
use rom_metadata_framework.Xdvdfs.Reader.{Reader, read_directory_table}
use rom_metadata_framework.Xdvdfs.Directory.{
  Node, read_node, Walk, descend, walk, unvisited, list_directory,
}
use rom_metadata_framework.Xdvdfs.Termination.{add-new}

-- A search tree of entries, each with the offset of its node in the table.
pub data Tree : Type 0 where
  leaf : Tree
  node : ℕ → DirectoryEntry → Tree → Tree → Tree

abbrev pub preorder : Tree → List DirectoryEntry
preorder leaf = []
preorder (node o e l r) = e ∷ (preorder l ++ preorder r)

abbrev pub offsets : Tree → List ℕ
offsets leaf = []
offsets (node o e l r) = o ∷ (offsets l ++ offsets r)

abbrev pub height : Tree → ℕ
height leaf = 0
height (node o e l r) = suc (max (height l) (height r))

-- The table stores the tree behind this link.
abbrev pub Holds : Bytes → ℕ → Tree → Type 0
Holds data' link leaf = link ≡ 0
Holds data' link (node o e l r) =
    (link ≢ 0)
    × (o ≡ link * 4)
    × (n : Node) × (read_node data' o ≡ ok n)
    × (n.entry ≡ e)
    × Holds data' n.left l
    × Holds data' n.right r

-- The table stores the tree, with its root at offset 0.
abbrev pub IsTable : Bytes → Tree → Type 0
IsTable data' leaf = ⊥
IsTable data' (node o e l r) =
    (o ≡ 0)
    × (n : Node) × (read_node data' o ≡ ok n)
    × (n.entry ≡ e)
    × Holds data' n.left l
    × Holds data' n.right r

abbrev pub count : ℕ → List ℕ → ℕ
count x [] = 0
count x (y ∷ ys) = (if x == y then 1 else 0) + count x ys

count-append : (x : ℕ) (xs ys : List ℕ) → count x (xs ++ ys) ≡ count x xs + count x ys
count-append x [] ys = omega arith
count-append x (y ∷ xs) ys = omega (arith, count-append x xs ys)

elem_of_count : (x : ℕ) (xs : List ℕ) → count x xs ≡ 0 → elem x xs ≡ false
elem_of_count x [] h = refl
elem_of_count x (y ∷ xs) h = ground (arith, elem_of_count x xs)

-- What has been seen when the walk leaves the tree.
seen_after : Tree → List ℕ → List ℕ
seen_after leaf s = s
seen_after (node o e l r) s = seen_after r (seen_after l (o ∷ s))

count-seen_after :
    (x : ℕ) (t : Tree) (s : List ℕ) → count x (seen_after t s) ≡ count x (offsets t) + count x s
unfolding seen_after
count-seen_after x leaf s = omega arith
count-seen_after x (node o e l r) s = omega (
  arith,
  count-seen_after x r (seen_after l (o ∷ s)),
  count-seen_after x l (o ∷ s),
  count-append x (offsets l) (offsets r),
)

length-seen_after :
    (t : Tree) (s : List ℕ) → length (seen_after t s) ≡ length (offsets t) + length s
unfolding seen_after
length-seen_after leaf s = omega arith
length-seen_after (node o e l r) s = omega (
  arith,
  length-seen_after r (seen_after l (o ∷ s)),
  length-seen_after l (o ∷ s),
  length-append (offsets l) (offsets r),
)

abbrev leave : Tree → Walk → Walk
leave t w = record { seen = seen_after t w.seen; entries = w.entries ++ preorder t }

-- The walk of a tree with enough frames, and with too few.
abbrev outcome : ℕ → Tree → Walk → Result Error Walk
outcome depth t w = if leb (height t) depth then ok (leave t w) else err recursion_error

-- The walk behind a node whose offset was not seen.
abbrev reached : ℕ → DirectoryEntry → Walk → Walk
reached o e w = record { seen = o ∷ w.seen; entries = w.entries ++ e ∷ [] }

leave-node :
    (o : ℕ) (e : DirectoryEntry) (l r : Tree) (w : Walk)
    → leave r (leave l (reached o e w)) ≡ leave (node o e l r) w
unfolding seen_after
leave-node o e l r w =
    ap (λ es. record { seen = seen_after (node o e l r) w.seen; entries = es }) (simp append_assoc)

leb-zero : (depth : ℕ) → leb 0 depth ≡ true
leb-zero depth = ground arith

leb-height :
    (depth : ℕ) (o : ℕ) (e : DirectoryEntry) (l r : Tree)
    → leb (height (node o e l r)) (suc depth) ≡ (leb (height l) depth && leb (height r) depth)
leb-height depth o e l r = ground arith

module _ (data' : Bytes) (max_nodes : ℕ) where
  -- No offset of the tree was seen, none stands twice in it, and the limit admits them all.
  record Fits (t : Tree) (w : Walk) : Type 0 where
    apart : (x : ℕ) → count x (offsets t) + count x w.seen ≤ 1
    room : length (offsets t) + length w.seen ≤ max_nodes

  -- The walk of the subtree behind a link, for each number of frames.
  abbrev Walks : ℕ → Tree → Type 0
  Walks link t =
      (depth : ℕ) (w : Walk)
      → Fits t w
      → descend (walk data' max_nodes depth) link w ≡ outcome depth t w

  left-Fits :
      (o : ℕ) (e : DirectoryEntry) (l r : Tree) (w : Walk)
      → Fits (node o e l r) w
      → Fits l (reached o e w)
  left-Fits o e l r w f = record {
    apart = λ x. omega (arith, f.apart x, count-append x (offsets l) (offsets r));
    room = omega (arith, f.room, length-append (offsets l) (offsets r));
  }

  right-Fits :
      (o : ℕ) (e : DirectoryEntry) (l r : Tree) (w : Walk)
      → Fits (node o e l r) w
      → Fits r (leave l (reached o e w))
  right-Fits o e l r w f = record {
    apart = λ x. omega (
      arith,
      f.apart x,
      count-append x (offsets l) (offsets r),
      count-seen_after x l (o ∷ w.seen),
    );
    room =
        omega
          (arith, f.room, length-append (offsets l) (offsets r), length-seen_after l (o ∷ w.seen));
  }

  -- Both subtrees, one after the other.
  children_walk :
      (depth o : ℕ) (n : Node) (l r : Tree) (w : Walk)
      → Walks n.left l
      → Walks n.right r
      → Fits (node o n.entry l r) w
      → (descend (walk data' max_nodes depth) n.left (reached o n.entry w) >>= λ v.
          descend (walk data' max_nodes depth) n.right v)
        ≡ outcome (suc depth) (node o n.entry l r) w
  unfolding seen_after
  children_walk depth o n l r w hl hr f =
      rw (hl depth (reached o n.entry w) (left-Fits o n.entry l r w f)) (
        rw (leb-height depth o n.entry l r) (elim (Bool-cases (leb (height l) depth)) [
          | inl low ↦ rw low (
              hr depth (leave l (reached o n.entry w)) (right-Fits o n.entry l r w f)
              ∙ ap (λ v. if leb (height r) depth then ok v else err recursion_error)
                  (leave-node o n.entry l r w))
          | inr high ↦ rw high
        ]))

  -- The walk of a node that the table holds.
  node_walk :
      (depth o : ℕ) (n : Node) (l r : Tree) (w : Walk)
      → read_node data' o ≡ ok n
      → Walks n.left l
      → Walks n.right r
      → Fits (node o n.entry l r) w
      → walk data' max_nodes depth o w ≡ outcome depth (node o n.entry l r) w
  unfolding walk
  node_walk zero o n l r w h hl hr f = ground arith
  node_walk (suc depth) o n l r w h hl hr f =
      let new : elem o w.seen ≡ false = elem_of_count o w.seen (ground (arith, f.apart o)) in
      let free : leb max_nodes (length w.seen) ≡ false = ground (arith, f.room) in
      rw (new, walk)
        (rw (free, walk)
          (rw (h, walk) (rw (add-new o w.seen new) (children_walk depth o n l r w hl hr f))))

  node_walk_held :
      (o : ℕ) (e : DirectoryEntry) (n : Node) (l r : Tree) (depth : ℕ) (w : Walk)
      → read_node data' o ≡ ok n
      → n.entry ≡ e
      → Walks n.left l
      → Walks n.right r
      → Fits (node o e l r) w
      → walk data' max_nodes depth o w ≡ outcome depth (node o e l r) w
  node_walk_held o e n l r depth w h same hl hr f =
      rw (← same) (node_walk depth o n l r w h hl hr (rw same f))

  Holds-Walks : (t : Tree) (link : ℕ) → Holds data' link t → Walks link t
  unfolding descend seen_after
  Holds-Walks leaf link h depth w f = rw (h, descend) (rw (leb-zero depth, append-nil))
  Holds-Walks (node o e l r) link (some', at, n, h, same, hl, hr) depth w f =
      rw (not_zero link some', descend)
        (rw (← at) (
          node_walk_held o e n l r depth w h same (Holds-Walks l n.left hl)
            (Holds-Walks r n.right hr) f))
    where
      not_zero : (k : ℕ) → k ≢ 0 → (k == 0) ≡ false
      not_zero k ne = ground arith

table_walk :
    (data' : Bytes) (max_nodes depth : ℕ) (t : Tree)
    → IsTable data' t
    → Fits data' max_nodes t unvisited
    → walk data' max_nodes depth 0 unvisited ≡ outcome depth t unvisited
table_walk data' max_nodes depth leaf h f = absurd h
table_walk data' max_nodes depth (node o e l r) (root, n, h, same, hl, hr) f = rw (← root) (
    node_walk_held data' max_nodes o e n l r depth unvisited h same
      (Holds-Walks data' max_nodes l n.left hl) (Holds-Walks data' max_nodes r n.right hr) f)

entries-outcome :
    (depth : ℕ) (t : Tree)
    → (outcome depth t unvisited >>= λ w. ok w.entries)
      ≡ (if leb (height t) depth then ok (preorder t) else err recursion_error)
entries-outcome depth t = elim (Bool-cases (leb (height t) depth)) [
  | inl low ↦ rw low
  | inr high ↦ rw high
]

module _ (depth : ℕ) (reader : Reader) (entry : Option DirectoryEntry) (data' : Bytes)
    (t : Tree) where
  -- Where the directory's table stores a binary tree, each node once and at most
  -- `max_directory_nodes` of them, `list_directory` returns the entries of the whole tree in
  -- preorder if the interpreter grants as many frames as the tree is high, and otherwise raises
  -- `RecursionError`.
  pub list_directory-preorder :
      read_directory_table reader entry ≡ ok data'
      → IsTable data' t
      → ((x : ℕ) → count x (offsets t) ≤ 1)
      → length (offsets t) ≤ reader.max_directory_nodes
      → list_directory depth reader entry
        ≡ (if leb (height t) depth then ok (preorder t) else err recursion_error)
  unfolding list_directory
  list_directory-preorder read held once room =
      rw
        (
          read,
          table_walk data' reader.max_directory_nodes depth t held
              (record { apart = λ x. omega (arith, once x); room = omega arith }),
        )
        (entries-outcome depth t)
