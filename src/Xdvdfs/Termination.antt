-- ===== src/Xdvdfs/Termination.antt =====
-- xdvdfs.py: `walk` ends, and how deep it recurses. Cyclic links are cut by `seen`, and every frame
-- that reads a node puts one more offset there, of at most `max_directory_nodes`.
use rom_metadata_framework.Prelude.{
  ℕ, zero, suc, ◌+◌, ◌*◌, ◌≤◌, ◌<◌, ◌==◌, ap, ◌≢◌, Bool-cases, inl, inr, Option, none, some, List,
  ◌∷◌, length, ◌≡◌, refl, false, elem, Bytes, arith, leb, leb_false→lt,
}
use rom_metadata_framework.Prelude.{Result, ok, err, ◌>>=◌}
use rom_metadata_framework.Xdvdfs.Types.{Error, recursion_error, DirectoryEntry}
use rom_metadata_framework.Xdvdfs.Reader.{Reader, read_table, read_directory_table}
use rom_metadata_framework.Xdvdfs.Directory.{
  Node, read_node, Walk, add, visit, descend, walk, unvisited, list_directory,
}

-- From `w` on, no `RecursionError`, and what a walk has seen only grows, up to `max_nodes`.
abbrev Safe : ℕ → Walk → Result Error Walk → Type 0
Safe max_nodes w (ok w') = (length w.seen ≤ length w'.seen) × (length w'.seen ≤ max_nodes)
Safe max_nodes w (err e) = e ≢ recursion_error

read_node-ne-recursion_error :
    (data' : Bytes) (offset : ℕ) → read_node data' offset ≢ err recursion_error
unfolding read_node
read_node-ne-recursion_error data' offset = ground arith

descend-Safe :
    (max_nodes link : ℕ) (go : ℕ → Walk → Result Error Walk) (w : Walk)
    → ((offset : ℕ) → Safe max_nodes w (go offset w))
    → length w.seen ≤ max_nodes
    → Safe max_nodes w (descend go link w)
unfolding descend
descend-Safe max_nodes link go w h fits = elim (Bool-cases (link == 0)) [
  | inl none' ↦ rw (none', descend) (omega arith, fits)
  | inr some' ↦ rw (some', descend) (h (link * 4))
]

Safe-weaken :
    (max_nodes : ℕ) (v w : Walk) (r : Result Error Walk)
    → length v.seen ≤ length w.seen
    → Safe max_nodes w r
    → Safe max_nodes v r
Safe-weaken max_nodes v w (ok w') h s = (omega arith, s.1)
Safe-weaken max_nodes v w (err e) h s = s

bind-Safe :
    (max_nodes : ℕ) (w : Walk) (r : Result Error Walk) (k : Walk → Result Error Walk)
    → Safe max_nodes w r
    → ((w' : Walk)
        → length w.seen ≤ length w'.seen
        → length w'.seen ≤ max_nodes
        → Safe max_nodes w (k w'))
    → Safe max_nodes w (r >>= k)
bind-Safe max_nodes w (ok w') k s h = h w' s.0 s.1
bind-Safe max_nodes w (err e) k s h = s

node-Safe :
    (max_nodes : ℕ) (w : Walk) (r : Result Error Node) (k : Node → Result Error Walk)
    → r ≢ err recursion_error
    → ((node : Node) → Safe max_nodes w (k node))
    → Safe max_nodes w (r >>= k)
node-Safe max_nodes w (ok node) k ne h = h node
node-Safe max_nodes w (err e) k ne h = λ p. ne (ap err p)

-- An offset that was not seen makes the set larger by one.
pub add-new :
    (offset : ℕ) (seen : List ℕ) → elem offset seen ≡ false → add offset seen ≡ offset ∷ seen
unfolding add
add-new offset seen new = rw (new, add) refl

-- Both subtrees behind a node, by any `go` that is safe from the node on.
children-Safe :
    (max_nodes offset : ℕ) (go : ℕ → Walk → Result Error Walk) (node : Node) (w : Walk)
    → elem offset w.seen ≡ false
    → suc (length w.seen) ≤ max_nodes
    → ((o : ℕ) (v : Walk)
        → suc (length w.seen) ≤ length v.seen
        → length v.seen ≤ max_nodes
        → Safe max_nodes v (go o v))
    → Safe max_nodes w
        (descend go node.left (visit offset node.entry w) >>= λ v. descend go node.right v)
children-Safe max_nodes offset go node w new room h =
    let v = visit offset node.entry w in
    let grown : length v.seen ≡ suc (length w.seen) = ap length (add-new offset w.seen new) in
    let fits : length v.seen ≤ max_nodes = omega (arith, grown, room) in
    Safe-weaken max_nodes w v _ (omega (arith, grown)) (
      bind-Safe max_nodes v _ _
        (descend-Safe max_nodes node.left go v (λ o. h o v (omega (arith, grown)) fits) fits)
        λ u more fits'. Safe-weaken max_nodes v u _ more (
          descend-Safe max_nodes node.right go u (λ o. h o u (omega (arith, grown, more)) fits')
            fits'))

walk-Safe :
    (data' : Bytes) (max_nodes depth offset : ℕ) (w : Walk)
    → length w.seen ≤ max_nodes
    → max_nodes < depth + length w.seen
    → Safe max_nodes w (walk data' max_nodes depth offset w)
unfolding walk
walk-Safe data' max_nodes zero offset w fits room = absurd (omega arith)
walk-Safe data' max_nodes (suc depth) offset w fits room = elim (Bool-cases (elem offset w.seen)) [
  | inl old ↦ rw (old, walk) (omega arith, fits)
  | inr new ↦ elim (Bool-cases (leb max_nodes (length w.seen))) [
    | inl full ↦ rw (new, walk) (rw (full, walk) (λ e. cc))
    | inr free ↦
        rw (new, walk)
          (rw (free, walk)
            (node-Safe max_nodes w (read_node data' offset) _
              (read_node-ne-recursion_error data' offset)
              λ node.
                children-Safe max_nodes offset (walk data' max_nodes depth) node w new
                  (leb_false→lt _ _ free)
                  (λ o v more fits'. walk-Safe data' max_nodes depth o v fits' (omega arith))))
  ]
]

read_table-ne-recursion_error :
    (reader : Reader) (sector size : ℕ) → read_table reader sector size ≢ err recursion_error
unfolding read_table
read_table-ne-recursion_error reader sector size = ground arith

read_directory_table-ne-recursion_error :
    (reader : Reader) (entry : Option DirectoryEntry)
    → read_directory_table reader entry ≢ err recursion_error
unfolding read_directory_table
read_directory_table-ne-recursion_error reader none =
    read_table-ne-recursion_error reader reader.volume.root_sector reader.volume.root_size
read_directory_table-ne-recursion_error reader (some entry) = ground arith

-- Listing a directory never exhausts the interpreter's stack where that has more frames left than
-- `max_directory_nodes`: whatever the links of the table are, cycles included, the walk ends with
-- the entries or with one of the reader's own errors.
pub list_directory-ne-recursion_error :
    (depth : ℕ) (reader : Reader) (entry : Option DirectoryEntry)
    → reader.max_directory_nodes < depth
    → list_directory depth reader entry ≢ err recursion_error
unfolding list_directory
list_directory-ne-recursion_error depth reader entry room =
    from_table (read_directory_table reader entry)
      (read_directory_table-ne-recursion_error reader entry)
  where
    from_walk :
        (r : Result Error Walk)
        → Safe reader.max_directory_nodes unvisited r
        → (r >>= λ w. ok w.entries) ≢ err recursion_error
    from_walk (ok w) s = λ p. cc
    from_walk (err e) s = ground arith

    from_table :
        (r : Result Error Bytes)
        → r ≢ err recursion_error
        → (r >>= λ data'.
            walk data' reader.max_directory_nodes depth 0 unvisited >>= λ w. ok w.entries)
          ≢ err recursion_error
    from_table (ok data') ne =
        from_walk (walk data' reader.max_directory_nodes depth 0 unvisited)
          (walk-Safe data' reader.max_directory_nodes depth 0 unvisited (omega arith) (omega arith))
    from_table (err e) ne = ground arith
