-- ===== src/Xdvdfs/Directory.antt =====
-- xdvdfs.py: `list_directory` and its inner function `walk`. The depth is the number of frames
-- that the interpreter still grants `walk`; where it is used up Python raises `RecursionError`.
use rom_metadata_framework.Prelude.{
  ℕ, zero, suc, ◌+◌, ◌*◌, ◌==◌, ltb, leb, ◌&&◌, not, Bool, true, false, Option, List, [], ◌∷◌, ◌++◌,
  length, elem, is_empty, Bytes, slice, byte_at,
}
use rom_metadata_framework.Prelude.{Result, ok, err, ◌>>=◌, ◌>>◌, raise_if}
use rom_metadata_framework.Xdvdfs.Types.{
  Error, too_many_nodes, node_outside_data, name_beyond_data, name_not_ascii, name_empty,
  recursion_error, DirectoryEntry,
}
use rom_metadata_framework.Xdvdfs.Reader.{Reader, u16le, u32le, read_directory_table}

-- `bytes.decode("ascii")` accepts these bytes, and gives the same numbers as code points.
abbrev pub is_ascii : Bytes → Bool
is_ascii [] = true
is_ascii (b ∷ bs) = ltb b 128 && is_ascii bs

-- What one node of the tree holds: the links in units of four bytes, and the entry.
pub record Node : Type 0 where
  pub left : ℕ
  pub right : ℕ
  pub entry : DirectoryEntry

-- The part of `walk` that reads a node.
unfoldable pub read_node : Bytes → ℕ → Result Error Node
unfolding u16le u32le slice byte_at
read_node data' offset = do
  raise_if (ltb (length data') (offset + 14)) node_outside_data
  let name_start = offset + 14
  let name_end = name_start + byte_at data' (offset + 13)
  raise_if (ltb (length data') name_end) name_beyond_data
  let name = slice data' name_start name_end
  raise_if (not (is_ascii name)) name_not_ascii
  raise_if (is_empty name) name_empty
  ok (record {
    left = u16le data' offset;
    right = u16le data' (offset + 2);
    entry = record {
      name = name;
      sector = u32le data' (offset + 4);
      size = u32le data' (offset + 8);
      attributes = byte_at data' (offset + 12);
    };
  })

-- The variables that `walk` writes. `seen` is a set: its items are different.
pub record Walk : Type 0 where
  pub seen : List ℕ
  pub entries : List DirectoryEntry

-- set.add, which leaves a set with the item as it is
unfoldable pub add : ℕ → List ℕ → List ℕ
add offset seen = elim (elem offset seen) [ true ↦ seen | false ↦ offset ∷ seen ]

abbrev pub visit : ℕ → DirectoryEntry → Walk → Walk
visit offset entry w = record { seen = add offset w.seen; entries = w.entries ++ entry ∷ [] }

-- `if link: walk(link * 4)`
unfoldable pub descend : (ℕ → Walk → Result Error Walk) → ℕ → Walk → Result Error Walk
descend go link w = elim (link == 0) [ true ↦ ok w | false ↦ go (link * 4) w ]

unfoldable pub walk : Bytes → ℕ → ℕ → ℕ → Walk → Result Error Walk
unfolding descend add
walk data' max_nodes zero offset w = err recursion_error
walk data' max_nodes (suc depth) offset w = elim (elem offset w.seen) [
  | true ↦ ok w
  | false ↦ elim (leb max_nodes (length w.seen)) [
    | true ↦ err too_many_nodes
    | false ↦ read_node data' offset >>= λ node.
        descend (walk data' max_nodes depth) node.left (visit offset node.entry w) >>= λ w'.
        descend (walk data' max_nodes depth) node.right w'
  ]
]

abbrev pub unvisited : Walk
unvisited = record { seen = []; entries = [] }

unfoldable pub list_directory :
    ℕ → Reader → Option DirectoryEntry → Result Error (List DirectoryEntry)
unfolding walk read_node read_directory_table
list_directory depth reader entry = do
  data' ← read_directory_table reader entry
  w ← walk data' reader.max_directory_nodes depth 0 unvisited
  ok w.entries
