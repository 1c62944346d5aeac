-- ===== src/Xdvdfs/Tests.antt =====
-- A small directory table, the theorems at it, and the errors of the reader.
use rom_metadata_framework.Prelude.{
  ℕ, zero, suc, ◌≤◌, ◌≡◌, ◌≢◌, refl, true, none, some, [], ◌∷◌, ◌++◌, Text, Bytes, ◌=t=◌, codes,
  arith, pos, negsuc, ok, err, path_parts, slice, map, if◌then◌else◌, leb,
}
use rom_metadata_framework.Source.{Source, read_at}
use rom_metadata_framework.Xdvdfs.Types.{
  DirectoryEntry, magic, recursion_error, negative_offset, directory, path_is_directory,
}
use rom_metadata_framework.Xdvdfs.Reader.{
  Reader, read_directory_table, open_reader, read_descriptor, u32le,
}
use rom_metadata_framework.Xdvdfs.Directory.{list_directory, read_node}
use rom_metadata_framework.Xdvdfs.Files.{find, read_file, read_file_range}
use rom_metadata_framework.Xdvdfs.Termination.{list_directory-ne-recursion_error}
use rom_metadata_framework.Xdvdfs.Preorder.{
  Tree, leaf, node, IsTable, count, height, preorder, list_directory-preorder,
}
use rom_metadata_framework.Xdvdfs.Reads.{
  IsWholeFile, IsFileRange, read_file-IsWholeFile, read_file_range-IsFileRange,
  read_file_range-slice,
}
use rom_metadata_framework.Xdvdfs.Lookup.{Resolves, find-Resolves}
use rom_metadata_framework.Xdvdfs.Opening.{IsFound, open_reader-IsFound}

abbrev zeros : ℕ → Bytes
zeros zero = []
zeros (suc n) = 0 ∷ zeros n

-- a file "a" of four bytes in sector 0, with a directory "b" behind it in the tree
abbrev table : Bytes
table =
    (0 ∷ 0 ∷ 4 ∷ 0 ∷ 0 ∷ 0 ∷ 0 ∷ 0 ∷ 4 ∷ 0 ∷ 0 ∷ 0 ∷ 0 ∷ 1 ∷ b'a' ∷ 0 ∷ [])
    ++ (0 ∷ 0 ∷ 0 ∷ 0 ∷ 0 ∷ 0 ∷ 0 ∷ 0 ∷ 31 ∷ 0 ∷ 0 ∷ 0 ∷ 16 ∷ 1 ∷ b'b' ∷ [])

abbrev source : Source
source = record { regular = true; st_size = 31; content = table }

abbrev reader : Reader
reader = record {
  source = source;
  file_size = 31;
  max_directory_size = 64;
  max_directory_nodes = 8;
  volume = record {
    partition_offset = 0;
    descriptor_offset = 65536;
    root_sector = 0;
    root_size = 31;
  };
}

abbrev entry_a : DirectoryEntry
entry_a = record { name = codes "a"; sector = 0; size = 4; attributes = 0 }

abbrev entry_b : DirectoryEntry
entry_b = record { name = codes "b"; sector = 0; size = 31; attributes = 16 }

abbrev same : Text → Text
same s = s

list_root : list_directory 9 reader none ≡ ok (entry_a ∷ entry_b ∷ [])
unfolding list_directory
list_root = refl

-- two frames are needed
list_root_shallow : list_directory 1 reader none ≡ err recursion_error
unfolding list_directory
list_root_shallow = refl

list_directory-ne-recursion_error_example : list_directory 9 reader none ≢ err recursion_error
list_directory-ne-recursion_error_example =
    list_directory-ne-recursion_error 9 reader none (omega arith)

abbrev tree : Tree
tree = node 0 entry_a leaf (node 16 entry_b leaf leaf)

tree-IsTable : IsTable table tree
unfolding read_node
tree-IsTable = (
  refl,
  record { left = 0; right = 4; entry = entry_a },
  refl,
  refl,
  refl,
  (omega arith, refl, record { left = 0; right = 0; entry = entry_b }, refl, refl, refl, refl),
)

read_root : read_directory_table reader none ≡ ok table
unfolding read_directory_table
read_root = refl

once : (x : ℕ) → count x (0 ∷ 16 ∷ []) ≤ 1
once x = ground arith

list_directory-preorder_example :
    list_directory 9 reader none
    ≡ (if leb (height tree) 9 then ok (preorder tree) else err recursion_error)
list_directory-preorder_example =
    list_directory-preorder 9 reader none table tree read_root tree-IsTable once (omega arith)

read_a : read_file same 9 reader (codes "/a") 100 ≡ ok (0 ∷ 0 ∷ 4 ∷ 0 ∷ [])
unfolding read_file find list_directory directory
read_a = refl

read_file-IsWholeFile_example :
    (entry : DirectoryEntry) × (find same 9 reader (codes "/a") ≡ ok (some entry))
    × IsWholeFile reader 100 entry (0 ∷ 0 ∷ 4 ∷ 0 ∷ [])
read_file-IsWholeFile_example = read_file-IsWholeFile same 9 reader (codes "/a") 100 read_a

read_range_a : read_file_range same 9 reader (codes "a") (pos 1) (pos 2) 2 ≡ ok (0 ∷ 4 ∷ [])
unfolding read_file_range find list_directory directory
read_range_a = refl

read_file_range-IsFileRange_example :
    (entry : DirectoryEntry) × (find same 9 reader (codes "a") ≡ ok (some entry))
    × IsFileRange reader 2 1 2 entry (0 ∷ 4 ∷ [])
read_file_range-IsFileRange_example =
    read_file_range-IsFileRange same 9 reader (codes "a") 1 2 2 read_range_a

read_file_range-slice_example :
    read_file_range same 9 reader (codes "/a") (pos 1) (pos 2) 2
    ≡ ok (slice (0 ∷ 0 ∷ 4 ∷ 0 ∷ []) 1 3)
read_file_range-slice_example =
    read_file_range-slice same 9 reader (codes "/a") 100 2 1 2 read_a (omega arith) (omega arith)

read_errors :
    (read_file same 9 reader (codes "b") 100 ≡ err path_is_directory)
    × (read_file_range same 9 reader (codes "a") (negsuc 0) (pos 2) 2 ≡ err negative_offset)
unfolding read_file read_file_range find list_directory directory
read_errors = (refl, refl)

find_nested : find same 9 reader (codes "/b//a/") ≡ ok (some entry_a)
unfolding find list_directory directory
find_nested = refl

find-Resolves_example : Resolves same 9 reader none (path_parts (codes "/b//a/")) entry_a
find-Resolves_example = find-Resolves same 9 reader (codes "/b//a/") find_nested

same_parts : map same (path_parts (codes "/b//a/")) ≡ map same (path_parts (codes "b/a"))
unfolding path_parts
same_parts = refl

-- 32 sectors, then the descriptor: signature, root sector 0, root size 31, zeros, signature
long : ℕ → Bytes → Bytes
long zero rest = rest
long (suc n) rest = 0 ∷ long n rest

image : Bytes
unfolding long
image = long 65536 (magic ++ (0 ∷ 0 ∷ 0 ∷ 0 ∷ 31 ∷ 0 ∷ 0 ∷ 0 ∷ long 2000 magic))

image_source : Source
image_source = record { regular = true; st_size = 67584; content = image }

abbrev image_reader : Reader
image_reader = record reader { source = image_source; file_size = 67584 }

opened : open_reader image_source (negsuc 0 ∷ pos 0 ∷ []) 64 8 ≡ ok image_reader
unfolding open_reader read_descriptor image image_source long u32le read_at slice ◌=t=◌
opened = refl

open_reader-IsFound_example :
    (image_source.regular ≡ true)
    × (image_reader.source ≡ image_source)
    × (image_reader.file_size ≡ image_source.st_size)
    × (image_reader.max_directory_size ≡ 64)
    × (image_reader.max_directory_nodes ≡ 8)
    × IsFound image_source 64 (negsuc 0 ∷ pos 0 ∷ []) image_reader.volume
open_reader-IsFound_example = open_reader-IsFound image_source 64 (negsuc 0 ∷ pos 0 ∷ []) 8 opened
