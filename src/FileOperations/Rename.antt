-- ===== src/FileOperations/Rename.antt =====
-- file_operations.py: `rename_file_no_overwrite`, over a directory tree that others change between
-- its calls of the operating system.
use rom_metadata_framework.Prelude.{
  ℕ, Bool, true, false, not, ◌&&◌, if◌then◌else◌, Option, none, some, Text, ◌=t=◌, Result, ok, err,
}

-- The errors that it raises; `os_error` is one of the operating system's, passed on, and
-- `interrupted` a `KeyboardInterrupt`, passed on too.
pub data Error : Type 0 where
  cross_directory_rename invalid_rename_source destination_exists os_error interrupted : Error

pub record FilePath : Type 0 where
  pub parent : Text
  pub name : Text

-- Equality of two paths.
unfoldable pub path_eq : FilePath → FilePath → Bool
path_eq p q = (p.parent =t= q.parent) && (p.name =t= q.name)

-- What a name stands for: a regular file with its inode, a link (with whether following it ends at
-- a regular file), a directory, or a special file such as a FIFO or a device.
pub data Node : Type 0 where
  file : ℕ → Node
  symlink : Bool → Node
  directory special : Node

abbrev pub Tree : Type 0
Tree = FilePath → Option Node

unfoldable pub put : Tree → FilePath → Option Node → Tree
put tree p node q = if path_eq p q then node else tree q

-- Path.is_symlink, Path.is_file (which follows links) and os.path.lexists (which does not)
abbrev pub is_symlink : Option Node → Bool
is_symlink none = false
is_symlink (some (file inode)) = false
is_symlink (some (symlink target)) = true
is_symlink (some directory) = false
is_symlink (some special) = false

abbrev pub is_file : Option Node → Bool
is_file none = false
is_file (some (file inode)) = true
is_file (some (symlink target)) = target
is_file (some directory) = false
is_file (some special) = false

abbrev pub lexists : Option Node → Bool
lexists none = false
lexists (some node) = true

-- How a call of `os.link` or of `unlink` ends that could do its work: done; refused; or with a signal,
-- whose `KeyboardInterrupt` is raised before the call has begun, or else when it has done its work,
-- before the next statement is reached.
pub data Fate : Type 0 where
  done refused interrupted_first then_interrupted : Fate

-- All that the program does not decide: what others do to the tree between its calls, and how the
-- call of `os.link` and the two calls of `unlink` end. A signal at the tests before them, which ends the
-- call with nothing written, is left out.
pub record World : Type 0 where
  pub gap_symlink : Tree → Tree
  pub gap_file : Tree → Tree
  pub gap_exists : Tree → Tree
  pub gap_link : Tree → Tree
  pub gap_unlink : Tree → Tree
  pub link_fate : Fate
  pub unlink_fate : Fate
  pub cleanup_fate : Fate

abbrev pub Outcome : Type 0
Outcome = Result Error (Unit {0}) × Tree

-- `unlink` of a name: what it raises, if anything, and the tree.
unfoldable pub unlink : Fate → FilePath → Tree → Option Error × Tree
unlink fate p tree = elim (lexists (tree p)) [
  | false ↦ (some os_error, tree)
  | true ↦ elim fate [
    | done ↦ (none, put tree p none)
    | refused ↦ (some os_error, tree)
    | interrupted_first ↦ (some interrupted, tree)
    | then_interrupted ↦ (some interrupted, put tree p none)
  ]
]

-- The exception that is raised after the clean-up raised another one.
abbrev pub replaced : Option Error → Error → Error
replaced none e = e
replaced (some os_error) e = e
replaced (some raised) e = raised

-- `except BaseException`: remove the destination; an `OSError` of that is passed over, any other
-- exception takes the place of the first.
unfoldable pub clean_up : World → FilePath → Error → Tree → Outcome
unfolding unlink
clean_up w destination e tree =
    let (raised, tree') = unlink w.cleanup_fate destination tree in (err (replaced raised e), tree')

-- Remove the source name; whatever that raises is raised again after the clean-up.
unfoldable pub unlink_source : World → FilePath → FilePath → Tree → Outcome
unfolding unlink clean_up
unlink_source w source destination tree =
    let (raised, tree') = unlink w.unlink_fate source tree in
    elim raised [ none ↦ (ok tt, tree') | some e ↦ clean_up w destination e (w.gap_unlink tree') ]

-- Whether the operating system can link this node to a second name.
abbrev pub can_link : Option Node → Bool
can_link none = false
can_link (some (file inode)) = true
can_link (some (symlink target)) = true
can_link (some directory) = false
can_link (some special) = true

-- `os.link`: what it raises, if anything, and the tree.
unfoldable pub link : Fate → FilePath → FilePath → Tree → Option Error × Tree
link fate source destination tree =
    if lexists (tree destination)
    then (some destination_exists, tree)
    else if not (can_link (tree source))
    then (some os_error, tree)
    else elim fate [
      | done ↦ (none, put tree destination (tree source))
      | refused ↦ (some os_error, tree)
      | interrupted_first ↦ (some interrupted, tree)
      | then_interrupted ↦ (some interrupted, put tree destination (tree source))
    ]

-- `os.link` and what follows it; what it raises passes on, a `FileExistsError` as the function's own.
unfoldable pub link_source : World → FilePath → FilePath → Tree → Outcome
unfolding link unlink_source
link_source w source destination tree =
    let (raised, tree') = link w.link_fate source destination tree in
    elim raised [
      | none ↦ unlink_source w source destination (w.gap_link tree')
      | some e ↦ (err e, tree')
    ]

-- The tests of the two names, each on the tree as it is by then.
unfoldable pub check_destination : World → FilePath → FilePath → Tree → Outcome
unfolding link_source
check_destination w source destination tree =
    if lexists (tree destination)
    then (err destination_exists, tree)
    else link_source w source destination (w.gap_exists tree)

unfoldable pub check_file : World → FilePath → FilePath → Tree → Outcome
unfolding check_destination
check_file w source destination tree =
    if not (is_file (tree source))
    then (err invalid_rename_source, tree)
    else check_destination w source destination (w.gap_file tree)

unfoldable pub rename_file_no_overwrite : World → FilePath → FilePath → Tree → Outcome
unfolding check_file
rename_file_no_overwrite w source destination tree =
    if not (source.parent =t= destination.parent)
    then (err cross_directory_rename, tree)
    else if path_eq source destination
    then (ok tt, tree)
    else if is_symlink (tree source)
    then (err invalid_rename_source, tree)
    else check_file w source destination (w.gap_symlink tree)
