-- ===== src/FileOperations/Tests.antt =====
-- Renames of a small tree, and the theorems at them.
use rom_metadata_framework.Prelude.{
  ◌≡◌, ◌≢◌, ◌⊎◌, refl, if◌then◌else◌, none, some, codes, ok, err, ◌=t=◌,
}
use rom_metadata_framework.FileOperations.Rename.{
  interrupted, FilePath, path_eq, file, Tree, put, done, refused, then_interrupted, World,
  rename_file_no_overwrite,
}
use rom_metadata_framework.FileOperations.Safety.{
  alone, moved, IsReady, outcome, rename_alone, rename_interrupted_loses, at_link, rename_race,
  SparesNames, rename-keeps_file,
}

abbrev old : FilePath
old = record { parent = codes "roms"; name = codes "a.nes" }

abbrev new : FilePath
new = record { parent = codes "roms"; name = codes "b.nes" }

tree : Tree
tree p = if path_eq old p then some (file 7) else none

-- another program makes the destination after it was tested
abbrev racing : World
racing = record (alone done done done) { gap_exists = λ t. put t new (some (file 9)) }

old_file : tree old ≡ some (file 7)
unfolding tree path_eq ◌=t=◌
old_file = refl

ready : IsReady tree old new
unfolding tree path_eq ◌=t=◌
ready = record { same_parent = refl; distinct = refl; inode = 7; regular = refl; free = refl }

rename_alone_example :
    ((outcome tree old new done refused).0 ≡ ok tt
      → ((old ≡ new) × ((q : FilePath) → (outcome tree old new done refused).1 q ≡ tree q))
        ⊎ (IsReady tree old new
            × ((q : FilePath) → (outcome tree old new done refused).1 q ≡ moved tree old new q)))
    × (done ≢ then_interrupted
        → refused ≢ then_interrupted
        → (outcome tree old new done refused).0 ≢ ok tt
        → (q : FilePath) → (outcome tree old new done refused).1 q ≡ tree q)
    × (IsReady tree old new
        → done ≡ then_interrupted
        → ((outcome tree old new done refused).0 ≡ err interrupted)
          × ((q : FilePath)
              → (outcome tree old new done refused).1 q
                ≡ (if path_eq new q then tree old else tree q)))
rename_alone_example = rename_alone tree old new done refused

rename_interrupted_loses_example :
    ((rename_file_no_overwrite (alone done then_interrupted done) old new tree).0 ≡ err interrupted)
    × ((rename_file_no_overwrite (alone done then_interrupted done) old new tree).1 old ≡ none)
    × ((rename_file_no_overwrite (alone done then_interrupted done) old new tree).1 new ≡ none)
rename_interrupted_loses_example = rename_interrupted_loses tree old new ready

racing_link : at_link racing old new tree new ≡ some (file 9)
unfolding put path_eq ◌=t=◌
racing_link = refl

rename_race_example :
    ((rename_file_no_overwrite racing old new tree).0 ≢ ok tt)
    × (((rename_file_no_overwrite racing old new tree).1 ≡ at_link racing old new tree)
        ⊎ ((rename_file_no_overwrite racing old new tree).1 ≡ tree)
        ⊎ ((rename_file_no_overwrite racing old new tree).1 ≡ tree)
        ⊎ ((rename_file_no_overwrite racing old new tree).1 ≡ tree))
rename_race_example = rename_race racing old new tree (file 9) ready.distinct racing_link

spared : SparesNames (alone done refused done) old new
spared = record {
  at_symlink = λ t. (refl, refl);
  at_file = λ t. (refl, refl);
  at_exists = λ t. (refl, refl);
  at_link = λ t. (refl, refl);
  at_unlink = λ t. (refl, refl);
}

rename-keeps_file_example :
    ((rename_file_no_overwrite (alone done refused done) old new tree).1 old ≡ some (file 7))
    ⊎ ((rename_file_no_overwrite (alone done refused done) old new tree).1 new ≡ some (file 7))
rename-keeps_file_example =
    rename-keeps_file (alone done refused done) old new tree 7 spared (λ e. cc e) (λ e. cc e)
      old_file
