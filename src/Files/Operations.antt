-- ===== src/Files/Operations.antt =====
-- internal/server/operations.go: renaming a file or a directory and deleting several at once, `renamePath`
-- and `deletePaths`.
use termdock.Base.{
  Bool, true, false, not, ◌&&◌, ◌||◌, List, [], ◌∷◌, ◌++◌, Option, none, some, is_some, ◌==◌,
  if◌then◌else◌,
}
use termdock.Base.Text.{Text, text_eq}
use termdock.Base.Maps.{lookup}
use termdock.Filepath.{
  file_path, clean, join, base_name, dir_name, is_abs, is_dot, is_dot_dot, slash,
}
use termdock.Upload.{Disk}
use termdock.Files.{under, remove_if}

-- Which calls fail for a reason that the disk does not show, by the path they are about, and the
-- process's own directory, which `filepath.Abs` starts from.
pub record Calls : Type 0 where
  pub lstat_fails : Text → Bool
  pub rename_fails : Text → Bool
  pub remove_fails : Text → Bool
  -- What a removal that fails has removed by then.
  pub removed : Text → Bool
  pub directory : Text

-- The rest of a path behind another one: empty, or it starts with a slash.
abbrev pub behind : Text → Option Text
behind [] = some []
behind (c ∷ cs) = if c == slash then some (c ∷ cs) else none

abbrev pub below : Text → Text → Option Text
below [] path = behind path
below (c ∷ cs) [] = none
below (c ∷ cs) (d ∷ ds) = if c == d then below cs ds else none

abbrev pub retarget : Text → Text → Option Text → Text
retarget path target none = path
retarget path target (some rest) = target ++ rest

-- `os.Rename` of a file or a directory, with everything below it.
unfoldable pub move_tree : Text → Text → Disk → Disk
move_tree source target [] = []
move_tree source target ((path, node) ∷ disk) =
    (retarget path target (below source path), node) ∷ move_tree source target disk

module _ (calls : Calls) (working_dir : Text) where
  -- `filepath.Abs`
  abbrev pub absolute : Text → Text
  absolute path = if is_abs path then clean path else join calls.directory path

  unfoldable pub operation_path : Text → Text
  operation_path requested = absolute (file_path working_dir requested)

  abbrev pub is_working_dir : Text → Bool
  is_working_dir path = text_eq (clean path) (clean (absolute working_dir))

  abbrev pub is_bad_name : Text → Bool
  is_bad_name name =
      text_eq name [] || (is_dot name || (is_dot_dot name || not (text_eq (base_name name) name)))

  unfoldable pub new_path : Text → Text → Text
  unfolding operation_path
  new_path source name = operation_path (join (dir_name source) name)

  -- Does the operation succeed, and the files after it.
  unfoldable pub rename_path : Text → Text → Disk → Bool × Disk
  unfolding operation_path new_path move_tree
  rename_path requested name disk =
      let source = operation_path requested in
      let target = new_path source name in
      if is_bad_name name || is_working_dir source
      then (false, disk)
      else if calls.lstat_fails target || is_some (lookup target disk)
      then (false, disk)
      else if calls.rename_fails source || not (is_some (lookup source disk))
      then (false, disk)
      else (true, move_tree source target disk)

  -- The loop of `deletePaths` stops at the first error; what it deleted before stays deleted.
  abbrev delete_each : List Text → Disk → Bool × Disk
  delete_each [] disk = (true, disk)
  delete_each (requested ∷ rest) disk =
      let path = operation_path requested in
      let later = delete_each rest (remove_if (under path) disk) in
      if is_working_dir path
      then (false, disk)
      else if calls.remove_fails path
      then (false, remove_if (λ q. under path q && calls.removed q) disk)
      else later

  unfoldable pub delete_paths : List Text → Disk → Bool × Disk
  unfolding operation_path remove_if
  delete_paths [] disk = (false, disk)
  delete_paths (requested ∷ rest) disk = delete_each (requested ∷ rest) disk
