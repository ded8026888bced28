-- ===== src/Archive/Zip.antt =====
-- internal/server/archive.go: `extractZip` and `extractArchive`. `archive/zip`, `strings.ToLower` and
-- `strings.EqualFold` are given by their results.
use termdock.Base.{
  ℕ, ◌+◌, ◌-◌, ◌%◌, Bool, not, ◌||◌, List, [], ◌∷◌, Option, none, some, ltb, if◌then◌else◌, length,
}
use termdock.Base.Text.{Text, text_eq, codes, ends_with}
use termdock.Filepath.{dir_name, file_path}
use mathlib.Core.List.{reverse}
use termdock.Archive.{
  unsupported, bad_destination, bad_archive, bad_entry, too_many, too_large, unsafe_path, is_link,
  system_error, write_error, make_all, create, append, System, Outcome, continue, copied,
  is_failing, extraction_target, extract_tar_gz, Item, max_archive_entries, max_extracted_bytes,
}

-- A file of the archive: its header, whether it opens, and the bytes that can be read of it.
pub record ZipFile : Type 0 where
  pub name : Text
  pub uncompressed_size : ℕ
  pub mode : ℕ
  pub is_symlink : Bool
  pub is_directory : Bool
  pub opens : Bool
  pub content : List ℕ

-- `filepath.Ext`: from the last dot of the last component on, both read from the end.
abbrev pub ext_reversed : Text → Text → Text
ext_reversed seen [] = []
ext_reversed seen (c ∷ cs) =
    if text_eq (c ∷ []) (codes "/")
    then []
    else if text_eq (c ∷ []) (codes ".")
    then c ∷ seen
    else ext_reversed (c ∷ seen) cs

abbrev pub ext : Text → Text
ext path = ext_reversed [] (reverse path)

-- Go's `strings.ToLower` and `strings.EqualFold`.
pub record Letters : Type 0 where
  pub lower : Text → Text
  pub equal_fold : Text → Text → Bool

-- What the operating system and the two readers tell of a path.
pub record Found : Type 0 where
  pub is_directory : Text → Bool
  pub tar_items : Text → Option (List Item)
  pub zip_files : Text → Option (List ZipFile)

module _ (system : System) where
  unfoldable pub write_file : Text → ZipFile → Outcome
  write_file target f =
      if system.mkdir_fails (dir_name target)
      then (some system_error, make_all (dir_name target) 493 ∷ [])
      else if not f.opens
      then (some bad_entry, make_all (dir_name target) 493 ∷ [])
      else if system.open_fails target
      then (some system_error, make_all (dir_name target) 493 ∷ create target (f.mode % 512) ∷ [])
      else (
        (if is_failing (system.copy_fails target) || system.close_fails target
            then some write_error
            else none),
        make_all (dir_name target) 493
            ∷ create target (f.mode % 512)
            ∷ append target (copied (system.copy_fails target) f.content)
            ∷ [],
      )

  abbrev pub unpack_file : Option Text → ZipFile → Outcome
  unpack_file none f = (some unsafe_path, [])
  unpack_file (some target) f =
      if f.is_symlink
      then (some is_link, [])
      else if f.is_directory
      then (
        (if system.mkdir_fails target then some system_error else none),
        make_all target (f.mode % 512) ∷ [],
      )
      else write_file target f

  -- The loop of `extractZip`, which repeats the checks of `extractionTarget`.
  unfoldable pub extract_files : Text → ℕ → List ZipFile → Outcome
  extract_files destination total [] = (none, [])
  extract_files destination total (f ∷ files) =
      let rest = extract_files destination (total + f.uncompressed_size) files in
      if ltb (max_extracted_bytes - total) f.uncompressed_size
      then (some too_large, [])
      else continue (unpack_file (extraction_target destination f.name) f) rest

  abbrev pub unpack_zip : Text → Option (List ZipFile) → Outcome
  unpack_zip destination none = (some bad_archive, [])
  unpack_zip destination (some files) =
      if ltb max_archive_entries (length files)
      then (some too_many, [])
      else extract_files destination 0 files

  unfoldable pub extract_zip : Letters → Found → Text → Text → Text → Outcome
  extract_zip letters found working_dir requested_archive requested =
      if not (letters.equal_fold (ext (file_path working_dir requested_archive)) (codes ".zip"))
      then (some unsupported, [])
      else if not (found.is_directory (file_path working_dir requested))
      then (some bad_destination, [])
      else unpack_zip (file_path working_dir requested)
          (found.zip_files (file_path working_dir requested_archive))

  -- `extractArchive`
  unfoldable pub extract_archive : Letters → Found → Text → Text → Text → Outcome
  extract_archive letters found working_dir requested_archive requested =
      let lower = letters.lower requested_archive in
      if ends_with (codes ".zip") lower
      then extract_zip letters found working_dir requested_archive requested
      else if ends_with (codes ".tar.gz") lower || ends_with (codes ".tgz") lower
      then extract_tar_gz system working_dir requested_archive found.is_directory found.tar_items
          requested
      else (some unsupported, [])
