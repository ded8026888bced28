-- ===== src/Archive.antt =====
-- internal/server/archive.go: what unpacking a TAR.GZ archive writes. `tar.Reader`, `gzip.Reader`
-- and the calls of `os` are given by their results.
pub mod Target
pub mod Confinement
pub mod Extraction
pub mod Limits
pub mod Zip
pub mod Unpacking
mod Tests
use termdock.Base.{
  ℕ, ◌+◌, ◌-◌, ◌*◌, ◌%◌, ◌^◌, ◌≤◌, Bool, true, false, not, ◌&&◌, ◌||◌, List, [], ◌∷◌, ◌++◌, Option,
  none, some, ltb, ◌==◌, if◌then◌else◌, length, take,
}
use termdock.Base.Int.{ℤ, pos, negsuc}
use termdock.Base.Text.{Text, text_eq, codes, starts_with}
use termdock.Filepath.{slash, is_abs, is_dot, is_dot_dot, clean, join, dir_name, file_path}

abbrev pub max_archive_entries : ℕ
max_archive_entries = 100000

abbrev pub max_extracted_bytes : ℕ
max_extracted_bytes = 2 ^ 30

-- Is the cleaned name refused?
abbrev pub is_unsafe : Text → Bool
is_unsafe name = is_dot name || (is_abs name || (is_dot_dot name || starts_with (codes "../") name))

abbrev pub is_outside : Text → Text → Bool
is_outside destination target =
    not (text_eq target destination) && not (starts_with (destination ++ (slash ∷ [])) target)

abbrev pub checked_target : Text → Text → Text → Option Text
checked_target name base target =
    if is_unsafe name then none else if is_outside base target then none else some target

-- `extractionTarget`; on Unix `filepath.FromSlash` changes nothing.
unfoldable pub extraction_target : Text → Text → Option Text
extraction_target destination name =
    checked_target (clean name) (clean destination) (clean (join (clean destination) (clean name)))

pub data Kind : Type 0 where
  directory : Kind
  regular : Kind
  link : Kind
  other : Kind

-- A header, and the bytes that can be read of its entry.
pub record Entry : Type 0 where
  pub name : Text
  pub size : ℤ
  pub mode : ℕ
  pub kind : Kind
  pub content : List ℕ

-- What `Next` gives: a header or an error. The end of the list is io.EOF.
pub data Item : Type 0 where
  entry : Entry → Item
  broken : Item

pub data Failure : Type 0 where
  unsupported : Failure
  bad_destination : Failure
  bad_archive : Failure
  bad_entry : Failure
  too_many : Failure
  too_large : Failure
  unsafe_path : Failure
  is_link : Failure
  bad_kind : Failure
  system_error : Failure
  write_error : Failure

-- The calls that change the files, oldest first.
pub data Effect : Type 0 where
  make_all : Text → ℕ → Effect
  create : Text → ℕ → Effect
  append : Text → List ℕ → Effect

-- Which calls fail, and how many bytes `io.Copy` writes before it fails.
pub record System : Type 0 where
  pub mkdir_fails : Text → Bool
  pub open_fails : Text → Bool
  pub copy_fails : Text → Option ℕ
  pub close_fails : Text → Bool

abbrev pub Outcome : Type 0
Outcome = Option Failure × List Effect

abbrev pub after : List Effect → Outcome → Outcome
after effects (failure, more) = (failure, effects ++ more)

abbrev pub or_mode : ℕ → ℕ → ℕ
or_mode mode usual = if mode % 512 == 0 then usual else mode % 512

abbrev pub copied : Option ℕ → List ℕ → List ℕ
copied none content = content
copied (some n) content = take n content

abbrev pub is_failing : Option ℕ → Bool
is_failing none = false
is_failing (some n) = true

abbrev pub continue : Outcome → Outcome → Outcome
continue (some failure, effects) rest = (some failure, effects)
continue (none, effects) rest = after effects rest

-- `header.Size < 0 || header.Size > maxExtractedBytes-total`, where the total is never above the
-- bound.
abbrev pub exceeds : ℤ → ℕ → Bool
exceeds (pos n) total = ltb (max_extracted_bytes - total) n
exceeds (negsuc n) total = true

abbrev pub size_of : ℤ → ℕ
size_of (pos n) = n
size_of (negsuc n) = 0

module _ (system : System) where
  unfoldable pub write_entry : Text → ℕ → List ℕ → Outcome
  write_entry target mode content =
      if system.mkdir_fails (dir_name target)
      then (some system_error, make_all (dir_name target) 493 ∷ [])
      else if system.open_fails target
      then (some system_error, make_all (dir_name target) 493 ∷ create target mode ∷ [])
      else (
        (if is_failing (system.copy_fails target) || system.close_fails target
            then some write_error
            else none),
        make_all (dir_name target) 493
            ∷ create target mode
            ∷ append target (copied (system.copy_fails target) content)
            ∷ [],
      )

  unfoldable pub place : Kind → Text → ℕ → List ℕ → Outcome
  unfolding write_entry
  place directory target mode content = (
    (if system.mkdir_fails target then some system_error else none),
    make_all target (or_mode mode 493) ∷ [],
  )
  place regular target mode content = write_entry target (or_mode mode 420) content
  place link target mode content = (some is_link, [])
  place other target mode content = (some bad_kind, [])

  abbrev pub place_at : Option Text → Entry → Outcome
  place_at none e = (some unsafe_path, [])
  place_at (some target) e = place e.kind target e.mode e.content

  -- The loop of `extractTarGz`, after a number of entries and of bytes.
  unfoldable pub extract_items : Text → ℕ → ℕ → List Item → Outcome
  unfolding extraction_target place
  extract_items destination entries total [] = (none, [])
  extract_items destination entries total (broken ∷ items) = (some bad_entry, [])
  extract_items destination entries total (entry e ∷ items) =
      let rest = extract_items destination (entries + 1) (total + size_of e.size) items in
      if ltb max_archive_entries (entries + 1)
      then (some too_many, [])
      else if exceeds e.size total
      then (some too_large, [])
      else continue (place_at (extraction_target destination e.name) e) rest

  abbrev pub unpack : Text → Option (List Item) → Outcome
  unpack destination none = (some bad_archive, [])
  unpack destination (some items) = extract_items destination 0 0 items

  -- `extractTarGz`: the archive's items, `none` where it cannot be opened or is no gzip data.
  unfoldable pub extract_tar_gz :
      Text → Text → (Text → Bool) → (Text → Option (List Item)) → Text → Outcome
  extract_tar_gz working_dir requested_archive is_directory archive requested =
      if not (is_directory (file_path working_dir requested))
      then (some bad_destination, [])
      else unpack (file_path working_dir requested)
          (archive (file_path working_dir requested_archive))
