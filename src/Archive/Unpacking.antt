-- ===== src/Archive/Unpacking.antt =====
-- internal/server/archive.go: whichever archive is unpacked, its files stay in the destination.
use termdock.Base.{
  ℕ, ◌+◌, ◌-◌, ◌≤◌, ◌≡◌, refl, subst, sym, true, false, not, ◌&&◌, ◌||◌, List, [], ◌∷◌, ◌++◌,
  Option, none, some, arith, ltb, All, length, Bool-cases, inl, inr,
}
use termdock.Base.Text.{Text, codes, ends_with}
use termdock.Filepath.{is_abs, components, dir_name, file_path}
use termdock.Filepath.Parts.{IsPlain}
use termdock.Filepath.Rooted.{rooted, IsRooted, file_path-IsRooted}
use termdock.Archive.{
  Failure, unsupported, bad_destination, bad_archive, System, Outcome, Item, extraction_target,
  extract_tar_gz, unpack, max_archive_entries, max_extracted_bytes,
}
use termdock.Archive.Zip.{
  ZipFile, Letters, Found, ext, write_file, unpack_file, extract_files, unpack_zip, extract_zip,
  extract_archive,
}
use termdock.Filepath.Joining.{is_empty}
use termdock.Archive.Target.{target_in, is_inside, is_inside-IsPlain, extraction_target-inside}
use termdock.Archive.Limits.{creations, continue-creations, extract_items-creations}
use termdock.Archive.Confinement.{
  path_of, IsBelow, Confined, dir_name-IsBelow, continue-Confined, extract_items-Confined,
}
use mathlib.Core.Bool.{true≢false}

-- Confined effects that create at most so many files.
abbrev Bounded : List Text → ℕ → Outcome → Type 0
Bounded parts n outcome = Confined parts outcome.1 × (creations outcome.1 ≤ n)

module _ (system : System) (parts : List Text) (h : All IsPlain parts) where
  write_file-Bounded :
      (name : Text) (names : List Text) (f : ZipFile)
      → All IsPlain (name ∷ names)
      → Bounded parts 1 (write_file system (rooted (parts ++ (name ∷ names))) f)
  unfolding write_file
  write_file-Bounded name names f k =
      let target = rooted (parts ++ (name ∷ names)) in
      let inner = dir_name-IsBelow parts name names h k in
      let itself : IsBelow parts target = (name ∷ names, refl, k) in
      elim (Bool-cases (system.mkdir_fails (dir_name target))) [
        | inl e ↦ rw e ((inner, tt), ground arith)
        | inr e ↦ elim (Bool-cases f.opens) [
          | inr o ↦ rw e (rw o ((inner, tt), ground arith))
          | inl o ↦ elim (Bool-cases (system.open_fails target)) [
            | inl w ↦ rw e (rw o (rw w ((inner, (itself, tt)), ground arith)))
            | inr w ↦ rw e (rw o (rw w ((inner, (itself, (itself, tt))), ground arith)))
          ]
        ]
      ]

  unpack_named-Bounded :
      (names : List Text) (f : ZipFile)
      → is_empty names ≡ false
      → All IsPlain names
      → Bounded parts 1 (unpack_file system (some (rooted (parts ++ names))) f)
  unfolding write_file
  unpack_named-Bounded [] f n k = absurd (true≢false n)
  unpack_named-Bounded (name ∷ names) f n k = elim (Bool-cases f.is_symlink) [
    | inl s ↦ rw s (tt, ground arith)
    | inr s ↦ elim (Bool-cases f.is_directory) [
      | inl d ↦ rw s (rw d (((name ∷ names, refl, k), tt), ground arith))
      | inr d ↦ rw s (rw d (write_file-Bounded name names f k))
    ]
  ]

  unpack_file-Bounded :
      (f : ZipFile) → Bounded parts 1 (unpack_file system (target_in parts f.name) f)
  unpack_file-Bounded f = elim (Bool-cases (is_inside f.name && not (is_empty parts))) [
    | inl t ↦ rw t (
        unpack_named-Bounded (components f.name) f (ground arith)
          (is_inside-IsPlain f.name (ground arith)))
    | inr t ↦ rw t (tt, ground arith)
  ]

  extract_files-Bounded :
      (total : ℕ) (files : List ZipFile)
      → Bounded parts (length files) (extract_files system (rooted parts) total files)
  unfolding extract_files
  extract_files-Bounded total [] = (tt, ground arith)
  extract_files-Bounded total (f ∷ files) =
      elim (Bool-cases (ltb (max_extracted_bytes - total) f.uncompressed_size)) [
        | inl x ↦ rw x (tt, ground arith)
        | inr x ↦
            let rest = extract_files system (rooted parts) (total + f.uncompressed_size) files in
            let later = extract_files-Bounded (total + f.uncompressed_size) files in
            let first = unpack_file system (extraction_target (rooted parts) f.name) f in
            let now : Bounded parts 1 first =
              subst (λ t. Bounded parts 1 (unpack_file system t f))
                (sym (extraction_target-inside parts f.name h)) (unpack_file-Bounded f) in
            rw x (
              continue-Confined system parts h first rest now.0 later.0,
              omega (arith, continue-creations system first rest, now.1, later.1),
            )
      ]

-- The destination's components, the effects below it, and at most 100000 new files.
abbrev pub IsConfined : Text → Outcome → Type 0
IsConfined destination outcome =
    (parts : List Text) × (destination ≡ rooted parts)
    × All IsPlain parts
    × (All (λ effect. IsBelow parts (path_of effect)) outcome.1
        × (creations outcome.1 ≤ max_archive_entries))

nothing-IsConfined :
    (destination : Text) (failure : Failure)
    → IsRooted destination
    → IsConfined destination (some failure, [])
nothing-IsConfined destination failure (parts, e, h) = (parts, e, h, (tt, ground arith))

module _ (system : System) where
  unpack_zip-IsConfined :
      (destination : Text) (files : Option (List ZipFile))
      → IsRooted destination
      → IsConfined destination (unpack_zip system destination files)
  unpack_zip-IsConfined destination none r = nothing-IsConfined destination bad_archive r
  unpack_zip-IsConfined destination (some files) (parts, e, h) =
      elim (Bool-cases (ltb max_archive_entries (length files))) [
        | inl t ↦ rw t (parts, e, h, (tt, ground arith))
        | inr t ↦
            let bounded = extract_files-Bounded system parts h 0 files in
            rw t (rw e (parts, refl, h, (bounded.0, omega (arith, bounded.1, few files t))))
      ]
    where
      few :
          (files : List ZipFile)
          → ltb max_archive_entries (length files) ≡ false
          → length files ≤ max_archive_entries
      few files t = ground arith

  unpack-IsConfined :
      (destination : Text) (items : Option (List Item))
      → IsRooted destination
      → IsConfined destination (unpack system destination items)
  unpack-IsConfined destination none r = nothing-IsConfined destination bad_archive r
  unpack-IsConfined destination (some items) (parts, e, h) = rw e (
    parts,
    refl,
    h,
    (
      extract_items-Confined system parts h 0 0 items,
      omega (arith, extract_items-creations system (rooted parts) 0 0 items (ground arith)),
    ),
  )

  extract_zip-IsConfined :
      (letters : Letters) (found : Found) (working_dir requested_archive requested : Text)
      → IsRooted (file_path working_dir requested)
      → IsConfined
          (file_path working_dir requested)
          (extract_zip system letters found working_dir requested_archive requested)
  unfolding extract_zip
  extract_zip-IsConfined letters found working_dir requested_archive requested r =
      let destination = file_path working_dir requested in
      elim (Bool-cases
        (letters.equal_fold (ext (file_path working_dir requested_archive)) (codes ".zip"))) [
          | inr x ↦ rw x (nothing-IsConfined destination unsupported r)
          | inl x ↦ elim (Bool-cases (found.is_directory destination)) [
            | inr d ↦ rw x (rw d (nothing-IsConfined destination bad_destination r))
            | inl d ↦ rw x (
                rw d (
                  unpack_zip-IsConfined destination
                    (found.zip_files (file_path working_dir requested_archive)) r))
          ]
        ]

  extract_tar_gz-IsConfined :
      (found : Found) (working_dir requested_archive requested : Text)
      → IsRooted (file_path working_dir requested)
      → IsConfined (file_path working_dir requested) (
          extract_tar_gz system working_dir requested_archive found.is_directory found.tar_items
            requested)
  unfolding extract_tar_gz
  extract_tar_gz-IsConfined found working_dir requested_archive requested r =
      elim (Bool-cases (found.is_directory (file_path working_dir requested))) [
        | inl d ↦ rw d (
            unpack-IsConfined (file_path working_dir requested)
              (found.tar_items (file_path working_dir requested_archive)) r)
        | inr d ↦ rw d (nothing-IsConfined (file_path working_dir requested) bad_destination r)
      ]

  -- In an absolute working directory, whatever an archive holds, of which kind it is and whichever calls
  -- fail: unpacking it makes and writes only the destination and paths below it, none of which has a
  -- component that is empty, "." or "..", and creates at most 100000 files.
  pub extract_archive-IsConfined :
      (letters : Letters) (found : Found) (working_dir requested_archive requested : Text)
      → is_abs working_dir ≡ true
      → IsConfined
          (file_path working_dir requested)
          (extract_archive system letters found working_dir requested_archive requested)
  unfolding extract_archive
  extract_archive-IsConfined letters found working_dir requested_archive requested a =
      let destination = file_path working_dir requested in
      let r = file_path-IsRooted working_dir requested a in
      let lower = letters.lower requested_archive in
      elim (Bool-cases (ends_with (codes ".zip") lower)) [
        | inl z ↦
            rw z (extract_zip-IsConfined letters found working_dir requested_archive requested r)
        | inr z ↦
            elim (Bool-cases
              (ends_with (codes ".tar.gz") lower || ends_with (codes ".tgz") lower)) [
                | inl t ↦ rw z (
                    rw t
                      (extract_tar_gz-IsConfined found working_dir requested_archive requested r))
                | inr t ↦ rw z (rw t (nothing-IsConfined destination unsupported r))
              ]
      ]
