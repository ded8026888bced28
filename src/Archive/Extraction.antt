-- ===== src/Archive/Extraction.antt =====
-- internal/server/archive.go: unpacking within its directory and its limits.
use termdock.Base.{
  ◌≤◌, ◌≡◌, refl, subst, sym, Bool, true, List, [], ◌∷◌, Option, none, some, arith, All, is_some,
  Bool-cases, inl, inr,
}
use termdock.Base.Text.{Text, codes}
use termdock.Filepath.{is_abs, file_path}
use termdock.Filepath.Parts.{IsPlain}
use termdock.Filepath.Rooted.{rooted, IsRooted, file_path-IsRooted}
use termdock.Archive.{
  Entry, Item, entry, Effect, System, exceeds, extract_items, unpack, extract_tar_gz,
  max_archive_entries, max_extracted_bytes,
}
use termdock.Archive.Target.{is_inside, extraction_target-inside, and_false}
use termdock.Archive.Limits.{bytes, creations, IsTar, extract_items-bytes, extract_items-creations}
use termdock.Archive.Confinement.{path_of, IsBelow, extract_items-Confined}

module _ (system : System) (parts : List Text) (h : All IsPlain parts) where
  -- What unpacking into a directory does.
  items-IsSafe :
      (items : List Item)
      → IsTar items
      → All
          (λ effect. IsBelow parts (path_of effect))
          (extract_items system (rooted parts) 0 0 items).1
        × (bytes (extract_items system (rooted parts) 0 0 items).1 ≤ max_extracted_bytes)
        × (creations (extract_items system (rooted parts) 0 0 items).1 ≤ max_archive_entries)
  items-IsSafe items t = (
    extract_items-Confined system parts h 0 0 items,
    omega (arith, extract_items-bytes system (rooted parts) 0 0 items t (ground arith)),
    omega (arith, extract_items-creations system (rooted parts) 0 0 items (ground arith)),
  )

-- Effects that stay in a directory, write at most 1 GiB and create at most 100000 files.
abbrev pub IsSafe : Text → List Effect → Type 0
IsSafe destination effects =
    (parts : List Text) × (destination ≡ rooted parts)
    × All IsPlain parts
    × (All (λ effect. IsBelow parts (path_of effect)) effects
        × (bytes effects ≤ max_extracted_bytes)
        × (creations effects ≤ max_archive_entries))

-- For every path: no entry of its archive gives more bytes than its header says.
abbrev pub IsTarOption : Option (List Item) → Type 0
IsTarOption none = Unit
IsTarOption (some items) = IsTar items

unpack-IsSafe :
    (system : System) (destination : Text) (found : Option (List Item))
    → IsRooted destination
    → IsTarOption found
    → IsSafe destination (unpack system destination found).1
unpack-IsSafe system destination none (parts, e, h) t =
    (parts, e, h, (tt, ground arith, ground arith))
unpack-IsSafe system destination (some items) (parts, e, h) t = (
  parts,
  e,
  h,
  subst
      (λ base.
        All (λ effect. IsBelow parts (path_of effect)) (extract_items system base 0 0 items).1
        × (bytes (extract_items system base 0 0 items).1 ≤ max_extracted_bytes)
        × (creations (extract_items system base 0 0 items).1 ≤ max_archive_entries))
      (sym e) (items-IsSafe system parts h items t),
)

-- Unpacking a TAR.GZ archive, in an absolute working directory and where no entry gives more bytes
-- than its header says, makes and writes only the destination and paths below it, none of which has
-- a component that is empty, "." or "..", writes at most 1 GiB and creates at most 100000 files,
-- whatever the archive holds, whichever calls fail and wherever it ends.
pub extract_tar_gz-IsSafe :
    (system : System) (working_dir requested_archive requested : Text) (is_directory : Text → Bool)
    (archive : Text → Option (List Item))
    → is_abs working_dir ≡ true
    → IsTarOption (archive (file_path working_dir requested_archive))
    → IsSafe
        (file_path working_dir requested)
        (extract_tar_gz system working_dir requested_archive is_directory archive requested).1
unfolding extract_tar_gz
extract_tar_gz-IsSafe system working_dir requested_archive requested is_directory archive a t =
    let r = file_path-IsRooted working_dir requested a in
    elim (Bool-cases (is_directory (file_path working_dir requested))) [
      | inl d ↦ rw d (
          unpack-IsSafe system (file_path working_dir requested)
            (archive (file_path working_dir requested_archive)) r t)
      | inr d ↦ rw d (r.0, r.1, r.2, (tt, ground arith, ground arith))
    ]

root_items :
    (system : System) (e : Entry) (items : List Item)
    → (is_some (extract_items system (rooted []) 0 0 (entry e ∷ items)).0 ≡ true)
      × ((extract_items system (rooted []) 0 0 (entry e ∷ items)).1 ≡ [])
unfolding extract_items
root_items system e items = elim (Bool-cases (exceeds e.size 0)) [
  | inl x ↦ rw x (refl, refl)
  | inr x ↦
      rw x (
        rw (extraction_target-inside [] e.name tt) (rw (and_false (is_inside e.name)) (refl, refl)))
]

-- Where the destination is the root directory, unpacking a TAR.GZ archive with an entry fails and
-- changes no file.
pub extract_tar_gz-root :
    (system : System) (working_dir requested_archive requested : Text) (is_directory : Text → Bool)
    (archive : Text → Option (List Item)) (e : Entry) (items : List Item)
    → file_path working_dir requested ≡ codes "/"
    → archive (file_path working_dir requested_archive) ≡ some (entry e ∷ items)
    → (is_some
          (extract_tar_gz system working_dir requested_archive is_directory archive requested).0
        ≡ true)
      × ((extract_tar_gz system working_dir requested_archive is_directory archive requested).1
          ≡ [])
unfolding extract_tar_gz
extract_tar_gz-root system working_dir requested_archive requested is_directory archive e items r
      a =
    rw r (
      rw a (elim (Bool-cases (is_directory (codes "/"))) [
        | inl d ↦ rw d (root_items system e items)
        | inr d ↦ rw d (refl, refl)
      ]))
