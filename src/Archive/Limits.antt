-- ===== src/Archive/Limits.antt =====
-- internal/server/archive.go: how much an archive can write.
use termdock.Base.{
  ℕ, ◌+◌, ◌≤◌, ◌≡◌, false, List, [], ◌∷◌, ◌++◌, Option, none, some, arith, ltb, length, length-take,
  Bool-cases, inl, inr,
}
use termdock.Base.Int.{ℤ, pos, negsuc}
use termdock.Base.Text.{Text}
use termdock.Filepath.{dir_name}
use termdock.Archive.{
  Entry, Item, entry, broken, Effect, make_all, create, append, System, Outcome, or_mode, copied,
  Kind, directory, regular, link, other, write_entry, place, place_at, continue, exceeds, size_of,
  extraction_target, extract_items, max_archive_entries, max_extracted_bytes,
}

abbrev pub bytes : List Effect → ℕ
bytes [] = 0
bytes (make_all path mode ∷ effects) = bytes effects
bytes (create path mode ∷ effects) = bytes effects
bytes (append path content ∷ effects) = length content + bytes effects

abbrev pub creations : List Effect → ℕ
creations [] = 0
creations (make_all path mode ∷ effects) = creations effects
creations (create path mode ∷ effects) = 1 + creations effects
creations (append path content ∷ effects) = creations effects

-- No entry gives more bytes than its header says.
abbrev pub IsTar : List Item → Type 0
IsTar [] = Unit
IsTar (broken ∷ items) = IsTar items
IsTar (entry e ∷ items) = (length e.content ≤ size_of e.size) × IsTar items

bytes-append : (xs ys : List Effect) → bytes (xs ++ ys) ≡ bytes xs + bytes ys
bytes-append [] ys = omega arith
bytes-append (make_all path mode ∷ xs) ys = bytes-append xs ys
bytes-append (create path mode ∷ xs) ys = bytes-append xs ys
bytes-append (append path content ∷ xs) ys = ground (arith, bytes-append xs ys)

creations-append : (xs ys : List Effect) → creations (xs ++ ys) ≡ creations xs + creations ys
creations-append [] ys = omega arith
creations-append (make_all path mode ∷ xs) ys = creations-append xs ys
creations-append (create path mode ∷ xs) ys = ground (arith, creations-append xs ys)
creations-append (append path content ∷ xs) ys = creations-append xs ys

copied-length :
    (fails : Option ℕ) (content : List ℕ) → length (copied fails content) ≤ length content
copied-length none content = ground arith
copied-length (some n) content = omega (arith, length-take n content)

-- An outcome that writes at most so many bytes, to at most one new file.
abbrev AtMost : ℕ → Outcome → Type 0
AtMost n outcome = (bytes outcome.1 ≤ n) × (creations outcome.1 ≤ 1)

module _ (system : System) where
  write_entry-AtMost :
      (target : Text) (mode : ℕ) (content : List ℕ)
      → AtMost (length content) (write_entry system target mode content)
  unfolding write_entry
  write_entry-AtMost target mode content =
      elim (Bool-cases (system.mkdir_fails (dir_name target))) [
        | inl e ↦ rw e (ground arith, ground arith)
        | inr e ↦ elim (Bool-cases (system.open_fails target)) [
          | inl f ↦ rw e (rw f (ground arith, ground arith))
          | inr f ↦ rw e (
              rw f (ground (arith, copied-length (system.copy_fails target) content), ground arith))
        ]
      ]

  place-AtMost :
      (kind : Kind) (target : Text) (mode : ℕ) (content : List ℕ)
      → AtMost (length content) (place system kind target mode content)
  unfolding place
  place-AtMost directory target mode content = (ground arith, ground arith)
  place-AtMost regular target mode content = write_entry-AtMost target (or_mode mode 420) content
  place-AtMost link target mode content = (ground arith, ground arith)
  place-AtMost other target mode content = (ground arith, ground arith)

  place_at-AtMost :
      (target : Option Text) (e : Entry) → AtMost (length e.content) (place_at system target e)
  place_at-AtMost none e = (ground arith, ground arith)
  place_at-AtMost (some target) e = place-AtMost e.kind target e.mode e.content

  continue-bytes :
      (first rest : Outcome) → bytes (continue first rest).1 ≤ bytes first.1 + bytes rest.1
  continue-bytes (some failure, effects) rest = ground arith
  continue-bytes (none, effects) rest = ground (arith, bytes-append effects rest.1)

  pub continue-creations :
      (first rest : Outcome)
      → creations (continue first rest).1 ≤ creations first.1 + creations rest.1
  continue-creations (some failure, effects) rest = ground arith
  continue-creations (none, effects) rest = ground (arith, creations-append effects rest.1)

  within :
      (size : ℤ) (total : ℕ)
      → exceeds size total ≡ false
      → total ≤ max_extracted_bytes
      → total + size_of size ≤ max_extracted_bytes
  within (pos n) total h k = ground arith
  within (negsuc n) total h k = ground arith

  pub extract_items-bytes :
      (destination : Text) (entries total : ℕ) (items : List Item)
      → IsTar items
      → total ≤ max_extracted_bytes
      → bytes (extract_items system destination entries total items).1 + total ≤ max_extracted_bytes
  unfolding extract_items
  extract_items-bytes destination entries total [] t h = ground arith
  extract_items-bytes destination entries total (broken ∷ items) t h = ground arith
  extract_items-bytes destination entries total (entry e ∷ items) (c, t) h =
      elim (Bool-cases (ltb max_archive_entries (entries + 1))) [
        | inl b ↦ rw b (omega (arith, h))
        | inr b ↦ elim (Bool-cases (exceeds e.size total)) [
          | inl x ↦ rw b (rw x (omega (arith, h)))
          | inr x ↦
              let target = extraction_target destination e.name in
              let more = total + size_of e.size in
              let rest = extract_items system destination (entries + 1) more items in
              let bound = within e.size total x h in
              rw b (
                rw x (
                  omega (
                    arith,
                    c,
                    bound,
                    continue-bytes (place_at system target e) rest,
                    (place_at-AtMost target e).0,
                    extract_items-bytes destination (entries + 1) more items t bound,
                  )))
        ]
      ]

  pub extract_items-creations :
      (destination : Text) (entries total : ℕ) (items : List Item)
      → entries ≤ max_archive_entries
      → creations (extract_items system destination entries total items).1 + entries
        ≤ max_archive_entries
  unfolding extract_items
  extract_items-creations destination entries total [] h = ground arith
  extract_items-creations destination entries total (broken ∷ items) h = ground arith
  extract_items-creations destination entries total (entry e ∷ items) h =
      elim (Bool-cases (ltb max_archive_entries (entries + 1))) [
        | inl b ↦ rw b (omega (arith, h))
        | inr b ↦ elim (Bool-cases (exceeds e.size total)) [
          | inl x ↦ rw b (rw x (omega (arith, h)))
          | inr x ↦
              let target = extraction_target destination e.name in
              let more = total + size_of e.size in
              let rest = extract_items system destination (entries + 1) more items in
              rw b (
                rw x (
                  omega (
                    arith,
                    continue-creations (place_at system target e) rest,
                    (place_at-AtMost target e).1,
                    extract_items-creations destination (entries + 1) more items (below entries b),
                  )))
        ]
      ]
    where
      below : (n : ℕ) → ltb max_archive_entries (n + 1) ≡ false → n + 1 ≤ max_archive_entries
      below n h = ground arith
