-- ===== src/Archive/Confinement.antt =====
-- internal/server/archive.go: unpacking stays in its directory.
use termdock.Base.{
  ℕ, ◌+◌, ◌≡◌, refl, ap, subst, sym, ◌∙◌, false, not, ◌&&◌, List, [], ◌∷◌, ◌++◌, none, some, arith,
  ltb, All, Bool-cases, inl, inr,
}
use termdock.Base.Text.{Text}
use termdock.Filepath.{components, dir_name}
use termdock.Filepath.Parts.{IsPlain}
use termdock.Filepath.Rooted.{rooted}
use termdock.Filepath.Parents.{
  All-append, init, last, init-last, All-init, All-last, dir_name-rooted,
}
use termdock.Archive.{
  Entry, Item, entry, broken, Effect, make_all, create, append, System, Outcome, or_mode, Kind,
  directory, regular, link, other, write_entry, place, place_at, continue, exceeds, size_of,
  extraction_target, extract_items, max_archive_entries,
}
use termdock.Filepath.Joining.{is_empty}
use termdock.Archive.Target.{target_in, is_inside, is_inside-IsPlain, extraction_target-inside}
use mathlib.Core.List.{append_assoc}
use mathlib.Core.Bool.{true≢false}

abbrev pub path_of : Effect → Text
path_of (make_all path mode) = path
path_of (create path mode) = path
path_of (append path content) = path

-- The directory of these components, or a path below it that no component leaves.
abbrev pub IsBelow : List Text → Text → Type 0
IsBelow parts path = (more : List Text) × (path ≡ rooted (parts ++ more)) × All IsPlain more

abbrev pub Confined : List Text → List Effect → Type 0
Confined parts effects = All (λ effect. IsBelow parts (path_of effect)) effects

pub dir_name-IsBelow :
    (parts : List Text) (name : Text) (names : List Text)
    → All IsPlain parts
    → All IsPlain (name ∷ names)
    → IsBelow parts (dir_name (rooted (parts ++ (name ∷ names))))
dir_name-IsBelow parts name names h k = (
  init name names,
  ap (λ ns. dir_name (rooted ns))
        (sym (
          append_assoc parts (init name names) (last name names ∷ [])
          ∙ ap (λ ns. parts ++ ns) (init-last name names)))
      ∙ dir_name-rooted (parts ++ init name names) (last name names)
          (All-append IsPlain parts (init name names) h (All-init IsPlain name names k))
          (All-last IsPlain name names k).0.0,
  All-init IsPlain name names k,
)

module _ (system : System) (parts : List Text) (h : All IsPlain parts) where
  write_entry-Confined :
      (name : Text) (names : List Text) (mode : ℕ) (content : List ℕ)
      → All IsPlain (name ∷ names)
      → Confined parts (write_entry system (rooted (parts ++ (name ∷ names))) mode content).1
  unfolding write_entry
  write_entry-Confined name names mode content k =
      let target = rooted (parts ++ (name ∷ names)) in
      let inner = dir_name-IsBelow parts name names h k in
      let itself : IsBelow parts target = (name ∷ names, refl, k) in
      elim (Bool-cases (system.mkdir_fails (dir_name target))) [
        | inl e ↦ rw e (inner, tt)
        | inr e ↦ elim (Bool-cases (system.open_fails target)) [
          | inl f ↦ rw e (rw f (inner, (itself, tt)))
          | inr f ↦ rw e (rw f (inner, (itself, (itself, tt))))
        ]
      ]

  place-Confined :
      (kind : Kind) (name : Text) (names : List Text) (mode : ℕ) (content : List ℕ)
      → All IsPlain (name ∷ names)
      → Confined parts (place system kind (rooted (parts ++ (name ∷ names))) mode content).1
  unfolding place
  place-Confined directory name names mode content k = ((name ∷ names, refl, k), tt)
  place-Confined regular name names mode content k =
      write_entry-Confined name names (or_mode mode 420) content k
  place-Confined link name names mode content k = tt
  place-Confined other name names mode content k = tt

  placed-Confined :
      (names : List Text) (e : Entry)
      → is_empty names ≡ false
      → All IsPlain names
      → Confined parts (place_at system (some (rooted (parts ++ names))) e).1
  placed-Confined [] e n k = absurd (true≢false n)
  placed-Confined (name ∷ names) e n k = place-Confined e.kind name names e.mode e.content k

  place_at-Confined : (e : Entry) → Confined parts (place_at system (target_in parts e.name) e).1
  place_at-Confined e = elim (Bool-cases (is_inside e.name && not (is_empty parts))) [
    | inl t ↦ rw t (
        placed-Confined (components e.name) e (ground arith)
          (is_inside-IsPlain e.name (ground arith)))
    | inr f ↦ rw f tt
  ]

  pub continue-Confined :
      (first rest : Outcome)
      → Confined parts first.1
      → Confined parts rest.1
      → Confined parts (continue first rest).1
  continue-Confined (some failure, effects) rest c d = c
  continue-Confined (none, effects) rest c d =
      All-append (λ effect. IsBelow parts (path_of effect)) effects rest.1 c d

  pub extract_items-Confined :
      (entries total : ℕ) (items : List Item)
      → Confined parts (extract_items system (rooted parts) entries total items).1
  unfolding extract_items
  extract_items-Confined entries total [] = tt
  extract_items-Confined entries total (broken ∷ items) = tt
  extract_items-Confined entries total (entry e ∷ items) =
      elim (Bool-cases (ltb max_archive_entries (entries + 1))) [
        | inl b ↦ rw b tt
        | inr b ↦ elim (Bool-cases (exceeds e.size total)) [
          | inl x ↦ rw b (rw x tt)
          | inr x ↦
              let rest =
                extract_items system (rooted parts) (entries + 1) (total + size_of e.size) items in
              rw b (
                rw x (
                  continue-Confined (place_at system (extraction_target (rooted parts) e.name) e)
                    rest
                    (subst (λ t. Confined parts (place_at system t e).1)
                      (sym (extraction_target-inside parts e.name h)) (place_at-Confined e))
                    (extract_items-Confined (entries + 1) (total + size_of e.size) items)))
        ]
      ]
