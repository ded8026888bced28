-- ===== src/Files/Transfer.antt =====
-- internal/server/operations.go: renaming there and back.
use termdock.Base.{
  ◌≡◌, ◌≢◌, refl, ap, sym, ◌∙◌, true, false, List, [], ◌∷◌, ◌++◌, none, some, arith, All,
  if◌then◌else◌, Bool-cases, inl, inr,
}
use termdock.Base.Text.{Text, text_eq, text_eq_iff, text_eq_self}
use termdock.Base.Splits.{differs, Free, All-reverse}
use termdock.Base.Maps.{lookup}
use termdock.Filepath.{join, base_name, slash, strip_slashes, before_slash, or_slash}
use termdock.Filepath.Parts.{IsPlain}
use termdock.Filepath.Rooted.{rooted, clean-rooted}
use termdock.Filepath.Parents.{All-append, dir_name-rooted}
use termdock.Filepath.Joining.{join-entry, file_path-rooted}
use termdock.Upload.{Node, Disk}
use termdock.Files.Operations.{
  Calls, below, move_tree, operation_path, is_working_dir, is_bad_name, new_path, rename_path,
}
use termdock.Files.Moving.{
  IsUnused, append-nil, below-append, move_tree-back, lookup-move_tree, lookup-moved, unused-lookup,
}
use mathlib.Core.List.{reverse, reverse-reverse}
use mathlib.Core.Bool.{true≢false}

-- No call fails for a reason that the disk does not show.
abbrev pub quiet : Text → Calls
quiet process_directory = record {
  lstat_fails = λ path. false;
  rename_fails = λ path. false;
  remove_fails = λ path. false;
  removed = λ path. false;
  directory = process_directory;
}

unused-none : (target : Text) (disk : Disk) → IsUnused target disk → lookup target disk ≡ none
unused-none target disk h =
    ap (λ (t : Text). lookup t disk) (sym (append-nil target)) ∙ unused-lookup target [] disk refl h

unused-apart :
    (target q : Text) (disk : Disk) (node : Node)
    → IsUnused target disk
    → lookup q disk ≡ some node
    → below target q ≡ none
unfolding lookup
unused-apart target q [] node h k = ground arith
unused-apart target q ((path, other) ∷ disk) node (free, h) k = elim (Bool-cases (text_eq path q)) [
  | inl e ↦ ap (below target) (sym ((text_eq_iff path q).0 e)) ∙ free
  | inr e ↦ unused-apart target q disk node h (later path q other disk node e k)
]
  where
    later :
        (path q : Text) (other : Node) (disk : Disk) (node : Node)
        → text_eq path q ≡ false
        → (if text_eq path q then some other else lookup q disk) ≡ some node
        → lookup q disk ≡ some node
    later path q other disk node e k = ground arith

below_self : (source : Text) → below source source ≡ some []
below_self source = ap (below source) (sym (append-nil source)) ∙ below-append source [] refl

moved-target :
    (source target : Text) (disk : Disk)
    → IsUnused target disk
    → lookup target (move_tree source target disk) ≡ lookup source disk
moved-target source target disk h =
    ap (λ (t : Text). lookup t (move_tree source target disk)) (sym (append-nil target))
    ∙ lookup-move_tree source target [] disk refl h
    ∙ ap (λ (s : Text). lookup s disk) (append-nil source)

before_slash-Free : (xs : Text) → Free slash xs → before_slash xs ≡ xs
before_slash-Free [] h = refl
before_slash-Free (x ∷ xs) (n, h) =
    rw (differs x slash n) (ap (λ t. x ∷ t) (before_slash-Free xs h))

strip_slashes-Free : (xs : Text) → Free slash xs → strip_slashes xs ≡ xs
strip_slashes-Free [] h = refl
strip_slashes-Free (x ∷ xs) (n, h) = rw (differs x slash n) refl

-- The base name of a name is the name.
base_name-plain : (name : Text) → IsPlain name → base_name name ≡ name
unfolding base_name
base_name-plain [] ((f, e, d), dd) = absurd (true≢false e)
base_name-plain (c ∷ cs) ((f, e, d), dd) =
    let free = All-reverse (λ x. x ≢ slash) (c ∷ cs) f in
    ap (λ (t : Text). or_slash (reverse (before_slash t)))
      (strip_slashes-Free (reverse (c ∷ cs)) free)
    ∙ ap (λ (t : Text). or_slash (reverse t)) (before_slash-Free (reverse (c ∷ cs)) free)
    ∙ ap or_slash (reverse-reverse (c ∷ cs))

-- The path of an entry of a directory.
abbrev pub entry_path : List Text → Text → Text
entry_path parts name = rooted (parts ++ (name ∷ []))

entry_path-IsPlain :
    (parts : List Text) (name : Text)
    → All IsPlain parts
    → IsPlain name
    → All IsPlain (parts ++ (name ∷ []))
entry_path-IsPlain parts name h p = All-append IsPlain parts (name ∷ []) h (p, tt)

module _ (process_directory working_dir : Text) where
  abbrev calls : Calls
  calls = quiet process_directory

  operation_path-rooted :
      (parts : List Text)
      → All IsPlain parts
      → operation_path calls working_dir (rooted parts) ≡ rooted parts
  unfolding operation_path
  operation_path-rooted parts h = rw (file_path-rooted working_dir parts h) (clean-rooted parts h)

  new_path-entry :
      (parts : List Text) (old_name name : Text)
      → All IsPlain parts
      → IsPlain old_name
      → IsPlain name
      → new_path calls working_dir (entry_path parts old_name) name ≡ entry_path parts name
  unfolding new_path
  new_path-entry parts old_name name h p q =
      ap (λ (t : Text). operation_path calls working_dir (join t name))
        (dir_name-rooted parts old_name h p.0.0)
      ∙ ap (operation_path calls working_dir) (join-entry parts name h q)
      ∙ operation_path-rooted (parts ++ (name ∷ [])) (entry_path-IsPlain parts name h q)

  is_bad_name-plain : (name : Text) → IsPlain name → is_bad_name calls working_dir name ≡ false
  is_bad_name-plain [] ((f, e, d), dd) = absurd (true≢false e)
  is_bad_name-plain (c ∷ cs) p =
      rw (p.0.2, p.1, base_name-plain (c ∷ cs) p, text_eq_self (c ∷ cs)) refl

  rename_path-done :
      (parts : List Text) (old_name name : Text) (disk : Disk) (node : Node)
      → All IsPlain parts
      → IsPlain old_name
      → IsPlain name
      → is_working_dir calls working_dir (entry_path parts old_name) ≡ false
      → lookup (entry_path parts old_name) disk ≡ some node
      → lookup (entry_path parts name) disk ≡ none
      → rename_path calls working_dir (entry_path parts old_name) name disk
        ≡ (true, move_tree (entry_path parts old_name) (entry_path parts name) disk)
  unfolding rename_path
  rename_path-done parts old_name name disk node h p q apart there free =
      rw
        (
          operation_path-rooted (parts ++ (old_name ∷ [])) (entry_path-IsPlain parts old_name h p),
          new_path-entry parts old_name name h p q,
          is_bad_name-plain name q,
          apart,
          free,
          there,
        )
        refl

  -- Renaming an entry of a directory to a name at which, and below which, nothing stands moves it to
  -- that name in the same directory, and renaming what then stands there to the old name restores
  -- every file, if no system call fails and neither path is the working directory. The directory
  -- is any clean absolute path, and both names are not empty, "." or ".." and have no slash.
  pub rename_path-back :
      (parts : List Text) (old_name name : Text) (disk : Disk) (node : Node)
      → All IsPlain parts
      → IsPlain old_name
      → IsPlain name
      → is_working_dir calls working_dir (entry_path parts old_name) ≡ false
      → is_working_dir calls working_dir (entry_path parts name) ≡ false
      → lookup (entry_path parts old_name) disk ≡ some node
      → IsUnused (entry_path parts name) disk
      → let moved = move_tree (entry_path parts old_name) (entry_path parts name) disk in
        (rename_path calls working_dir (entry_path parts old_name) name disk ≡ (true, moved))
        × (rename_path calls working_dir (entry_path parts name) old_name moved ≡ (true, disk))
  rename_path-back parts old_name name disk node h p q apart apart_too there free =
      let source = entry_path parts old_name in
      let target = entry_path parts name in
      (
        rename_path-done parts old_name name disk node h p q apart there
            (unused-none target disk free),
        rename_path-done parts name old_name (move_tree source target disk) node h q p apart_too
              (moved-target source target disk free ∙ there)
              (lookup-moved source target source disk (below_self source)
                (unused-apart target source disk node free there))
            ∙ ap (λ (d : Disk). (true, d)) (move_tree-back source target disk free),
      )
