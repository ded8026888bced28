-- ===== src/Files/Moving.antt =====
-- internal/server/operations.go: what the renaming of a whole tree does to the files.
use termdock.Base.{
  ℕ, ◌≡◌, refl, ap, subst, sym, Bool, true, false, [], ◌∷◌, ◌++◌, Option, none, some, arith, ◌==◌,
  if◌then◌else◌, All, eq_self, ==_iff,
}
use termdock.Base.Text.{Text, text_eq, text_eq_iff}
use termdock.Base.Maps.{lookup}
use termdock.Filepath.{slash}
use termdock.Upload.{Node, Disk}
use termdock.Files.Operations.{behind, below, retarget, move_tree}

-- No file is at the path or below it.
abbrev pub IsUnused : Text → Disk → Type 0
IsUnused target disk = All (λ (entry : Text × Node). below target entry.0 ≡ none) disk

abbrev pub IsRest : Text → Type 0
IsRest rest = behind rest ≡ some rest

pub below-append : (target rest : Text) → IsRest rest → below target (target ++ rest) ≡ some rest
below-append [] rest h = h
below-append (c ∷ cs) rest h = rw (eq_self c) (below-append cs rest h)

some-same : {x y : Text} → some x ≡ some y → x ≡ y
some-same h = ground arith

cons-same : {c d : ℕ} {xs ys : Text} → d ≡ c → xs ≡ ys → d ∷ xs ≡ c ∷ ys
cons-same e h = rw (e, h) refl

behind-some : (path rest : Text) → behind path ≡ some rest → (path ≡ rest) × IsRest rest
behind-some [] rest h = ground arith
behind-some (c ∷ cs) rest h = by_test (c == slash) refl h
  where
    by_test :
        (b : Bool)
        → (c == slash) ≡ b
        → (if b then some (c ∷ cs) else none) ≡ some rest
        → (c ∷ cs ≡ rest) × IsRest rest
    by_test true e k =
        let same : c ∷ cs ≡ rest = some-same k in (same, subst IsRest same (rw e refl))
    by_test false e k = ground arith

below-step :
    (c d : ℕ) (cs ds rest : Text)
    → (below cs ds ≡ some rest → (ds ≡ cs ++ rest) × IsRest rest)
    → below (c ∷ cs) (d ∷ ds) ≡ some rest
    → (d ∷ ds ≡ c ∷ (cs ++ rest)) × IsRest rest
below-step c d cs ds rest f h = by_test (c == d) refl h
  where
    by_test :
        (b : Bool)
        → (c == d) ≡ b
        → (if b then below cs ds else none) ≡ some rest
        → (d ∷ ds ≡ c ∷ (cs ++ rest)) × IsRest rest
    by_test true e k = (cons-same (sym ((==_iff c d).0 e)) (f k).0, (f k).1)
    by_test false e k = ground arith

below-some :
    (source path rest : Text)
    → below source path ≡ some rest
    → (path ≡ source ++ rest) × IsRest rest
below-some [] path rest h = behind-some path rest h
below-some (c ∷ cs) [] rest h = ground arith
below-some (c ∷ cs) (d ∷ ds) rest h = below-step c d cs ds rest (below-some cs ds rest) h

text_eq-append : (xs ys zs : Text) → text_eq (xs ++ ys) (xs ++ zs) ≡ text_eq ys zs
text_eq-append [] ys zs = refl
text_eq-append (x ∷ xs) ys zs = rw (eq_self x) (text_eq-append xs ys zs)

pub append-nil : (xs : Text) → xs ++ [] ≡ xs
append-nil [] = refl
append-nil (x ∷ xs) = ap (λ rest. x ∷ rest) (append-nil xs)

back_again :
    (source target path : Text) (found : Option Text)
    → below source path ≡ found
    → below target path ≡ none
    → retarget (retarget path target found) source (below target (retarget path target found))
      ≡ path
back_again source target path none h k = rw k refl
back_again source target path (some rest) h k =
    let (same, ends) = below-some source path rest h in
    rw (below-append target rest ends) (sym same)

-- Moving a tree to an unused place and back again restores every file.
pub move_tree-back :
    (source target : Text) (disk : Disk)
    → IsUnused target disk
    → move_tree target source (move_tree source target disk) ≡ disk
unfolding move_tree
move_tree-back source target [] h = refl
move_tree-back source target ((path, node) ∷ disk) (free, h) =
    rw
      (
        back_again source target path (below source path) refl free,
        move_tree-back source target disk h,
      )
      refl

differs :
    (path q : Text) (t : Text) {x : Text}
    → below t path ≡ none
    → below t q ≡ some x
    → text_eq path q ≡ false
differs path q t h k = ground (arith, text_eq_iff path q, ap (below t) {x = path} {y = q})

differs_too :
    (path q : Text) (t : Text) {x : Text}
    → below t path ≡ some x
    → below t q ≡ none
    → text_eq path q ≡ false
differs_too path q t h k = ground (arith, text_eq_iff path q, ap (below t) {x = path} {y = q})

moved_entry :
    (source target rest path : Text) (node : Node) (moved disk : Option Node) (found : Option Text)
    → below source path ≡ found
    → below target path ≡ none
    → IsRest rest
    → moved ≡ disk
    → (if text_eq (retarget path target found) (target ++ rest) then some node else moved)
      ≡ (if text_eq path (source ++ rest) then some node else disk)
moved_entry source target rest path node moved disk none k free e same =
    rw
      (
        differs path (target ++ rest) target free (below-append target rest e),
        differs path (source ++ rest) source k (below-append source rest e),
      )
      same
moved_entry source target rest path node moved disk (some other) k free e same =
    rw
      (
        (below-some source path other k).0,
        text_eq-append target other rest,
        text_eq-append source other rest,
        same,
      )
      refl

-- What was below the source is below the target, in the same place.
pub lookup-move_tree :
    (source target rest : Text) (disk : Disk)
    → IsRest rest
    → IsUnused target disk
    → lookup (target ++ rest) (move_tree source target disk) ≡ lookup (source ++ rest) disk
unfolding lookup move_tree
lookup-move_tree source target rest [] e h = refl
lookup-move_tree source target rest ((path, node) ∷ disk) e (free, h) =
    moved_entry source target rest path node _ _ (below source path) refl free e
      (lookup-move_tree source target rest disk e h)

gone_entry :
    (source target q path : Text) (node : Node) (moved : Option Node) (found : Option Text)
    {x : Text}
    → below source path ≡ found
    → below source q ≡ some x
    → below target q ≡ none
    → moved ≡ none
    → (if text_eq (retarget path target found) q then some node else moved) ≡ none
gone_entry source target q path node moved none k h away same = rw (differs path q source k h) same
gone_entry source target q path node moved (some other) k h away same =
    rw
      (differs_too (target ++ other) q target
        (below-append target other (below-some source path other k).1) away)
      same

-- Nothing is left at the source and below it, outside the target.
pub lookup-moved :
    (source target q : Text) (disk : Disk) {x : Text}
    → below source q ≡ some x
    → below target q ≡ none
    → lookup q (move_tree source target disk) ≡ none
unfolding lookup move_tree
lookup-moved source target q [] h k = refl
lookup-moved source target q ((path, node) ∷ disk) h k =
    gone_entry source target q path node _ (below source path) refl h k
      (lookup-moved source target q disk h k)

-- Nothing is found at an unused place.
pub unused-lookup :
    (target rest : Text) (disk : Disk)
    → IsRest rest
    → IsUnused target disk
    → lookup (target ++ rest) disk ≡ none
unfolding lookup
unused-lookup target rest [] e h = refl
unused-lookup target rest ((path, node) ∷ disk) e (free, h) =
    rw (differs path (target ++ rest) target free (below-append target rest e))
      (unused-lookup target rest disk e h)
