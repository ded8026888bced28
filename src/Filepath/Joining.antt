-- ===== src/Filepath/Joining.antt =====
-- path/filepath: `Join` of an absolute path and a relative one, and the way back up.
use termdock.Base.{◌≡◌, refl, ap, ◌∙◌, Bool, true, false, List, [], ◌∷◌, ◌++◌, All}
use termdock.Base.Text.{Text, join_with}
use termdock.Base.Splits.{split-join_with}
use termdock.Filepath.{slash, resolve, resolve_all, components, clean, or_dot, join, file_path}
use termdock.Filepath.Parts.{IsPlain, resolve_all-plain}
use termdock.Filepath.Rooted.{rooted, IsPlain-Free, clean-rooted}
use termdock.Filepath.Parents.{join_with-append, All-append}
use mathlib.Core.Bool.{true≢false}

abbrev pub is_empty : List Text → Bool
is_empty [] = true
is_empty (part ∷ parts) = false

clean_slashes :
    (name : Text) (names : List Text)
    → All IsPlain (name ∷ names)
    → clean (slash ∷ slash ∷ join_with slash (name ∷ names)) ≡ rooted (name ∷ names)
unfolding clean components resolve_all resolve
clean_slashes name names (k, h) =
    rw (split-join_with slash name names k.0.0 (IsPlain-Free names h))
      (ap rooted (resolve_all-plain true (name ∷ names) (k, h)))

pub clean-nested :
    (parts : List Text) (name : Text) (names : List Text)
    → All IsPlain parts
    → All IsPlain (name ∷ names)
    → clean (rooted parts ++ (slash ∷ join_with slash (name ∷ names)))
      ≡ rooted (parts ++ (name ∷ names))
clean-nested [] name names h k = clean_slashes name names k
clean-nested (part ∷ parts) name names h k =
    ap (λ (t : Text). clean (slash ∷ t)) (join_with-append part name parts names)
    ∙ clean-rooted ((part ∷ parts) ++ (name ∷ names))
        (All-append IsPlain (part ∷ parts) (name ∷ names) h k)

pub clean-joined :
    (parts names : List Text)
    → All IsPlain parts
    → All IsPlain names
    → is_empty names ≡ false
    → join (rooted parts) (or_dot (join_with slash names)) ≡ rooted (parts ++ names)
unfolding join
clean-joined parts [] h k n = absurd (true≢false n)
clean-joined parts ([] ∷ names) h (((f, e, d), dd), k) n = absurd (true≢false e)
clean-joined parts ((c ∷ cs) ∷ []) h k n = clean-nested parts (c ∷ cs) [] h k
clean-joined parts ((c ∷ cs) ∷ next ∷ names) h k n = clean-nested parts (c ∷ cs) (next ∷ names) h k

-- The path of an entry of a directory.
pub join-entry :
    (parts : List Text) (name : Text)
    → All IsPlain parts
    → IsPlain name
    → join (rooted parts) name ≡ rooted (parts ++ (name ∷ []))
join-entry parts [] h ((f, e, d), dd) = absurd (true≢false e)
join-entry parts (c ∷ cs) h p = clean-joined parts ((c ∷ cs) ∷ []) h (p, tt) refl

-- A clean absolute path is its own request path.
pub file_path-rooted :
    (working_dir : Text) (parts : List Text)
    → All IsPlain parts
    → file_path working_dir (rooted parts) ≡ rooted parts
unfolding file_path
file_path-rooted working_dir parts h = rw (clean-rooted parts h) refl
