-- ===== src/Filepath/Rooted.antt =====
-- path/filepath and `filePath` of internal/server/server.go: absolute paths of plain components.
use termdock.Base.{
  ◌≡◌, refl, ap, subst, sym, ◌∙◌, Bool, true, false, List, [], ◌∷◌, ◌++◌, arith, if◌then◌else◌, All,
  ==_iff,
}
use termdock.Base.Text.{Text, join_with}
use termdock.Base.Splits.{Free, split-join_with}
use termdock.Filepath.{
  slash, is_abs, resolve, resolve_all, components, clean, or_dot, join, file_path, or_working_dir,
}
use mathlib.Core.Bool.{true≢false}
use termdock.Filepath.Parts.{
  IsPart, IsPlain, components-IsPart, components-IsPlain, resolve_all-components, resolve_all-plain,
}

abbrev pub rooted : List Text → Text
rooted parts = slash ∷ join_with slash parts

-- An absolute path whose components are not empty, ".", ".." and contain no slash.
abbrev pub IsRooted : Text → Type 0
IsRooted path = (parts : List Text) × (path ≡ rooted parts) × All IsPlain parts

IsPart-Free : (parts : List Text) → All IsPart parts → All (Free slash) parts
IsPart-Free [] h = tt
IsPart-Free (part ∷ parts) ((f, e, d), h) = (f, IsPart-Free parts h)

pub IsPlain-Free : (parts : List Text) → All IsPlain parts → All (Free slash) parts
IsPlain-Free [] h = tt
IsPlain-Free (part ∷ parts) (((f, e, d), dd), h) = (f, IsPlain-Free parts h)

pub clean_abs : (path : Text) → is_abs path ≡ true → clean path ≡ rooted (components path)
unfolding clean
clean_abs path h = rw h refl

pub clean_abs-IsRooted : (path : Text) → is_abs path ≡ true → IsRooted (clean path)
clean_abs-IsRooted path h = (components path, clean_abs path h, components-IsPlain path h)

pub split-rooted :
    (parts : List Text)
    → All (Free slash) parts
    → components (rooted parts) ≡ resolve_all true [] parts
unfolding components resolve_all resolve
split-rooted [] h = refl
split-rooted (part ∷ parts) (f, h) = ap (resolve_all true []) (split-join_with slash part parts f h)

pub components-rooted : (parts : List Text) → All IsPlain parts → components (rooted parts) ≡ parts
components-rooted parts h =
    split-rooted parts (IsPlain-Free parts h) ∙ resolve_all-plain true parts h

pub clean-rooted : (parts : List Text) → All IsPlain parts → clean (rooted parts) ≡ rooted parts
clean-rooted parts h = clean_abs (rooted parts) refl ∙ ap rooted (components-rooted parts h)

-- A relative path is not empty and does not begin with a slash.
pub join_with-relative :
    (part : Text) (parts : List Text)
    → IsPart part
    → (or_dot (join_with slash (part ∷ parts)) ≡ join_with slash (part ∷ parts))
      × (is_abs (join_with slash (part ∷ parts)) ≡ false)
join_with-relative [] parts h = ground arith
join_with-relative (c ∷ cs) [] ((n, f), e, d) = (refl, ground (arith, ==_iff slash c))
join_with-relative (c ∷ cs) (part ∷ parts) ((n, f), e, d) = (refl, ground (arith, ==_iff slash c))

clean_relative :
    (parts : List Text)
    → All IsPart parts
    → resolve_all false [] parts ≡ parts
    → clean (or_dot (join_with slash parts)) ≡ or_dot (join_with slash parts)
unfolding clean components resolve_all resolve
clean_relative [] h k = refl
clean_relative (part ∷ parts) (p, h) k =
    let (o, a) = join_with-relative part parts p in
    rw o (rw a (rw (split-join_with slash part parts p.0 (IsPart-Free parts h)) (rw k o)))

pub clean_not_abs :
    (path : Text) → is_abs path ≡ false → clean path ≡ or_dot (join_with slash (components path))
unfolding clean
clean_not_abs path h = rw h refl

clean_again :
    (path : Text) (absolute : Bool) → is_abs path ≡ absolute → clean (clean path) ≡ clean path
clean_again path true a =
    ap clean (clean_abs path a)
    ∙ clean-rooted (components path) (components-IsPlain path a)
    ∙ sym (clean_abs path a)
clean_again path false a =
    ap clean (clean_not_abs path a)
    ∙ clean_relative (components path) (components-IsPart path) (
        subst (λ r. resolve_all r [] (components path) ≡ components path) a
          (resolve_all-components path))
    ∙ sym (clean_not_abs path a)

-- Cleaning a path twice gives what cleaning it once does.
pub clean-clean : (path : Text) → clean (clean path) ≡ clean path
clean-clean path = clean_again path (is_abs path) refl

relative_abs :
    (parts : List Text) → All IsPart parts → is_abs (or_dot (join_with slash parts)) ≡ false
relative_abs [] h = refl
relative_abs (part ∷ parts) (p, h) = let (o, a) = join_with-relative part parts p in rw o a

pub is_abs-clean :
    (path : Text) (absolute : Bool) → is_abs path ≡ absolute → is_abs (clean path) ≡ absolute
is_abs-clean path true a = rw (clean_abs path a) refl
is_abs-clean path false a =
    rw (clean_not_abs path a) (relative_abs (components path) (components-IsPart path))

join-IsRooted : (base path : Text) → is_abs base ≡ true → IsRooted (join base path)
unfolding join
join-IsRooted [] path a = absurd (true≢false (sym a))
join-IsRooted (c ∷ cs) [] a = clean_abs-IsRooted (c ∷ cs) a
join-IsRooted (c ∷ cs) (d ∷ ds) a = clean_abs-IsRooted (c ∷ cs ++ (slash ∷ d ∷ ds)) a

file_path_cleaned :
    (working_dir path : Text) (absolute : Bool)
    → is_abs working_dir ≡ true
    → is_abs path ≡ absolute
    → IsRooted (if is_abs (clean path) then clean path else join working_dir (clean path))
file_path_cleaned working_dir path true w a =
    rw (is_abs-clean path true a) (clean_abs-IsRooted path a)
file_path_cleaned working_dir path false w a =
    rw (is_abs-clean path false a) (join-IsRooted working_dir (clean path) w)

-- For an absolute working directory, the path that the server makes of any request's path is
-- absolute, and none of its components is empty, ".", ".." or contains a slash.
pub file_path-IsRooted :
    (working_dir requested : Text)
    → is_abs working_dir ≡ true
    → IsRooted (file_path working_dir requested)
unfolding file_path
file_path-IsRooted working_dir requested w =
    file_path_cleaned working_dir (or_working_dir working_dir requested)
      (is_abs (or_working_dir working_dir requested)) w refl
