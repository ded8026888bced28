-- ===== src/Archive/Target.antt =====
-- internal/server/archive.go: where `extractionTarget` puts an entry.
use termdock.Base.{
  ◌≡◌, refl, ap, subst, ◌∙◌, Bool, true, false, not, ◌&&◌, ◌||◌, List, [], ◌∷◌, ◌++◌, Option, none,
  some, arith, if◌then◌else◌, All, ==_iff, Bool-cases, inl, inr,
}
use termdock.Base.Text.{Text, text_eq, codes, join_with, starts_with}
use termdock.Base.Splits.{Free}
use termdock.Filepath.{slash, is_abs, is_dot, is_dot_dot, components, clean, or_dot, join}
use termdock.Filepath.Parts.{
  IsPart, IsPlain, climbs, components-IsPart, components-IsPlain, components-inside,
}
use termdock.Filepath.Rooted.{rooted, clean_abs, clean_not_abs, clean-rooted, join_with-relative}
use termdock.Filepath.Parents.{join_with-append, All-append}
use termdock.Filepath.Joining.{is_empty, clean-joined}
use mathlib.Core.Bool.{true≢false}
use mathlib.Core.List.{append_assoc}
use termdock.Archive.{extraction_target, is_unsafe, is_outside, checked_target}

-- A name that stays in its directory: relative, not the directory itself, and without a way up.
abbrev pub is_inside : Text → Bool
is_inside name =
    not (is_abs name) && (not (is_empty (components name)) && not (climbs (components name)))

-- What an exact reading of the name gives: nothing at all in the root directory.
abbrev pub target_in : List Text → Text → Option Text
target_in parts name =
    if is_inside name && not (is_empty parts)
    then some (rooted (parts ++ components name))
    else none

starts_with-append : (xs ys : Text) → starts_with xs (xs ++ ys) ≡ true
starts_with-append [] ys = refl
starts_with-append (x ∷ xs) ys = ground (arith, starts_with-append xs ys, ==_iff x x)

pub and_false : (b : Bool) → (b && false) ≡ false
and_false true = refl
and_false false = refl

not_up : (part : Text) → Free slash part → starts_with (codes "../") part ≡ false
not_up [] f = refl
not_up (c ∷ []) f = ground arith
not_up (c ∷ d ∷ []) f = ground arith
not_up (c ∷ d ∷ e ∷ es) (f, (g, (h, k))) = ground (arith, ==_iff slash e)

up :
    (part rest : Text)
    → Free slash part
    → starts_with (codes "../") (part ++ (slash ∷ rest)) ≡ is_dot_dot part
up [] rest f = refl
up (c ∷ []) rest f = ground arith
up (c ∷ d ∷ []) rest f = ground arith
up (c ∷ d ∷ e ∷ es) rest (f, (g, (h, k))) = ground (arith, ==_iff slash e)

not_dots : (part rest : Text) → Free slash part → is_dot_dot (part ++ (slash ∷ rest)) ≡ false
not_dots [] rest f = refl
not_dots (c ∷ []) rest f = ground arith
not_dots (c ∷ d ∷ []) rest f = ground arith
not_dots (c ∷ d ∷ e ∷ es) rest f = ground arith

not_dot : (part rest : Text) → text_eq [] part ≡ false → is_dot (part ++ (slash ∷ rest)) ≡ false
not_dot [] rest e = ground arith
not_dot (c ∷ []) rest e = ground arith
not_dot (c ∷ d ∷ cs) rest e = ground arith

or_false : (b : Bool) → (b || false) ≡ b
or_false true = refl
or_false false = refl

-- The cleaned name is refused exactly if the name does not stay inside.
is_unsafe-relative :
    (parts : List Text)
    → All IsPart parts
    → is_unsafe (or_dot (join_with slash parts)) ≡ (is_empty parts || climbs parts)
is_unsafe-relative [] h = refl
is_unsafe-relative (part ∷ []) (((f, e, d), h)) =
    let (o, a) = join_with-relative part [] (f, e, d) in
    rw o (rw d (rw a (rw (not_up part f) (or_false (is_dot_dot part)))))
is_unsafe-relative (part ∷ next ∷ parts) ((f, e, d), h) =
    let rest = join_with slash (next ∷ parts) in
    let (o, a) = join_with-relative part (next ∷ parts) (f, e, d) in
    rw o (rw (not_dot part rest e) (rw a (rw (not_dots part rest f) (up part rest f))))

outside-nested :
    (parts names : List Text)
    → is_empty parts ≡ false
    → is_empty names ≡ false
    → is_outside (rooted parts) (rooted (parts ++ names)) ≡ false
outside-nested [] names p n = absurd (true≢false p)
outside-nested (part ∷ parts) [] p n = absurd (true≢false n)
outside-nested (part ∷ parts) (name ∷ names) p n =
    let base = rooted (part ∷ parts) in
    let tail = join_with slash (name ∷ names) in
    subst (λ t. is_outside base t ≡ false)
      (append_assoc base (slash ∷ []) tail
        ∙ ap (λ (t : Text). slash ∷ t) (join_with-append part name parts names))
      (rw (starts_with-append (base ++ (slash ∷ [])) tail)
        (and_false (not (text_eq ((base ++ (slash ∷ [])) ++ tail) base))))

outside-root :
    (names : List Text)
    → All IsPlain names
    → is_empty names ≡ false
    → is_outside (rooted []) (rooted names) ≡ true
outside-root [] h n = absurd (true≢false n)
outside-root ([] ∷ names) (((f, e, d), dd), h) n = absurd (true≢false e)
outside-root ((c ∷ cs) ∷ []) ((p, dd), h) n = rw (join_with-relative (c ∷ cs) [] p).1 refl
outside-root ((c ∷ cs) ∷ next ∷ names) ((p, dd), h) n =
    rw (join_with-relative (c ∷ cs) (next ∷ names) p).1 refl

extraction_of_relative :
    (parts names : List Text) (cleaned : Text)
    → All IsPlain parts
    → All IsPart names
    → (climbs names ≡ false → All IsPlain names)
    → cleaned ≡ or_dot (join_with slash names)
    → checked_target cleaned (rooted parts) (clean (join (rooted parts) cleaned)) ≡ (
        if (not (is_empty names) && not (climbs names)) && not (is_empty parts)
        then some (rooted (parts ++ names))
        else none)
extraction_of_relative parts [] cleaned h k inside e = rw e refl
extraction_of_relative parts (name ∷ names) cleaned h k inside e = rw e (
    rw (is_unsafe-relative (name ∷ names) k) (elim (Bool-cases (is_dot_dot name)) [
      | inl d ↦ rw d refl
      | inr d ↦
          let plain = inside d in
          let joined = clean-joined parts (name ∷ names) h plain refl in
          let again =
            clean-rooted (parts ++ (name ∷ names))
              (All-append IsPlain parts (name ∷ names) h plain) in
          rw d (rw joined (rw again (placed parts name names plain)))
    ]))
  where
    placed :
        (parts : List Text) (name : Text) (names : List Text)
        → All IsPlain (name ∷ names)
        → (if is_outside (rooted parts) (rooted (parts ++ (name ∷ names)))
            then none
            else some (rooted (parts ++ (name ∷ names))))
          ≡ (if not (is_empty parts) then some (rooted (parts ++ (name ∷ names))) else none)
    placed [] name names plain = rw (outside-root (name ∷ names) plain refl) refl
    placed (part ∷ parts) name names plain =
        rw (outside-nested (part ∷ parts) (name ∷ names) refl refl) refl

extraction_by_kind :
    (parts : List Text) (name : Text) (absolute : Bool)
    → is_abs name ≡ absolute
    → All IsPlain parts
    → extraction_target (rooted parts) name ≡ target_in parts name
unfolding extraction_target
extraction_by_kind parts name true a h = rw (clean_abs name a) (rw a refl)
extraction_by_kind parts name false a h =
    ap (λ (base : Text). checked_target (clean name) base (clean (join base (clean name))))
      (clean-rooted parts h)
    ∙ extraction_of_relative parts (components name) (clean name) h (components-IsPart name)
        (components-inside name a) (clean_not_abs name a)
    ∙ rw a refl

-- For a destination without ".", ".." or empty components, an entry goes to the destination followed
-- by the components of its name, if its name is relative, does not lead to the destination itself and
-- does not lead above it. Every other name is refused. In the root directory every name is refused.
pub extraction_target-inside :
    (parts : List Text) (name : Text)
    → All IsPlain parts
    → extraction_target (rooted parts) name ≡ target_in parts name
extraction_target-inside parts name h = extraction_by_kind parts name (is_abs name) refl h

-- The components that follow are plain themselves.
pub is_inside-IsPlain : (name : Text) → is_inside name ≡ true → All IsPlain (components name)
is_inside-IsPlain name h = elim (Bool-cases (is_abs name)) [
  | inl a ↦ components-IsPlain name a
  | inr a ↦ components-inside name a (ground arith)
]
