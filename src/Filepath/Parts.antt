-- ===== src/Filepath/Parts.antt =====
-- path/filepath: the components that `Clean` keeps of a path.
use termdock.Base.{
  ◌≡◌, subst, refl, ap, sym, ◌∙◌, Bool, true, false, List, [], ◌∷◌, arith, All, Bool-cases, inl,
  inr,
}
use termdock.Base.Text.{Text, text_eq, text_eq_iff, codes, split}
use termdock.Base.Splits.{Free, All-reverse, split-AllFree}
use termdock.Filepath.{slash, is_abs, is_dot, is_dot_dot, climb, resolve, resolve_all, components}
use mathlib.Core.List.{reverse, reverse_aux}
use mathlib.Core.Bool.{true≢false}

-- A component: not empty, no ".", and without a slash.
abbrev pub IsPart : Text → Type 0
IsPart part = Free slash part × (text_eq [] part ≡ false) × (is_dot part ≡ false)

-- A component that names an entry of its directory.
abbrev pub IsPlain : Text → Type 0
IsPlain part = IsPart part × (is_dot_dot part ≡ false)

-- Is the first component "..", as far as there is one?
abbrev pub climbs : List Text → Bool
climbs [] = false
climbs (part ∷ parts) = is_dot_dot part

abbrev pub can_climb : List Text → Bool
can_climb [] = true
can_climb (part ∷ parts) = is_dot_dot part

-- Kept components, the last one first: a ".." only in a relative path, and only after others.
abbrev pub Kept : Bool → List Text → Type 0
Kept rooted [] = Unit
Kept rooted (top ∷ rest) =
    IsPart top
    × (is_dot_dot top ≡ true → (rooted ≡ false) × (can_climb rest ≡ true))
    × Kept rooted rest

dots-IsPart : IsPart (codes "..")
dots-IsPart = ((ground arith, (ground arith, tt)), refl, refl)

climb-Kept :
    (rooted : Bool) (stack : List Text) → Kept rooted stack → Kept rooted (climb rooted stack)
unfolding climb
climb-Kept true [] h = tt
climb-Kept false [] h = (dots-IsPart, (λ e. (refl, refl)), tt)
climb-Kept rooted (top ∷ rest) (part, below, h) = elim (Bool-cases (is_dot_dot top)) [
  | inl e ↦ rw e (dots-IsPart, (λ d. ((below e).0, e)), (part, below, h))
  | inr e ↦ rw e h
]

resolve-Kept :
    (rooted : Bool) (stack : List Text) (part : Text)
    → Kept rooted stack
    → Free slash part
    → Kept rooted (resolve rooted stack part)
unfolding resolve
resolve-Kept rooted stack part h f = elim (Bool-cases (text_eq [] part)) [
  | inl e ↦ rw e h
  | inr e ↦ elim (Bool-cases (is_dot part)) [
    | inl d ↦ rw e (rw d h)
    | inr d ↦ elim (Bool-cases (is_dot_dot part)) [
      | inl dd ↦ rw e (rw d (rw dd (climb-Kept rooted stack h)))
      | inr dd ↦ rw e (rw d (rw dd ((f, e, d), (λ t. ground arith), h)))
    ]
  ]
]

resolve_all-Kept :
    (rooted : Bool) (stack parts : List Text)
    → Kept rooted stack
    → All (Free slash) parts
    → (kept : List Text) × (resolve_all rooted stack parts ≡ reverse kept) × Kept rooted kept
unfolding resolve_all
resolve_all-Kept rooted stack [] h f = (stack, refl, h)
resolve_all-Kept rooted stack (part ∷ parts) h (p, f) =
    resolve_all-Kept rooted (resolve rooted stack part) parts (resolve-Kept rooted stack part h p) f

pub components-Kept :
    (path : Text) → (kept : List Text) × (components path ≡ reverse kept) × Kept (is_abs path) kept
unfolding components
components-Kept path =
    resolve_all-Kept (is_abs path) [] (split slash path) tt (split-AllFree slash path)

-- A kept component is kept again.
climb_again :
    (rooted : Bool) (rest : List Text)
    → rooted ≡ false
    → can_climb rest ≡ true
    → climb rooted rest ≡ codes ".." ∷ rest
unfolding climb
climb_again rooted [] r h = rw r refl
climb_again rooted (top ∷ rest) r h = rw h refl

resolve_again :
    (rooted : Bool) (top : Text) (rest : List Text)
    → Kept rooted (top ∷ rest)
    → resolve rooted rest top ≡ top ∷ rest
unfolding resolve
resolve_again rooted top rest ((f, e, d), below, h) = elim (Bool-cases (is_dot_dot top)) [
  | inl dd ↦ rw e (
      rw d (
        rw dd (
          climb_again rooted rest (below dd).0 (below dd).1
          ∙ ap (λ (t : Text). t ∷ rest) ((text_eq_iff (codes "..") top).0 dd))))
  | inr dd ↦ rw e (rw d (rw dd refl))
]

pub resolve_all_again :
    (rooted : Bool) (kept parts : List Text)
    → Kept rooted kept
    → resolve_all rooted [] (reverse_aux kept parts) ≡ resolve_all rooted kept parts
unfolding resolve_all
resolve_all_again rooted [] parts h = refl
resolve_all_again rooted (top ∷ rest) parts h =
    resolve_all_again rooted rest (top ∷ parts) h.2
    ∙ ap (λ (stack : List Text). resolve_all rooted stack parts) (resolve_again rooted top rest h)

All-Kept : (rooted : Bool) (kept : List Text) → Kept rooted kept → All IsPart kept
All-Kept rooted [] h = tt
All-Kept rooted (top ∷ rest) (part, below, h) = (part, All-Kept rooted rest h)

-- In an absolute path every component is plain.
Kept-IsPlain : (kept : List Text) → Kept true kept → All IsPlain kept
Kept-IsPlain [] h = tt
Kept-IsPlain (top ∷ rest) (part, below, h) = elim (Bool-cases (is_dot_dot top)) [
  | inl e ↦ absurd (true≢false ((below e).0))
  | inr e ↦ ((part, e), Kept-IsPlain rest h)
]

-- In a relative one too, if it does not begin with "..".
above-IsPlain :
    (top : Text) (rest parts : List Text)
    → All IsPlain rest
    → IsPart top
    → (is_dot_dot top ≡ true → can_climb rest ≡ true)
    → climbs (reverse_aux rest (top ∷ parts)) ≡ false
    → IsPlain top
above-IsPlain top [] parts h part below c = (part, c)
above-IsPlain top (next ∷ rest) parts ((p, n), h) part below c = (part, ground arith)

Kept-inside :
    (kept parts : List Text)
    → Kept false kept
    → climbs (reverse_aux kept parts) ≡ false
    → All IsPlain kept
Kept-inside [] parts h c = tt
Kept-inside (top ∷ rest) parts (part, below, h) c =
    let inner = Kept-inside rest (top ∷ parts) h c in
    (above-IsPlain top rest parts inner part (λ e. (below e).1) c, inner)

pub components-IsPart : (path : Text) → All IsPart (components path)
components-IsPart path =
    let k = components-Kept path in
    subst (All IsPart) (sym k.1) (All-reverse IsPart k.0 (All-Kept (is_abs path) k.0 k.2))

pub components-IsPlain : (path : Text) → is_abs path ≡ true → All IsPlain (components path)
components-IsPlain path a =
    let k = components-Kept path in
    subst (All IsPlain) (sym k.1)
      (All-reverse IsPlain k.0 (Kept-IsPlain k.0 (subst (λ r. Kept r k.0) a k.2)))

pub components-inside :
    (path : Text)
    → is_abs path ≡ false
    → climbs (components path) ≡ false
    → All IsPlain (components path)
components-inside path a c =
    let k = components-Kept path in
    subst (All IsPlain) (sym k.1) (
      All-reverse IsPlain k.0 (
        Kept-inside k.0 [] (subst (λ r. Kept r k.0) a k.2) (subst (λ cs. climbs cs ≡ false) k.1 c)))

pub resolve_all-components :
    (path : Text) → resolve_all (is_abs path) [] (components path) ≡ components path
unfolding resolve_all
resolve_all-components path =
    let k = components-Kept path in
    subst (λ cs. resolve_all (is_abs path) [] cs ≡ cs) (sym k.1)
      (resolve_all_again (is_abs path) k.0 [] k.2)

pub resolve-plain :
    (rooted : Bool) (stack : List Text) (part : Text)
    → IsPlain part
    → resolve rooted stack part ≡ part ∷ stack
unfolding resolve
resolve-plain rooted stack part ((f, e, d), dd) = rw e (rw d (rw dd refl))

resolve_all-plain_onto :
    (rooted : Bool) (stack parts : List Text)
    → All IsPlain parts
    → resolve_all rooted stack parts ≡ reverse_aux stack parts
unfolding resolve_all
resolve_all-plain_onto rooted stack [] h = refl
resolve_all-plain_onto rooted stack (part ∷ parts) (p, h) =
    ap (λ (kept : List Text). resolve_all rooted kept parts) (resolve-plain rooted stack part p)
    ∙ resolve_all-plain_onto rooted (part ∷ stack) parts h

pub resolve_all-plain :
    (rooted : Bool) (parts : List Text) → All IsPlain parts → resolve_all rooted [] parts ≡ parts
resolve_all-plain rooted parts h = resolve_all-plain_onto rooted [] parts h
