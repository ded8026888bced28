-- ===== src/Filepath/Parents.antt =====
-- path/filepath: `Dir` of an absolute path.
use termdock.Base.{◌≡◌, ◌≢◌, refl, ap, sym, ◌∙◌, true, List, [], ◌∷◌, ◌++◌, All}
use termdock.Base.Text.{Text, join_with}
use termdock.Base.Splits.{Free, differs, All-reverse}
use termdock.Filepath.{slash, resolve, resolve_all, components, clean, from_slash, dir_name}
use termdock.Filepath.Parts.{IsPlain, resolve-plain}
use termdock.Filepath.Rooted.{rooted, clean_abs, IsPlain-Free, split-rooted}
use mathlib.Core.List.{
  reverse, reverse_aux, append_assoc, reverse-append, reverse-cons, reverse-reverse,
}

pub join_with-append :
    (u v : Text) (us vs : List Text)
    → join_with slash (u ∷ us) ++ (slash ∷ join_with slash (v ∷ vs))
      ≡ join_with slash ((u ∷ us) ++ (v ∷ vs))
join_with-append u v [] vs = refl
join_with-append u v (w ∷ us) vs =
    append_assoc u (slash ∷ join_with slash (w ∷ us)) (slash ∷ join_with slash (v ∷ vs))
    ∙ ap (λ (t : Text). u ++ (slash ∷ t)) (join_with-append w v us vs)

pub All-append {ℓ κ} :
    {A : Type ℓ} (P : A → Type κ) (xs ys : List A) → All P xs → All P ys → All P (xs ++ ys)
All-append P [] ys h k = k
All-append P (x ∷ xs) ys (p, h) k = (p, All-append P xs ys h k)

-- A list that is not empty has a last element.
abbrev pub init {ℓ} : {A : Type ℓ} → A → List A → List A
init x [] = []
init x (y ∷ ys) = x ∷ init y ys

abbrev pub last {ℓ} : {A : Type ℓ} → A → List A → A
last x [] = x
last x (y ∷ ys) = last y ys

pub init-last {ℓ} : {A : Type ℓ} (x : A) (xs : List A) → init x xs ++ (last x xs ∷ []) ≡ x ∷ xs
init-last x [] = refl
init-last x (y ∷ ys) = ap (λ zs. x ∷ zs) (init-last y ys)

pub All-init {ℓ κ} :
    {A : Type ℓ} (P : A → Type κ) (x : A) (xs : List A) → All P (x ∷ xs) → All P (init x xs)
All-init P x [] h = tt
All-init P x (y ∷ ys) (p, h) = (p, All-init P y ys h)

pub All-last {ℓ κ} :
    {A : Type ℓ} (P : A → Type κ) (x : A) (xs : List A) → All P (x ∷ xs) → P (last x xs)
All-last P x [] (p, h) = p
All-last P x (y ∷ ys) (p, h) = All-last P y ys h

from_slash-append : (xs ys : Text) → Free slash xs → from_slash (xs ++ (slash ∷ ys)) ≡ slash ∷ ys
from_slash-append [] ys h = refl
from_slash-append (x ∷ xs) ys (n, h) = rw (differs x slash n) (from_slash-append xs ys h)

before_last :
    (xs name : Text)
    → Free slash name
    → reverse (from_slash (reverse (xs ++ (slash ∷ name)))) ≡ xs ++ (slash ∷ [])
before_last xs name h =
    ap (λ t. reverse (from_slash t))
      (reverse-append xs (slash ∷ name)
        ∙ ap (λ (t : Text). t ++ reverse xs) (reverse-cons slash name)
        ∙ append_assoc (reverse name) (slash ∷ []) (reverse xs))
    ∙ ap reverse
        (from_slash-append (reverse name) (reverse xs) (All-reverse (λ x. x ≢ slash) name h))
    ∙ reverse-cons slash (reverse xs)
    ∙ ap (λ (t : Text). t ++ (slash ∷ [])) (reverse-reverse xs)

trailing_onto :
    (stack parts : List Text)
    → All IsPlain parts
    → resolve_all true stack (parts ++ ([] ∷ [])) ≡ reverse_aux stack parts
unfolding resolve resolve_all
trailing_onto stack [] h = refl
trailing_onto stack (part ∷ parts) (p, h) =
    ap (λ (kept : List Text). resolve_all true kept (parts ++ ([] ∷ [])))
      (resolve-plain true stack part p)
    ∙ trailing_onto (part ∷ stack) parts h

clean_trailing :
    (part : Text) (parts : List Text)
    → All IsPlain (part ∷ parts)
    → clean (rooted (part ∷ parts) ++ (slash ∷ [])) ≡ rooted (part ∷ parts)
clean_trailing part parts h =
    ap (λ (t : Text). clean (slash ∷ t)) (join_with-append part [] parts [])
    ∙ clean_abs (rooted ((part ∷ parts) ++ ([] ∷ []))) refl
    ∙ ap rooted (
        split-rooted ((part ∷ parts) ++ ([] ∷ [])) (
          All-append (Free slash) (part ∷ parts) ([] ∷ []) (IsPlain-Free (part ∷ parts) h) (tt, tt))
        ∙ trailing_onto [] (part ∷ parts) h)

pub dir_name-rooted :
    (parts : List Text) (name : Text)
    → All IsPlain parts
    → Free slash name
    → dir_name (rooted (parts ++ (name ∷ []))) ≡ rooted parts
unfolding dir_name clean resolve resolve_all components
dir_name-rooted [] name h f = ap clean (before_last [] name f)
dir_name-rooted (part ∷ parts) name h f =
    ap (λ (t : Text). clean (reverse (from_slash (reverse (slash ∷ t)))))
      (sym (join_with-append part name parts []))
    ∙ ap clean (before_last (rooted (part ∷ parts)) name f)
    ∙ clean_trailing part parts h
