-- ===== src/Base/Splits.antt =====
-- Splitting a text at a character and joining the parts again.
use termdock.Base.{
  ℕ, ◌≡◌, ◌≢◌, refl, ap, ◌∙◌, false, List, [], ◌∷◌, ◌++◌, arith, ◌==◌, All, ==_iff, Bool-cases, inl,
  inr,
}
use termdock.Base.Text.{Text, split, add_to_head, join_with}
use mathlib.Core.List.{reverse, reverse_aux}

abbrev pub Free : ℕ → Text → Type 0
Free c text = All (λ x. x ≢ c) text

pub differs : (x c : ℕ) → x ≢ c → (x == c) ≡ false
differs x c h = ground (arith, ==_iff x c)

pub split-Free : (c : ℕ) (xs : Text) → Free c xs → split c xs ≡ xs ∷ []
split-Free c [] h = refl
split-Free c (x ∷ xs) (n, h) = rw (differs x c n, split-Free c xs h) refl

pub split-append : (c : ℕ) (xs ys : Text) → Free c xs → split c (xs ++ (c ∷ ys)) ≡ xs ∷ split c ys
split-append c [] ys h = ground (arith, ==_iff c c)
split-append c (x ∷ xs) ys (n, h) = rw (differs x c n, split-append c xs ys h) refl

pub All-reverse_aux {ℓ κ} :
    {A : Type ℓ} (P : A → Type κ) (xs ys : List A) → All P xs → All P ys → All P (reverse_aux xs ys)
All-reverse_aux P [] ys h k = k
All-reverse_aux P (x ∷ xs) ys (p, h) k = All-reverse_aux P xs (x ∷ ys) h (p, k)

pub All-reverse {ℓ κ} : {A : Type ℓ} (P : A → Type κ) (xs : List A) → All P xs → All P (reverse xs)
All-reverse P xs h = All-reverse_aux P xs [] h tt

-- The parts do not contain the separator.
add_to_head-Free :
    (sep c : ℕ) (parts : List Text)
    → c ≢ sep
    → All (Free sep) parts
    → All (Free sep) (add_to_head c parts)
add_to_head-Free sep c [] n h = ((n, tt), tt)
add_to_head-Free sep c (w ∷ ws) n (p, h) = ((n, p), h)

pub split-AllFree : (sep : ℕ) (text : Text) → All (Free sep) (split sep text)
split-AllFree sep [] = (tt, tt)
split-AllFree sep (c ∷ cs) = elim (Bool-cases (c == sep)) [
  | inl e ↦ rw e (tt, split-AllFree sep cs)
  | inr e ↦
      rw e (
        add_to_head-Free sep c (split sep cs) (ground (arith, ==_iff c sep)) (split-AllFree sep cs))
]

pub split-join_with :
    (sep : ℕ) (w : Text) (ws : List Text)
    → Free sep w
    → All (Free sep) ws
    → split sep (join_with sep (w ∷ ws)) ≡ w ∷ ws
split-join_with sep w [] p h = split-Free sep w p
split-join_with sep w (v ∷ ws) p (q, h) =
    split-append sep w (join_with sep (v ∷ ws)) p
    ∙ ap (λ (vs : List Text). w ∷ vs) (split-join_with sep v ws q h)
