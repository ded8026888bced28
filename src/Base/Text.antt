-- ===== src/Base/Text.antt =====
-- Text as the list of its UTF-16 code units, and the JavaScript string operations that the page
-- uses: equality, `trim`, `includes`, `split` on one character.
use Prim.Native.Nat.{ℕ}
use Prim.Native.Char.{code}
use Prim.Native.String.{String}
use mathlib.Core.Path.{◌≡◌, refl}
use mathlib.Core.Logic.{◌↔◌}
use mathlib.Core.Bool.{Bool, true, false, ◌&&◌, ◌||◌}
use mathlib.Core.List.{List, [], ◌∷◌, ◌++◌, reverse}
use native.Mathlib.Omega.{arith}
use termdock.Base.Tests.{◌==◌, if◌then◌else◌}

abbrev pub Text : Type 0
Text = List ℕ

-- The code units of an ASCII literal.
abbrev pub codes : String → Text
codes String.[] = []
codes (String.◌∷◌ c s) = code c ∷ codes s

abbrev pub text_eq : Text → Text → Bool
text_eq [] [] = true
text_eq [] (y ∷ ys) = false
text_eq (x ∷ xs) [] = false
text_eq (x ∷ xs) (y ∷ ys) = (x == y) && text_eq xs ys

pub text_eq_iff : (xs ys : Text) → (text_eq xs ys ≡ true) ↔ (xs ≡ ys)
text_eq_iff [] [] = ground arith
text_eq_iff [] (y ∷ ys) = ground arith
text_eq_iff (x ∷ xs) [] = ground arith
text_eq_iff (x ∷ xs) (y ∷ ys) = ground (arith, text_eq_iff xs ys)

pub text_eq_self : (xs : Text) → text_eq xs xs ≡ true
text_eq_self xs = (text_eq_iff xs xs).1 refl

-- Does the text begin with the given one?
abbrev pub starts_with : Text → Text → Bool
starts_with [] ys = true
starts_with (x ∷ xs) [] = false
starts_with (x ∷ xs) (y ∷ ys) = (x == y) && starts_with xs ys

-- `haystack.includes(needle)`, the needle first.
abbrev pub includes : Text → Text → Bool
includes needle [] = starts_with needle []
includes needle (y ∷ ys) = starts_with needle (y ∷ ys) || includes needle ys

-- The characters that `trim` takes off, within Latin-1.
abbrev pub is_space : ℕ → Bool
is_space c = c == 32 || (c == 9 || (c == 10 || (c == 11 || (c == 12 || (c == 13 || c == 160)))))

abbrev pub trim_start : Text → Text
trim_start [] = []
trim_start (c ∷ cs) = if is_space c then trim_start cs else c ∷ cs

abbrev pub trim : Text → Text
trim cs = reverse (trim_start (reverse (trim_start cs)))

-- What Go's `strings.TrimSpace` takes off, within Latin-1.
abbrev pub drop_space : Text → Text
drop_space [] = []
drop_space (c ∷ cs) = if is_space c || c == 133 then drop_space cs else c ∷ cs

abbrev pub trim_space : Text → Text
trim_space cs = reverse (drop_space (reverse (drop_space cs)))

abbrev pub add_to_head : ℕ → List Text → List Text
add_to_head c [] = (c ∷ []) ∷ []
add_to_head c (w ∷ ws) = (c ∷ w) ∷ ws

-- `text.split(separator)` for a separator of one character: never the empty list.
abbrev pub split : ℕ → Text → List Text
split sep [] = [] ∷ []
split sep (c ∷ cs) = if c == sep then [] ∷ split sep cs else add_to_head c (split sep cs)

-- `parts.join(separator)`.
abbrev pub join_with : ℕ → List Text → Text
join_with sep [] = []
join_with sep (w ∷ []) = w
join_with sep (w ∷ v ∷ ws) = w ++ (sep ∷ join_with sep (v ∷ ws))

-- `text.endsWith(suffix)`, the suffix first.
abbrev pub ends_with : Text → Text → Bool
ends_with suffix text = starts_with (reverse suffix) (reverse text)
