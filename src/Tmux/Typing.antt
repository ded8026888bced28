-- ===== src/Tmux/Typing.antt =====
-- internal/server/tmux.go: which names the server holds and types, where it enters a session.
use termdock.Base.{
  ℕ, ◌≡◌, refl, Bool, true, false, not, ◌&&◌, ◌||◌, List, [], ◌∷◌, ◌++◌, Option, none, some, arith,
  leb, ◌==◌, if◌then◌else◌, length, take, all, All, Bool-cases, inl, inr,
}
use termdock.Base.Text.{Text, text_eq, codes}
use termdock.Session.{PersistentSession, Target, set_tmux_target}
use termdock.Tmux.{
  valid_name, is_name_char, is_alphanumeric, is_digit, has_failed, Tools, Tmux, Switched, switched,
  unavailable, failed, switch_tmux_target, switch_from, switch_in, selects_badly, point,
  target_text, attach_line, typed_part, type_line, client_command, switch_client, select_in, tell,
}
use termdock.Tmux.Routes.{settle_switch, leave_line}

-- A character that a shell reads as itself: of a name, or the colon before a window's number.
abbrev pub is_plain : ℕ → Bool
is_plain c = is_name_char c || c == b':'

-- What a write may type: the key that leaves tmux, a line that attaches to a plain target, or a
-- beginning of these.
pub data IsSafe : Text → Type 0 where
  leaves : IsSafe leave_line
  enters : (target : Text) → all is_plain target ≡ true → IsSafe (attach_line target)
  cut_short : (n : ℕ) (line : Text) → IsSafe line → IsSafe (take n line)

pub typed_part-IsSafe : (tools : Tools) (line : Text) → IsSafe line → IsSafe (typed_part tools line)
typed_part-IsSafe tools line h = elim (Bool-cases tools.write_fails) [
  | inl e ↦ rw e (cut_short tools.written line h)
  | inr e ↦ rw e h
]

abbrev pub valid_or_empty : Text → Bool
valid_or_empty name = text_eq name [] || valid_name name

abbrev pub valid_target : Option Target → Bool
valid_target none = true
valid_target (some target) = valid_name target.session

abbrev pub session_named : Option PersistentSession → Bool
session_named none = true
session_named (some session) = valid_target session.tmux_target

-- The default is a session's name or empty, the current target has a session's name, and what was
-- typed is safe.
abbrev pub IsNamed : Tmux → Type 0
IsNamed t =
    (valid_or_empty t.default_tmux ≡ true) × (session_named t.session ≡ true) × All IsSafe t.typed

pub All-append {ℓ κ} :
    {A : Type ℓ} (P : A → Type κ) (xs : List A) (x : A) → All P xs → P x → All P (xs ++ (x ∷ []))
All-append P [] x h p = (p, tt)
All-append P (y ∷ xs) x (q, h) p = (q, All-append P xs x h p)

all-append :
    (xs ys : Text)
    → all is_plain xs ≡ true
    → all is_plain ys ≡ true
    → all is_plain (xs ++ ys) ≡ true
all-append [] ys h k = k
all-append (x ∷ xs) ys h k = ground (arith, all-append xs ys)

all-weaken :
    (p q : ℕ → Bool) (cs : Text)
    → ((c : ℕ) → p c ≡ true → q c ≡ true)
    → all p cs ≡ true
    → all q cs ≡ true
all-weaken p q [] w h = refl
all-weaken p q (c ∷ cs) w h = ground (arith, w c, all-weaken p q cs w)

or-left : (a b : Bool) → a ≡ true → a || b ≡ true
or-left a b h = ground arith

alphanumeric-plain : (c : ℕ) → is_alphanumeric c ≡ true → is_plain c ≡ true
alphanumeric-plain c h = or-left (is_name_char c) (c == b':') (or-left (is_alphanumeric c) _ h)

digit-plain : (c : ℕ) → is_digit c ≡ true → is_plain c ≡ true
digit-plain c h = alphanumeric-plain c (or-left (is_digit c) _ h)

valid_name-plain : (name : Text) → valid_name name ≡ true → all is_plain name ≡ true
unfolding valid_name
valid_name-plain [] h = refl
valid_name-plain (c ∷ cs) h =
    parts (is_alphanumeric c) (all is_name_char cs) (leb (length cs) 63) (is_plain c)
      (all is_plain cs) h (alphanumeric-plain c)
      (all-weaken is_name_char is_plain cs (λ c. or-left (is_name_char c) (c == b':')))
  where
    parts :
        (a b l p q : Bool)
        → a && (b && l) ≡ true
        → (a ≡ true → p ≡ true)
        → (b ≡ true → q ≡ true)
        → p && q ≡ true
    parts a b l p q h f g = ground arith

-- What is documented of `%d` on a number that is not negative.
abbrev pub IsDecimal : Tools → Type 0
IsDecimal tools = (n : ℕ) → all is_digit (tools.digits n) ≡ true

target_text-plain :
    (tools : Tools) (name : Text) (window : Option ℕ)
    → IsDecimal tools
    → valid_name name ≡ true
    → all is_plain (target_text tools name window) ≡ true
target_text-plain tools name none d h = valid_name-plain name h
target_text-plain tools name (some n) d h =
    all-append name (b':' ∷ tools.digits n) (valid_name-plain name h)
      (all-weaken is_digit is_plain (tools.digits n) digit-plain (d n))

switch_from-IsNamed :
    (tools : Tools) (current : Option Target) (name : Text) (window : Option ℕ)
    (session : PersistentSession) (t : Tmux)
    → IsDecimal tools
    → valid_name name ≡ true
    → IsNamed t
    → IsNamed (switch_from tools current name window session t).1
unfolding switch_from set_tmux_target
switch_from-IsNamed tools none name window session t d h (default_named, current_named, safe) =
    by_test tools.write_fails
  where
    line : Text
    line = attach_line (target_text tools name window)

    typed_safe : All IsSafe (t.typed ++ (typed_part tools line ∷ []))
    typed_safe = All-append IsSafe t.typed (typed_part tools line) safe (
        typed_part-IsSafe tools line
          (enters (target_text tools name window) (target_text-plain tools name window d h)))

    by_test :
        (failing : Bool)
        → IsNamed
            (if◌then◌else◌ {A = Switched × Tmux} failing
              (failed, type_line tools line t)
              (switched, point name window session (type_line tools line t))).1
    by_test true = (default_named, current_named, typed_safe)
    by_test false = (default_named, h, typed_safe)
switch_from-IsNamed tools (some current) name window session t d h
      (default_named, current_named, safe) =
    by_tests
      (not (text_eq current.session name) && has_failed (tools.run (client_command tools name)))
      (selects_badly tools name window)
  where
    moved : Tmux
    moved = switch_client tools current name t

    chosen_named : (w : Option ℕ) → IsNamed (select_in tools name w moved)
    chosen_named none = (default_named, current_named, safe)
    chosen_named (some n) = (default_named, current_named, safe)

    by_tests :
        (a b : Bool)
        → IsNamed
            (if◌then◌else◌ {A = Switched × Tmux} a
              (failed, moved)
              (if b
                then (failed, select_in tools name window moved)
                else (switched, point name window session (select_in tools name window moved)))).1
    by_tests true b = (default_named, current_named, safe)
    by_tests false true = chosen_named window
    by_tests false false = let (p, q, r) = chosen_named window in (p, h, r)

pub switch_tmux_target-IsNamed :
    (tools : Tools) (name : Text) (window : Option ℕ) (t : Tmux)
    → IsDecimal tools
    → valid_name name ≡ true
    → IsNamed t
    → IsNamed (switch_tmux_target tools name window t).1
unfolding switch_tmux_target
switch_tmux_target-IsNamed tools name window t d h named =
    elim (Bool-cases (has_failed (tools.run (codes "has-session" ∷ codes "-t" ∷ name ∷ [])))) [
      | inl e ↦ rw e named
      | inr e ↦ rw e (in_session t.session)
    ]
  where
    after : Tmux
    after = tell (codes "set-option" ∷ codes "-t" ∷ name ∷ codes "mouse" ∷ codes "on" ∷ []) t

    in_session : (s : Option PersistentSession) → IsNamed (switch_in tools s name window after).1
    in_session none = named
    in_session (some session) =
        switch_from-IsNamed tools session.tmux_target name window session after d h named

pub settle_switch-IsNamed :
    (taken : ℕ) (result : Switched × Tmux)
    → IsNamed result.1
    → IsNamed (settle_switch taken result).1
settle_switch-IsNamed taken (switched, t) h = h
settle_switch-IsNamed taken (unavailable, t) h = h
settle_switch-IsNamed taken (failed, t) h = h
