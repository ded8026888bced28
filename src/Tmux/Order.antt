-- ===== src/Tmux/Order.antt =====
-- internal/app/static/app.js: the order and the choice of the sessions in the tmux dialog.
use termdock.Base.{
  ◌≡◌, ◌≢◌, ◌≤◌, ap, subst, ◌∙◌, Bool, false, List, [], ◌∷◌, none, arith, All, Perm, select,
  Bool-cases, inl, inr,
}
use termdock.Base.Text.{Text, codes, split}
use termdock.FileManager.{Locale, Sign, flip, is_after, first_part, second_part}
use termdock.FileManager.Sorting.{
  sort_rows, sort_rows-perm, sort_rows-IsSorted, IsPreorder, IsSorted, InOrder,
}
use termdock.FileManager.Order.{IsCollation, IsNotLater, IsNotLater-sign, IsNotLater-flipped}
use termdock.Tmux.Panel.{
  TmuxSession, Panel, value_sign, compare_sessions, order_of, needle_of, matches, render_sessions,
}

-- A session whose time of creation can be read, as the server writes it.
abbrev pub IsDated : Locale → TmuxSession → Type 0
IsDated locale session = locale.date session.created_at ≢ none

module _ (locale : Locale) (c : IsCollation locale) (field direction : Text) where
  value_sign_flips :
      (a b : TmuxSession) → value_sign locale field b a ≡ flip (value_sign locale field a b)
  unfolding value_sign
  value_sign_flips a b = ground (arith, c.flips a.name b.name)

  value_sign_trans :
      (x y z : TmuxSession)
      → locale.date y.created_at ≢ none
      → is_after (value_sign locale field x y) ≡ false
      → is_after (value_sign locale field y z) ≡ false
      → is_after (value_sign locale field x z) ≡ false
  unfolding value_sign
  value_sign_trans x y z d h k = ground (arith, c.collates x.name y.name z.name)

  compare_sessions-IsPreorder :
      IsPreorder (compare_sessions locale field direction) (IsDated locale)
  unfolding compare_sessions
  compare_sessions-IsPreorder = record {
    total = λ a b h. ground (arith, value_sign_flips a b);
    trans = λ x y z d h k. ground (
      arith,
      value_sign_trans x y z,
      value_sign_trans z y x,
      value_sign_flips x y,
      value_sign_flips y z,
      value_sign_flips x z,
    );
  }

All-select {ℓ} :
    {A : Type 0} (P : A → Type ℓ) (p : A → Bool) (xs : List A) → All P xs → All P (select p xs)
All-select P p [] h = tt
All-select P p (x ∷ xs) (here, h) = elim (Bool-cases (p x)) [
  | inl e ↦ rw e (here, All-select P p xs h)
  | inr e ↦ rw e (All-select P p xs h)
]

-- The options of the dialog's sort box, with their values.
pub data Field : Type 0 where
  by_name by_created by_windows : Field

pub data Direction : Type 0 where
  ascending descending : Direction

abbrev pub option_value : Field → Direction → Text
option_value by_name ascending = codes "name:asc"
option_value by_name descending = codes "name:desc"
option_value by_created ascending = codes "created:asc"
option_value by_created descending = codes "created:desc"
option_value by_windows ascending = codes "windows:asc"
option_value by_windows descending = codes "windows:desc"

-- What the user means by a session that is not above another one.
abbrev pub IsUpTo : Locale → Field → TmuxSession → TmuxSession → Type 0
IsUpTo locale by_name a b = is_after (locale.collate a.name b.name) ≡ false
IsUpTo locale by_created a b = IsNotLater (locale.date a.created_at) (locale.date b.created_at)
IsUpTo locale by_windows a b = a.windows ≤ b.windows

abbrev pub InPlace : Locale → Field → Direction → TmuxSession → TmuxSession → Type 0
InPlace locale f ascending a b = IsUpTo locale f a b
InPlace locale f descending a b = IsUpTo locale f b a

-- Every session is in place before every later one.
abbrev pub AreInPlace : Locale → Field → Direction → List TmuxSession → Type 0
AreInPlace locale f d [] = Unit
AreInPlace locale f d (session ∷ sessions) =
    All (InPlace locale f d session) sessions × AreInPlace locale f d sessions

module _ (locale : Locale) (c : IsCollation locale) (f : Field) (d : Direction) where
  abbrev option_order : TmuxSession → TmuxSession → Sign
  option_order =
      compare_sessions locale (first_part (split b':' (option_value f d)))
        (second_part (split b':' (option_value f d)))

  All-InPlace :
      (session : TmuxSession) (sessions : List TmuxSession)
      → ((a b : TmuxSession) → is_after (option_order a b) ≡ false → InPlace locale f d a b)
      → All (InOrder option_order session) sessions
      → All (InPlace locale f d session) sessions
  All-InPlace session [] w h = tt
  All-InPlace session (later ∷ sessions) w (here, h) =
      (w session later here, All-InPlace session sessions w h)

  sorted-AreInPlace :
      (sessions : List TmuxSession)
      → ((a b : TmuxSession) → is_after (option_order a b) ≡ false → InPlace locale f d a b)
      → IsSorted option_order sessions
      → AreInPlace locale f d sessions
  sorted-AreInPlace [] w s = tt
  sorted-AreInPlace (session ∷ sessions) w (a, s) =
      (All-InPlace session sessions w a, sorted-AreInPlace sessions w s)

-- The comparator's order is the one that the option means.
order-InPlace :
    (locale : Locale) (c : IsCollation locale) (f : Field) (d : Direction) (a b : TmuxSession)
    → is_after (option_order locale c f d a b) ≡ false
    → InPlace locale f d a b
unfolding compare_sessions value_sign
order-InPlace locale c by_name ascending a b h = h
order-InPlace locale c by_name descending a b h = ap is_after (c.flips a.name b.name) ∙ h
order-InPlace locale c by_created ascending a b h =
    IsNotLater-sign (locale.date a.created_at) (locale.date b.created_at) h
order-InPlace locale c by_created descending a b h =
    IsNotLater-flipped (locale.date a.created_at) (locale.date b.created_at) h
order-InPlace locale c by_windows ascending a b h = ground arith
order-InPlace locale c by_windows descending a b h = ground arith

-- The tmux dialog shows exactly the sessions whose name holds the search text, in the order of the
-- option that the sort box has: ascending or descending by name, as the locale collates it, by the
-- time of creation or by the number of windows. The locale's collation must be a total preorder, and
-- the times of creation must be ones that can be read.
pub render_sessions-sorts :
    (locale : Locale) (f : Field) (d : Direction) (p : Panel)
    → IsCollation locale
    → p.sort ≡ option_value f d
    → All (IsDated locale) p.session_data
    → Perm
        (render_sessions locale p).cards
        (select (matches locale (needle_of locale p)) p.session_data)
      × AreInPlace locale f d (render_sessions locale p).cards
unfolding render_sessions
render_sessions-sorts locale f d p c option dated =
    let chosen = select (matches locale (needle_of locale p)) p.session_data in
    let sorted =
      sort_rows-IsSorted (order_of locale p) (IsDated locale)
        (compare_sessions-IsPreorder locale c _ _) chosen
        (All-select (IsDated locale) (matches locale (needle_of locale p)) p.session_data dated) in
    (
      sort_rows-perm (order_of locale p) chosen,
      sorted-AreInPlace locale c f d _ (order-InPlace locale c f d) (
          subst
            (λ (sort : Text).
              IsSorted
                (compare_sessions locale (first_part (split b':' sort))
                  (second_part (split b':' sort)))
                (sort_rows (order_of locale p) chosen))
            option sorted),
    )
