-- ===== src/FileManager/Order.antt =====
-- internal/app/static/file-manager.js: the order and the visibility of the rows after `applyView`.
use mathlib.Core.List.Perm
use termdock.Base.{
  ℕ, ◌≡◌, refl, ap, sym, subst, ◌∙◌, ◌≢◌, ◌≤◌, true, false, not, ◌||◌, List, [], ◌∷◌, Option, none,
  some, map, arith, All, Perm, if◌then◌else◌, Bool-cases, inl, inr,
}
use termdock.Base.Text.{Text, text_eq, codes, split}
use termdock.FileManager.{
  Entry, Row, Manager, Locale, Sign, flip, is_after, entry_of, number_sign, date_sign, value_sign,
  compare_rows, update_selection, first_part, second_part,
}
use termdock.FileManager.Sorting.{
  sort_rows, sort_rows-perm, sort_rows-IsSorted, IsPreorder, IsSorted, InOrder,
}
use termdock.FileManager.View.{apply_view, filter_row, query_of, field_of, direction_of}

-- What the page relies on: `localeCompare` is a total preorder.
pub record IsCollation (locale : Locale) : Type 0 where
  pub flips : (a b : Text) → locale.collate b a ≡ flip (locale.collate a b)
  pub collates :
      (a b c : Text)
      → is_after (locale.collate a b) ≡ false
      → is_after (locale.collate b c) ≡ false
      → is_after (locale.collate a c) ≡ false

-- A row whose date can be read, as the server writes it.
abbrev pub IsDated : Locale → Row → Type 0
IsDated locale row = locale.date row.entry.modified ≢ none

number_sign_flips : (a b : ℕ) → number_sign b a ≡ flip (number_sign a b)
number_sign_flips a b = ground arith

module _ (locale : Locale) (c : IsCollation locale) (field direction : Text) where
  value_sign_flips :
      (a b : Entry) → value_sign locale field b a ≡ flip (value_sign locale field a b)
  unfolding value_sign
  value_sign_flips a b = ground (arith, c.flips (locale.lower a.name) (locale.lower b.name))

  value_sign_trans :
      (x y z : Entry)
      → locale.date y.modified ≢ none
      → is_after (value_sign locale field x y) ≡ false
      → is_after (value_sign locale field y z) ≡ false
      → is_after (value_sign locale field x z) ≡ false
  unfolding value_sign
  value_sign_trans x y z d h k =
      ground (arith, c.collates (locale.lower x.name) (locale.lower y.name) (locale.lower z.name))

  compare_rows-IsPreorder : IsPreorder (compare_rows locale field direction) (IsDated locale)
  unfolding compare_rows
  compare_rows-IsPreorder = record {
    total = λ a b h. ground (arith, value_sign_flips a.entry b.entry);
    trans = λ x y z d h k. ground (
      arith,
      value_sign_trans x.entry y.entry z.entry,
      value_sign_trans z.entry y.entry x.entry,
      value_sign_flips x.entry y.entry,
      value_sign_flips y.entry z.entry,
      value_sign_flips x.entry z.entry,
    );
  }

-- Directories stand before files: behind a file there is no directory.
abbrev pub DirectoriesFirst : List Row → Type 0
DirectoriesFirst [] = Unit
DirectoriesFirst (row ∷ rows) =
    All (λ later. (row.entry.is_dir || not later.entry.is_dir) ≡ true) rows × DirectoriesFirst rows

module _ (locale : Locale) (field direction : Text) where
  sorted_row :
      (row : Row) (rows : List Row)
      → All (InOrder (compare_rows locale field direction) row) rows
      → All (λ later. (row.entry.is_dir || not later.entry.is_dir) ≡ true) rows
  unfolding compare_rows
  sorted_row row [] h = tt
  sorted_row row (later ∷ rows) (here, h) = (ground arith, sorted_row row rows h)

  sorted-DirectoriesFirst :
      (rows : List Row)
      → IsSorted (compare_rows locale field direction) rows
      → DirectoriesFirst rows
  sorted-DirectoriesFirst [] s = tt
  sorted-DirectoriesFirst (row ∷ rows) (a, s) =
      (sorted_row row rows a, sorted-DirectoriesFirst rows s)

  -- Hiding rows moves none: the comparator reads their entries alone.
  All-filter :
      (query : Text) (row : Row) (rows : List Row)
      → All (InOrder (compare_rows locale field direction) row) rows
      → All
          (InOrder (compare_rows locale field direction) (filter_row locale query row))
          (map (filter_row locale query) rows)
  unfolding compare_rows
  All-filter query row [] h = tt
  All-filter query row (later ∷ rows) (here, h) = (here, All-filter query row rows h)

  filter-IsSorted :
      (query : Text) (rows : List Row)
      → IsSorted (compare_rows locale field direction) rows
      → IsSorted (compare_rows locale field direction) (map (filter_row locale query) rows)
  filter-IsSorted query [] s = tt
  filter-IsSorted query (row ∷ rows) (a, s) =
      (All-filter query row rows a, filter-IsSorted query rows s)

pub map-entry_of-filter :
    (locale : Locale) (query : Text) (rows : List Row)
    → map entry_of (map (filter_row locale query) rows) ≡ map entry_of rows
map-entry_of-filter locale query [] = refl
map-entry_of-filter locale query (row ∷ rows) =
    ap (λ rest. row.entry ∷ rest) (map-entry_of-filter locale query rows)

-- The options of the page's sort box, with their values.
pub data Field : Type 0 where
  by_name by_size by_modified : Field

pub data Direction : Type 0 where
  ascending descending : Direction

abbrev pub option_value : Field → Direction → Text
option_value by_name ascending = codes "name:asc"
option_value by_name descending = codes "name:desc"
option_value by_size ascending = codes "size:asc"
option_value by_size descending = codes "size:desc"
option_value by_modified ascending = codes "modified:asc"
option_value by_modified descending = codes "modified:desc"

abbrev pub IsNotLater : Option ℕ → Option ℕ → Type 0
IsNotLater (some a) (some b) = a ≤ b
IsNotLater (some a) none = Unit
IsNotLater none other = Unit

-- What the user means by an entry that is not above another one.
abbrev pub IsUpTo : Locale → Field → Entry → Entry → Type 0
IsUpTo locale by_name a b =
    is_after (locale.collate (locale.lower a.name) (locale.lower b.name)) ≡ false
IsUpTo locale by_size a b = a.size ≤ b.size
IsUpTo locale by_modified a b = IsNotLater (locale.date a.modified) (locale.date b.modified)

abbrev pub InPlace : Locale → Field → Direction → Entry → Entry → Type 0
InPlace locale f ascending a b = IsUpTo locale f a b
InPlace locale f descending a b = IsUpTo locale f b a

-- Of two directories and of two files, the earlier row is in place before the later one.
abbrev pub AreInPlace : Locale → Field → Direction → List Row → Type 0
AreInPlace locale f d [] = Unit
AreInPlace locale f d (row ∷ rows) =
    All (λ later. row.entry.is_dir ≡ later.entry.is_dir → InPlace locale f d row.entry later.entry)
      rows
    × AreInPlace locale f d rows

pub IsNotLater-sign : (a b : Option ℕ) → is_after (date_sign a b) ≡ false → IsNotLater a b
IsNotLater-sign none b h = tt
IsNotLater-sign (some a) none h = tt
IsNotLater-sign (some a) (some b) h = ground arith

pub IsNotLater-flipped : (a b : Option ℕ) → is_after (flip (date_sign a b)) ≡ false → IsNotLater b a
IsNotLater-flipped none none h = tt
IsNotLater-flipped none (some b) h = tt
IsNotLater-flipped (some a) none h = tt
IsNotLater-flipped (some a) (some b) h = ground arith

module _ (locale : Locale) (c : IsCollation locale) where
  -- The comparator's order is the one that the option means.
  sign-InPlace :
      (f : Field) (d : Direction) (a b : Entry)
      → let parts = split b':' (option_value f d) in
        let result = value_sign locale (first_part parts) a b in
        is_after (if text_eq (second_part parts) (codes "desc") then flip result else result)
          ≡ false
        → InPlace locale f d a b
  unfolding value_sign
  sign-InPlace by_name ascending a b h = h
  sign-InPlace by_name descending a b h =
      ap is_after (c.flips (locale.lower a.name) (locale.lower b.name)) ∙ h
  sign-InPlace by_size ascending a b h = ground arith
  sign-InPlace by_size descending a b h = ground arith
  sign-InPlace by_modified ascending a b h =
      IsNotLater-sign (locale.date a.modified) (locale.date b.modified) h
  sign-InPlace by_modified descending a b h =
      IsNotLater-flipped (locale.date a.modified) (locale.date b.modified) h

  compare-sign :
      (field direction : Text) (a b : Row)
      → a.entry.is_dir ≡ b.entry.is_dir
      → let result = value_sign locale field a.entry b.entry in
        compare_rows locale field direction a b
        ≡ (if text_eq direction (codes "desc") then flip result else result)
  unfolding compare_rows
  compare-sign field direction a b e = elim (Bool-cases b.entry.is_dir) [
    | inl k ↦ rw (e, k) refl
    | inr k ↦ rw (e, k) refl
  ]

  module _ (f : Field) (d : Direction) where
    abbrev option_order : Row → Row → Sign
    option_order =
        compare_rows locale (first_part (split b':' (option_value f d)))
          (second_part (split b':' (option_value f d)))

    All-InPlace :
        (row : Row) (rows : List Row)
        → All (InOrder option_order row) rows
        → All
            (λ later.
              row.entry.is_dir ≡ later.entry.is_dir → InPlace locale f d row.entry later.entry)
            rows
    All-InPlace row [] h = tt
    All-InPlace row (later ∷ rows) (here, h) = (
      λ e.
          sign-InPlace f d row.entry later.entry
            (ap is_after (sym (compare-sign _ _ row later e)) ∙ here),
      All-InPlace row rows h,
    )

    sorted-AreInPlace : (rows : List Row) → IsSorted option_order rows → AreInPlace locale f d rows
    sorted-AreInPlace [] s = tt
    sorted-AreInPlace (row ∷ rows) (a, s) = (All-InPlace row rows a, sorted-AreInPlace rows s)

-- `applyView`, which a search, a change of the order and the enhancement of new rows end with,
-- keeps the entries of the table and puts directories before files, and among the directories and
-- among the files in the order of the option that the sort box has: ascending or descending by
-- name, as the locale collates names without case, by size or by date. The locale's collation must
-- be a total preorder, and the dates of all rows must be ones that can be read.
pub apply_view-sorts :
    (locale : Locale) (f : Field) (d : Direction) (m : Manager)
    → IsCollation locale
    → m.sort ≡ option_value f d
    → All (IsDated locale) m.rows
    → Perm (map entry_of (apply_view locale m).rows) (map entry_of m.rows)
      × DirectoriesFirst (apply_view locale m).rows
      × AreInPlace locale f d (apply_view locale m).rows
unfolding apply_view update_selection
apply_view-sorts locale f d m c chosen dated =
    let order = compare_rows locale (field_of m) (direction_of m) in
    let sorted =
      sort_rows-IsSorted order (IsDated locale)
        (compare_rows-IsPreorder locale c (field_of m) (direction_of m)) m.rows dated in
    let shown =
      filter-IsSorted locale (field_of m) (direction_of m) (query_of locale m)
        (sort_rows order m.rows) sorted in
    (
      rw (map-entry_of-filter locale (query_of locale m) (sort_rows order m.rows))
          (Perm.map entry_of (sort_rows-perm order m.rows)),
      sorted-DirectoriesFirst locale (field_of m) (direction_of m) _ shown,
      sorted-AreInPlace locale c f d _ (
          subst
            (λ (sort : Text).
              IsSorted
                (compare_rows locale (first_part (split b':' sort)) (second_part (split b':' sort)))
                (map (filter_row locale (query_of locale m)) (sort_rows order m.rows)))
            chosen shown),
    )
