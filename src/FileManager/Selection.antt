-- ===== src/FileManager/Selection.antt =====
-- internal/app/static/file-manager.js: what the "select all" box and the label say of the rows, and
-- what the filter hides.
use termdock.Base.{
  suc, ◌≤◌, ◌<◌, ◌≡◌, refl, ap, ◌↔◌, ◌≢◌, Bool, true, false, ◌&&◌, List, [], ◌∷◌, Option, none,
  some, map, arith, All, length, select, ltb, Bool-cases, inl, inr, if◌then◌else◌,
}
use termdock.FileManager.{Entry, Row, Manager, is_checked, is_visible, update_selection}
use termdock.FileManager.View.{check_row, on_select_all}

length-select-le {ℓ} : {A : Type ℓ} (p : A → Bool) (xs : List A) → length (select p xs) ≤ length xs
length-select-le p [] = omega arith
length-select-le p (x ∷ xs) = ground (arith, length-select-le p xs)

-- Every member passes exactly where the test drops none.
select-All_iff {ℓ} :
    {A : Type ℓ} (p : A → Bool) (xs : List A)
    → (length (select p xs) ≡ length xs) ↔ All (λ x. p x ≡ true) xs
select-All_iff p [] = (λ _. tt, λ _. refl)
select-All_iff p (x ∷ xs) = elim (Bool-cases (p x)) [
  | inl h ↦ (
    λ e. (h, (select-All_iff p xs).0 (ground arith)),
    λ a. ground (arith, (select-All_iff p xs).1 a.1),
  )
  | inr h ↦ (λ e. absurd (ground (arith, length-select-le p xs)), λ a. absurd (ground arith))
]

-- After `updateSelection`, the "select all" box is checked exactly if some row is visible and every
-- visible row is checked, and it is neither checked nor empty exactly if some visible rows are checked and some are not.
pub update_selection-box :
    (m : Manager)
    → let visible = select is_visible m.rows in
      (((update_selection m).all_checked ≡ true)
        ↔ ((0 < length visible) × All (λ row. is_checked row ≡ true) visible))
      × (((update_selection m).all_indeterminate ≡ true) ↔ (
          (0 < length (select is_checked visible)) × ¬ All (λ row. is_checked row ≡ true) visible))
unfolding update_selection
update_selection-box m = (
  (λ h. (ground arith, every.0 (ground arith)), λ h. ground (arith, h.0, every.1 h.1)),
  (
    λ h. (ground arith, λ a. ground (arith, every.1 a)),
    λ h. ground (arith, h.0, length-select-le is_checked visible, not_all h.1),
  ),
)
  where
    visible : List Row
    visible = select is_visible m.rows

    every :
        (length (select is_checked visible) ≡ length visible)
        ↔ All (λ row. is_checked row ≡ true) visible
    every = select-All_iff is_checked visible

    not_all :
        ¬ All (λ row. is_checked row ≡ true) visible
        → length (select is_checked visible) ≢ length visible
    not_all n e = n (every.0 e)

abbrev pub IsEnhanced : Row → Type 0
IsEnhanced row = row.checkbox ≢ none

-- How many rows are visible, and how many of them are checked, once the box has been set.
abbrev SetsVisible : Bool → List Row → Type 0
SetsVisible checked rows =
    (length (select is_visible (map (check_row checked) rows)) ≡ length (select is_visible rows))
    × (length (select is_checked (select is_visible (map (check_row checked) rows)))
        ≡ (if checked then length (select is_visible rows) else 0))

SetsVisible-cons :
    (checked : Bool) (entry : Entry) (box : Option Bool) (hidden draggable : Bool) (rows : List Row)
    → box ≢ none
    → SetsVisible checked rows
    → SetsVisible checked
        (record { entry = entry; checkbox = box; hidden = hidden; draggable = draggable } ∷ rows)
SetsVisible-cons checked entry none hidden draggable rows e h = absurd (e refl)
SetsVisible-cons checked entry (some c) true draggable rows e h = h
SetsVisible-cons false entry (some c) false draggable rows e h = (ap suc h.0, h.1)
SetsVisible-cons true entry (some c) false draggable rows e h = (ap suc h.0, ap suc h.1)

map-SetsVisible :
    (checked : Bool) (rows : List Row) → All IsEnhanced rows → SetsVisible checked rows
map-SetsVisible false [] h = (refl, refl)
map-SetsVisible true [] h = (refl, refl)
map-SetsVisible checked (row ∷ rows) (e, h) =
    SetsVisible-cons checked row.entry row.checkbox row.hidden row.draggable rows e
      (map-SetsVisible checked rows h)

-- Setting the box sets all visible rows, and the box then shows what was set: it is checked where
-- it was checked and some row is visible, and it is never in between.
pub on_select_all-box :
    (checked : Bool) (m : Manager)
    → All IsEnhanced m.rows
    → let after = on_select_all checked m in
      (after.all_checked ≡ (checked && ltb 0 (length (select is_visible m.rows))))
      × (after.all_indeterminate ≡ false)
unfolding on_select_all update_selection
on_select_all-box checked m h = ground (arith, map-SetsVisible checked m.rows h)
