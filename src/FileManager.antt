-- ===== src/FileManager.antt =====
-- internal/app/static/file-manager.js: the file table's rows, selection, search and sort order, and
-- `loadFiles` and `isArchive` of internal/app/static/app.js that it builds on. The browser's locale
-- functions are a parameter.
pub mod Sorting
pub mod View
pub mod Order
pub mod Selection
pub mod Menu
pub mod Choices
pub mod Listing
pub mod Loading
pub mod Pasting
mod Tests
use termdock.Base.{
  ℕ, ◌≡◌, ◌≢◌, ◌+◌, Bool, true, false, not, ◌&&◌, ◌||◌, List, [], ◌∷◌, Option, none, some, map, ltb,
  ◌==◌, if◌then◌else◌, length, select,
}
use termdock.Base.Text.{Text, text_eq, codes, split, trim, includes}

-- One entry of the server's listing, as the page reads it back from `dataset.entry`.
pub record Entry : Type 0 where
  pub name : Text
  pub path : Text
  pub size : ℕ
  pub modified : Text
  pub is_dir : Bool

-- A row has its checkbox once it has been enhanced.
pub record Row : Type 0 where
  pub entry : Entry
  pub checkbox : Option Bool
  pub hidden : Bool
  pub draggable : Bool

pub data Mode : Type 0 where
  copy move : Mode

pub record Clipboard : Type 0 where
  pub paths : List Text
  pub mode : Mode

-- The text next to the toolbar.
pub data Label : Type 0 where
  blank : Label
  chosen : ℕ → Label
  taken : Mode → ℕ → Label
  path_copied : Label

pub data Action : Type 0 where
  open_action download copy_action cut paste copy_path rename extract compress delete : Action

pub record Manager : Type 0 where
  pub rows : List Row
  pub search : Text
  pub sort : Text
  pub all_checked : Bool
  pub all_indeterminate : Bool
  pub label : Label
  pub clipboard : Option Clipboard
  pub context_entries : List Entry
  pub menu_hidden : Bool
  pub button_hidden : Action → Bool
  pub button_disabled : Action → Bool
  pub file_error : Text
  pub current_path : Text
  -- The path field, and the path of the button that goes up.
  pub path_input : Text
  pub parent_path : Text

-- The sign of a comparator's result.
pub data Sign : Type 0 where
  before same after : Sign

abbrev pub flip : Sign → Sign
flip before = after
flip same = same
flip after = before

abbrev pub is_after : Sign → Bool
is_after after = true
is_after _ = false

-- `toLocaleLowerCase`, `localeCompare` with the page's options, and `Date.parse`, in milliseconds
-- since the earliest date of JavaScript, `none` for NaN.
pub record Locale : Type 0 where
  pub lower : Text → Text
  pub collate : Text → Text → Sign
  pub date : Text → Option ℕ

-- `[...tbody.querySelectorAll('tr[data-entry]')]` with the checkbox checked.
abbrev pub is_checked : Row → Bool
is_checked row = elim row.checkbox [ none ↦ false | some checked ↦ checked ]

abbrev pub is_visible : Row → Bool
is_visible row = not row.hidden

abbrev pub entry_of : Row → Entry
entry_of row = row.entry

abbrev pub path_of : Entry → Text
path_of entry = entry.path

unfoldable pub selected_entries : Manager → List Entry
selected_entries m = map entry_of (select is_checked m.rows)

abbrev pub chosen_label : ℕ → Label
chosen_label n = if n == 0 then blank else chosen n

unfoldable pub update_selection : Manager → Manager
unfolding selected_entries
update_selection m =
    let visible = select is_visible m.rows in
    let visible_selected = length (select is_checked visible) in
    record m {
      label = chosen_label (length (selected_entries m));
      all_checked = ltb 0 (length visible) && (visible_selected == length visible);
      all_indeterminate = ltb 0 visible_selected && ltb visible_selected (length visible);
    }

-- The parts of `sort.value.split(':')`.
abbrev pub first_part : List Text → Text
first_part [] = []
first_part (field ∷ rest) = field

abbrev pub second_part : List Text → Text
second_part [] = []
second_part (field ∷ []) = []
second_part (field ∷ direction ∷ rest) = direction

abbrev pub number_sign : ℕ → ℕ → Sign
number_sign a b = if ltb a b then before else if ltb b a then after else same

-- A difference with NaN in it counts as no difference.
abbrev pub date_sign : Option ℕ → Option ℕ → Sign
date_sign (some a) (some b) = number_sign a b
date_sign _ _ = same

module _ (locale : Locale) where
  unfoldable pub value_sign : Text → Entry → Entry → Sign
  value_sign field left right =
      if text_eq field (codes "size")
      then number_sign left.size right.size
      else if text_eq field (codes "modified")
      then date_sign (locale.date left.modified) (locale.date right.modified)
      else locale.collate (locale.lower left.name) (locale.lower right.name)

  -- The comparator of `applyView`.
  unfoldable pub compare_rows : Text → Text → Row → Row → Sign
  compare_rows field direction a b =
      let result = value_sign field a.entry b.entry in
      elim a.entry.is_dir [
        | true ↦ elim b.entry.is_dir [
          | true ↦ if text_eq direction (codes "desc") then flip result else result
          | false ↦ before
        ]
        | false ↦ elim b.entry.is_dir [
          | true ↦ after
          | false ↦ if text_eq direction (codes "desc") then flip result else result
        ]
      ]
