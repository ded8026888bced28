-- ===== src/FileManager/Listing.antt =====
-- internal/app/static/app.js: `loadFiles` and the directory's path; internal/app/static/
-- file-manager.js: the observer that enhances the rows of a new listing.
use termdock.Base.{
  ◌≡◌, refl, ap, sym, ◌∙◌, length, length-map, ◌==◌, Bool, true, false, ◌||◌, List, [], ◌∷◌, none,
  some, map, arith, All, Perm, if◌then◌else◌, select, Bool-cases, inl, inr,
}
use termdock.Base.Text.{Text}
use termdock.FileManager.{
  Entry, Row, Manager, Locale, blank, is_checked, is_visible, entry_of, selected_entries, chosen,
  chosen_label, update_selection, compare_rows,
}
use termdock.FileManager.Sorting.{
  sort_rows, All-sort_rows, select-sort_rows, length-select-sort_rows,
}
use termdock.FileManager.View.{
  apply_view, filter_row, query_of, field_of, direction_of, enhance_row, enhance_rows, on_search,
}
use termdock.FileManager.Selection.{IsEnhanced}
use mathlib.Core.List.Perm

-- The server's answer to a request for a directory.
pub data Answer : Type 0 where
  refused : Text → Answer
  listed : Text → Text → List Entry → Answer

abbrev pub new_row : Entry → Row
new_row entry = record { entry = entry; checkbox = none; hidden = false; draggable = false }

-- `loadFiles` up to its wait, and from the answer on.
abbrev pub begin_load : Manager → Manager
begin_load m = record m { file_error = [] }

abbrev pub finish_load : Answer → Manager → Manager
finish_load (refused text) m = record m { file_error = text }
finish_load (listed path parent entries) m = record m {
  current_path = path;
  path_input = path;
  parent_path = parent;
  rows = map new_row entries;
}

unfoldable pub load_files : Answer → Manager → Manager
load_files answer m = finish_load answer (begin_load m)

-- Does a row lack its checkbox? The observer asks this of the rows that were added.
abbrev pub needs_enhancement : List Row → Bool
needs_enhancement [] = false
needs_enhancement (row ∷ rows) =
    (elim row.checkbox [ none ↦ true | some _ ↦ false ]) || needs_enhancement rows

module _ (locale : Locale) where
  -- The observer's callback, after the rows were replaced.
  unfoldable pub on_mutations : Manager → Manager
  unfolding enhance_rows
  on_mutations m = if needs_enhancement m.rows then enhance_rows locale m else m

  -- An answer that arrives, with the observer's callback after it.
  unfoldable pub arrive : Answer → Manager → Manager
  unfolding on_mutations
  arrive (refused text) m = finish_load (refused text) m
  arrive (listed path parent entries) m = on_mutations (finish_load (listed path parent entries) m)

  unfoldable pub load_and_enhance : Answer → Manager → Manager
  unfolding load_files on_mutations
  load_and_enhance (refused text) m = load_files (refused text) m
  load_and_enhance (listed path parent entries) m =
      on_mutations (load_files (listed path parent entries) m)

select-filter :
    (locale : Locale) (query : Text) (rows : List Row)
    → map entry_of (select is_checked (map (filter_row locale query) rows))
      ≡ map entry_of (select is_checked rows)
select-filter locale query [] = refl
select-filter locale query (row ∷ rows) = elim (Bool-cases (is_checked row)) [
  | inl c ↦ simp c (ap (λ rest. row.entry ∷ rest) (select-filter locale query rows))
  | inr c ↦ simp c (select-filter locale query rows)
]

-- Searching changes neither which entries are selected nor how many: rows that the search hides stay
-- selected, so that what is then done to the selection reaches them, and the label shows the number of
-- all that were selected before the search, or nothing where none was.
pub on_search-keeps_selection :
    (locale : Locale) (text : Text) (m : Manager)
    → Perm (selected_entries (on_search locale text m)) (selected_entries m)
      × ((on_search locale text m).label ≡ (
          if length (selected_entries m) == 0 then blank else chosen (length (selected_entries m))))
unfolding on_search apply_view update_selection selected_entries
on_search-keeps_selection locale text m =
    let searched = record m { search = text } in
    let order = compare_rows locale (field_of searched) (direction_of searched) in
    let kept = select-filter locale (query_of locale searched) (sort_rows order m.rows) in
    (
      rw kept (Perm.map entry_of (select-sort_rows order is_checked m.rows)),
      ap chosen_label (
          ap length kept
          ∙ length-map entry_of (select is_checked (sort_rows order m.rows))
          ∙ length-select-sort_rows order is_checked m.rows
          ∙ sym (length-map entry_of (select is_checked m.rows))),
    )

abbrev IsUnchecked : Row → Type 0
IsUnchecked row = row.checkbox ≡ some false

All-enhance : (entries : List Entry) → All IsUnchecked (map enhance_row (map new_row entries))
All-enhance [] = tt
All-enhance (entry ∷ entries) = (refl, All-enhance entries)

All-filter_row :
    (locale : Locale) (query : Text) (rows : List Row)
    → All IsUnchecked rows
    → All IsUnchecked (map (filter_row locale query) rows)
All-filter_row locale query [] h = tt
All-filter_row locale query (row ∷ rows) (e, h) = (e, All-filter_row locale query rows h)

unchecked-is_checked : (row : Row) → IsUnchecked row → is_checked row ≡ false
unchecked-is_checked row e = ground arith

unchecked-select : (rows : List Row) → All IsUnchecked rows → select is_checked rows ≡ []
unchecked-select [] h = refl
unchecked-select (row ∷ rows) (e, h) =
    ground (arith, unchecked-is_checked row e, unchecked-select rows h)

All-visible : (rows : List Row) → All IsUnchecked rows → All IsUnchecked (select is_visible rows)
All-visible [] h = tt
All-visible (row ∷ rows) (e, h) = elim (Bool-cases (is_visible row)) [
  | inl k ↦ rw k (e, All-visible rows h)
  | inr k ↦ rw k (All-visible rows h)
]

unchecked-IsEnhanced : (rows : List Row) → All IsUnchecked rows → All IsEnhanced rows
unchecked-IsEnhanced [] h = tt
unchecked-IsEnhanced (row ∷ rows) (e, h) = (λ n. ground arith, unchecked-IsEnhanced rows h)

-- What an update leaves where no row is checked.
abbrev pub ShowsNoSelection : Manager → Type 0
ShowsNoSelection m =
    (selected_entries m ≡ [])
    × (m.label ≡ blank)
    × (m.all_checked ≡ false)
    × (m.all_indeterminate ≡ false)

update_selection-ShowsNoSelection :
    (m : Manager) → All IsUnchecked m.rows → ShowsNoSelection (update_selection m)
unfolding update_selection selected_entries
update_selection-ShowsNoSelection m h =
    let none_checked = unchecked-select m.rows h in
    let none_visible = unchecked-select (select is_visible m.rows) (All-visible m.rows h) in
    rw (none_checked, none_visible) (refl, refl, ground arith, refl)

apply_view-ShowsNoSelection :
    (locale : Locale) (m : Manager)
    → All IsUnchecked m.rows
    → All IsUnchecked (apply_view locale m).rows × ShowsNoSelection (apply_view locale m)
unfolding apply_view
apply_view-ShowsNoSelection locale m h =
    let sorted = sort_rows (compare_rows locale (field_of m) (direction_of m)) m.rows in
    let shown = map (filter_row locale (query_of locale m)) sorted in
    let unchecked : All IsUnchecked shown =
      All-filter_row locale (query_of locale m) sorted
        (All-sort_rows (compare_rows locale (field_of m) (direction_of m)) IsUnchecked m.rows h) in
    (
      (unfold update_selection in unchecked),
      update_selection-ShowsNoSelection (record m { rows = shown }) unchecked,
    )

-- Once a directory that is not empty is loaded, every row has its checkbox and none is checked:
-- nothing is selected, the label is empty and so is the "select all" box.
pub load_and_enhance-clears :
    (locale : Locale) (path parent : Text) (entry : Entry) (entries : List Entry) (m : Manager)
    → let after = load_and_enhance locale (listed path parent (entry ∷ entries)) m in
      All IsEnhanced after.rows × ShowsNoSelection after
unfolding load_and_enhance on_mutations enhance_rows load_files
load_and_enhance-clears locale path parent entry entries m =
    let (unchecked, shows) =
      apply_view-ShowsNoSelection locale
        (record (load_files (listed path parent (entry ∷ entries)) m) {
          rows = map enhance_row (map new_row (entry ∷ entries));
        })
        (All-enhance (entry ∷ entries)) in
    (unchecked-IsEnhanced _ unchecked, shows)

-- Loading an empty directory leaves the label and the "select all" box as they were, whatever was
-- selected before: the observer sees no row that was added.
pub empty_listing-stale :
    (locale : Locale) (path parent : Text) (m : Manager)
    → let after = load_and_enhance locale (listed path parent []) m in
      (selected_entries after ≡ [])
      × (after.label ≡ m.label)
      × (after.all_checked ≡ m.all_checked)
      × (after.all_indeterminate ≡ m.all_indeterminate)
unfolding load_and_enhance selected_entries
empty_listing-stale locale path parent m = (refl, refl, refl, refl)
