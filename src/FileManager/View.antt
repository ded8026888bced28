-- ===== src/FileManager/View.antt =====
-- internal/app/static/file-manager.js: `applyView`, `enhanceRows` and the listeners of the search
-- box, the sort box and the checkboxes.
use termdock.Base.{
  ℕ, zero, suc, Bool, true, false, not, ◌&&◌, List, [], ◌∷◌, none, some, map, if◌then◌else◌,
}
use termdock.Base.Text.{Text, text_eq, split, trim, includes}
use termdock.FileManager.{
  Row, Manager, Locale, update_selection, first_part, second_part, compare_rows,
}
use termdock.FileManager.Sorting.{sort_rows}

abbrev pub field_of : Manager → Text
field_of m = first_part (split b':' m.sort)

abbrev pub direction_of : Manager → Text
direction_of m = second_part (split b':' m.sort)

-- The checkbox and the drag handle of a row that has none yet.
abbrev pub enhance_row : Row → Row
enhance_row row = elim row.checkbox [
  | some _ ↦ row
  | none ↦ record row { checkbox = some false; draggable = true }
]

module _ (locale : Locale) where
  abbrev pub query_of : Manager → Text
  query_of m = locale.lower (trim m.search)

  -- `Boolean(query && !entry.name.toLocaleLowerCase().includes(query))`.
  abbrev pub is_filtered : Text → Row → Bool
  is_filtered query row =
      not (text_eq query []) && not (includes query (locale.lower row.entry.name))

  abbrev pub filter_row : Text → Row → Row
  filter_row query row = record row { hidden = is_filtered query row }

  unfoldable pub apply_view : Manager → Manager
  unfolding update_selection sort_rows compare_rows
  apply_view m =
      let sorted = sort_rows (compare_rows locale (field_of m) (direction_of m)) m.rows in
      update_selection (record m { rows = map (filter_row (query_of m)) sorted })

  unfoldable pub enhance_rows : Manager → Manager
  unfolding apply_view
  enhance_rows m = apply_view (record m { rows = map enhance_row m.rows })

  unfoldable pub on_search : Text → Manager → Manager
  unfolding apply_view
  on_search text m = apply_view (record m { search = text })

  unfoldable pub on_sort : Text → Manager → Manager
  unfolding apply_view
  on_sort value m = apply_view (record m { sort = value })

-- `selectAll`'s listener for one row. The listener is not reached before the rows are enhanced.
abbrev pub check_row : Bool → Row → Row
check_row checked row = elim row.checkbox [
  | none ↦ row
  | some _ ↦ if row.hidden then row else record row { checkbox = some checked }
]

unfoldable pub on_select_all : Bool → Manager → Manager
unfolding update_selection
on_select_all checked m =
    update_selection (record m { all_checked = checked; rows = map (check_row checked) m.rows })

-- A click on the checkbox of the row at an index.
abbrev pub toggle_at : ℕ → List Row → List Row
toggle_at i [] = []
toggle_at zero (row ∷ rows) =
    (elim row.checkbox [ none ↦ row | some c ↦ record row { checkbox = some (not c) } ]) ∷ rows
toggle_at (suc i) (row ∷ rows) = row ∷ toggle_at i rows

unfoldable pub on_toggle : ℕ → Manager → Manager
unfolding update_selection
on_toggle i m = update_selection (record m { rows = toggle_at i m.rows })
