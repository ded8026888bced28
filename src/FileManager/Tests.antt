-- ===== src/FileManager/Tests.antt =====
-- The theorems of the file table's properties (internal/app/static/file-manager.js), applied at a
-- small table.
use termdock.Base.{
  ◌≡◌, refl, ◌↔◌, ◌⊎◌, ◌<◌, true, false, List, [], ◌∷◌, Option, none, some, map, arith, All, Perm,
  length, select,
}
use termdock.Base.Text.{Text, codes}
use termdock.FileManager.{
  Entry, Manager, Locale, copy, move, Label, delete, is_checked, is_visible, entry_of, path_of,
  number_sign, selected_entries, update_selection,
}
use termdock.FileManager.View.{apply_view, on_search}
use termdock.FileManager.Order.{
  IsCollation, DirectoriesFirst, AreInPlace, by_name, ascending, apply_view-sorts,
}
use termdock.FileManager.Selection.{update_selection-box}
use termdock.FileManager.Listing.{listed, on_search-keeps_selection}
use termdock.FileManager.Loading.{
  Event, asks, answered, searches, Listing, Shows, last_listed, change_all, change_all-Shows,
}
use mathlib.Core.List.Perm
use termdock.FileManager.Menu.{
  targets, on_context_menu, configure_context_menu, visibility, on_menu_click, transfer_files,
  set_clipboard, paste_clipboard,
}
use termdock.FileManager.Choices.{Acts, shown_action-Acts}
use termdock.FileManager.Pasting.{
  begin_operation, end_operation, end_paste, paste_alone, paste_alone-outcome,
  cut_during_paste-lost,
}

-- Names collate by their length.
abbrev by_length : Locale
by_length = record {
  lower = λ text. text;
  collate = λ a b. number_sign (length a) (length b);
  date = λ text. some (length text);
}

by_length-IsCollation : IsCollation by_length
by_length-IsCollation = record { flips = λ a b. ground arith; collates = λ a b c h k. ground arith }

abbrev notes : Entry
notes = record {
  name = codes "notes";
  path = codes "/notes";
  size = 5;
  modified = [];
  is_dir = false;
}

abbrev bin : Entry
bin = record { name = codes "bin"; path = codes "/bin"; size = 0; modified = []; is_dir = true }

abbrev table : Manager
table = record {
  rows =
      record { entry = notes; checkbox = some true; hidden = false; draggable = true }
      ∷ record { entry = bin; checkbox = some false; hidden = false; draggable = true }
      ∷ [];
  search = [];
  sort = codes "name:asc";
  all_checked = false;
  all_indeterminate = true;
  label = Label.chosen 1;
  clipboard = some (record { paths = codes "/old" ∷ []; mode = copy });
  context_entries = [];
  menu_hidden = true;
  button_hidden = λ _. false;
  button_disabled = λ _. false;
  file_error = [];
  current_path = codes "/";
  path_input = codes "/";
  parent_path = codes "/";
}

apply_view-sorts_example :
    Perm (map entry_of (apply_view by_length table).rows) (map entry_of table.rows)
    × DirectoriesFirst (apply_view by_length table).rows
    × AreInPlace by_length by_name ascending (apply_view by_length table).rows
apply_view-sorts_example =
    apply_view-sorts by_length by_name ascending table by_length-IsCollation refl
      (λ e. ground arith, (λ e. ground arith, tt))

update_selection-box_example :
    (((update_selection table).all_checked ≡ true) ↔ (
      (0 < length (select is_visible table.rows))
      × All (λ row. is_checked row ≡ true) (select is_visible table.rows)))
    × (((update_selection table).all_indeterminate ≡ true) ↔ (
        (0 < length (select is_checked (select is_visible table.rows)))
        × ¬ All (λ row. is_checked row ≡ true) (select is_visible table.rows)))
update_selection-box_example = update_selection-box table

on_search-keeps_selection_example :
    Perm (selected_entries (on_search by_length (codes "bin") table)) (selected_entries table)
    × ((on_search by_length (codes "bin") table).label ≡ Label.chosen 1)
unfolding selected_entries
on_search-keeps_selection_example = on_search-keeps_selection by_length (codes "bin") table

shown_action-Acts_example :
    Acts
      (λ text. text)
      delete
      (on_context_menu (λ text. text) (some notes) table).context_entries
      table
      (on_menu_click delete (on_context_menu (λ text. text) (some notes) table))
unfolding on_context_menu configure_context_menu visibility selected_entries targets
shown_action-Acts_example = shown_action-Acts (λ text. text) (some notes) delete table refl refl

paste_alone-outcome_example :
    let (request, after) =
      paste_alone by_length none (listed (codes "/") (codes "/") (notes ∷ [])) table in
    (request ≡ some (transfer_files copy (codes "/old" ∷ []) table.current_path))
    × (paste_clipboard after ≡ some (transfer_files copy (codes "/old" ∷ []) after.current_path))
    × ((◌≡◌ {A = Option Text} none none)
        ⊎ ((after.rows ≡ table.rows) × (none ≡ some after.file_error)))
paste_alone-outcome_example =
    paste_alone-outcome by_length none (listed (codes "/") (codes "/") (notes ∷ []))
      (record { paths = codes "/old" ∷ []; mode = copy }) table refl

cut_during_paste-lost_example :
    let cut_meanwhile = set_clipboard (notes ∷ []) move (begin_operation table) in
    (paste_clipboard cut_meanwhile
      ≡ some (transfer_files move (map path_of (notes ∷ [])) table.current_path))
    × (paste_clipboard (
          end_paste (
            end_operation by_length none
              (listed (codes "/") (codes "/") (notes ∷ []))
              cut_meanwhile))
        ≡ none)
cut_during_paste-lost_example =
    cut_during_paste-lost by_length (listed (codes "/") (codes "/") (notes ∷ [])) notes [] table

abbrev as_shown : Listing
as_shown = record {
  path = table.current_path;
  parent = table.parent_path;
  entries = notes ∷ bin ∷ [];
}

-- Two loads, the second of which is answered first.
abbrev overtaken : List Event
overtaken =
    asks
    ∷ asks
    ∷ answered (listed (codes "/b") (codes "/") (bin ∷ []))
    ∷ searches (codes "n")
    ∷ answered (listed (codes "/a") (codes "/") (notes ∷ []))
    ∷ []

overtaken_run :
    last_listed as_shown overtaken
    ≡ record { path = codes "/a"; parent = codes "/"; entries = notes ∷ [] }
overtaken_run = refl

change_all-Shows_example :
    Shows (last_listed as_shown overtaken) (change_all by_length overtaken table)
change_all-Shows_example =
    change_all-Shows by_length as_shown overtaken table (refl, refl, Perm.refl (notes ∷ bin ∷ []))
