-- ===== src/FileManager/Choices.antt =====
-- internal/app/static/file-manager.js: which entries the context menu is about, and what a click on
-- one of its buttons does with them.
use termdock.Base.{
  ◌≡◌, refl, sym, true, false, not, ◌&&◌, List, [], ◌∷◌, Option, none, some, map, is_some,
  if◌then◌else◌, arith,
}
use termdock.Base.Text.{Text, text_eq_self}
use termdock.FileManager.{
  Entry, Manager, Clipboard, copy, move, Action, open_action, download, copy_action, cut, paste,
  copy_path, rename, extract, compress, delete, selected_entries, path_of,
}
use termdock.FileManager.Menu.{
  Task, idle, load_directory, open_editor, download_file, copy_path_task, ask_name, ask_extract,
  ask_removal, ask_archive_name, request, transfer_files, has_path, targets, clicked_entries,
  drag_paths, set_clipboard, paste_clipboard, transfer_to, task_of, is_paste, is_archive,
  visibility, configure_context_menu, on_context_menu, act, on_menu_click,
}
use mathlib.Core.Bool.{true≢false}

targets-has_path :
    (entry : Entry) (selected : List Entry) → has_path entry.path (targets entry selected) ≡ true
unfolding targets
targets-has_path entry selected = ground (arith, text_eq_self entry.path)

-- The context menu is about the clicked row in any case, and beyond it about the whole selection
-- exactly if the selection has the row's path. Dragging the row moves the same paths.
pub on_context_menu-targets :
    (lower_case : Text → Text) (entry : Entry) (m : Manager)
    → let opened = on_context_menu lower_case (some entry) m in
      (opened.context_entries
        ≡ (if has_path entry.path (selected_entries m) then selected_entries m else entry ∷ []))
      × (has_path entry.path opened.context_entries ≡ true)
      × (map path_of opened.context_entries ≡ drag_paths entry m)
      × (opened.menu_hidden ≡ false)
unfolding on_context_menu configure_context_menu drag_paths
on_context_menu-targets lower_case entry m =
    (unfold targets in refl, targets-has_path entry (selected_entries m), refl, refl)

-- There is one entry, and the statement holds of it.
abbrev IsAbout : List Entry → (Entry → Type 0) → Type 0
IsAbout entries P = (entry : Entry) × (entries ≡ entry ∷ []) × P entry

-- What an action puts on the clipboard of the page, which held another content before.
abbrev clipboard_after : Action → List Entry → Option Clipboard → Option Clipboard
clipboard_after copy_action entries held =
    some (record { paths = map path_of entries; mode = copy })
clipboard_after cut entries held = some (record { paths = map path_of entries; mode = move })
clipboard_after _ entries held = held

module _ (lower_case : Text → Text) where
  -- What an action goes on with, given the entries that the menu was about, the clipboard and the
  -- directory that is shown.
  abbrev GoesOn : Action → List Entry → Option Clipboard → Text → Task → Type 0
  GoesOn open_action entries held path task = IsAbout entries (λ entry.
      task
      ≡ (if entry.is_dir then load_directory entry.path else open_editor entry.path entry.name))
  GoesOn download entries held path task =
      IsAbout entries (λ entry. (entry.is_dir ≡ false) × (task ≡ download_file entry.path))
  GoesOn copy_action entries held path task = task ≡ idle
  GoesOn cut entries held path task = task ≡ idle
  GoesOn paste entries held path task =
      (c : Clipboard) × (held ≡ some c) × (task ≡ request (transfer_files c.mode c.paths path))
  GoesOn copy_path entries held path task =
      IsAbout entries (λ entry. task ≡ copy_path_task entry.path)
  GoesOn rename entries held path task = IsAbout entries (λ entry. task ≡ ask_name entry)
  GoesOn extract entries held path task =
      IsAbout entries (λ entry. (is_archive lower_case entry ≡ true) × (task ≡ ask_extract entry))
  GoesOn compress entries held path task = task ≡ ask_archive_name entries
  GoesOn delete entries held path task = task ≡ ask_removal entries

  -- What a click is to do with the entries that the menu was about.
  abbrev pub Acts : Action → List Entry → Manager → Manager × Task → Type 0
  Acts action entries m (after, task) =
      GoesOn action entries m.clipboard m.current_path task
      × (after.clipboard ≡ clipboard_after action entries m.clipboard)
      × (after.menu_hidden ≡ true)
      × (after.context_entries ≡ [])

  not_shown {ℓ} : {A : Type ℓ} → false ≡ true → A
  not_shown e = absurd (true≢false (sym e))

  act-Acts :
      (action : Action) (entry : Entry) (entries : List Entry) (m : Manager)
      → visibility lower_case (entry ∷ entries) action ≡ true
      → m.menu_hidden ≡ true
      → m.context_entries ≡ []
      → Acts action (entry ∷ entries) m (act action (entry ∷ entries) m)
  unfolding visibility set_clipboard
  act-Acts open_action entry [] m v h c = ((entry, refl, refl), refl, h, c)
  act-Acts open_action entry (next ∷ rest) m v h c = not_shown v
  act-Acts download entry [] m v h c = ((entry, refl, (ground arith, refl)), refl, h, c)
  act-Acts download entry (next ∷ rest) m v h c = not_shown v
  act-Acts copy_action entry entries m v h c = (refl, refl, h, c)
  act-Acts cut entry entries m v h c = (refl, refl, h, c)
  act-Acts paste entry [] m v h c = not_shown v
  act-Acts paste entry (next ∷ rest) m v h c = not_shown v
  act-Acts copy_path entry [] m v h c = ((entry, refl, refl), refl, h, c)
  act-Acts copy_path entry (next ∷ rest) m v h c = not_shown v
  act-Acts rename entry [] m v h c = ((entry, refl, refl), refl, h, c)
  act-Acts rename entry (next ∷ rest) m v h c = not_shown v
  act-Acts extract entry [] m v h c = ((entry, refl, (v, refl)), refl, h, c)
  act-Acts extract entry (next ∷ rest) m v h c = not_shown v
  act-Acts compress entry entries m v h c = (refl, refl, h, c)
  act-Acts delete entry entries m v h c = (refl, refl, h, c)

  pastes :
      (path : Text) (held : Option Clipboard)
      → not (is_some held) ≡ false
      → GoesOn paste [] held path (task_of (transfer_to path held))
  pastes path none h = absurd (true≢false h)
  pastes path (some c) h = (c, refl, refl)

  -- Beside all rows the menu shows one button.
  act_beside-Acts :
      (action : Action) (m : Manager)
      → visibility lower_case [] action ≡ true
      → (is_paste action && not (is_some m.clipboard)) ≡ false
      → m.menu_hidden ≡ true
      → m.context_entries ≡ []
      → Acts action [] m (act action [] m)
  unfolding visibility paste_clipboard
  act_beside-Acts paste m v k h c = (pastes m.current_path m.clipboard k, refl, h, c)
  act_beside-Acts open_action m v k h c = not_shown v
  act_beside-Acts download m v k h c = not_shown v
  act_beside-Acts copy_action m v k h c = not_shown v
  act_beside-Acts cut m v k h c = not_shown v
  act_beside-Acts copy_path m v k h c = not_shown v
  act_beside-Acts rename m v k h c = not_shown v
  act_beside-Acts extract m v k h c = not_shown v
  act_beside-Acts compress m v k h c = not_shown v
  act_beside-Acts delete m v k h c = not_shown v

  click-Acts :
      (action : Action) (entries : List Entry) (m : Manager)
      → visibility lower_case entries action ≡ true
      → (is_paste action && not (is_some m.clipboard)) ≡ false
      → m.menu_hidden ≡ true
      → m.context_entries ≡ []
      → Acts action entries m (act action entries m)
  click-Acts action [] m v k h c = act_beside-Acts action m v k h c
  click-Acts action (entry ∷ entries) m v k h c = act-Acts action entry entries m v h c

-- A click on a button that the menu shows and enables closes the menu and does what the button
-- says with exactly the entries that the menu was about: it opens, downloads, renames, extracts or
-- copies the path of the only entry, which is a file for a download and an archive for an
-- extraction, asks about the removal or the archive of all of them, puts all their paths on the
-- page's clipboard to be copied or moved, or asks the server to transfer what the clipboard holds
-- to the directory that is shown. No other button changes the clipboard.
pub shown_action-Acts :
    (lower_case : Text → Text) (row : Option Entry) (action : Action) (m : Manager)
    → let opened = on_context_menu lower_case row m in
      opened.button_hidden action ≡ false
      → opened.button_disabled action ≡ false
      → Acts lower_case action opened.context_entries m (on_menu_click action opened)
unfolding on_menu_click on_context_menu configure_context_menu
shown_action-Acts lower_case row action m h k = rw k (
    click-Acts lower_case action (clicked_entries row (selected_entries m)) _ (ground arith) k refl
      refl)
