-- ===== src/FileManager/Menu.antt =====
-- internal/app/static/file-manager.js: the context menu, drag and drop, and what the menu's actions
-- ask of the server; `isArchive` and `extractEntry` of internal/app/static/app.js. JavaScript's
-- `toLowerCase` is a parameter.
use termdock.Base.{
  ℕ, ◌-◌, Bool, true, false, not, ◌&&◌, ◌||◌, List, [], ◌∷◌, Option, none, some, map, is_some,
  if◌then◌else◌, length, max, min,
}
use termdock.Base.Text.{Text, text_eq, codes, ends_with, trim}
use termdock.FileManager.{
  Entry, Manager, Mode, copy, move, Clipboard, taken, path_copied, Action, open_action, download,
  copy_action, cut, paste, copy_path, rename, extract, compress, delete, selected_entries, path_of,
}

-- The bodies of the requests to /api/files/operations and /api/files/archive.
pub data Payload : Type 0 where
  transfer_files : Mode → List Text → Text → Payload
  rename_file : Text → Text → Payload
  delete_files : List Text → Payload
  compress_files : List Text → Text → Text → Payload
  extract_file : Text → Text → Payload

-- What a click on the menu goes on with, after the changes of the page that it makes at once.
pub data Task : Type 0 where
  idle : Task
  load_directory : Text → Task
  open_editor : Text → Text → Task
  download_file : Text → Task
  copy_path_task : Text → Task
  ask_name : Entry → Task
  ask_extract : Entry → Task
  ask_archive_name : List Entry → Task
  ask_removal : List Entry → Task
  request : Payload → Task

-- `selected.some(item => item.path === entry.path)`.
abbrev pub has_path : Text → List Entry → Bool
has_path path [] = false
has_path path (entry ∷ entries) = text_eq entry.path path || has_path path entries

-- The entries that a right click or a drag on a row is about.
unfoldable pub targets : Entry → List Entry → List Entry
targets entry selected = if has_path entry.path selected then selected else entry ∷ []

abbrev pub clicked_entries : Option Entry → List Entry → List Entry
clicked_entries none selected = []
clicked_entries (some entry) selected = targets entry selected

unfoldable pub drag_paths : Entry → Manager → List Text
drag_paths entry m = map path_of (targets entry (selected_entries m))

-- The listener of `drop` on a directory's row, given the user's answer.
unfoldable pub drop : Bool → List Text → Entry → Option Payload
drop confirmed [] entry = none
drop confirmed (path ∷ paths) entry =
    if confirmed then some (transfer_files move (path ∷ paths) entry.path) else none

unfoldable pub set_clipboard : List Entry → Mode → Manager → Manager
set_clipboard [] how m = m
set_clipboard (entry ∷ entries) how m = record m {
  clipboard = some (record { paths = map path_of (entry ∷ entries); mode = how });
  label = taken how (length (entry ∷ entries));
}

unfoldable pub rename_entry : Option Text → Entry → Option Payload
rename_entry none entry = none
rename_entry (some name) entry =
    if text_eq (trim name) [] || text_eq (trim name) entry.name
    then none
    else some (rename_file entry.path (trim name))

unfoldable pub remove_entries : Bool → List Entry → Option Payload
remove_entries confirmed [] = none
remove_entries confirmed (entry ∷ entries) =
    if confirmed then some (delete_files (map path_of (entry ∷ entries))) else none

unfoldable pub compress_entries : Option Text → List Entry → Text → Option Payload
compress_entries name [] path = none
compress_entries none (entry ∷ entries) path = none
compress_entries (some name) (entry ∷ entries) path = some (
    compress_files (map path_of (entry ∷ entries)) path
      (if text_eq (trim name) [] then codes "archive.zip" else trim name))

unfoldable pub extract_entry : Bool → Entry → Text → Option Payload
extract_entry confirmed entry path = if confirmed then some (extract_file entry.path path) else none

abbrev pub transfer_to : Text → Option Clipboard → Option Payload
transfer_to path none = none
transfer_to path (some c) = some (transfer_files c.mode c.paths path)

unfoldable pub paste_clipboard : Manager → Option Payload
paste_clipboard m = transfer_to m.current_path m.clipboard

abbrev pub is_paste : Action → Bool
is_paste paste = true
is_paste _ = false

abbrev pub task_of : Option Payload → Task
task_of none = idle
task_of (some payload) = request payload

unfoldable pub hide_context_menu : Manager → Manager
hide_context_menu m = record m { menu_hidden = true; context_entries = [] }

-- `Math.max(8, Math.min(client, Math.max(8, inner - offset - 8)))`, where a negative `inner - offset
-- - 8` is below 8 as well.
unfoldable pub clamp : ℕ → ℕ → ℕ → ℕ
clamp client inner offset = max 8 (min client (max 8 (inner - offset - 8)))

-- What closes the menu beside its buttons: a press, inside the menu or not, a key, Escape or not, and a
-- window that loses the focus or changes its size.
pub data Dismissal : Type 0 where
  pressed : Bool → Dismissal
  key_pressed : Bool → Dismissal
  blurred : Dismissal
  resized : Dismissal

unfoldable pub on_dismissal : Dismissal → Manager → Manager
unfolding hide_context_menu
on_dismissal (pressed is_inside) m =
    if not m.menu_hidden && not is_inside then hide_context_menu m else m
on_dismissal (key_pressed is_escape) m = if is_escape then hide_context_menu m else m
on_dismissal blurred m = hide_context_menu m
on_dismissal resized m = hide_context_menu m

module _ (lower_case : Text → Text) where
  unfoldable pub is_archive : Entry → Bool
  is_archive entry =
      let name = lower_case entry.name in
      if entry.is_dir
      then false
      else ends_with (codes ".zip") name
        || (ends_with (codes ".tar.gz") name || ends_with (codes ".tgz") name)

  unfoldable pub visibility : List Entry → Action → Bool
  visibility [] action = is_paste action
  visibility (entry ∷ []) open_action = true
  visibility (entry ∷ []) download = not entry.is_dir
  visibility (entry ∷ []) copy_path = true
  visibility (entry ∷ []) rename = true
  visibility (entry ∷ []) extract = is_archive entry
  visibility (entry ∷ _ ∷ _) open_action = false
  visibility (entry ∷ _ ∷ _) download = false
  visibility (entry ∷ _ ∷ _) copy_path = false
  visibility (entry ∷ _ ∷ _) rename = false
  visibility (entry ∷ _ ∷ _) extract = false
  visibility (entry ∷ _) copy_action = true
  visibility (entry ∷ _) cut = true
  visibility (entry ∷ _) paste = false
  visibility (entry ∷ _) compress = true
  visibility (entry ∷ _) delete = true

  unfoldable pub configure_context_menu : List Entry → Manager → Manager
  unfolding visibility
  configure_context_menu entries m = record m {
    button_hidden = λ action. not (visibility entries action);
    button_disabled = λ action. is_paste action && not (is_some m.clipboard);
  }

  -- A right click on a row, or beside all rows.
  unfoldable pub on_context_menu : Option Entry → Manager → Manager
  unfolding configure_context_menu
  on_context_menu row m =
      let entries = clicked_entries row (selected_entries m) in
      record (configure_context_menu entries (record m { context_entries = entries })) {
        menu_hidden = false;
      }

-- The part of the click's listener that needs a first entry.
abbrev pub act_on : Action → Entry → List Entry → Manager → Manager × Task
act_on open_action entry entries m =
    (m, if entry.is_dir then load_directory entry.path else open_editor entry.path entry.name)
act_on download entry entries m = (m, download_file entry.path)
act_on copy_action entry entries m = (set_clipboard entries copy m, idle)
act_on cut entry entries m = (set_clipboard entries move m, idle)
act_on copy_path entry entries m = (m, copy_path_task entry.path)
act_on rename entry entries m = (m, ask_name entry)
act_on extract entry entries m = (m, ask_extract entry)
act_on compress entry entries m = (m, ask_archive_name entries)
act_on delete entry entries m = (m, ask_removal entries)
act_on paste entry entries m = (m, idle)

abbrev pub act : Action → List Entry → Manager → Manager × Task
act action [] m = (m, if is_paste action then task_of (paste_clipboard m) else idle)
act action (entry ∷ entries) m =
    if is_paste action
    then (m, task_of (paste_clipboard m))
    else act_on action entry (entry ∷ entries) m

unfoldable pub on_menu_click : Action → Manager → Manager × Task
unfolding hide_context_menu
on_menu_click action m =
    if m.button_disabled action
    then (m, idle)
    else act action m.context_entries (hide_context_menu m)

-- The text that `copyPath` leaves once the path is on the system's clipboard.
unfoldable pub copy_path_done : Manager → Manager
copy_path_done m = record m { label = path_copied }
