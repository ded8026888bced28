-- ===== src/Page.antt =====
-- internal/app/static/app.js: the files panel with its path field, the scroll position of the
-- terminal, and the texts about sizes.
pub mod Sizes
use termdock.Base.{
  ℕ, ◌+◌, ◌*◌, ◌/◌, ◌≡◌, Bool, true, false, not, ◌&&◌, ◌||◌, List, [], ◌∷◌, Option, none, some, ltb,
  leb, ◌==◌, min, if◌then◌else◌,
}
use termdock.Base.Text.{Text, codes}

-- The classes and attributes that say whether the panel is open, and the page's path fields.
pub record FilesPanel : Type 0 where
  pub collapsed : Bool
  pub workspace_collapsed : Bool
  pub tab_active : Bool
  pub tab_expanded : Bool
  pub panel_hidden : Bool
  pub backdrop_hidden : Bool
  pub frames : ℕ
  pub path_input : Text
  pub parent_path : Text
  pub current_path : Text

-- As internal/app/static/index.html has it.
abbrev pub closed_panel : FilesPanel
closed_panel = record {
  collapsed = true;
  workspace_collapsed = true;
  tab_active = false;
  tab_expanded = false;
  panel_hidden = true;
  backdrop_hidden = true;
  frames = 0;
  path_input = codes "/";
  parent_path = [];
  current_path = codes "/";
}

-- What a handler asks for beside the change: a listing, or the terminal's focus.
pub data Effect : Type 0 where
  nothing : Effect
  loads : Text → Effect
  focuses : Effect

unfoldable pub set_files_panel_open : Bool → FilesPanel → Effect × FilesPanel
set_files_panel_open shown p = (
  if shown then loads p.current_path else focuses,
  record p {
    collapsed = not shown;
    workspace_collapsed = not shown;
    tab_active = shown;
    tab_expanded = shown;
    panel_hidden = not shown;
    backdrop_hidden = not shown;
    frames = 1 + p.frames;
  },
)

-- What happens to the panel. A key press carries whether it is Escape, or Enter, and whether a
-- dialog is open; an answer carries the directory and its parent.
pub data Event : Type 0 where
  tab_clicked : Event
  close_clicked : Event
  backdrop_clicked : Event
  key_pressed : Bool → Bool → Event
  refresh_clicked : Event
  parent_clicked : Event
  open_clicked : Event
  path_key_pressed : Bool → Event
  path_typed : Text → Event
  answered : Text → Text → Event

-- The buttons and the key that load another directory.
unfoldable pub go_to : Text → FilesPanel → Effect × FilesPanel
go_to path p = (loads path, p)

unfoldable pub handle : Event → FilesPanel → Effect × FilesPanel
unfolding set_files_panel_open go_to
handle tab_clicked p = set_files_panel_open p.collapsed p
handle close_clicked p = set_files_panel_open false p
handle backdrop_clicked p = set_files_panel_open false p
handle (key_pressed escape dialog_open) p =
    if escape && (not p.collapsed && not dialog_open)
    then set_files_panel_open false p
    else (nothing, p)
handle refresh_clicked p = (loads p.current_path, p)
handle parent_clicked p = go_to p.parent_path p
handle open_clicked p = go_to p.path_input p
handle (path_key_pressed enter) p = if enter then go_to p.path_input p else (nothing, p)
handle (path_typed text) p = (nothing, record p { path_input = text })
handle (answered path parent) p =
    (nothing, record p { current_path = path; path_input = path; parent_path = parent })

unfoldable pub handle_all : List Event → FilesPanel → FilesPanel
handle_all [] p = p
handle_all (e ∷ es) p = handle_all es (handle e p).1

-- `terminalView.buffer.active`, and the button that jumps to new output.
pub record View : Type 0 where
  pub viewport : ℕ
  pub base : ℕ
  pub button_hidden : Bool

unfoldable pub is_terminal_at_bottom : View → Bool
is_terminal_at_bottom v = leb v.base v.viewport

-- Scrolling by hand, `terminalView.onScroll`.
unfoldable pub update_new_output_button : View → View
unfolding is_terminal_at_bottom
update_new_output_button v = record v { button_hidden = is_terminal_at_bottom v }

unfoldable pub scroll_terminal_to_bottom : View → View
scroll_terminal_to_bottom v = record v { viewport = v.base; button_hidden = true }

-- A message of the socket: xterm.js takes the bytes and leaves the buffer at another position, and
-- then the callback follows the output where the view was at the bottom before.
unfoldable pub on_output : ℕ → ℕ → View → View
unfolding is_terminal_at_bottom
on_output viewport base v =
    if is_terminal_at_bottom v
    then record v { viewport = base; base = base; button_hidden = true }
    else record v { viewport = viewport; base = base; button_hidden = false }

-- `toFixed(1)`, in tenths: the nearest, the larger one of two.
abbrev pub tenths : ℕ → ℕ → ℕ
tenths value unit = (20 * value + unit) / (2 * unit)

-- The text of `size`: whole bytes, or tenths of a unit.
pub data Size : Type 0 where
  whole : ℕ → Size
  scaled : ℕ → ℕ → Size

unfoldable pub size : ℕ → Size
size value =
    if ltb value 1024
    then whole value
    else if ltb value 1048576
    then scaled 1024 (tenths value 1024)
    else if ltb value 1073741824
    then scaled 1048576 (tenths value 1048576)
    else scaled 1073741824 (tenths value 1073741824)

-- The share of an upload that `uploadDetail` names, in exact arithmetic.
unfoldable pub upload_percent : ℕ → ℕ → ℕ
upload_percent loaded total =
    if total == 0 then 0 else min 100 ((200 * loaded + total) / (2 * total))
