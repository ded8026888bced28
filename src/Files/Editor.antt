-- ===== src/Files/Editor.antt =====
-- internal/app/static/app.js: the editor, `openEditor` and the click on "save-file", and the page's
-- other requests on files, `deleteEntry`, "new-directory" and `archiveRequest`.
use termdock.Base.{ℕ, Bool, true, false, List, [], ◌∷◌, ◌++◌, Option, none, some, if◌then◌else◌}
use termdock.Base.Text.{Text, text_eq, codes}
use termdock.Files.{Reply, refused, content, done}

-- What the browser does: `Response.text()` and the body of a request turn bytes into text and back,
-- and a text area gives its value back with its line breaks normalised.
pub record Browser : Type 0 where
  pub decode : List ℕ → Text
  pub encode : Text → List ℕ
  pub value : Text → Text

pub record Editor : Type 0 where
  pub is_open : Bool
  pub text : Text
  pub title : Text
  pub editor_error : Text
  pub editing_path : Text

abbrev pub closed_editor : Editor
closed_editor = record {
  is_open = false;
  text = [];
  title = [];
  editor_error = [];
  editing_path = [];
}

module _ (browser : Browser) where
  -- `openEditor` up to its request for the path's content.
  unfoldable pub open_editor : Text → Text → Editor → Editor
  open_editor path name editor = record {
    is_open = true;
    text = browser.value (codes "正在读取...");
    title = codes "编辑：" ++ name;
    editor_error = [];
    editing_path = path;
  }

  -- `openEditor` from the reply on. It does not look at `editingPath` again.
  unfoldable pub show_reply : Reply → Editor → Editor
  show_reply (refused status message) editor = record editor { editor_error = message; text = [] }
  show_reply (content bytes) editor = record editor { text = browser.value (browser.decode bytes) }
  show_reply (done status) editor = record editor { text = browser.value [] }

  -- What the user types into the text area.
  unfoldable pub type_text : Text → Editor → Editor
  type_text text editor = record editor { text = browser.value text }

  -- The dialog's own cancel button or the Escape key.
  unfoldable pub close_editor : Editor → Editor
  close_editor editor = record editor { is_open = false }

  -- The click on "save-file" up to its request: the path and the body.
  unfoldable pub save_request : Editor → (Text × List ℕ) × Editor
  save_request editor =
      ((editor.editing_path, browser.encode editor.text), record editor { editor_error = [] })

  -- The click from the reply on: the path that `loadFiles` is called with, if it is.
  unfoldable pub finish_save : Reply → Text → Editor → Option Text × Editor
  finish_save (refused status message) current_path editor =
      (none, record editor { editor_error = message })
  finish_save (content bytes) current_path editor =
      (some current_path, record editor { is_open = false })
  finish_save (done status) current_path editor =
      (some current_path, record editor { is_open = false })

-- The page's file list as these requests see it: where it stands, and the error line.
pub record Place : Type 0 where
  pub current_path : Text
  pub file_error : Text

-- What a request does next: nothing, or `loadFiles` on a path.
abbrev pub settle : Reply → Place → Option Text × Place
settle (refused status message) place = (none, record place { file_error = message })
settle _ place = (some place.current_path, place)

-- `customConfirm` and `customPrompt`: what they resolve to, by the return value of the dialog and the
-- text of its input.
unfoldable pub custom_confirm : Text → Bool
custom_confirm return_value = text_eq return_value (codes "ok")

unfoldable pub custom_prompt : Text → Text → Option Text
custom_prompt return_value input = if text_eq return_value (codes "ok") then some input else none

-- `deleteEntry`, given the dialog's return value and the reply to the request for the entry.
unfoldable pub delete_entry : Text → Reply → Place → Option Text × Place
unfolding custom_confirm
delete_entry return_value reply place =
    if custom_confirm return_value
    then settle reply (record place { file_error = [] })
    else (none, place)

-- Nothing is asked for without a name.
abbrev make_named : Option Text → Reply → Place → Option Text × Place
make_named none reply place = (none, place)
make_named (some []) reply place = (none, place)
make_named (some (c ∷ cs)) reply place = settle reply place

-- The click on "new-directory", given the dialog's return value and input.
unfoldable pub new_directory : Text → Text → Reply → Place → Option Text × Place
unfolding custom_prompt
new_directory return_value input reply place =
    make_named (custom_prompt return_value input) reply place

-- `archiveRequest`: its answer tells whether the request succeeded.
unfoldable pub archive_request : Reply → Place → Bool × (Option Text × Place)
archive_request (refused status message) place =
    (false, (none, record place { file_error = message }))
archive_request (content bytes) place =
    (true, (some place.current_path, record place { file_error = [] }))
archive_request (done status) place =
    (true, (some place.current_path, record place { file_error = [] }))
