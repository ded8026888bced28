-- ===== src/Files/Editing.antt =====
-- internal/app/static/app.js and internal/server/server.go: the editor against the files on disk.
use termdock.Base.{
  ℕ, ◌≡◌, refl, ap, ◌∙◌, Bool, true, false, not, ◌&&◌, List, [], ◌∷◌, ◌++◌, Option, some, arith,
  ltb, if◌then◌else◌, length,
}
use termdock.Base.Text.{Text, text_eq, codes}
use termdock.Base.Maps.{lookup, insert, lookup-insert, lookup-insert_self}
use termdock.Filepath.{file_path}
use termdock.Upload.{file, Disk}
use termdock.Files.{
  Reply, content, System, text_limit, under, read_file, read_checked, overwrite, write_file,
  write_checked, is_root, delete_file, delete_checked,
}
use termdock.Files.Promise.{healthy, lookup-remove_if}
use termdock.Files.Editor.{
  Browser, Editor, open_editor, show_reply, close_editor, save_request, finish_save,
}

pub record Saved : Type 0 where
  pub reload : Option Text
  pub editor : Editor
  pub disk : Disk

module _ (browser : Browser) (working_dir : Text) where
  -- An opening whose reply comes before anything else happens.
  unfoldable pub open_file : Text → Text → System → Disk → Editor → Editor
  open_file path name os disk editor =
      show_reply browser (read_file true path os working_dir disk)
        (open_editor browser path name editor)

  -- A click on "save-file" whose reply comes before anything else happens.
  unfoldable pub save_file : System → Text → Disk → Editor → Saved
  save_file os current_path disk editor =
      let ((path, bytes), waiting) = save_request browser editor in
      let (reply, written) = write_file true path (some bytes) os working_dir disk in
      let (reload, after) = finish_save browser reply current_path waiting in
      record { reload = reload; editor = after; disk = written }

  -- A save to a file that is there writes the editor's text, where it is not too long.
  save_file-writes :
      (current_path : Text) (disk : Disk) (editor : Editor) (old : List ℕ)
      → lookup (file_path working_dir editor.editing_path) disk ≡ some (file old)
      → ltb text_limit (length (browser.encode editor.text)) ≡ false
      → save_file healthy current_path disk editor ≡ record {
        reload = some current_path;
        editor = record editor { editor_error = []; is_open = false };
        disk =
            insert
              (file_path working_dir editor.editing_path)
              (file (browser.encode editor.text))
              disk;
      }
  unfolding save_file save_request finish_save write_file write_checked overwrite
  save_file-writes current_path disk editor old there small = rw (there, small) refl

  open_file-shows :
      (path name : Text) (disk : Disk) (editor : Editor) (bytes : List ℕ)
      → lookup (file_path working_dir path) disk ≡ some (file bytes)
      → ltb text_limit (length bytes) ≡ false
      → (open_file path name healthy disk editor).text ≡ browser.value (browser.decode bytes)
  unfolding open_file show_reply read_file read_checked
  open_file-shows path name disk editor bytes there small = rw (there, small) refl

  save_file-lookup :
      (current_path : Text) (disk : Disk) (editor : Editor) (old : List ℕ)
      → lookup (file_path working_dir editor.editing_path) disk ≡ some (file old)
      → ltb text_limit (length (browser.encode editor.text)) ≡ false
      → lookup
          (file_path working_dir editor.editing_path)
          (save_file healthy current_path disk editor).disk
        ≡ some (file (browser.encode editor.text))
  save_file-lookup current_path disk editor old there small =
      let path = file_path working_dir editor.editing_path in
      rw (save_file-writes current_path disk editor old there small)
        (lookup-insert_self path (file (browser.encode editor.text)) disk)

  read_file-content :
      (path : Text) (disk : Disk) (bytes : List ℕ)
      → lookup (file_path working_dir path) disk ≡ some (file bytes)
      → ltb text_limit (length bytes) ≡ false
      → read_file true path healthy working_dir disk ≡ content bytes
  unfolding read_file read_checked
  read_file-content path disk bytes there small = rw (there, small) refl

  -- Where no system call fails, saving a text to a file that is there closes the editor, reloads
  -- the listing and changes no other file, and opening the file again shows that text. The text
  -- has at most 2 MB, decodes to what it was, and has its line breaks as a text area gives them.
  pub save_file-reopens :
      (current_path name : Text) (disk : Disk) (editor next : Editor) (old : List ℕ)
      → lookup (file_path working_dir editor.editing_path) disk ≡ some (file old)
      → ltb text_limit (length (browser.encode editor.text)) ≡ false
      → browser.decode (browser.encode editor.text) ≡ editor.text
      → browser.value editor.text ≡ editor.text
      → let saved = save_file healthy current_path disk editor in
        (saved.editor.is_open ≡ false)
        × (saved.reload ≡ some current_path)
        × ((open_file editor.editing_path name healthy saved.disk next).text ≡ editor.text)
        × ((q : Text)
            → lookup q saved.disk ≡ (
                if text_eq (file_path working_dir editor.editing_path) q
                then some (file (browser.encode editor.text))
                else lookup q disk))
  save_file-reopens current_path name disk editor next old there small intact plain =
      let path = file_path working_dir editor.editing_path in
      let bytes = browser.encode editor.text in
      rw (save_file-writes current_path disk editor old there small) (
        refl,
        refl,
        open_file-shows editor.editing_path name (insert path (file bytes) disk) next bytes
              (lookup-insert_self path (file bytes) disk) small
            ∙ ap browser.value intact
            ∙ plain,
        λ q. lookup-insert path q (file bytes) disk,
      )

  -- What a refused opening leaves.
  abbrev refused_editor : Text → Text → Editor
  refused_editor path name = record {
    is_open = true;
    text = [];
    title = codes "编辑：" ++ name;
    editor_error = codes "文件超过 2 MB，无法在线编辑" ++ (10 ∷ []);
    editing_path = path;
  }

  -- Where no system call fails, a file of more than 2 MB that is opened and then saved is
  -- emptied: the refused reply leaves the editor open on the path with an empty text, which
  -- encodes to no bytes.
  pub open_large-save-empties :
      (current_path path name : Text) (disk : Disk) (editor : Editor) (bytes : List ℕ)
      → lookup (file_path working_dir path) disk ≡ some (file bytes)
      → ltb text_limit (length bytes) ≡ true
      → browser.encode [] ≡ []
      → let opened = open_file path name healthy disk editor in
        (opened.is_open ≡ true)
        × (lookup (file_path working_dir path) (save_file healthy current_path disk opened).disk
            ≡ some (file []))
  unfolding open_file show_reply open_editor read_file read_checked
  open_large-save-empties current_path path name disk editor bytes there large nothing =
      rw (there, large)
        (
          refl,
          save_file-lookup current_path disk (refused_editor path name) bytes there
                (rw nothing refl)
              ∙ ap (λ b. some (file b)) nothing,
        )

  -- The editor after a file is opened, closed and another one opened, where the first reply comes last.
  unfoldable pub overlapping_opens : (Text × Text) → (Text × Text) → Reply → Reply → Editor → Editor
  overlapping_opens (first, first_name) (second, second_name) first_reply second_reply editor =
      show_reply browser first_reply (
        show_reply browser second_reply (
          open_editor browser second second_name
            (close_editor browser (open_editor browser first first_name editor))))

  -- Where no system call fails and neither file nor the first one's text is over 2 MB: when the
  -- reply to an earlier opening comes after the one to a later opening, saving writes the first
  -- file's text into the second file.
  pub overlapping_opens-overwrites :
      (current_path first first_name second second_name : Text) (disk : Disk) (editor : Editor)
      (one two : List ℕ)
      → lookup (file_path working_dir first) disk ≡ some (file one)
      → lookup (file_path working_dir second) disk ≡ some (file two)
      → ltb text_limit (length one) ≡ false
      → ltb text_limit (length two) ≡ false
      → ltb text_limit (length (browser.encode (browser.value (browser.decode one)))) ≡ false
      → let shown =
          overlapping_opens
            (first, first_name)
            (second, second_name)
            (read_file true first healthy working_dir disk)
            (read_file true second healthy working_dir disk)
            editor in
        lookup (file_path working_dir second) (save_file healthy current_path disk shown).disk
        ≡ some (file (browser.encode (browser.value (browser.decode one))))
  unfolding overlapping_opens show_reply open_editor close_editor
  overlapping_opens-overwrites current_path first first_name second second_name disk editor one two
        there_one there_two small fits short =
      rw
        (
          read_file-content first disk one there_one small,
          read_file-content second disk two there_two fits,
        )
        (save_file-lookup current_path disk
          (record {
            is_open = true;
            text = browser.value (browser.decode one);
            title = codes "编辑：" ++ second_name;
            editor_error = [];
            editing_path = second;
          })
          two there_two short)

delete_checked-spares :
    (root : Bool) (path : Text) (os : System) (disk : Disk) (q : Text)
    → not root && under path q ≡ false
    → lookup q (delete_checked root path os disk).1 ≡ lookup q disk
unfolding delete_checked
delete_checked-spares true path os disk q h = refl
delete_checked-spares false path os disk q h = ground (
  arith,
  lookup-remove_if (λ p. under path p && os.removed p) q disk,
  lookup-remove_if (under path) q disk,
)

-- A deletion, whatever fails in it, touches no file outside the named path, and none at all where
-- that path is the root or the working directory, or nobody is logged in.
pub delete_file-spares :
    (logged_in : Bool) (requested : Text) (os : System) (working_dir : Text) (disk : Disk)
    (q : Text)
    → logged_in
        && (not (is_root working_dir (file_path working_dir requested))
            && under (file_path working_dir requested) q)
      ≡ false
    → lookup q (delete_file logged_in requested os working_dir disk).1 ≡ lookup q disk
unfolding delete_file
delete_file-spares false requested os working_dir disk q h = refl
delete_file-spares true requested os working_dir disk q h =
    let path = file_path working_dir requested in
    delete_checked-spares (is_root working_dir path) path os disk q h
