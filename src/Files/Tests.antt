-- ===== src/Files/Tests.antt =====
-- internal/app/static/app.js and internal/server/server.go: the theorems on concrete files.
use termdock.FileManager.{Entry}
use termdock.Files.Directory.{Reader, DirEntry, list_files, file_entries, enter_and_leave}
use termdock.Filepath.Parts.{IsPlain}
use termdock.FileManager.Listing.{listed}
use termdock.Base.{
  none, arith, ℕ, ◌≡◌, refl, Bool, true, false, List, [], ◌∷◌, ◌++◌, some, ltb, length, replicate,
  length-replicate, ◌==◌, ◌&&◌, if◌then◌else◌,
}
use termdock.Base.Text.{Text, text_eq, codes}
use termdock.Base.Maps.{lookup}
use termdock.Filepath.{file_path}
use termdock.Upload.{directory, file, Disk}
use termdock.Files.{delete_file, text_limit}
use termdock.Files.Promise.{
  writes, deletes, makes, healthy, handle_all, promise_all, view, view-handle_all,
}
use termdock.Files.Editor.{Browser, Editor, closed_editor}
use termdock.Files.Editing.{
  open_file, save_file, save_file-reopens, open_large-save-empties, delete_file-spares,
}
use termdock.Filepath.{join, dir_name}
use termdock.Files.Operations.{move_tree, rename_path}
use termdock.Files.Transfer.{quiet, rename_path-back}

-- One code unit for each byte, and line breaks turned into line feeds.
abbrev feeds_after : Bool → Text → Text
feeds_after carriage [] = []
feeds_after carriage (c ∷ cs) =
    let behind = feeds_after (c == 13) cs in
    if c == 13 then 10 ∷ behind else if (c == 10) && carriage then behind else c ∷ behind

abbrev line_feeds : Text → Text
line_feeds = feeds_after false

abbrev latin : Browser
latin = record { decode = λ bytes. bytes; encode = λ text. text; value = line_feeds }

abbrev home : Text
home = codes "/srv/home"

abbrev files : Disk
files =
    (codes "/srv", directory)
    ∷ (codes "/srv/home", directory)
    ∷ (codes "/srv/home/a", file (1 ∷ []))
    ∷ (codes "/srv/home/b", file (2 ∷ 3 ∷ []))
    ∷ []

abbrev on_a : Editor
on_a = record closed_editor { is_open = true; text = 7 ∷ 10 ∷ 8 ∷ []; editing_path = codes "a" }

view-handle_all_example :
    view (
      handle_all home
        (writes (codes "a") (5 ∷ []) ∷ deletes (codes "b") ∷ makes [] (codes "c") ∷ [])
        files)
    ≡ promise_all home
        (writes (codes "a") (5 ∷ []) ∷ deletes (codes "b") ∷ makes [] (codes "c") ∷ [])
        (view files)
view-handle_all_example =
    view-handle_all home
      (writes (codes "a") (5 ∷ []) ∷ deletes (codes "b") ∷ makes [] (codes "c") ∷ []) files

save_file-reopens_example :
    let saved = save_file latin home healthy home files on_a in
    (saved.editor.is_open ≡ false)
    × (saved.reload ≡ some home)
    × ((open_file latin home (codes "a") (codes "a") healthy saved.disk closed_editor).text
        ≡ 7 ∷ 10 ∷ 8 ∷ [])
    × ((q : Text)
        → lookup q saved.disk ≡ (
            if text_eq (file_path home (codes "a")) q
            then some (file (7 ∷ 10 ∷ 8 ∷ []))
            else lookup q files))
unfolding file_path lookup
save_file-reopens_example =
    save_file-reopens latin home home (codes "a") files on_a closed_editor (1 ∷ []) refl refl refl
      refl

-- Zeros past the limit, with the proof that they are.
zeros :
    (n : ℕ) → ltb text_limit n ≡ true → (bytes : List ℕ) × (ltb text_limit (length bytes) ≡ true)
zeros n h = (replicate n 0, rw (length-replicate {A = ℕ} n 0) h)

large : (bytes : List ℕ) × (ltb text_limit (length bytes) ≡ true)
large = zeros 2097153 refl

abbrev large_files : Disk
large_files = (codes "/big", file large.0) ∷ []

open_large-save-empties_example :
    let opened =
      open_file latin home (codes "/big") (codes "big") healthy large_files closed_editor in
    (opened.is_open ≡ true)
    × (lookup
          (file_path home (codes "/big"))
          (save_file latin home healthy home large_files opened).disk
        ≡ some (file []))
unfolding file_path lookup
open_large-save-empties_example =
    open_large-save-empties latin home home (codes "/big") (codes "big") large_files closed_editor
      large.0 refl large.1 refl

delete_file-spares_example :
    lookup (codes "/srv/home/a") (delete_file true (codes "b") healthy home files).1
    ≡ lookup (codes "/srv/home/a") files
unfolding file_path lookup
delete_file-spares_example =
    delete_file-spares true (codes "b") healthy home files (codes "/srv/home/a") refl

abbrev tree : Disk
tree =
    (codes "/srv/home", directory)
    ∷ (codes "/srv/home/d", directory)
    ∷ (codes "/srv/home/d/x", file (1 ∷ []))
    ∷ (codes "/srv/home/to", directory)
    ∷ []

d-IsPlain : IsPlain (codes "d")
d-IsPlain = (((ground arith, tt), refl, refl), refl)

e-IsPlain : IsPlain (codes "e")
e-IsPlain = (((ground arith, tt), refl, refl), refl)

srv-IsPlain : IsPlain (codes "srv")
srv-IsPlain = (((ground arith, (ground arith, (ground arith, tt))), refl, refl), refl)

home-IsPlain : IsPlain (codes "home")
home-IsPlain =
    (((ground arith, (ground arith, (ground arith, (ground arith, tt)))), refl, refl), refl)

rename_path-back_example :
    (rename_path (quiet (codes "/")) home (codes "/srv/home/d") (codes "e") tree
      ≡ (true, move_tree (codes "/srv/home/d") (codes "/srv/home/e") tree))
    × (rename_path
          (quiet (codes "/"))
          home
          (codes "/srv/home/e")
          (codes "d")
          (move_tree (codes "/srv/home/d") (codes "/srv/home/e") tree)
        ≡ (true, tree))
unfolding file_path join lookup
rename_path-back_example =
    rename_path-back (codes "/") home (codes "srv" ∷ codes "home" ∷ []) (codes "d") (codes "e") tree
      directory (srv-IsPlain, (home-IsPlain, tt)) d-IsPlain e-IsPlain refl refl refl
      (refl, (refl, (refl, (refl, tt))))

abbrev inside : List DirEntry
inside =
    record { name = codes "f"; is_dir = false; info = some (3, codes "now") }
    ∷ record { name = codes "gone"; is_dir = false; info = none }
    ∷ []

-- Every directory has a file, an entry that is gone, and a directory.
abbrev a_reader : Reader
a_reader = record {
  read_dir = λ path. some (
      inside ++ (record { name = codes "sub"; is_dir = true; info = some (0, codes "then") } ∷ []));
  error = λ path. codes "no such directory";
}

abbrev sub_entry : Entry
sub_entry = record {
  name = codes "sub";
  path = codes "/home/sub";
  size = 0;
  modified = codes "then";
  is_dir = true;
}

abbrev file_entry : Entry
file_entry = record {
  name = codes "f";
  path = codes "/home/f";
  size = 3;
  modified = codes "now";
  is_dir = false;
}

sub-IsPlain : IsPlain (codes "sub")
sub-IsPlain = (((ground arith, (ground arith, (ground arith, tt))), refl, refl), refl)

enter_and_leave_example :
    (list_files true a_reader (codes "/home") (codes "/home/sub")
      ≡ listed (codes "/home/sub") (codes "/home") (
          file_entries (codes "/home/sub") (
            inside
            ++ (record { name = codes "sub"; is_dir = true; info = some (0, codes "then") } ∷ []))))
    × (list_files true a_reader (codes "/home") (codes "/home")
        ≡ listed (codes "/home") (codes "/") (file_entry ∷ sub_entry ∷ []))
unfolding list_files file_entries file_path dir_name join
enter_and_leave_example =
    enter_and_leave a_reader (codes "/home") (codes "x/..") (codes "/home") (codes "/")
      (file_entry ∷ []) [] sub_entry
      (inside ++ (record { name = codes "sub"; is_dir = true; info = some (0, codes "then") } ∷ []))
      refl sub-IsPlain refl refl
