-- ===== src/Files/Promise.antt =====
-- internal/server/server.go: what the file routes promise of the files, as a function from paths.
use termdock.Base.{
  ℕ, ◌≡◌, refl, ap, ◌∙◌, Bool, true, false, List, [], ◌∷◌, Option, none, some, arith, if◌then◌else◌,
}
use termdock.Base.Text.{Text, text_eq, text_eq_iff}
use termdock.Base.Maps.{lookup, insert, lookup-insert}
use termdock.Filepath.{file_path, join, dir_name}
use termdock.Upload.{Node, directory, file, Disk}
use termdock.Files.{
  Reply, System, stat_file, under, remove_if, read_file, limited, overwrite, write_file,
  write_checked, delete_checked, make_checked, is_root, or_root, delete_file, is_bad_directory,
  create_directory,
}

-- A request of the page that is logged in.
pub data Request : Type 0 where
  reads : Text → Request
  writes : Text → List ℕ → Request
  deletes : Text → Request
  makes : Text → Text → Request

abbrev pub healthy : System
healthy = record {
  stat_fails = false;
  read_fails = false;
  open_fails = false;
  write_fails = false;
  written = 0;
  remove_fails = false;
  removed = λ path. false;
  mkdir_fails = false;
  mkdir_error = [];
}

unfoldable pub handle : Text → Request → Disk → Reply × Disk
handle working_dir (reads path) disk = (read_file true path healthy working_dir disk, disk)
handle working_dir (writes path bytes) disk =
    write_file true path (some bytes) healthy working_dir disk
handle working_dir (deletes path) disk = delete_file true path healthy working_dir disk
handle working_dir (makes path name) disk =
    create_directory true (some (path, name)) healthy working_dir disk

unfoldable pub handle_all : Text → List Request → Disk → Disk
handle_all working_dir [] disk = disk
handle_all working_dir (r ∷ rs) disk = handle_all working_dir rs (handle working_dir r disk).1

-- The files as a function from clean paths.
abbrev pub Files : Type 0
Files = Text → Option Node

abbrev pub update : Text → Node → Files → Files
update path node files = λ q. if text_eq path q then some node else files q

abbrev pub rewrite : Text → Option (List ℕ) → Option Node → Files → Files
rewrite path (some bytes) (some (file _)) files = update path (file bytes) files
rewrite path (some bytes) (some directory) files = files
rewrite path (some bytes) none files = files
rewrite path none entry files = files

abbrev pub discard : Bool → Text → Files → Files
discard true path files = files
discard false path files = λ q. if under path q then none else files q

abbrev pub establish : Bool → Text → Option Node → Option Node → Files → Files
establish true path parent existing files = files
establish false path none existing files = files
establish false path (some (file _)) existing files = files
establish false path (some directory) none files = update path directory files
establish false path (some directory) (some _) files = files

-- What a request does to the files: a file that is there gets the bytes, where they are not too
-- many; what is under the path is gone, unless it is the root; a directory is there where nothing was, in a directory that is there.
unfoldable pub promise : Text → Request → Files → Files
promise working_dir (reads path) files = files
promise working_dir (writes path bytes) files =
    rewrite (file_path working_dir path) (limited (some bytes)) (files (file_path working_dir path))
      files
promise working_dir (deletes path) files =
    discard (is_root working_dir (file_path working_dir path)) (file_path working_dir path) files
promise working_dir (makes path name) files =
    let target = join (file_path working_dir path) name in
    establish (is_bad_directory name) target (or_root (dir_name target) (files (dir_name target)))
      (or_root target (files target)) files

unfoldable pub promise_all : Text → List Request → Files → Files
promise_all working_dir [] files = files
promise_all working_dir (r ∷ rs) files = promise_all working_dir rs (promise working_dir r files)

abbrev pub view : Disk → Files
view disk = λ q. lookup q disk

pub lookup-remove_if :
    (gone : Text → Bool) (q : Text) (disk : Disk)
    → lookup q (remove_if gone disk) ≡ (if gone q then none else lookup q disk)
unfolding lookup remove_if
lookup-remove_if gone q [] = ground arith
lookup-remove_if gone q ((path, node) ∷ disk) =
    ground (arith, text_eq_iff path q, ap gone {x = path} {y = q}, lookup-remove_if gone q disk)

view-insert :
    (path : Text) (node : Node) (disk : Disk)
    → view (insert path node disk) ≡ update path node (view disk)
view-insert path node disk = λ i q. lookup-insert path q node disk i

view-write_checked :
    (body : Option (List ℕ)) (entry : Option Node) (path : Text) (disk : Disk)
    → view (write_checked body (stat_file false entry) path healthy disk).1
      ≡ rewrite path body entry (view disk)
unfolding write_checked overwrite
view-write_checked none entry path disk = refl
view-write_checked (some bytes) none path disk = refl
view-write_checked (some bytes) (some directory) path disk = refl
view-write_checked (some bytes) (some (file _)) path disk = view-insert path (file bytes) disk

view-delete_checked :
    (root : Bool) (path : Text) (disk : Disk)
    → view (delete_checked root path healthy disk).1 ≡ discard root path (view disk)
unfolding delete_checked
view-delete_checked true path disk = refl
view-delete_checked false path disk = λ i q. lookup-remove_if (under path) q disk i

view-make_checked :
    (bad : Bool) (parent existing : Option Node) (path : Text) (disk : Disk)
    → view (make_checked bad parent existing path healthy disk).1
      ≡ establish bad path parent existing (view disk)
unfolding make_checked
view-make_checked true parent existing path disk = refl
view-make_checked false none existing path disk = refl
view-make_checked false (some (file _)) existing path disk = refl
view-make_checked false (some directory) (some _) path disk = refl
view-make_checked false (some directory) none path disk = view-insert path directory disk

view-handle :
    (working_dir : Text) (r : Request) (disk : Disk)
    → view (handle working_dir r disk).1 ≡ promise working_dir r (view disk)
unfolding handle promise write_file delete_file create_directory
view-handle working_dir (reads path) disk = refl
view-handle working_dir (writes path bytes) disk =
    let p = file_path working_dir path in
    view-write_checked (limited (some bytes)) (lookup p disk) p disk
view-handle working_dir (deletes path) disk =
    let p = file_path working_dir path in view-delete_checked (is_root working_dir p) p disk
view-handle working_dir (makes path name) disk =
    let p = join (file_path working_dir path) name in
    view-make_checked (is_bad_directory name) (or_root (dir_name p) (lookup (dir_name p) disk))
      (or_root p (lookup p disk)) p disk

-- Where no call of the operating system fails, any sequence of requests to the file routes leaves
-- on the disk exactly the files that the requests promise: a file that is there takes the written
-- bytes up to 2 MB, what is under a deleted path is gone unless the path is the root or the working
-- directory, and a new directory stands where nothing stood and its parent is a directory.
pub view-handle_all :
    (working_dir : Text) (rs : List Request) (disk : Disk)
    → view (handle_all working_dir rs disk) ≡ promise_all working_dir rs (view disk)
unfolding handle_all promise_all
view-handle_all working_dir [] disk = refl
view-handle_all working_dir (r ∷ rs) disk =
    view-handle_all working_dir rs (handle working_dir r disk).1
    ∙ ap (promise_all working_dir rs) (view-handle working_dir r disk)
