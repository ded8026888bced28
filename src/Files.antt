-- ===== src/Files.antt =====
-- internal/server/server.go: the routes that read, write, delete and create the files under a
-- path, `readFile`, `writeFile`, `deleteFile` and `createDirectory`, on the disk of the uploads.
pub mod Promise
pub mod Editor
pub mod Editing
pub mod Operations
pub mod Moving
pub mod Transfer
pub mod Directory
mod Tests
use termdock.Base.{
  ℕ, suc, ◌+◌, ◌≡◌, Bool, true, false, not, ◌&&◌, ◌||◌, List, [], ◌∷◌, ◌++◌, Option, none, some,
  ltb, if◌then◌else◌, length, take, is_some,
}
use termdock.Base.Text.{Text, text_eq, codes, starts_with}
use termdock.Base.Maps.{lookup, insert}
use termdock.Filepath.{file_path, clean, join, base_name, dir_name, is_dot, slash}
use termdock.Upload.{Node, directory, file, Disk}

-- 2 << 20 bytes.
abbrev pub text_limit : ℕ
text_limit = 2097152

-- What a route answers: an error's status with its text, the bytes of a file, or a status alone.
pub data Reply : Type 0 where
  refused : ℕ → Text → Reply
  content : List ℕ → Reply
  done : ℕ → Reply

-- `http.Error` ends its text with a line break.
abbrev pub http_error : ℕ → Text → Reply
http_error status text = refused status (text ++ (10 ∷ []))

-- The calls of one request that fail for a reason that the disk does not show, and what they have
-- done by then: how many bytes are written, which files are gone.
pub record System : Type 0 where
  pub stat_fails : Bool
  pub read_fails : Bool
  pub open_fails : Bool
  pub write_fails : Bool
  pub written : ℕ
  pub remove_fails : Bool
  pub removed : Text → Bool
  pub mkdir_fails : Bool
  pub mkdir_error : Text

abbrev pub stat_file : Bool → Option Node → Option (List ℕ)
stat_file true entry = none
stat_file false none = none
stat_file false (some directory) = none
stat_file false (some (file bytes)) = some bytes

-- Is the second path the first one or below it? Everything is below the root.
abbrev pub under : Text → Text → Bool
under above path =
    text_eq above path
    || (if text_eq above (slash ∷ [])
        then starts_with above path
        else starts_with (above ++ (slash ∷ [])) path)

unfoldable pub remove_if : (Text → Bool) → Disk → Disk
remove_if gone [] = []
remove_if gone ((path, node) ∷ disk) =
    if gone path then remove_if gone disk else (path, node) ∷ remove_if gone disk

unfoldable pub read_checked : Option (List ℕ) → System → Reply
read_checked none os = http_error 404 (codes "文件不存在")
read_checked (some bytes) os =
    if ltb text_limit (length bytes)
    then http_error 413 (codes "文件超过 2 MB，无法在线编辑")
    else if os.read_fails
    then http_error 500 (codes "读取文件失败")
    else content bytes

unfoldable pub read_file : Bool → Text → System → Text → Disk → Reply
unfolding read_checked
read_file false requested os working_dir disk = http_error 401 (codes "未登录")
read_file true requested os working_dir disk =
    read_checked (stat_file os.stat_fails (lookup (file_path working_dir requested) disk)) os

-- `io.ReadAll` behind `MaxBytesReader`; `none` is a body that breaks off.
abbrev pub limited : Option (List ℕ) → Option (List ℕ)
limited none = none
limited (some bytes) = if ltb text_limit (length bytes) then none else some bytes

-- `os.WriteFile` empties the file before it writes.
unfoldable pub overwrite : Text → List ℕ → System → Disk → Reply × Disk
overwrite path bytes os disk =
    if os.open_fails
    then (http_error 500 (codes "保存文件失败"), disk)
    else if os.write_fails
    then (http_error 500 (codes "保存文件失败"), insert path (file (take os.written bytes)) disk)
    else (done 204, insert path (file bytes) disk)

-- The rest of `writeFile`, given the body that was read and the file that is there.
unfoldable pub write_checked :
    Option (List ℕ) → Option (List ℕ) → Text → System → Disk → Reply × Disk
unfolding overwrite
write_checked none existing path os disk = (http_error 413 (codes "文件超过 2 MB，无法保存"), disk)
write_checked (some bytes) none path os disk = (http_error 404 (codes "文件不存在"), disk)
write_checked (some bytes) (some _) path os disk = overwrite path bytes os disk

unfoldable pub write_file : Bool → Text → Option (List ℕ) → System → Text → Disk → Reply × Disk
unfolding write_checked
write_file false requested body os working_dir disk = (http_error 401 (codes "未登录"), disk)
write_file true requested body os working_dir disk =
    let path = file_path working_dir requested in
    write_checked (limited body) (stat_file os.stat_fails (lookup path disk)) path os disk

-- The paths that `deleteFile` refuses.
abbrev pub is_root : Text → Text → Bool
is_root working_dir path = text_eq (slash ∷ []) path || text_eq (clean path) (clean working_dir)

-- The rest of `deleteFile`, given whether it refuses the path.
unfoldable pub delete_checked : Bool → Text → System → Disk → Reply × Disk
unfolding remove_if
delete_checked true path os disk = (http_error 400 (codes "不能删除根目录"), disk)
delete_checked false path os disk =
    if os.remove_fails
    then (http_error 500 (codes "删除失败"), remove_if (λ q. under path q && os.removed q) disk)
    else (done 204, remove_if (under path) disk)

unfoldable pub delete_file : Bool → Text → System → Text → Disk → Reply × Disk
unfolding delete_checked
delete_file false requested os working_dir disk = (http_error 401 (codes "未登录"), disk)
delete_file true requested os working_dir disk =
    let path = file_path working_dir requested in
    delete_checked (is_root working_dir path) path os disk

-- The JSON body of `createDirectory`, `none` where it does not decode.
abbrev pub is_bad_directory : Text → Bool
is_bad_directory name = not (text_eq (base_name name) name) || is_dot name

-- What stands at a path. The root is a directory in any case.
abbrev pub or_root : Text → Option Node → Option Node
or_root path entry = if text_eq path (slash ∷ []) then some directory else entry

-- `os.Mkdir`, given what its parent is and what is there: it takes a parent that is a directory.
unfoldable pub make_checked : Bool → Option Node → Option Node → Text → System → Disk → Reply × Disk
make_checked true parent existing path os disk = (http_error 400 (codes "invalid directory"), disk)
make_checked false none existing path os disk = (http_error 409 os.mkdir_error, disk)
make_checked false (some (file _)) existing path os disk = (http_error 409 os.mkdir_error, disk)
make_checked false (some directory) (some _) path os disk = (http_error 409 os.mkdir_error, disk)
make_checked false (some directory) none path os disk =
    if os.mkdir_fails
    then (http_error 409 os.mkdir_error, disk)
    else (done 201, insert path directory disk)

unfoldable pub create_directory : Bool → Option (Text × Text) → System → Text → Disk → Reply × Disk
unfolding make_checked
create_directory false input os working_dir disk = (http_error 401 (codes "unauthorized"), disk)
create_directory true none os working_dir disk = (http_error 400 (codes "invalid directory"), disk)
create_directory true (some (parent, name)) os working_dir disk =
    let path = join (file_path working_dir parent) name in
    make_checked (is_bad_directory name) (or_root (dir_name path) (lookup (dir_name path) disk))
      (or_root path (lookup path disk)) path os disk
