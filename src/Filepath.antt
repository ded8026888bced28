-- ===== src/Filepath.antt =====
-- The functions of Go's path/filepath (Unix) that internal/server calls on request paths, and
-- `filePath` of internal/server/server.go.
pub mod Clean
pub mod Parts
pub mod Rooted
pub mod Parents
pub mod Joining
use termdock.Base.{ℕ, Bool, List, [], ◌∷◌, ◌==◌, if◌then◌else◌}
use termdock.Base.Text.{Text, text_eq, codes, split, join_with, starts_with}
use mathlib.Core.List.{reverse}

abbrev pub slash : ℕ
slash = b'/'

abbrev pub is_abs : Text → Bool
is_abs path = starts_with (slash ∷ []) path

abbrev pub is_dot : Text → Bool
is_dot = text_eq (codes ".")

abbrev pub is_dot_dot : Text → Bool
is_dot_dot = text_eq (codes "..")

-- What a ".." does to the components kept so far, the last one first.
unfoldable pub climb : Bool → List Text → List Text
climb rooted [] = if rooted then [] else codes ".." ∷ []
climb rooted (top ∷ rest) = if is_dot_dot top then codes ".." ∷ top ∷ rest else rest

unfoldable pub resolve : Bool → List Text → Text → List Text
unfolding climb
resolve rooted stack part =
    if text_eq [] part
    then stack
    else if is_dot part
    then stack
    else if is_dot_dot part
    then climb rooted stack
    else part ∷ stack

unfoldable pub resolve_all : Bool → List Text → List Text → List Text
unfolding resolve
resolve_all rooted stack [] = reverse stack
resolve_all rooted stack (part ∷ parts) = resolve_all rooted (resolve rooted stack part) parts

-- The components of `filepath.Clean(path)`.
unfoldable pub components : Text → List Text
unfolding resolve_all
components path = resolve_all (is_abs path) [] (split slash path)

abbrev pub or_dot : Text → Text
or_dot [] = codes "."
or_dot (c ∷ cs) = c ∷ cs

unfoldable pub clean : Text → Text
unfolding components
clean path =
    if is_abs path
    then slash ∷ join_with slash (components path)
    else or_dot (join_with slash (components path))

abbrev pub nonempty : List Text → List Text
nonempty [] = []
nonempty ([] ∷ ws) = nonempty ws
nonempty ((c ∷ cs) ∷ ws) = (c ∷ cs) ∷ nonempty ws

abbrev pub clean_nonempty : List Text → Text
clean_nonempty [] = []
clean_nonempty (w ∷ ws) = clean (join_with slash (w ∷ ws))

-- `filepath.Join(a, b)`.
unfoldable pub join : Text → Text → Text
unfolding clean
join a b = clean_nonempty (nonempty (a ∷ b ∷ []))

abbrev pub strip_slashes : Text → Text
strip_slashes [] = []
strip_slashes (c ∷ cs) = if c == slash then strip_slashes cs else c ∷ cs

abbrev pub before_slash : Text → Text
before_slash [] = []
before_slash (c ∷ cs) = if c == slash then [] else c ∷ before_slash cs

abbrev pub or_slash : Text → Text
or_slash [] = codes "/"
or_slash (c ∷ cs) = c ∷ cs

-- `filepath.Base(path)`.
unfoldable pub base_name : Text → Text
base_name [] = codes "."
base_name (c ∷ cs) = or_slash (reverse (before_slash (strip_slashes (reverse (c ∷ cs)))))

abbrev pub from_slash : Text → Text
from_slash [] = []
from_slash (c ∷ cs) = if c == slash then c ∷ cs else from_slash cs

-- `filepath.Dir(path)`: what stands before the last slash, cleaned.
unfoldable pub dir_name : Text → Text
unfolding clean
dir_name path = clean (reverse (from_slash (reverse path)))

-- `filePath` asks for the working directory where the request names no path.
abbrev pub or_working_dir : Text → Text → Text
or_working_dir working_dir [] = working_dir
or_working_dir working_dir (c ∷ cs) = c ∷ cs

-- `filePath`: the request's path against the working directory. It never fails.
unfoldable pub file_path : Text → Text → Text
unfolding clean join
file_path working_dir requested =
    let cleaned = clean (or_working_dir working_dir requested) in
    if is_abs cleaned then cleaned else join working_dir cleaned
