-- ===== src/Files/Directory.antt =====
-- internal/server/server.go: `listFiles`, whose answer the page's `loadFiles` reads. The text of an
-- entry's mode is left out.
use termdock.Base.{
  ℕ, ◌≡◌, refl, ap, subst, sym, ◌∙◌, Bool, true, false, not, List, [], ◌∷◌, ◌++◌, Option, none,
  some, if◌then◌else◌, All,
}
use termdock.Base.Text.{Text, codes}
use termdock.Filepath.{is_abs, file_path, join, dir_name}
use termdock.Filepath.Parts.{IsPlain}
use termdock.Filepath.Rooted.{rooted, IsRooted, file_path-IsRooted}
use termdock.Filepath.Parents.{All-append, dir_name-rooted}
use termdock.Filepath.Joining.{join-entry, file_path-rooted}
use mathlib.Core.Bool.{true≢false}
use termdock.FileManager.{Entry}
use termdock.FileManager.Listing.{Answer, refused, listed}

-- What `os.ReadDir` gives of an entry, and `Info`, which can fail: the size and the time.
pub record DirEntry : Type 0 where
  pub name : Text
  pub is_dir : Bool
  pub info : Option (ℕ × Text)

-- A directory that is read, or the error.
pub record Reader : Type 0 where
  pub read_dir : Text → Option (List DirEntry)
  pub error : Text → Text

abbrev pub with_info : Text → DirEntry → Option (ℕ × Text) → List Entry → List Entry
with_info path e none result = result
with_info path e (some (size, modified)) result =
    record {
      name = e.name;
      path = join path e.name;
      size = size;
      modified = modified;
      is_dir = e.is_dir;
    }
    ∷ result

unfoldable pub file_entries : Text → List DirEntry → List Entry
file_entries path [] = []
file_entries path (e ∷ es) = with_info path e e.info (file_entries path es)

abbrev pub listing_of : Reader → Text → Option (List DirEntry) → Answer
listing_of reader path none = refused (reader.error path)
listing_of reader path (some es) = listed path (dir_name path) (file_entries path es)

unfoldable pub list_files : Bool → Reader → Text → Text → Answer
list_files authenticated reader working_dir requested =
    if not authenticated
    then refused (codes "unauthorized")
    else listing_of reader (file_path working_dir requested)
        (reader.read_dir (file_path working_dir requested))

enter_rooted :
    (reader : Reader) (working_dir name directory : Text) (es : List DirEntry)
    → IsRooted directory
    → IsPlain name
    → reader.read_dir (join directory name) ≡ some es
    → (list_files true reader working_dir (join directory name)
        ≡ listed (join directory name) directory (file_entries (join directory name) es))
      × (list_files true reader working_dir directory
          ≡ listing_of reader directory (reader.read_dir directory))
unfolding list_files
enter_rooted reader working_dir name directory es (parts, e, h) p r =
    let inner : join directory name ≡ rooted (parts ++ (name ∷ [])) =
      ap (λ (t : Text). join t name) e ∙ join-entry parts name h p in
    let plain : All IsPlain (parts ++ (name ∷ [])) =
      All-append IsPlain parts (name ∷ []) h (p, tt) in
    let itself : file_path working_dir (join directory name) ≡ join directory name =
      ap (file_path working_dir) inner
      ∙ file_path-rooted working_dir (parts ++ (name ∷ [])) plain
      ∙ sym inner in
    let up : dir_name (join directory name) ≡ directory =
      ap dir_name inner ∙ dir_name-rooted parts name h p.0.0 ∙ sym e in
    let again : file_path working_dir directory ≡ directory =
      ap (file_path working_dir) e ∙ file_path-rooted working_dir parts h ∙ sym e in
    (rw itself (rw r (rw up refl)), rw again refl)

-- An entry of a listing has the path of its name in the directory that is listed.
abbrev IsAt : Text → Entry → Type 0
IsAt path entry = entry.path ≡ join path entry.name

with_info-IsAt :
    (path : Text) (e : DirEntry) (info : Option (ℕ × Text)) (result : List Entry)
    → All (IsAt path) result
    → All (IsAt path) (with_info path e info result)
with_info-IsAt path e none result h = h
with_info-IsAt path e (some (size, modified)) result h = (refl, h)

file_entries-IsAt : (path : Text) (es : List DirEntry) → All (IsAt path) (file_entries path es)
unfolding file_entries
file_entries-IsAt path [] = tt
file_entries-IsAt path (e ∷ es) =
    with_info-IsAt path e e.info (file_entries path es) (file_entries-IsAt path es)

All-middle {ℓ κ} :
    {A : Type ℓ} (P : A → Type κ) (before : List A) (x : A) (after : List A)
    → All P (before ++ (x ∷ after))
    → P x
All-middle P [] x after (p, h) = p
All-middle P (y ∷ before) x after (q, h) = All-middle P before x after h

abbrev answer_path : Answer → Text
answer_path (refused text) = []
answer_path (listed path parent entries) = path

abbrev answer_entries : Answer → List Entry
answer_entries (refused text) = []
answer_entries (listed path parent entries) = entries

abbrev is_listed : Answer → Bool
is_listed (refused text) = false
is_listed (listed path parent entries) = true

-- What an answer with an entry says of the entry.
listing_of-entry :
    (reader : Reader) (path at parent : Text) (read : Option (List DirEntry))
    (before after : List Entry) (entry : Entry)
    → listing_of reader path read ≡ listed at parent (before ++ (entry ∷ after))
    → (path ≡ at) × IsAt path entry
listing_of-entry reader path at parent none before after entry h =
    absurd (true≢false (sym (ap is_listed h)))
listing_of-entry reader path at parent (some es) before after entry h = (
  ap answer_path h,
  All-middle (IsAt path) before entry after
      (subst (All (IsAt path)) (ap answer_entries h) (file_entries-IsAt path es)),
)

-- If a request shows a directory's listing, in an absolute working directory, then asking for the path
-- of any entry of it that can be read, whose name is not empty, "." or ".." and has no slash, shows
-- that path, the directory that was listed before as the way up, and the entries read at that path;
-- and going up shows the first listing again.
pub enter_and_leave :
    (reader : Reader) (working_dir requested path parent : Text) (before after : List Entry)
    (entry : Entry) (es : List DirEntry)
    → is_abs working_dir ≡ true
    → IsPlain entry.name
    → list_files true reader working_dir requested ≡ listed path parent (before ++ (entry ∷ after))
    → reader.read_dir entry.path ≡ some es
    → (list_files true reader working_dir entry.path
        ≡ listed entry.path path (file_entries entry.path es))
      × (list_files true reader working_dir path ≡ listed path parent (before ++ (entry ∷ after)))
unfolding list_files
enter_and_leave reader working_dir requested path parent before after entry es a p shown r =
    let directory = file_path working_dir requested in
    let (same, at) =
      listing_of-entry reader directory path parent (reader.read_dir directory) before after entry
        shown in
    let (inside, again) =
      enter_rooted reader working_dir entry.name directory es
        (file_path-IsRooted working_dir requested a) p (ap reader.read_dir (sym at) ∙ r) in
    (
      ap (list_files true reader working_dir) at
          ∙ inside
          ∙ ap (λ (t : Text). listed t directory (file_entries t es)) (sym at)
          ∙ ap (λ (t : Text). listed entry.path t (file_entries entry.path es)) same,
      ap (list_files true reader working_dir) (sym same) ∙ again ∙ shown,
    )
