-- ===== src/Upload.antt =====
-- internal/server/upload.go: the server's side of chunked uploads. A handler takes what the
-- request carries, the answers of the operating system and the time, and returns the response
-- with the new server state. Handlers run one at a time, as the upload's mutex orders them.
pub mod Slices
pub mod Store
pub mod Handlers
pub mod Client
pub mod Controls
pub mod Tracking
pub mod Writing
pub mod Completion
pub mod Creation
pub mod Sending
pub mod Delivery
pub mod Progress
pub mod Success
pub mod Liveness
mod Tests
use termdock.Base.{
  ℕ, ◌+◌, ◌-◌, ◌*◌, ◌/◌, ◌%◌, Bool, true, false, not, ◌&&◌, ◌||◌, List, [], ◌∷◌, ◌++◌, Option, none,
  some, ltb, leb, ◌==◌, if◌then◌else◌, is_some, length, set, take, drop, replicate, all,
}
use termdock.Base.Int.{ℤ, pos, negsuc}
use termdock.Base.Text.{Text, text_eq, codes}
use termdock.Base.Maps.{lookup, insert, remove}
use termdock.Filepath.{file_path, join, base_name, is_dot}

abbrev pub upload_chunk_size : ℕ
upload_chunk_size = 4194304

abbrev pub maximum_upload_size : ℕ
maximum_upload_size = 536870912

-- 24 hours in nanoseconds.
abbrev pub upload_lifetime : ℕ
upload_lifetime = 86400000000000

-- `ID` is the key in the server's map, and is not stored twice.
pub record ChunkUpload : Type 0 where
  pub final_path : Text
  pub temporary_path : Text
  pub size : ℕ
  pub chunk_size : ℕ
  pub chunk_count : ℕ
  pub received : List Bool
  pub updated_at : ℕ

pub data Node : Type 0 where
  directory : Node
  file : List ℕ → Node

abbrev pub Disk : Type 0
Disk = List (Text × Node)

pub record Server : Type 0 where
  pub working_dir : Text
  pub uploads : List (Text × ChunkUpload)
  pub disk : Disk

pub record CreateRequest : Type 0 where
  pub path : Text
  pub name : Text
  pub size : ℤ

-- What the operating system answers during one request, beside what the disk decides: which calls
-- fail, the name that `CreateTemp` picked and the bytes that `rand.Read` gave.
pub record System : Type 0 where
  pub temporary : Option Text
  pub random : Option (List ℕ)
  pub chmod_fails : Bool
  pub truncate_fails : Bool
  pub close_fails : Bool
  pub stat_fails : Bool
  pub open_fails : Bool
  pub write_fails : Bool
  -- How many bytes a write that fails, or whose file fails to close, got to the disk.
  pub written : ℕ
  pub sync_fails : Bool
  pub rename_fails : Bool
  pub remove_fails : Bool

-- `fail` is `http.Error` with a status; the others are the answers of the successful paths.
pub data Response : Type 0 where
  fail : ℕ → Response
  created : Text → ℕ → ℕ → Response
  progress : Text → ℕ → ℕ → List ℕ → Response
  no_content : Response
  finished : Response

pub data Stat : Type 0 where
  found : Node → Stat
  missing : Stat
  failed : Stat

abbrev pub stat_of : Bool → Option Node → Stat
stat_of true entry = failed
stat_of false none = missing
stat_of false (some entry) = found entry

abbrev pub is_directory : Option Node → Bool
is_directory (some directory) = true
is_directory _ = false

abbrev hex_digit : ℕ → ℕ
hex_digit d = if ltb d 10 then b'0' + d else b'a' + (d - 10)

abbrev pub hex : List ℕ → Text
hex [] = []
hex (b ∷ bs) = hex_digit (b / 16) ∷ (hex_digit (b % 16) ∷ hex bs)

abbrev pub new_upload_id : Option (List ℕ) → Option Text
new_upload_id none = none
new_upload_id (some bytes) = some (hex bytes)

abbrev pub is_expired : ℕ → ChunkUpload → Bool
is_expired now upload = ltb (upload.updated_at + upload_lifetime) now

-- `delete(server.uploads, id)` and the removal of the temporary file.
unfoldable pub forget : Text → Text → Server → Server
unfolding remove
forget id temporary_path server = record server {
  uploads = remove id server.uploads;
  disk = remove temporary_path server.disk;
}

-- The loop of `cleanupExpiredUploadsLocked`, over the uploads that there were at its start.
unfoldable pub sweep : ℕ → List (Text × ChunkUpload) → Server → Server
unfolding forget
sweep now [] server = server
sweep now ((id, upload) ∷ rest) server =
    sweep now rest
      (if is_expired now upload then forget id upload.temporary_path server else server)

unfoldable pub cleanup_expired_uploads : ℕ → Server → Server
unfolding sweep
cleanup_expired_uploads now server = sweep now server.uploads server

-- The upload is sought after the sweep.
unfoldable pub find_upload : ℕ → Text → Server → Option ChunkUpload × Server
unfolding cleanup_expired_uploads lookup
find_upload now id server =
    let swept = cleanup_expired_uploads now server in (lookup id swept.uploads, swept)

abbrev pub chunks_needed : ℕ → ℕ → ℕ
chunks_needed size chunk = (size + chunk - 1) / chunk

-- The new entry, with no chunk received.
unfoldable pub new_chunk_upload : Text → Text → ℕ → ℕ → ChunkUpload
new_chunk_upload final_path temporary_path size now =
    let count = chunks_needed size upload_chunk_size in
    record {
      final_path = final_path;
      temporary_path = temporary_path;
      size = size;
      chunk_size = upload_chunk_size;
      chunk_count = count;
      received = replicate count false;
      updated_at = now;
    }

-- The truncated temporary file on the disk, the sweep, and the entry in the map.
unfoldable pub register_upload : Text → Text → Text → ℕ → ℕ → Server → Server
unfolding cleanup_expired_uploads insert new_chunk_upload
register_upload id final_path temporary_path size now server =
    let prepared = record server {
      disk = insert temporary_path (file (replicate size 0)) server.disk;
    } in
    let swept = cleanup_expired_uploads now prepared in
    record swept {
      uploads = insert id (new_chunk_upload final_path temporary_path size now) swept.uploads;
    }

-- From the temporary file on. Whatever fails after `CreateTemp` removes the file again.
unfoldable pub prepare_upload : Text → ℕ → System → ℕ → Server → Response × Server
unfolding register_upload remove
prepare_upload final_path size os now server = elim os.temporary [
  | none ↦ (fail 500, server)
  | some temporary_path ↦
      if os.chmod_fails || (os.truncate_fails || os.close_fails)
      then (fail 500, record server { disk = remove temporary_path server.disk })
      else elim (new_upload_id os.random) [
        | none ↦ (fail 500, record server { disk = remove temporary_path server.disk })
        | some id ↦ (
          created id upload_chunk_size (chunks_needed size upload_chunk_size),
          register_upload id final_path temporary_path size now server,
        )
      ]
]

-- `name == "." || name == "/" || name != input.Name` for `name := filepath.Base(input.Name)`.
abbrev pub is_bad_name : Text → Bool
is_bad_name name =
    is_dot (base_name name)
    || (text_eq (base_name name) (codes "/") || not (text_eq (base_name name) name))

-- The checks on a decoded request, up to the temporary file.
unfoldable pub check_upload : CreateRequest → ℕ → System → ℕ → Server → Response × Server
unfolding prepare_upload lookup
check_upload input size os now server =
    let dir = file_path server.working_dir input.path in
    let final_path = join dir (base_name input.name) in
    if ltb maximum_upload_size size
    then (fail 413, server)
    else if is_bad_name input.name
    then (fail 400, server)
    else if not (is_directory (lookup dir server.disk))
    then (fail 400, server)
    else elim (stat_of os.stat_fails (lookup final_path server.disk)) [
      | found _ ↦ (fail 409, server)
      | failed ↦ (fail 500, server)
      | missing ↦ prepare_upload final_path size os now server
    ]

-- `none` is a body that is no JSON or is over 16 KiB.
unfoldable pub create_chunk_upload :
    Bool → Option CreateRequest → System → ℕ → Server → Response × Server
unfolding check_upload
create_chunk_upload false input os now server = (fail 401, server)
create_chunk_upload true none os now server = (fail 400, server)
create_chunk_upload true (some input) os now server = elim input.size [
  | negsuc _ ↦ (fail 413, server)
  | pos size ↦ check_upload input size os now server
]
