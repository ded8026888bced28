-- ===== src/Upload/Handlers.antt =====
-- internal/server/upload.go: the handlers of an upload that exists, `chunkUploadStatus`,
-- `uploadChunk`, `completeChunkUpload` and `cancelChunkUpload`.
use termdock.Base.{
  ℕ, suc, ◌+◌, ◌-◌, ◌*◌, Bool, true, false, not, ◌||◌, List, [], ◌∷◌, ◌++◌, Option, none, some, ltb,
  leb, ◌==◌, if◌then◌else◌, length, set, take, drop, all,
}
use termdock.Base.Int.{ℤ, pos, negsuc}
use termdock.Base.Text.{Text}
use termdock.Base.Maps.{lookup, insert, remove}
use termdock.Upload.{
  ChunkUpload, Server, System, Response, fail, progress, no_content, finished, directory, file,
  found, missing, failed, stat_of, find_upload,
}

-- The indices of the chunks that have arrived, from `i` on.
abbrev pub received_from : ℕ → List Bool → List ℕ
received_from i [] = []
received_from i (complete ∷ rest) =
    let later = received_from (suc i) rest in if complete then i ∷ later else later

unfoldable pub chunk_upload_status : Bool → Text → ℕ → Server → Response × Server
unfolding find_upload insert
chunk_upload_status false id now server = (fail 401, server)
chunk_upload_status true id now server =
    let swept = (find_upload now id server).1 in
    elim (find_upload now id server).0 [
      | none ↦ (fail 404, swept)
      | some upload ↦ (
        progress id upload.chunk_size upload.chunk_count (received_from 0 upload.received),
        record swept { uploads = insert id (record upload { updated_at = now }) swept.uploads },
      )
    ]

-- `file.WriteAt(data, offset)`: what lies before and behind the written range stays, and a gap
-- before it cannot be, since the file has its full size from the start.
unfoldable pub write_at : ℕ → List ℕ → List ℕ → List ℕ
write_at offset bytes content =
    take offset content ++ (bytes ++ drop (offset + length bytes) content)

unfoldable pub expected_size : ChunkUpload → ℕ → ℕ
expected_size upload index =
    if index == (upload.chunk_count - 1)
    then upload.size - index * upload.chunk_size
    else upload.chunk_size

-- A body of known length must have the expected one: `ContentLength` is -1 where it is unknown.
abbrev pub wrong_length : ℤ → ℕ → Bool
wrong_length (negsuc _) expected = false
wrong_length (pos n) expected = not (n == expected)

-- `io.ReadAll` behind `MaxBytesReader`: a body over the chunk size is an error.
abbrev pub incomplete : Option (List ℕ) → ℕ → ℕ → Bool
incomplete none limit expected = true
incomplete (some bytes) limit expected = ltb limit (length bytes) || not (length bytes == expected)

abbrev pub bytes_of : Option (List ℕ) → List ℕ
bytes_of none = []
bytes_of (some bytes) = bytes

-- The part of `uploadChunk` that holds the upload's mutex.
unfoldable pub store_chunk :
    Text → ChunkUpload → ℕ → List ℕ → System → ℕ → Server → Response × Server
unfolding lookup insert write_at
store_chunk id upload index bytes os now server = elim (lookup upload.temporary_path server.disk) [
  | none ↦ (fail 410, server)
  | some directory ↦ (fail 410, server)
  | some (file content) ↦
      if os.open_fails
      then (fail 410, server)
      else if os.write_fails || os.close_fails
      then (
        fail 500,
        record server {
          disk =
              insert upload.temporary_path
                (file (write_at (index * upload.chunk_size) (take os.written bytes) content))
                server.disk;
        },
      )
      else (
        no_content,
        record server {
          uploads =
              insert id
                (record upload { received = set upload.received index true; updated_at = now })
                server.uploads;
          disk =
              insert upload.temporary_path
                (file (write_at (index * upload.chunk_size) bytes content)) server.disk;
        },
      )
]

-- `index` is `strconv.Atoi` of the path's last part, `none` where that fails.
pub record ChunkRequest : Type 0 where
  pub id : Text
  pub index : Option ℤ
  pub content_length : ℤ
  pub body : Option (List ℕ)

abbrev pub valid_index : Option ℤ → ℕ → Option ℕ
valid_index none count = none
valid_index (some (negsuc _)) count = none
valid_index (some (pos i)) count = if leb count i then none else some i

-- The checks of `uploadChunk` on an upload that was found.
unfoldable pub accept_chunk : ChunkRequest → ChunkUpload → System → ℕ → Server → Response × Server
unfolding store_chunk expected_size
accept_chunk request upload os now server = elim (valid_index request.index upload.chunk_count) [
  | none ↦ (fail 400, server)
  | some index ↦
      let expected = expected_size upload index in
      if wrong_length request.content_length expected
      then (fail 400, server)
      else if incomplete request.body upload.chunk_size expected
      then (fail 400, server)
      else store_chunk request.id upload index (bytes_of request.body) os now server
]

unfoldable pub upload_chunk : Bool → ChunkRequest → System → ℕ → Server → Response × Server
unfolding find_upload accept_chunk
upload_chunk false request os now server = (fail 401, server)
upload_chunk true request os now server =
    let swept = (find_upload now request.id server).1 in
    elim (find_upload now request.id server).0 [
      | none ↦ (fail 404, swept)
      | some upload ↦ accept_chunk request upload os now swept
    ]

-- From the check of the final path on, once every chunk is there.
unfoldable pub publish : Text → ChunkUpload → System → Server → Response × Server
unfolding lookup insert remove
publish id upload os server = elim (stat_of os.stat_fails (lookup upload.final_path server.disk)) [
  | found _ ↦ (fail 409, server)
  | failed ↦ (fail 500, server)
  | missing ↦ elim (lookup upload.temporary_path server.disk) [
    | none ↦ (fail 410, server)
    | some directory ↦ (fail 410, server)
    | some (file content) ↦
        if os.open_fails
        then (fail 410, server)
        else if os.sync_fails || (os.close_fails || os.rename_fails)
        then (fail 500, server)
        else (
          finished,
          record server {
            uploads = remove id server.uploads;
            disk =
                insert upload.final_path (file content) (remove upload.temporary_path server.disk);
          },
        )
  ]
]

unfoldable pub complete_chunk_upload : Bool → Text → System → ℕ → Server → Response × Server
unfolding find_upload publish
complete_chunk_upload false id os now server = (fail 401, server)
complete_chunk_upload true id os now server =
    let swept = (find_upload now id server).1 in
    elim (find_upload now id server).0 [
      | none ↦ (fail 404, swept)
      | some upload ↦
          if all (λ received. received) upload.received
          then publish id upload os swept
          else (fail 409, swept)
    ]

-- The upload is forgotten first. There is no sweep.
unfoldable pub cancel_chunk_upload : Bool → Text → System → Server → Response × Server
unfolding lookup remove
cancel_chunk_upload false id os server = (fail 401, server)
cancel_chunk_upload true id os server =
    let forgotten = record server { uploads = remove id server.uploads } in
    elim (lookup id server.uploads) [
      | none ↦ (no_content, forgotten)
      | some upload ↦
          if os.remove_fails
          then (fail 500, forgotten)
          else (no_content, record forgotten { disk = remove upload.temporary_path server.disk })
    ]
