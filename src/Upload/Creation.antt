-- ===== src/Upload/Creation.antt =====
-- A new upload (`createChunkUpload`, internal/server/upload.go) starts with its invariant.
use termdock.Base.{
  ℕ, ◌≡◌, refl, subst, inl, inr, Bool, ◌||◌, true, false, List, [], ◌∷◌, some, arith, Bool-cases,
  Option-cases, length, length-replicate, replicate,
}
use termdock.Base.Int.{pos}
use termdock.Base.Text.{Text}
use termdock.Base.Maps.{lookup, insert, lookup-insert_self, lookup-remove-some}
use termdock.Filepath.{file_path, join, base_name}
use termdock.Upload.{
  ChunkUpload, Server, System, Node, file, Response, created, forget, sweep,
  cleanup_expired_uploads, is_expired, chunks_needed, new_chunk_upload, register_upload,
  new_upload_id, prepare_upload, check_upload, create_chunk_upload, upload_chunk_size,
}
use termdock.Upload.Tracking.{Tracks, replaced-Kept}
use termdock.Upload.Store.{Agrees-none}

-- A sweep leaves no file that was not there.
lookup-sweep :
    (now : ℕ) (us : List (Text × ChunkUpload)) (s : Server) (path : Text) {entry : Node}
    → lookup path (sweep now us s).disk ≡ some entry
    → lookup path s.disk ≡ some entry
unfolding sweep
lookup-sweep now [] s path h = h
lookup-sweep now ((other, u) ∷ us) s path h = elim (Bool-cases (is_expired now u)) [
  | inl gone ↦
      lookup-remove-some u.temporary_path path s.disk
        (lookup-sweep now us (forget other u.temporary_path s) path (rw (gone, sweep) at h))
  | inr here ↦ lookup-sweep now us s path (rw (here, sweep) at h)
]

module _ (bytes : List ℕ) (final_path : Text) (s : Server) where
  -- What a creation promises: the answer's numbers, and the invariant under the answer's id.
  abbrev pub Starts : Response × Server → Type 0
  Starts (created id chunk count, t) =
      (chunk ≡ upload_chunk_size)
      × (count ≡ chunks_needed (length bytes) upload_chunk_size)
      × Tracks bytes upload_chunk_size final_path id t
  Starts _ = Unit

  register_upload-Tracks :
      (id temporary_path : Text) (now : ℕ)
      → Tracks bytes upload_chunk_size final_path id
          (register_upload id final_path temporary_path (length bytes) now s)
  unfolding register_upload cleanup_expired_uploads
  register_upload-Tracks id temporary_path now =
      replaced-Kept bytes upload_chunk_size final_path id swept fresh swept.disk (record {
        final = refl;
        chunked = refl;
        counted = refl;
        flags = length-replicate (chunks_needed (length bytes) upload_chunk_size) false;
        stored = λ content e. (blank content e, Agrees-none bytes upload_chunk_size _ content);
      })
    where
      fresh : ChunkUpload
      fresh = new_chunk_upload final_path temporary_path (length bytes) now

      zeros : Node
      zeros = file (replicate (length bytes) 0)

      prepared : Server
      prepared = record s { disk = insert temporary_path zeros s.disk }

      swept : Server
      swept = cleanup_expired_uploads now prepared

      blank :
          (content : List ℕ)
          → lookup temporary_path swept.disk ≡ some (file content)
          → length content ≡ length bytes
      blank content e =
          let before = lookup-sweep now prepared.uploads prepared temporary_path e in
          let same : replicate (length bytes) 0 ≡ content =
            cc (before, lookup-insert_self temporary_path zeros s.disk) in
          subst (λ c. length c ≡ length bytes) same (length-replicate (length bytes) 0)

  prepare-Starts :
      (os : System) (now : ℕ) → Starts (prepare_upload final_path (length bytes) os now s)
  unfolding prepare_upload
  prepare-Starts os now = elim (Option-cases os.temporary) [
    | inl e ↦ rw (e, prepare_upload) tt
    | inr (path, e) ↦ elim (Bool-cases (os.chmod_fails || (os.truncate_fails || os.close_fails))) [
      | inl f ↦ rw (e, prepare_upload, f) tt
      | inr f ↦ elim (Option-cases (new_upload_id os.random)) [
        | inl r ↦ rw (e, prepare_upload, f, r) tt
        | inr (id, r) ↦
            rw (e, prepare_upload, f, r) (refl, refl, register_upload-Tracks id path now)
      ]
    ]
  ]

-- Where an upload goes: the name's last part below the requested directory.
abbrev pub destination : Text → Text → Server → Text
destination path name s = join (file_path s.working_dir path) (base_name name)

pub create-Starts :
    (bytes : List ℕ) (path name : Text) (s : Server) (auth : Bool) (os : System) (now : ℕ)
    → Starts bytes (destination path name s) s (
        create_chunk_upload auth
          (some (record { path = path; name = name; size = pos (length bytes) }))
          os
          now
          s)
unfolding create_chunk_upload
create-Starts bytes path name s false os now = tt
create-Starts bytes path name s true os now = checked
  where
    checked : Starts bytes (destination path name s) s (
        check_upload
          (record { path = path; name = name; size = pos (length bytes) })
          (length bytes)
          os
          now
          s)
    checked =
        unfold check_upload in
        ground (arith, prepare-Starts bytes (destination path name s) s os now)
