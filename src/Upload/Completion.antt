-- ===== src/Upload/Completion.antt =====
-- What `completeChunkUpload` leaves on the disk, given the invariant of the upload
-- (internal/server/upload.go).
use termdock.Base.{
  ℕ, ◌<◌, ◌≡◌, refl, inl, inr, Bool, true, false, List, Option, none, some, arith, Bool-cases,
  Option-cases, all,
}
use termdock.Base.Text.{Text}
use termdock.Base.Maps.{lookup, remove, lookup-insert_self, lookup-remove_self}
use termdock.Upload.{
  ChunkUpload, Server, System, Node, directory, file, cleanup_expired_uploads, find_upload,
}
use termdock.Upload.Handlers.{publish, complete_chunk_upload}
use termdock.Upload.Client.{is_ok}
use termdock.Upload.Tracking.{Sound, Tracks, cleanup-Kept}
use termdock.Upload.Store.{Agrees-eq}

module _ (bytes : List ℕ) (chunk : ℕ) (final_path id : Text) where
  -- A 2xx answer is given only after the temporary file has been renamed to the final path.
  publish_cases :
      (u : ChunkUpload) (os : System) (s : Server)
      → is_ok (publish id u os s).0 ≡ true
      → (content : List ℕ) × (lookup u.temporary_path s.disk ≡ some (file content))
        × (lookup u.final_path (publish id u os s).1.disk ≡ some (file content))
        × (lookup id (publish id u os s).1.uploads ≡ none)
  unfolding publish
  publish_cases u os s h = published (lookup u.temporary_path s.disk) refl
    where
      published :
          (found : Option Node)
          → lookup u.temporary_path s.disk ≡ found
          → (content : List ℕ) × (lookup u.temporary_path s.disk ≡ some (file content))
            × (lookup u.final_path (publish id u os s).1.disk ≡ some (file content))
            × (lookup id (publish id u os s).1.uploads ≡ none)
      published none e = absurd (ground arith)
      published (some directory) e = absurd (ground arith)
      published (some (file content)) e = (
        content,
        e,
        ground (
          arith,
          lookup-insert_self u.final_path (file content) (remove u.temporary_path s.disk),
        ),
        ground (arith, lookup-remove_self id s.uploads),
      )

  publish-delivers :
      (u : ChunkUpload) (os : System) (s : Server)
      → 0 < chunk
      → Sound bytes chunk final_path s.disk u
      → all (λ r. r) u.received ≡ true
      → is_ok (publish id u os s).0 ≡ true
      → (lookup final_path (publish id u os s).1.disk ≡ some (file bytes))
        × (lookup id (publish id u os s).1.uploads ≡ none)
  publish-delivers u os s h0 old every h =
      let (content, stored, moved, dropped) = publish_cases u os s h in
      let promised = old.stored content stored in
      let same =
        Agrees-eq bytes chunk u.received content h0 old.flags promised.0 every promised.1 in
      (cc (old.final, moved, same), dropped)

  pub complete-delivers :
      (auth : Bool) (os : System) (now : ℕ) (s : Server)
      → 0 < chunk
      → Tracks bytes chunk final_path id s
      → is_ok (complete_chunk_upload auth id os now s).0 ≡ true
      → (lookup final_path (complete_chunk_upload auth id os now s).1.disk ≡ some (file bytes))
        × (lookup id (complete_chunk_upload auth id os now s).1.uploads ≡ none)
  unfolding complete_chunk_upload find_upload
  complete-delivers false os now s h0 h e = absurd (ground arith)
  complete-delivers true os now s h0 h e =
      let swept = cleanup_expired_uploads now s in
      let kept : Tracks bytes chunk final_path id swept =
        cleanup-Kept bytes chunk final_path id now s h in
      elim (Option-cases (lookup id swept.uploads)) [
        | inl gone ↦ absurd (ground arith)
        | inr (u, there) ↦ elim (Bool-cases (all (λ r. r) u.received)) [
          | inl every ↦
              rw (there, complete_chunk_upload, every)
                (publish-delivers u os swept h0 (kept.sound u there) every
                  (rw (there, complete_chunk_upload, every) at e))
          | inr some_missing ↦ absurd (ground arith)
        ]
      ]
