-- ===== src/Upload/Tracking.antt =====
-- The invariant of one upload on the server (internal/server/upload.go): what is on disk for the
-- chunks that are flagged, kept by every handler that the page (internal/app/static/app.js) calls.
use termdock.Base.{
  ℕ, ◌≡◌, subst, inl, inr, Bool, true, false, List, [], ◌∷◌, some, Bool-cases, Option-cases, length,
}
use termdock.Base.Text.{Text}
use termdock.Base.Maps.{lookup, insert, remove, lookup-insert_self, lookup-remove-some}
use termdock.Upload.{
  ChunkUpload, Server, System, Disk, file, forget, sweep, cleanup_expired_uploads, is_expired,
  find_upload, chunks_needed,
}
use termdock.Upload.Handlers.{chunk_upload_status, cancel_chunk_upload}
use termdock.Upload.Store.{Agrees}

-- What is promised of one upload of the given bytes under a final path.
pub record Sound (bytes : List ℕ) (chunk : ℕ) (final_path : Text) (disk : Disk) (u : ChunkUpload)
    : Type 0 where
  pub final : u.final_path ≡ final_path
  pub chunked : u.chunk_size ≡ chunk
  pub counted : u.chunk_count ≡ chunks_needed (length bytes) chunk
  pub flags : length u.received ≡ chunks_needed (length bytes) chunk
  pub stored :
      (content : List ℕ)
      → lookup u.temporary_path disk ≡ some (file content)
      → (length content ≡ length bytes) × Agrees bytes chunk u.received content

-- The upload under the id is sound, unless the server has dropped it.
pub record Tracks (bytes : List ℕ) (chunk : ℕ) (final_path id : Text) (s : Server) : Type 0 where
  pub sound :
      (u : ChunkUpload) → lookup id s.uploads ≡ some u → Sound bytes chunk final_path s.disk u

module _ (bytes : List ℕ) (chunk : ℕ) (final_path id : Text) where
  abbrev pub Kept : Server → Type 0
  Kept = Tracks bytes chunk final_path id

  -- Less on the disk leaves less to promise.
  Sound-remove :
      (path : Text) (disk : Disk) (u : ChunkUpload)
      → Sound bytes chunk final_path disk u
      → Sound bytes chunk final_path (remove path disk) u
  Sound-remove path disk u h = record {
    final = h.final;
    chunked = h.chunked;
    counted = h.counted;
    flags = h.flags;
    stored = λ content e. h.stored content (lookup-remove-some path u.temporary_path disk e);
  }

  forget-Kept : (other path : Text) (s : Server) → Kept s → Kept (forget other path s)
  unfolding forget
  forget-Kept other path s h = record {
    sound = λ u e. Sound-remove path s.disk u (h.sound u (lookup-remove-some other id s.uploads e));
  }

  sweep-Kept :
      (now : ℕ) (us : List (Text × ChunkUpload)) (s : Server) → Kept s → Kept (sweep now us s)
  unfolding sweep
  sweep-Kept now [] s h = h
  sweep-Kept now ((other, u) ∷ us) s h = elim (Bool-cases (is_expired now u)) [
    | inl gone ↦ rw gone (sweep-Kept now us _ (forget-Kept other u.temporary_path s h))
    | inr here ↦ rw here (sweep-Kept now us s h)
  ]

  pub cleanup-Kept : (now : ℕ) (s : Server) → Kept s → Kept (cleanup_expired_uploads now s)
  unfolding cleanup_expired_uploads
  cleanup-Kept now s h = sweep-Kept now s.uploads s h

  -- A server whose entry is replaced by a sound one.
  pub replaced-Kept :
      (s : Server) (u : ChunkUpload) (disk : Disk)
      → Sound bytes chunk final_path disk u
      → Kept (record s { uploads = insert id u s.uploads; disk = disk })
  replaced-Kept s u disk h = record {
    sound = λ v e.
        let same : u ≡ v = cc (lookup-insert_self id u s.uploads) in
        subst (λ w. Sound bytes chunk final_path disk w) same h;
  }

  pub status-Kept :
      (auth : Bool) (now : ℕ) (s : Server) → Kept s → Kept (chunk_upload_status auth id now s).1
  unfolding chunk_upload_status find_upload
  status-Kept false now s h = h
  status-Kept true now s h =
      let swept = cleanup_expired_uploads now s in
      let kept : Kept swept = cleanup-Kept now s h in
      elim (Option-cases (lookup id swept.uploads)) [
        | inl e ↦ rw (e, chunk_upload_status) kept
        | inr (u, e) ↦
            let old = kept.sound u e in
            rw (e, chunk_upload_status)
              (replaced-Kept swept (record u { updated_at = now }) swept.disk
                (record {
                  final = old.final;
                  chunked = old.chunked;
                  counted = old.counted;
                  flags = old.flags;
                  stored = old.stored;
                }))
      ]

  -- Dropping any upload, this one or another.
  pub cancel-Kept :
      (auth : Bool) (other : Text) (os : System) (s : Server)
      → Kept s
      → Kept (cancel_chunk_upload auth other os s).1
  unfolding cancel_chunk_upload
  cancel-Kept false other os s h = h
  cancel-Kept true other os s h =
      let forgotten : Kept (record s { uploads = remove other s.uploads }) = record {
        sound = λ u e. h.sound u (lookup-remove-some other id s.uploads e);
      } in
      elim (Option-cases (lookup other s.uploads)) [
        | inl e ↦ rw (e, cancel_chunk_upload) forgotten
        | inr (u, e) ↦ elim (Bool-cases os.remove_fails) [
          | inl fails ↦ rw (e, cancel_chunk_upload, fails) forgotten
          | inr fine ↦
              rw (e, cancel_chunk_upload, fine)
                (unfold forget in forget-Kept other u.temporary_path s h)
        ]
      ]
