-- ===== src/Upload/Progress.antt =====
-- The handlers of internal/server/upload.go while nothing fails: what each of them does to the only
-- upload of a server, step by step.
use termdock.Base.{
  ℕ, suc, ◌+◌, ◌-◌, ◌*◌, ◌≤◌, ◌<◌, min, ◌≡◌, ◌≢◌, refl, ap, inl, inr, true, false, List, [], ◌∷◌,
  none, some, arith, Bool-cases, ◌==◌, ltb, leb, length, set, all,
}
use termdock.Base.Int.{pos}
use termdock.Base.Text.{Text, text_eq_self}
use termdock.Base.Maps.{lookup, insert}
use termdock.Upload.{
  ChunkUpload, Server, System, Disk, no_content, finished, file, sweep, cleanup_expired_uploads,
  find_upload, chunks_needed, upload_lifetime,
}
use termdock.Upload.Handlers.{
  write_at, store_chunk, accept_chunk, expected_size, wrong_length, upload_chunk, publish,
  complete_chunk_upload,
}
use termdock.Upload.Client.{chunk_request}
use termdock.Upload.Slices.{length-slice, chunks_needed_cover}
use termdock.Upload.Writing.{blob, start_inside}

-- Every call of the operating system succeeds.
abbrev pub healthy : Text → List ℕ → System
healthy temporary_path random = record {
  temporary = some temporary_path;
  random = some random;
  chmod_fails = false;
  truncate_fails = false;
  close_fails = false;
  stat_fails = false;
  open_fails = false;
  write_fails = false;
  written = 0;
  sync_fails = false;
  rename_fails = false;
  remove_fails = false;
}

-- A server with one upload.
abbrev pub single : Text → Text → ChunkUpload → Disk → Server
single id dir u disk = record { working_dir = dir; uploads = (id, u) ∷ []; disk = disk }

module _ (id dir temporary_path : Text) (random : List ℕ) where
  find-single :
      (u : ChunkUpload) (disk : Disk) (now : ℕ)
      → now ≤ u.updated_at + upload_lifetime
      → find_upload now id (single id dir u disk) ≡ (some u, single id dir u disk)
  unfolding find_upload cleanup_expired_uploads sweep lookup
  find-single u disk now h = ground (arith, text_eq_self id)

  -- The upload and the disk once chunk `k` is stored.
  abbrev pub with_chunk : ℕ → ℕ → ChunkUpload → ChunkUpload
  with_chunk k now u = record u { received = set u.received k true; updated_at = now }

  abbrev pub disk_with : ℕ → List ℕ → ChunkUpload → List ℕ → Disk → Disk
  disk_with k part u content disk =
      insert u.temporary_path (file (write_at (k * u.chunk_size) part content)) disk

  pub upload_chunk-stores :
      (u : ChunkUpload) (disk : Disk) (content part : List ℕ) (k now : ℕ)
      → now ≤ u.updated_at + upload_lifetime
      → k < u.chunk_count
      → length part ≡ expected_size u k
      → length part ≤ u.chunk_size
      → lookup u.temporary_path disk ≡ some (file content)
      → upload_chunk true
          (chunk_request id k part)
          (healthy temporary_path random)
          now
          (single id dir u disk)
        ≡ (no_content, single id dir (with_chunk k now u) (disk_with k part u content disk))
  unfolding upload_chunk
  upload_chunk-stores u disk content part k now h kc l c e =
      ground (arith, find-single u disk now h, stored)
    where
      within : leb u.chunk_count k ≡ false
      within = ground arith

      fits : wrong_length (pos (length part)) (expected_size u k) ≡ false
      fits = ground arith

      small : ltb u.chunk_size (length part) ≡ false
      small = ground arith

      stored :
          accept_chunk
            (chunk_request id k part)
            u
            (healthy temporary_path random)
            now
            (single id dir u disk)
          ≡ (no_content, single id dir (with_chunk k now u) (disk_with k part u content disk))
      stored = rw (within, accept_chunk, fits, small, store_chunk, e, text_eq_self id) refl

  publish-finishes :
      (u : ChunkUpload) (disk : Disk) (content : List ℕ)
      → lookup u.temporary_path disk ≡ some (file content)
      → lookup u.final_path disk ≡ none
      → (publish id u (healthy temporary_path random) (single id dir u disk)).0 ≡ finished
  unfolding publish
  publish-finishes u disk content e f = rw (f, publish, e) refl

  complete-publishes :
      (u : ChunkUpload) (disk : Disk) (now : ℕ)
      → now ≤ u.updated_at + upload_lifetime
      → all (λ r. r) u.received ≡ true
      → complete_chunk_upload true id (healthy temporary_path random) now (single id dir u disk)
        ≡ publish id u (healthy temporary_path random) (single id dir u disk)
  unfolding complete_chunk_upload
  complete-publishes u disk now h a = ground (arith, find-single u disk now h)

  pub complete-finishes :
      (u : ChunkUpload) (disk : Disk) (content : List ℕ) (now : ℕ)
      → now ≤ u.updated_at + upload_lifetime
      → all (λ r. r) u.received ≡ true
      → lookup u.temporary_path disk ≡ some (file content)
      → lookup u.final_path disk ≡ none
      → (complete_chunk_upload true id (healthy temporary_path random) now (single id dir u disk)).0
        ≡ finished
  complete-finishes u disk content now h a e f =
      rw (complete-publishes u disk now h a) (publish-finishes u disk content e f)

-- The chunk that the page sends has the length that the server expects.
pub length-blob :
    (bytes : List ℕ) (chunk : ℕ) (final_path id : Text) (u : ChunkUpload) (k : ℕ)
    → 0 < chunk
    → u.size ≡ length bytes
    → u.chunk_size ≡ chunk
    → u.chunk_count ≡ chunks_needed (length bytes) chunk
    → k < u.chunk_count
    → (length (blob bytes chunk final_path id k) ≡ expected_size u k)
      × (length (blob bytes chunk final_path id k) ≤ u.chunk_size)
unfolding expected_size
length-blob bytes chunk final_path id u k h0 s c n h =
    let size =
      length-slice bytes (k * chunk) (min (length bytes) (k * chunk + chunk))
        (omega (arith, starts)) (omega arith) in
    (
      elim (Bool-cases (k == (u.chunk_count - 1))) [
        | inl e ↦ rw e (omega (arith, size, starts, s, ap (λ m. k * m) c, ends (ground arith)))
        | inr e ↦ rw e (omega (arith, size, inside (ground arith), c))
      ],
      omega (arith, size, c),
    )
  where
    starts : k * chunk < length bytes
    starts = start_inside bytes chunk final_path id k h0 (omega (arith, n, h))

    -- The last chunk ends at or behind the end of the file, the others within it.
    ends : k ≡ u.chunk_count - 1 → length bytes ≤ k * chunk + chunk
    ends e = omega (arith, chunks_needed_cover (length bytes) chunk h0, ap (λ m. m * chunk) count)
      where
        count : chunks_needed (length bytes) chunk ≡ suc k
        count = omega (arith, n, h, e)

    inside : k ≢ u.chunk_count - 1 → k * chunk + chunk < length bytes
    inside e =
        omega (arith, start_inside bytes chunk final_path id (suc k) h0 (omega (arith, n, h, e)))
