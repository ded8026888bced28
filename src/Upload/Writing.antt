-- ===== src/Upload/Writing.antt =====
-- The invariant of one upload on the server (internal/server/upload.go) under the handler that
-- writes: the chunks that the page (internal/app/static/app.js) sends.
use native.Mathlib.Nat.{mul-le-mul_right, div-mul-le_self}
use termdock.Base.{
  ℕ, ◌+◌, ◌-◌, ◌*◌, ◌≤◌, ◌<◌, min, ◌≡◌, refl, ◌∙◌, subst, inl, inr, Bool, leb, true, false, List,
  Option, none, some, arith, if◌then◌else◌, Bool-cases, Option-cases, length, set, length-set, take,
  ◌||◌,
}
use termdock.Base.Int.{pos}
use termdock.Base.Text.{Text}
use termdock.Base.Maps.{lookup, insert, lookup-insert_self}
use termdock.Upload.{
  ChunkUpload, Server, System, Disk, Node, directory, file, Response, cleanup_expired_uploads,
  find_upload, chunks_needed,
}
use termdock.Upload.Handlers.{
  write_at, store_chunk, accept_chunk, expected_size, wrong_length, incomplete, upload_chunk,
}
use termdock.Upload.Client.{chunk_request}
use termdock.Upload.Slices.{slice}
use termdock.Upload.Store.{
  Agrees, Agrees-write_at, length-write_at_chunk, Agrees-write_at_part, length-write_at_part,
}
use termdock.Upload.Tracking.{Sound, Tracks, replaced-Kept, cleanup-Kept}

module _ (bytes : List ℕ) (chunk : ℕ) (final_path id : Text) where
  abbrev Kept : Server → Type 0
  Kept = Tracks bytes chunk final_path id

  -- The chunks that `upload_chunk` accepts start inside the file.
  pub start_inside :
      (k : ℕ) → 0 < chunk → k < chunks_needed (length bytes) chunk → k * chunk < length bytes
  start_inside k h0 h =
      omega (arith, mul-le-mul_right chunk h, div-mul-le_self (length bytes + chunk - 1) chunk)

  abbrev pub blob : ℕ → List ℕ
  blob k = slice bytes (k * chunk) (min (length bytes) (k * chunk + chunk))

  -- The promise after a chunk has been written.
  Sound-write :
      (u : ChunkUpload) (disk : Disk) (k now : ℕ) (content : List ℕ)
      → 0 < chunk
      → k < chunks_needed (length bytes) chunk
      → Sound bytes chunk final_path disk u
      → lookup u.temporary_path disk ≡ some (file content)
      → Sound bytes chunk final_path
          (insert u.temporary_path (file (write_at (k * u.chunk_size) (blob k) content)) disk)
          (record u { received = set u.received k true; updated_at = now })
  Sound-write u disk k now content h0 hk old e = record {
    final = old.final;
    chunked = old.chunked;
    counted = old.counted;
    flags = length-set u.received k true ∙ old.flags;
    stored = λ after found. subst Promised (written after found) (
      length-write_at_chunk bytes chunk content k before.0 inside,
      Agrees-write_at bytes chunk u.received content k (omega (arith, old.flags)) before.0 inside
          before.1,
    );
  }
    where
      Promised : List ℕ → Type 0
      Promised c = (length c ≡ length bytes) × Agrees bytes chunk (set u.received k true) c

      before : (length content ≡ length bytes) × Agrees bytes chunk u.received content
      before = old.stored content e

      inside : k * chunk ≤ length bytes
      inside = omega (arith, start_inside k h0 hk)

      written :
          (after : List ℕ)
          → lookup u.temporary_path
              (insert u.temporary_path (file (write_at (k * u.chunk_size) (blob k) content)) disk)
            ≡ some (file after)
          → write_at (k * chunk) (blob k) content ≡ after
      written after found = cc (
        old.chunked,
        found,
        lookup-insert_self u.temporary_path (file (write_at (k * u.chunk_size) (blob k) content))
            disk,
      )

  -- The promise after a write of a part of a chunk has broken off.
  Sound-break :
      (u : ChunkUpload) (disk : Disk) (k n : ℕ) (content : List ℕ)
      → 0 < chunk
      → k < chunks_needed (length bytes) chunk
      → Sound bytes chunk final_path disk u
      → lookup u.temporary_path disk ≡ some (file content)
      → Sound bytes chunk final_path
          (insert u.temporary_path
            (file (write_at (k * u.chunk_size) (take n (blob k)) content))
            disk)
          u
  Sound-break u disk k n content h0 hk old e = record {
    final = old.final;
    chunked = old.chunked;
    counted = old.counted;
    flags = old.flags;
    stored = λ after found. subst Promised (broken after found) (
      length-write_at_part bytes chunk content k n before.0 inside,
      Agrees-write_at_part bytes chunk content k n before.0 inside u.received before.1,
    );
  }
    where
      Promised : List ℕ → Type 0
      Promised c = (length c ≡ length bytes) × Agrees bytes chunk u.received c

      before : (length content ≡ length bytes) × Agrees bytes chunk u.received content
      before = old.stored content e

      inside : k * chunk ≤ length bytes
      inside = omega (arith, start_inside k h0 hk)

      broken :
          (after : List ℕ)
          → lookup u.temporary_path (
              insert u.temporary_path
                (file (write_at (k * u.chunk_size) (take n (blob k)) content))
                disk)
            ≡ some (file after)
          → write_at (k * chunk) (take n (blob k)) content ≡ after
      broken after found = cc (
        old.chunked,
        found,
        lookup-insert_self u.temporary_path
            (file (write_at (k * u.chunk_size) (take n (blob k)) content)) disk,
      )

  -- Another disk for which the upload under the id is sound.
  other_disk-Kept :
      (s : Server) (u : ChunkUpload) (disk : Disk)
      → lookup id s.uploads ≡ some u
      → Sound bytes chunk final_path disk u
      → Kept (record s { disk = disk })
  other_disk-Kept s u disk known h = record {
    sound = λ v e.
        let same : u ≡ v = cc (known, e) in subst (λ w. Sound bytes chunk final_path disk w) same h;
  }

  store-Kept :
      (s : Server) (u : ChunkUpload) (k : ℕ) (os : System) (now : ℕ)
      → lookup id s.uploads ≡ some u
      → 0 < chunk
      → Sound bytes chunk final_path s.disk u
      → Kept s
      → k < chunks_needed (length bytes) chunk
      → Kept (store_chunk id u k (blob k) os now s).1
  unfolding store_chunk
  store-Kept s u k os now known h0 old h hk = written (lookup u.temporary_path s.disk) refl
    where
      written :
          (found : Option Node)
          → lookup u.temporary_path s.disk ≡ found
          → Kept (store_chunk id u k (blob k) os now s).1
      written none e = rw (e, store_chunk) h
      written (some directory) e = rw (e, store_chunk) h
      written (some (file content)) e = elim (Bool-cases os.open_fails) [
        | inl o ↦ rw (e, store_chunk, o) h
        | inr o ↦ elim (Bool-cases (os.write_fails || os.close_fails)) [
          | inl w ↦
              rw (e, store_chunk, o, w)
                (other_disk-Kept s u _ known
                  (Sound-break u s.disk k os.written content h0 hk old e))
          | inr w ↦
              rw (e, store_chunk, o, w)
                (replaced-Kept bytes chunk final_path id s _ _
                  (Sound-write u s.disk k now content h0 hk old e))
        ]
      ]

  if_Kept :
      (test : Bool) (x y : Response × Server) → Kept x.1 → Kept y.1 → Kept (if test then x else y).1
  if_Kept true x y h k = h
  if_Kept false x y h k = k

  accept_chunk-Kept :
      (s : Server) (u : ChunkUpload) (k : ℕ) (os : System) (now : ℕ)
      → lookup id s.uploads ≡ some u
      → 0 < chunk
      → Sound bytes chunk final_path s.disk u
      → Kept s
      → Kept (accept_chunk (chunk_request id k (blob k)) u os now s).1
  unfolding accept_chunk
  accept_chunk-Kept s u k os now known h0 old h = elim (Bool-cases (leb u.chunk_count k)) [
    | inl over ↦ rw (over, accept_chunk) h
    | inr within ↦
        let fits : k < chunks_needed (length bytes) chunk = ground (arith, old.counted) in
        let ok = store-Kept s u k os now known h0 old h fits in
        rw (within, accept_chunk)
          (if_Kept (wrong_length (pos (length (blob k))) (expected_size u k)) _ _ h
            (if_Kept (incomplete (some (blob k)) u.chunk_size (expected_size u k)) _ _ h ok))
  ]

  -- The chunk that the page sends under index `k`.
  pub upload_chunk-Kept :
      (auth : Bool) (k : ℕ) (os : System) (now : ℕ) (s : Server)
      → 0 < chunk
      → Kept s
      → Kept (upload_chunk auth (chunk_request id k (blob k)) os now s).1
  unfolding upload_chunk find_upload
  upload_chunk-Kept false k os now s h0 h = h
  upload_chunk-Kept true k os now s h0 h =
      let swept = cleanup_expired_uploads now s in
      let kept : Kept swept = cleanup-Kept bytes chunk final_path id now s h in
      elim (Option-cases (lookup id swept.uploads)) [
        | inl e ↦ rw (e, upload_chunk) kept
        | inr (u, e) ↦
            rw (e, upload_chunk) (accept_chunk-Kept swept u k os now e h0 (kept.sound u e) kept)
      ]
