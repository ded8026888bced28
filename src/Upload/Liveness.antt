-- ===== src/Upload/Liveness.antt =====
-- The page's upload (internal/app/static/app.js) against internal/server/upload.go where nothing
-- goes wrong, from the choice of a file to its end.
use termdock.Base.{
  ℕ, suc, ◌≤◌, ◌≡◌, ◌≢◌, refl, ap, ◌∙◌, inl, inr, true, false, List, [], none, some, arith,
  Bool-cases, ltb, length, replicate, length-replicate,
}
use termdock.Base.Int.{pos}
use termdock.Base.Text.{Text, text_eq, text_eq_iff}
use termdock.Base.Maps.{lookup, insert, lookup-insert, lookup-insert_self}
use termdock.Filepath.{file_path}
use termdock.Upload.{
  ChunkUpload, Server, Disk, Response, created, file, chunks_needed, upload_chunk_size,
  maximum_upload_size, hex, sweep, cleanup_expired_uploads, new_chunk_upload, register_upload,
  prepare_upload, is_bad_name, is_directory, check_upload, create_chunk_upload, CreateRequest,
}
use termdock.Upload.Client.{
  Network, World, Reply, answer, request, create_handler, completed, after_creation, upload_file,
}
use termdock.Upload.Creation.{destination}
use termdock.Upload.Delivery.{upload_file-delivers}
use termdock.Upload.Progress.{healthy, single}
use termdock.Upload.Success.{IsKind, request-calls, Good, send_and_finish-completes}

module _ (bytes : List ℕ) (path name temporary_path : Text) (random : List ℕ) (s : Server)
    (now : ℕ) where
  abbrev new_upload : ChunkUpload
  new_upload = new_chunk_upload (destination path name s) temporary_path (length bytes) now

  abbrev new_disk : Disk
  new_disk = insert temporary_path (file (replicate (length bytes) 0)) s.disk

  abbrev registered : List (Text × ChunkUpload) → Server
  registered uploads =
      let swept =
        sweep now uploads
          (record { working_dir = s.working_dir; uploads = uploads; disk = new_disk }) in
      record swept { uploads = insert (hex random) new_upload swept.uploads }

  register-single :
      s.uploads ≡ []
      → register_upload (hex random) (destination path name s) temporary_path (length bytes) now s
        ≡ single (hex random) s.working_dir new_upload new_disk
  unfolding register_upload cleanup_expired_uploads sweep insert
  register-single e = ap registered e

  create-single :
      s.uploads ≡ []
      → length bytes ≤ maximum_upload_size
      → is_bad_name name ≡ false
      → is_directory (lookup (file_path s.working_dir path) s.disk) ≡ true
      → lookup (destination path name s) s.disk ≡ none
      → create_chunk_upload true
          (some (record { path = path; name = name; size = pos (length bytes) }))
          (healthy temporary_path random)
          now
          s
        ≡ (
          created (hex random) upload_chunk_size (chunks_needed (length bytes) upload_chunk_size),
          single (hex random) s.working_dir new_upload new_disk,
        )
  unfolding create_chunk_upload check_upload prepare_upload
  create-single e small good dir free = ground (arith, register-single e, lt-not)
    where
      lt-not : ltb maximum_upload_size (length bytes) ≡ false
      lt-not = ground arith

module _ (net : Network) (bytes : List ℕ) (path name temporary_path : Text) (random : List ℕ)
    (s : Server) (step : ℕ) (kind : IsKind net temporary_path random) where
  abbrev start : World
  start = record { server = s; step = step; cancelled = false; upload_id = none }

  abbrev input : CreateRequest
  input = record { path = path; name = name; size = pos (length bytes) }

  abbrev begun : World
  begun = record {
    server =
        single (hex random) s.working_dir
          (new_upload bytes path name temporary_path random s (net.clock step))
          (new_disk bytes path name temporary_path random s (net.clock step));
    step = suc step;
    cancelled = false;
    upload_id = some (hex random);
  }

  different :
      temporary_path ≢ destination path name s
      → text_eq temporary_path (destination path name s) ≡ false
  different h = elim (Bool-cases (text_eq temporary_path (destination path name s))) [
    | inl same ↦ absurd (h ((text_eq_iff temporary_path (destination path name s)).0 same))
    | inr other ↦ other
  ]

  begun-Good :
      lookup (destination path name s) s.disk ≡ none
      → temporary_path ≢ destination path name s
      → Good net temporary_path random kind bytes upload_chunk_size
          (destination path name s)
          (hex random)
          s.working_dir
          0
          begun
  unfolding new_chunk_upload
  begun-Good free apart = record {
    upload = new_upload bytes path name temporary_path random s (net.clock step);
    disk = new_disk bytes path name temporary_path random s (net.clock step);
    content = replicate (length bytes) 0;
    serves = refl;
    live = refl;
    final = refl;
    size = refl;
    chunked = refl;
    counted = refl;
    flags = length-replicate _ false;
    stored = λ i l. absurd (omega (arith, l));
    fresh = λ n. kind.timely n step;
    there = lookup-insert_self temporary_path (file (replicate (length bytes) 0)) s.disk;
    free = ground (
      arith,
      free,
      different apart,
      lookup-insert temporary_path (destination path name s) (file (replicate (length bytes) 0))
          s.disk,
    );
    apart = different apart;
  }

  -- The page once the answer to its creation is there.
  abbrev asking : Server → World
  asking server = record { server = server; step = suc step; cancelled = false; upload_id = none }

  -- If nothing goes wrong and the server has no other upload, choosing a file of at most 512 MiB with
  -- a plain name, for a directory that has no such entry, ends with the page reporting the upload as
  -- completed and the file's bytes on the disk. The temporary name must differ from the file's.
  pub upload_file-completes :
      s.uploads ≡ []
      → length bytes ≤ maximum_upload_size
      → is_bad_name name ≡ false
      → is_directory (lookup (file_path s.working_dir path) s.disk) ≡ true
      → lookup (destination path name s) s.disk ≡ none
      → temporary_path ≢ destination path name s
      → ((upload_file net bytes path name s step).0 ≡ completed)
        × (lookup (destination path name s) (upload_file net bytes path name s step).1.server.disk
            ≡ some (file bytes))
  unfolding upload_file after_creation
  upload_file-completes e small good dir free apart =
      (completes, upload_file-delivers net bytes path name s step completes)
    where
      asked : request net (create_handler input) start ≡ (
        answer (
            created
              (hex random)
              upload_chunk_size
              (chunks_needed (length bytes) upload_chunk_size)),
        record begun { upload_id = none },
      )
      asked =
          request-calls net temporary_path random kind (create_handler input) start refl
          ∙ ap (λ (r : Response × Server). (answer r.0, asking r.1))
              (create-single bytes path name temporary_path random s (net.clock step) e small good
                dir free)

      completes : (upload_file net bytes path name s step).0 ≡ completed
      completes =
          ap (λ (r : Reply × World). (after_creation net bytes r.0 r.1).0) asked
          ∙ send_and_finish-completes net temporary_path random kind bytes upload_chunk_size
              (destination path name s) (hex random) s.working_dir begun (omega arith)
              (begun-Good free apart)
