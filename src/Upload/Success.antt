-- ===== src/Upload/Success.antt =====
-- The page's upload (internal/app/static/app.js) where nothing goes wrong: it completes.
use termdock.Base.{
  ℕ, zero, suc, ◌+◌, ◌*◌, ◌≤◌, ◌<◌, ◌≡◌, refl, ap, sym, subst, ◌∙◌, Bool, true, false, List, [],
  ◌∷◌, none, some, arith, length, all, get_elem?, get_elem?-set, length-set,
}
use termdock.Base.Text.{Text, text_eq}
use termdock.Base.Maps.{lookup, lookup-insert, lookup-insert_self}
use termdock.Upload.{
  ChunkUpload, Server, System, Disk, Response, no_content, finished, file, chunks_needed,
  upload_lifetime,
}
use termdock.Upload.Handlers.{write_at, upload_chunk, complete_chunk_upload}
use termdock.Upload.Client.{
  Network, delivered, no_press, World, Reply, answer, Handler, deliver, cancel_on_server, pause,
  request, Attempt, sent, chunk_handler, complete_handler, chunk_request, send_chunk,
  send_chunk_with_retry, attempts, completed, send_chunks, finish_upload, send_and_finish,
}
use termdock.Upload.Writing.{blob}
use termdock.Upload.Progress.{
  healthy, single, with_chunk, disk_with, upload_chunk-stores, complete-finishes, length-blob,
}

-- Every request and answer arrives, the user presses nothing, the login lasts, every system call
-- succeeds and the clock never shows times that are more than an upload's lifetime apart.
pub record IsKind (net : Network) (temporary_path : Text) (random : List ℕ) : Type 0 where
  pub delivers : (n : ℕ) → net.fate n ≡ delivered
  pub unpressed : (n : ℕ) → net.press n ≡ no_press
  pub logged_in : (n : ℕ) → net.authenticated n ≡ true
  pub works : (n : ℕ) → net.system n ≡ healthy temporary_path random
  pub timely : (n k : ℕ) → net.clock n ≤ net.clock k + upload_lifetime

module _ (net : Network) (temporary_path : Text) (random : List ℕ)
    (kind : IsKind net temporary_path random) where
  -- A request then is a call of the handler.
  pub request-calls :
      (handle : Bool → System → ℕ → Handler) (w : World)
      → w.cancelled ≡ false
      → request net handle w ≡ (
        answer (handle true (healthy temporary_path random) (net.clock w.step) w.server).0,
        record {
          server = (handle true (healthy temporary_path random) (net.clock w.step) w.server).1;
          step = suc w.step;
          cancelled = false;
          upload_id = w.upload_id;
        },
      )
  unfolding request pause deliver cancel_on_server
  request-calls handle w h =
      ground (
        arith,
        kind.delivers w.step,
        kind.unpressed w.step,
        kind.logged_in w.step,
        kind.works w.step,
      )

  abbrev answered : World → Response × Server → Reply × World
  answered w (response, server) = (
    answer response,
    record { server = server; step = suc w.step; cancelled = false; upload_id = w.upload_id },
  )

  module _ (bytes : List ℕ) (chunk : ℕ) (final_path id dir : Text) where
    -- The first `k` chunks are stored.
    pub record Good (k : ℕ) (w : World) : Type 0 where
      pub upload : ChunkUpload
      pub disk : Disk
      pub content : List ℕ
      pub serves : w.server ≡ single id dir upload disk
      pub live : w.cancelled ≡ false
      pub final : upload.final_path ≡ final_path
      pub size : upload.size ≡ length bytes
      pub chunked : upload.chunk_size ≡ chunk
      pub counted : upload.chunk_count ≡ chunks_needed (length bytes) chunk
      pub flags : length upload.received ≡ chunks_needed (length bytes) chunk
      pub stored : (i : ℕ) → i < k → get_elem? upload.received i ≡ some true
      pub fresh : (n : ℕ) → net.clock n ≤ upload.updated_at + upload_lifetime
      pub there : lookup upload.temporary_path disk ≡ some (file content)
      pub free : lookup final_path disk ≡ none
      pub apart : text_eq upload.temporary_path final_path ≡ false

    -- The world once chunk `k` is stored as well.
    abbrev after_chunk : (k : ℕ) (w : World) → Good k w → World
    after_chunk k w g = record {
      server =
          single id dir (with_chunk id dir temporary_path random k (net.clock w.step) g.upload) (
            disk_with id dir temporary_path random k (blob bytes chunk final_path id k) g.upload
              g.content g.disk);
      step = suc w.step;
      cancelled = false;
      upload_id = w.upload_id;
    }

    after_chunk-Good :
        (k : ℕ) (w : World) (g : Good k w)
        → k < chunks_needed (length bytes) chunk
        → Good (suc k) (after_chunk k w g)
    after_chunk-Good k w g h = record {
      upload = with_chunk id dir temporary_path random k (net.clock w.step) g.upload;
      disk =
          disk_with id dir temporary_path random k (blob bytes chunk final_path id k) g.upload
            g.content g.disk;
      content = write_at (k * g.upload.chunk_size) (blob bytes chunk final_path id k) g.content;
      serves = refl;
      live = refl;
      final = g.final;
      size = g.size;
      chunked = g.chunked;
      counted = g.counted;
      flags = length-set g.upload.received k true ∙ g.flags;
      stored = λ i l.
          ground (
            arith,
            get_elem?-set g.upload.received k i true (omega (arith, g.flags, h)),
            g.stored i,
          );
      fresh = λ n. kind.timely n w.step;
      there = lookup-insert_self g.upload.temporary_path _ g.disk;
      free = ground (
        arith,
        lookup-insert g.upload.temporary_path final_path
            (file (write_at (k * g.upload.chunk_size) (blob bytes chunk final_path id k) g.content))
            g.disk,
        g.apart,
        g.free,
      );
      apart = g.apart;
    }

    request_chunk :
        (k : ℕ) (w : World) (g : Good k w)
        → 0 < chunk
        → k < chunks_needed (length bytes) chunk
        → request net (chunk_handler id k (blob bytes chunk final_path id k)) w
          ≡ (answer no_content, after_chunk k w g)
    request_chunk k w g h0 h =
        let part = blob bytes chunk final_path id k in
        let count : k < g.upload.chunk_count = omega (arith, g.counted, h) in
        let (exact, small) =
          length-blob bytes chunk final_path id g.upload k h0 g.size g.chunked g.counted count in
        let stored =
          upload_chunk-stores id dir temporary_path random g.upload g.disk g.content part k
            (net.clock w.step) (g.fresh w.step) count exact small g.there in
        request-calls (chunk_handler id k part) w g.live
        ∙ ap (answered w) (
            ap
              (upload_chunk true (chunk_request id k part) (healthy temporary_path random)
                (net.clock w.step))
              g.serves
            ∙ stored)

    send_chunk-Good :
        (k : ℕ) (w : World) (g : Good k w)
        → 0 < chunk
        → k < chunks_needed (length bytes) chunk
        → send_chunk net id k (blob bytes chunk final_path id k) w ≡ (sent, after_chunk k w g)
    unfolding send_chunk
    send_chunk-Good k w g h0 h = ground (arith, request_chunk k w g h0 h, kind.unpressed w.step)

    retry-Good :
        (k : ℕ) (w : World) (g : Good k w)
        → 0 < chunk
        → k < chunks_needed (length bytes) chunk
        → send_chunk_with_retry net id k (blob bytes chunk final_path id k) attempts w
          ≡ (sent, after_chunk k w g)
    unfolding send_chunk_with_retry
    retry-Good k w g h0 h = ground (arith, send_chunk-Good k w g h0 h, g.live)

    one_more :
        (left k : ℕ) (w : World) (g : Good k w)
        → 0 < chunk
        → k < chunks_needed (length bytes) chunk
        → send_chunks net bytes id chunk (suc left) k w
          ≡ send_chunks net bytes id chunk left (suc k) (after_chunk k w g)
    unfolding send_chunks
    one_more left k w g h0 h = ground (arith, retry-Good k w g h0 h, g.live)

    abbrev AllSent : Attempt × World → Type 0
    AllSent (attempt, w) = (attempt ≡ sent) × Good (chunks_needed (length bytes) chunk) w

    -- The loop over the chunks ends with all of them stored.
    pub send_chunks-Good :
        (left k : ℕ) (w : World)
        → 0 < chunk
        → Good k w
        → k + left ≡ chunks_needed (length bytes) chunk
        → AllSent (send_chunks net bytes id chunk left k w)
    unfolding send_chunks
    send_chunks-Good zero k w h0 g e =
        (ground (arith, g.live), subst (λ n. Good n w) (omega (arith, e)) g)
    send_chunks-Good (suc left) k w h0 g e =
        subst AllSent (sym (one_more left k w g h0 (omega (arith, e)))) (
          send_chunks-Good left (suc k) (after_chunk k w g) h0
            (after_chunk-Good k w g (omega (arith, e))) (omega (arith, e)))

    -- Everything that was sent is then published.
    all-stored :
        (flags : List Bool)
        → ((i : ℕ) → i < length flags → get_elem? flags i ≡ some true)
        → all (λ r. r) flags ≡ true
    all-stored [] h = refl
    all-stored (flag ∷ flags) h =
        ground (arith, h 0 (omega arith), all-stored flags (λ i l. h (suc i) (omega (arith, l))))

    request_complete :
        (w : World)
        → Good (chunks_needed (length bytes) chunk) w
        → (request net (complete_handler id) w).0 ≡ answer finished
    request_complete w g =
        ap (λ r. r.0) (request-calls (complete_handler id) w g.live)
        ∙ ap answer (
            ap
              (λ s.
                (complete_chunk_upload true id (healthy temporary_path random) (net.clock w.step)
                  s).0)
              g.serves
            ∙ complete-finishes id dir temporary_path random g.upload g.disk g.content
                (net.clock w.step) (g.fresh w.step)
                (all-stored g.upload.received (λ i l. g.stored i (omega (arith, l, g.flags))))
                g.there (ap (λ p. lookup p g.disk) g.final ∙ g.free))

    pub finish-completes :
        (w : World)
        → Good (chunks_needed (length bytes) chunk) w
        → (finish_upload net bytes id w).0 ≡ completed
    unfolding finish_upload
    finish-completes w g = ground (arith, request_complete w g)

    pub send_and_finish-completes :
        (w : World)
        → 0 < chunk
        → Good 0 w
        → (send_and_finish net bytes id chunk (chunks_needed (length bytes) chunk) w).0 ≡ completed
    unfolding send_and_finish
    send_and_finish-completes w h0 g =
        let (all_sent, good) =
          send_chunks-Good (chunks_needed (length bytes) chunk) 0 w h0 g (omega arith) in
        ground (arith, all_sent, finish-completes _ good)
