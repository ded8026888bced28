-- ===== src/Upload/Delivery.antt =====
-- The page's upload from end to end (internal/app/static/app.js): whatever the network, the user
-- and the server's clock do, an upload that the page reports as completed is on the disk.
use termdock.Base.{
  ◌≢◌, ℕ, ◌<◌, ◌≡◌, refl, sym, subst, inl, inr, Bool, true, false, List, none, some, arith,
  Bool-cases, length,
}
use termdock.Base.Int.{pos}
use termdock.Base.Text.{Text}
use termdock.Base.Maps.{lookup}
use termdock.Upload.{
  Server, System, file, Response, fail, created, progress, no_content, finished, upload_chunk_size,
  CreateRequest,
}
use termdock.Upload.Handlers.{cancel_chunk_upload}
use termdock.Upload.Client.{
  create_handler, complete_handler, is_ok, Network, World, Handler, Reply, answer, gateway_error,
  broken, Fate, delivered, lost, answer_lost, gateway, gateway_after, Press, no_press, cancel_lost,
  cancel_reaches, deliver, cancel_on_server, pause, request, Attempt, refused, aborted, send_chunks,
  give_up, finish_upload, send_and_finish, upload_file, after_creation, Outcome, completed,
}
use termdock.Upload.Tracking.{Tracks}
use termdock.Upload.Completion.{complete-delivers}
use termdock.Upload.Creation.{Starts, create-Starts, destination}
use termdock.Upload.Sending.{KeptWorld, cancel_on_server-Kept, send_chunks-Kept}

module _ (net : Network) (bytes : List ℕ) (chunk : ℕ) (final_path id : Text) where
  -- A cancel that comes after the completion finds no upload, and leaves the disk alone.
  disk-cancel_on_server :
      (press : Press) (auth : Bool) (os : System) (s : Server)
      → lookup id s.uploads ≡ none
      → (cancel_on_server press (some id) auth os s).disk ≡ s.disk
  unfolding cancel_on_server cancel_chunk_upload
  disk-cancel_on_server cancel_reaches false os s e = refl
  disk-cancel_on_server cancel_reaches true os s e = ground arith
  disk-cancel_on_server no_press auth os s e = refl
  disk-cancel_on_server cancel_lost auth os s e = refl

  give_up-ne-completed :
      (attempt : Attempt) (w : World) → (give_up net bytes attempt w).0 ≢ completed
  unfolding give_up
  give_up-ne-completed attempt w = ground arith

  deliver-eq-answer :
      (fate : Fate) (handle : Handler) (s : Server) (response : Response)
      → (deliver fate handle s).0 ≡ answer response
      → ((handle s).0 ≡ response) × ((deliver fate handle s).1 ≡ (handle s).1)
  unfolding deliver
  deliver-eq-answer delivered handle s response h = (ground arith, refl)
  deliver-eq-answer lost handle s response h = absurd (ground arith)
  deliver-eq-answer answer_lost handle s response h = absurd (ground arith)
  deliver-eq-answer gateway handle s response h = absurd (ground arith)
  deliver-eq-answer gateway_after handle s response h = absurd (ground arith)

  -- An upload is completed by a 2xx answer to the last request alone.
  finish_cases :
      (w : World)
      → (finish_upload net bytes id w).0 ≡ completed
      → (response : Response) × ((request net (complete_handler id) w).0 ≡ answer response)
        × (is_ok response ≡ true)
        × ((finish_upload net bytes id w).1 ≡ (request net (complete_handler id) w).1)
  finish_cases w h = by_reply (request net (complete_handler id) w).0 refl
    where
      by_reply :
          (reply : Reply)
          → (request net (complete_handler id) w).0 ≡ reply
          → (response : Response) × ((request net (complete_handler id) w).0 ≡ answer response)
            × (is_ok response ≡ true)
            × ((finish_upload net bytes id w).1 ≡ (request net (complete_handler id) w).1)
      by_reply (answer response) e = elim (Bool-cases (is_ok response)) [
        | inl ok ↦ unfold finish_upload in (response, e, ok, ground arith)
        | inr not_ok ↦ absurd (
            unfold finish_upload in
            ground (arith, give_up-ne-completed refused (request net (complete_handler id) w).1))
      ]
      by_reply gateway_error e = absurd (
          unfold finish_upload in
          ground (arith, give_up-ne-completed refused (request net (complete_handler id) w).1))
      by_reply broken e = absurd (
          unfold finish_upload in
          ground (arith, give_up-ne-completed refused (request net (complete_handler id) w).1))

  finish-delivers :
      (w : World)
      → 0 < chunk
      → KeptWorld net bytes chunk final_path id w
      → (finish_upload net bytes id w).0 ≡ completed
      → lookup final_path (finish_upload net bytes id w).1.server.disk ≡ some (file bytes)
  finish-delivers w positive (h, e) done =
      let (response, told, ok, same) = finish_cases w done in
      let (own, after) =
        deliver-eq-answer (net.fate w.step) handler w.server response (unfold request in told) in
      let (stored, dropped) =
        complete-delivers bytes chunk final_path id (net.authenticated w.step) (net.system w.step)
          (net.clock w.step) w.server positive h (cc (own, ok)) in
      let untouched =
        disk-cancel_on_server (net.press w.step) (net.authenticated w.step) (net.system w.step)
          (handler w.server).1 dropped in
      subst (λ v. lookup final_path v.server.disk ≡ some (file bytes)) (sym same)
        (unfold request pause in rw (after, e, untouched) stored)
    where
      handler : Handler
      handler =
          complete_handler id (net.authenticated w.step) (net.system w.step) (net.clock w.step)

pub send_and_finish-delivers :
    (net : Network) (bytes : List ℕ) (chunk : ℕ) (final_path id : Text) (count : ℕ) (w : World)
    → 0 < chunk
    → KeptWorld net bytes chunk final_path id w
    → (send_and_finish net bytes id chunk count w).0 ≡ completed
    → lookup final_path (send_and_finish net bytes id chunk count w).1.server.disk
      ≡ some (file bytes)
unfolding send_and_finish
send_and_finish-delivers net bytes chunk final_path id count w positive h done = ground (
  arith,
  finish-delivers net bytes chunk final_path id (send_chunks net bytes id chunk count 0 w).1
      positive (send_chunks-Kept net bytes chunk final_path id positive count 0 w h),
  give_up-ne-completed net bytes chunk final_path id refused
      (send_chunks net bytes id chunk count 0 w).1,
  give_up-ne-completed net bytes chunk final_path id aborted
      (send_chunks net bytes id chunk count 0 w).1,
)

Starts-created :
    (bytes : List ℕ) (final_path id : Text) (s : Server) (chunk count : ℕ) (r : Response × Server)
    → Starts bytes final_path s r
    → r.0 ≡ created id chunk count
    → (chunk ≡ upload_chunk_size) × Tracks bytes upload_chunk_size final_path id r.1
Starts-created bytes final_path id s chunk count (created i c n, t) h e =
    let same : i ≡ id = cc in
    (cc (h.0), subst (λ j. Tracks bytes upload_chunk_size final_path j t) same h.2)
Starts-created bytes final_path id s chunk count (fail _, t) h e = absurd (ground arith)
Starts-created bytes final_path id s chunk count (progress _ _ _ _, t) h e = absurd (ground arith)
Starts-created bytes final_path id s chunk count (no_content, t) h e = absurd (ground arith)
Starts-created bytes final_path id s chunk count (finished, t) h e = absurd (ground arith)

module _ (net : Network) (bytes : List ℕ) (path name : Text) (s : Server) (step : ℕ) where
  input : CreateRequest
  input = record { path = path; name = name; size = pos (length bytes) }

  start : World
  start = record { server = s; step = step; cancelled = false; upload_id = none }

  asked : Reply × World
  asked = request net (create_handler input) start

  -- After a creation that the page hears of, the server tracks the upload.
  created-Kept :
      (id : Text) (chunk count : ℕ)
      → asked.0 ≡ answer (created id chunk count)
      → (chunk ≡ upload_chunk_size)
        × KeptWorld net bytes upload_chunk_size
            (destination path name s)
            id
            (record (asked.1) { upload_id = some id })
  unfolding asked start input
  created-Kept id chunk count e =
      let (own, after) =
        deliver-eq-answer net bytes upload_chunk_size (destination path name s) id (net.fate step)
          handler s (created id chunk count) (unfold request in e) in
      let (same, tracked) =
        Starts-created bytes (destination path name s) id s chunk count (handler s)
          (create-Starts bytes path name s (net.authenticated step) (net.system step)
            (net.clock step))
          own in
      (
        same,
        (
          unfold request pause in
              cancel_on_server-Kept net bytes upload_chunk_size (destination path name s) id
                (net.press step) none (net.authenticated step) (net.system step)
                (deliver (net.fate step) handler s).1
                (subst (λ t. Tracks bytes upload_chunk_size (destination path name s) id t)
                  (sym after) tracked),
          refl,
        ),
      )
    where
      handler : Handler
      handler = create_handler input (net.authenticated step) (net.system step) (net.clock step)

  abbrev Delivered : Outcome × World → Type 0
  Delivered r =
      r.0 ≡ completed → lookup (destination path name s) r.1.server.disk ≡ some (file bytes)

  gives_up : (attempt : Attempt) (w : World) → Delivered (give_up net bytes attempt w)
  gives_up attempt w done = absurd (give_up-ne-completed net bytes 0 path name attempt w done)

  after_creation-delivers :
      (reply : Reply) → asked.0 ≡ reply → Delivered (after_creation net bytes reply asked.1)
  unfolding after_creation
  after_creation-delivers (answer (created id chunk count)) e done =
      let (same, kept) = created-Kept id chunk count e in
      send_and_finish-delivers net bytes chunk (destination path name s) id count _
        (omega (arith, same))
        (subst
          (λ c.
            KeptWorld net bytes c (destination path name s) id
              (record (asked.1) { upload_id = some id }))
          (sym same) kept)
        done
  after_creation-delivers (answer (fail _)) e done = gives_up refused asked.1 done
  after_creation-delivers (answer (progress _ _ _ _)) e done = gives_up refused asked.1 done
  after_creation-delivers (answer no_content) e done = gives_up refused asked.1 done
  after_creation-delivers (answer finished) e done = gives_up refused asked.1 done
  after_creation-delivers gateway_error e done = gives_up refused asked.1 done
  after_creation-delivers broken e done = gives_up refused asked.1 done

  -- Whatever becomes of the requests and their answers, whatever the user presses, the clock shows
  -- and the operating system refuses: if the page ends up reporting the upload as completed, the
  -- file's name below the requested directory holds exactly the bytes of the chosen file.
  pub upload_file-delivers :
      (upload_file net bytes path name s step).0 ≡ completed
      → lookup (destination path name s) (upload_file net bytes path name s step).1.server.disk
        ≡ some (file bytes)
  unfolding upload_file asked start input
  upload_file-delivers = after_creation-delivers asked.0 refl
