-- ===== src/Upload/Client.antt =====
-- internal/app/static/app.js: the upload of a file from the page, `uploadInput.onchange` with
-- `sendChunk`, `chunkReceived` and `sendChunkWithRetry`, run against the handlers of
-- internal/server/upload.go over a network that may lose requests and answers.
use Prim.Native.Nat.{min}
use termdock.Base.{
  ℕ, zero, suc, ◌+◌, ◌*◌, Bool, true, false, ◌||◌, List, [], ◌∷◌, Option, none, some, ◌==◌,
  if◌then◌else◌, length,
}
use termdock.Base.Int.{pos}
use termdock.Base.Text.{Text}
use termdock.Upload.{
  Server, System, Response, fail, created, progress, CreateRequest, create_chunk_upload,
}
use termdock.Upload.Handlers.{
  ChunkRequest, chunk_upload_status, upload_chunk, complete_chunk_upload, cancel_chunk_upload,
}
use termdock.Upload.Slices.{slice}

-- What becomes of a request. `gateway` answers are those of a proxy, with an error status.
pub data Fate : Type 0 where
  delivered lost answer_lost gateway gateway_after : Fate

-- What the user does while the page waits. The cancel button sends a DELETE, which may get lost.
pub data Press : Type 0 where
  no_press : Press
  cancel_lost : Press
  cancel_reaches : Press

-- The environment, by the number of the page's wait.
pub record Network : Type 0 where
  pub fate : ℕ → Fate
  pub press : ℕ → Press
  pub clock : ℕ → ℕ
  pub authenticated : ℕ → Bool
  pub system : ℕ → System

-- The server, the number of waits so far and the page's `upload` object.
pub record World : Type 0 where
  pub server : Server
  pub step : ℕ
  pub cancelled : Bool
  pub upload_id : Option Text

pub data Reply : Type 0 where
  answer : Response → Reply
  gateway_error : Reply
  broken : Reply

-- `response.ok`, and the test of the status in `sendChunk`.
abbrev pub is_ok : Response → Bool
is_ok (fail _) = false
is_ok _ = true

abbrev pub Handler : Type 0
Handler = Server → Response × Server

unfoldable pub deliver : Fate → Handler → Server → Reply × Server
deliver delivered handle server = (answer (handle server).0, (handle server).1)
deliver lost handle server = (broken, server)
deliver answer_lost handle server = (broken, (handle server).1)
deliver gateway handle server = (gateway_error, server)
deliver gateway_after handle server = (gateway_error, (handle server).1)

abbrev pub has_pressed : Press → Bool
has_pressed no_press = false
has_pressed _ = true

-- `cancelUpload.onclick`: without an id nothing is sent.
unfoldable pub cancel_on_server : Press → Option Text → Bool → System → Server → Server
cancel_on_server cancel_reaches (some id) authenticated os server =
    (cancel_chunk_upload authenticated id os server).1
cancel_on_server _ _ authenticated os server = server

module _ (net : Network) where
  -- The user's part of a wait.
  unfoldable pub pause : World → World
  pause w = record w {
    server =
        cancel_on_server (net.press w.step) w.upload_id (net.authenticated w.step)
          (net.system w.step) w.server;
    step = suc w.step;
    cancelled = w.cancelled || has_pressed (net.press w.step);
  }

  -- `await fetch(…)`: the handler sees the cookie, the system and the time of this wait.
  unfoldable pub request : (Bool → System → ℕ → Handler) → World → Reply × World
  request handle w =
      let sent =
        deliver (net.fate w.step)
          (handle (net.authenticated w.step) (net.system w.step) (net.clock w.step)) w.server in
      (sent.0, pause (record w { server = sent.1 }))

pub data Attempt : Type 0 where
  sent refused aborted : Attempt

-- What follows an attempt that went through, was refused, or was aborted.
abbrev pub by_attempt {ℓ} : {A : Type ℓ} → Attempt → A → A → A → A
by_attempt sent x y z = x
by_attempt refused x y z = y
by_attempt aborted x y z = z

-- `onload` resolves on a 2xx status and rejects otherwise; `onerror` rejects.
abbrev attempt_of : Reply → Attempt
attempt_of (answer response) = if is_ok response then sent else refused
attempt_of gateway_error = refused
attempt_of broken = refused

abbrev lists_chunk : ℕ → List ℕ → Bool
lists_chunk index [] = false
lists_chunk index (i ∷ rest) = i == index || lists_chunk index rest

abbrev says_received : ℕ → Reply → Bool
says_received index (answer (progress _ _ _ received)) = lists_chunk index received
says_received index _ = false

abbrev pub chunk_request : Text → ℕ → List ℕ → ChunkRequest
chunk_request id index blob = record {
  id = id;
  index = some (pos index);
  content_length = pos (length blob);
  body = some blob;
}

-- The requests of the page, for the wait that sends them.
abbrev pub create_handler : CreateRequest → Bool → System → ℕ → Handler
create_handler input auth = create_chunk_upload auth (some input)

abbrev pub chunk_handler : Text → ℕ → List ℕ → Bool → System → ℕ → Handler
chunk_handler id index blob auth = upload_chunk auth (chunk_request id index blob)

abbrev pub status_handler : Text → Bool → System → ℕ → Handler
status_handler id auth os = chunk_upload_status auth id

abbrev pub complete_handler : Text → Bool → System → ℕ → Handler
complete_handler id auth = complete_chunk_upload auth id

abbrev pub cancel_handler : Text → Bool → System → ℕ → Handler
cancel_handler id auth os now = cancel_chunk_upload auth id os

-- The pause before the next attempt; there is none after the last.
unfoldable pub before_next : Network → ℕ → World → World
before_next net zero w = w
before_next net (suc left) w = pause net w

module _ (net : Network) (id : Text) (index : ℕ) (blob : List ℕ) where
  -- A press of the cancel button aborts the request that is under way.
  unfoldable pub send_chunk : World → Attempt × World
  send_chunk w =
      let (reply, after) = request net (chunk_handler id index blob) w in
      (if has_pressed (net.press w.step) then aborted else attempt_of reply, after)

  unfoldable pub chunk_received : World → Bool × World
  chunk_received w =
      let (reply, after) = request net (status_handler id) w in (says_received index reply, after)

  -- `left` attempts remain of the three.
  unfoldable pub send_chunk_with_retry : ℕ → World → Attempt × World
  send_chunk_with_retry zero w = (refused, w)
  send_chunk_with_retry (suc left) w =
      let tried = send_chunk w in
      let asked = chunk_received tried.1 in
      let again = send_chunk_with_retry left (before_next net left asked.1) in
      if w.cancelled
      then (aborted, w)
      else by_attempt tried.0 tried
          (if tried.1.cancelled then tried else if asked.0 then (sent, asked.1) else again) tried

pub data Outcome : Type 0 where
  completed cancelled failed : Outcome

abbrev pub attempts : ℕ
attempts = 3

module _ (net : Network) (bytes : List ℕ) where
  -- The loop over the chunks, with `left` of them to go from `index` on.
  unfoldable pub send_chunks : Text → ℕ → ℕ → ℕ → World → Attempt × World
  send_chunks id chunk_size zero index w = (if w.cancelled then aborted else sent, w)
  send_chunks id chunk_size (suc left) index w =
      let begin = index * chunk_size in
      let blob = slice bytes begin (min (length bytes) (begin + chunk_size)) in
      let tried = send_chunk_with_retry net id index blob attempts w in
      let rest = send_chunks id chunk_size left (suc index) tried.1 in
      if w.cancelled then (aborted, w) else by_attempt tried.0 rest tried tried

  -- The `catch` block: a cancelled upload asks the server to drop the chunks.
  unfoldable pub give_up : Attempt → World → Outcome × World
  give_up attempt w =
      let dropped : World = elim w.upload_id [
        | none ↦ w
        | some id ↦ (request net (cancel_handler id) w).1
      ] in
      if w.cancelled
      then (cancelled, dropped)
      else by_attempt attempt (failed, w) (failed, w) (cancelled, dropped)

  unfoldable pub finish_upload : Text → World → Outcome × World
  finish_upload id w =
      let asked = request net (complete_handler id) w in
      elim asked.0 [
        | answer response ↦ if is_ok response then (completed, asked.1) else give_up refused asked.1
        | gateway_error ↦ give_up refused asked.1
        | broken ↦ give_up refused asked.1
      ]

  unfoldable pub send_and_finish : Text → ℕ → ℕ → World → Outcome × World
  send_and_finish id chunk_size count w =
      let sent_all = send_chunks id chunk_size count 0 w in
      by_attempt sent_all.0 (finish_upload id sent_all.1) (give_up refused sent_all.1)
        (give_up aborted sent_all.1)

  -- What follows the answer to the creation.
  unfoldable pub after_creation : Reply → World → Outcome × World
  after_creation (answer (created id chunk_size count)) w =
      send_and_finish id chunk_size count (record w { upload_id = some id })
  after_creation (answer _) w = give_up refused w
  after_creation gateway_error w = give_up refused w
  after_creation broken w = give_up refused w

  -- `uploadInput.onchange`, with a fresh `upload` object.
  unfoldable pub upload_file : Text → Text → Server → ℕ → Outcome × World
  upload_file path name server step =
      let input : CreateRequest = record { path = path; name = name; size = pos (length bytes) } in
      let start : World = record {
        server = server;
        step = step;
        cancelled = false;
        upload_id = none;
      } in
      let asked = request net (create_handler input) start in after_creation asked.0 asked.1
