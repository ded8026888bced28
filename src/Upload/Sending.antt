-- ===== src/Upload/Sending.antt =====
-- What the server knows of an upload while the page (internal/app/static/app.js) sends its chunks,
-- whatever becomes of the requests and whatever the user presses.
use termdock.Base.{
  ℕ, zero, suc, ◌+◌, ◌*◌, ◌<◌, min, ◌≡◌, Bool, true, false, List, Option, none, some, if◌then◌else◌,
  length,
}
use termdock.Base.Text.{Text}
use termdock.Upload.{Server, System}
use termdock.Upload.Client.{
  chunk_handler, status_handler, before_next, by_attempt, attempts, Network, World, Handler, Fate,
  delivered, lost, answer_lost, gateway, gateway_after, Press, no_press, cancel_lost,
  cancel_reaches, deliver, cancel_on_server, pause, request, Attempt, sent, refused, aborted,
  send_chunk, chunk_received, send_chunk_with_retry, send_chunks,
}
use termdock.Upload.Tracking.{Tracks, status-Kept, cancel-Kept}
use termdock.Upload.Writing.{upload_chunk-Kept}
use termdock.Upload.Slices.{slice}

-- A property of the world that a choice leaves holds if it holds on each side.
module _ {ℓ} {A : Type ℓ} (P : World → Type 0) where
  if_holds : (test : Bool) (x y : A × World) → P x.1 → P y.1 → P (if test then x else y).1
  if_holds true x y h k = h
  if_holds false x y h k = k

  by_attempt_holds :
      (attempt : Attempt) (x y z : A × World)
      → P x.1
      → P y.1
      → P z.1
      → P (by_attempt attempt x y z).1
  by_attempt_holds sent x y z h k l = h
  by_attempt_holds refused x y z h k l = k
  by_attempt_holds aborted x y z h k l = l

module _ (net : Network) (bytes : List ℕ) (chunk : ℕ) (final_path id : Text) where
  abbrev pub KeptWorld : World → Type 0
  KeptWorld w = Tracks bytes chunk final_path id w.server × (w.upload_id ≡ some id)

  pub cancel_on_server-Kept :
      (press : Press) (other : Option Text) (auth : Bool) (os : System) (s : Server)
      → Tracks bytes chunk final_path id s
      → Tracks bytes chunk final_path id (cancel_on_server press other auth os s)
  unfolding cancel_on_server
  cancel_on_server-Kept cancel_reaches (some other) auth os s h =
      cancel-Kept bytes chunk final_path id auth other os s h
  cancel_on_server-Kept cancel_reaches none auth os s h = h
  cancel_on_server-Kept no_press _ auth os s h = h
  cancel_on_server-Kept cancel_lost _ auth os s h = h

  pause-Kept : (w : World) → KeptWorld w → KeptWorld (pause net w)
  unfolding pause
  pause-Kept w (h, e) = (cancel_on_server-Kept (net.press w.step) w.upload_id _ _ w.server h, e)

  abbrev KeepsTrack : (Bool → System → ℕ → Handler) → Type 0
  KeepsTrack handle =
      (auth : Bool) (os : System) (now : ℕ) (s : Server)
      → Tracks bytes chunk final_path id s
      → Tracks bytes chunk final_path id (handle auth os now s).1

  deliver-Kept :
      (fate : Fate) (handle : Handler) (s : Server)
      → Tracks bytes chunk final_path id s
      → Tracks bytes chunk final_path id (handle s).1
      → Tracks bytes chunk final_path id (deliver fate handle s).1
  unfolding deliver
  deliver-Kept delivered handle s h k = k
  deliver-Kept lost handle s h k = h
  deliver-Kept answer_lost handle s h k = k
  deliver-Kept gateway handle s h k = h
  deliver-Kept gateway_after handle s h k = k

  request-Kept :
      (handle : Bool → System → ℕ → Handler) (w : World)
      → KeepsTrack handle
      → KeptWorld w
      → KeptWorld (request net handle w).1
  unfolding request
  request-Kept handle w keeps (h, e) =
      let handler = handle (net.authenticated w.step) (net.system w.step) (net.clock w.step) in
      let told = deliver (net.fate w.step) handler w.server in
      pause-Kept (record w { server = told.1 })
        (deliver-Kept (net.fate w.step) handler w.server h (keeps _ _ _ w.server h), e)

  module _ (positive : 0 < chunk) (k : ℕ) where
    abbrev part : List ℕ
    part = slice bytes (k * chunk) (min (length bytes) (k * chunk + chunk))

    send_chunk-Kept : (w : World) → KeptWorld w → KeptWorld (send_chunk net id k part w).1
    unfolding send_chunk
    send_chunk-Kept w h =
        request-Kept (chunk_handler id k part) w
          (λ auth os now s. upload_chunk-Kept bytes chunk final_path id auth k os now s positive) h

    chunk_received-Kept : (w : World) → KeptWorld w → KeptWorld (chunk_received net id k part w).1
    unfolding chunk_received
    chunk_received-Kept w h =
        request-Kept (status_handler id) w
          (λ auth os now s. status-Kept bytes chunk final_path id auth now s) h

    before_next-Kept : (left : ℕ) (w : World) → KeptWorld w → KeptWorld (before_next net left w)
    unfolding before_next
    before_next-Kept zero w h = h
    before_next-Kept (suc left) w h = pause-Kept w h

    retry-Kept :
        (left : ℕ) (w : World)
        → KeptWorld w
        → KeptWorld (send_chunk_with_retry net id k part left w).1
    unfolding send_chunk_with_retry
    retry-Kept zero w h = h
    retry-Kept (suc left) w h =
        let tried = send_chunk-Kept w h in
        let asked = chunk_received-Kept (send_chunk net id k part w).1 tried in
        let again = retry-Kept left _ (before_next-Kept left _ asked) in
        if_holds KeptWorld w.cancelled _ _ h (
          by_attempt_holds KeptWorld (send_chunk net id k part w).0 _ _ _ tried
            (if_holds KeptWorld (send_chunk net id k part w).1.cancelled _ _ tried (
              if_holds KeptWorld (chunk_received net id k part (send_chunk net id k part w).1).0 _ _
                asked again))
            tried)

  pub send_chunks-Kept :
      (positive : 0 < chunk) (left index : ℕ) (w : World)
      → KeptWorld w
      → KeptWorld (send_chunks net bytes id chunk left index w).1
  unfolding send_chunks
  send_chunks-Kept positive zero index w h = h
  send_chunks-Kept positive (suc left) index w h =
      let tried = retry-Kept positive index attempts w h in
      if_holds KeptWorld w.cancelled _ _ h (
        by_attempt_holds KeptWorld _ _ _ _ (send_chunks-Kept positive left (suc index) _ tried)
          tried tried)
