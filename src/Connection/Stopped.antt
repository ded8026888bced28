-- ===== src/Connection/Stopped.antt =====
-- internal/app/static/app.js: a stopped page does not connect.
use termdock.Base.{
  ℕ, ◌≡◌, refl, Bool, true, false, not, ◌&&◌, ◌||◌, ◌∙◌, List, [], ◌∷◌, Option, none, some, arith,
  ◌==◌, if◌then◌else◌, length-set, all, length, get_elem?, set,
}
use termdock.Connection.{
  open_state, closed, Page, state_of, is_current, closing_state, close_socket, cancel_reconnect,
  schedule_reconnect, resize_terminal, run_frame, on_open, on_error, on_message, on_close, on_data,
  is_auth_code, send, send_all, Message, chunks, input_chunk_size, is_open,
}
use termdock.Connection.Events.{
  Event, opens, errs, closes, receives, timer_fires, comes_online, becomes_visible, logs_in,
  restores, logs_out, resizes, draws, types, can_close, draw, enter, comes_back, close_current,
  step, run, initial,
}
use termdock.Connection.Single.{run-Inv, initial-Inv}

abbrev pub is_entry : Event → Bool
is_entry (logs_in ok) = ok
is_entry (restores ok) = ok
is_entry _ = false

-- One event other than a successful login leaves a stopped page stopped, with no new socket.
abbrev pub StaysStopped : Page → Page → Type 0
StaysStopped p q = (q.stopped ≡ true) × (q.timer ≡ none) × (length q.sockets ≡ length p.sockets)

close_current-StaysStopped :
    (socket : Option ℕ) (p : Page)
    → p.stopped ≡ true
    → p.timer ≡ none
    → StaysStopped p (close_current socket p)
unfolding close_socket
close_current-StaysStopped none p s t = (s, t, refl)
close_current-StaysStopped (some i) p s t = (s, t, length-set p.sockets i _)

send_all-StaysStopped :
    (parts : List (List ℕ)) (p : Page)
    → p.stopped ≡ true
    → p.timer ≡ none
    → StaysStopped p (send_all parts p)
send_all-StaysStopped [] p s t = (s, t, refl)
send_all-StaysStopped (part ∷ parts) p s t =
    ground (arith, send_all-StaysStopped parts (send (Message.input part) p))

if_StaysStopped :
    (test : Bool) (p q r : Page)
    → StaysStopped p q
    → StaysStopped p r
    → StaysStopped p (if test then q else r)
if_StaysStopped true p q r h k = h
if_StaysStopped false p q r h k = k

send-StaysStopped :
    (message : Message) (p : Page)
    → p.stopped ≡ true
    → p.timer ≡ none
    → StaysStopped p (send message p)
send-StaysStopped message p s t = ground arith

run_frame-StaysStopped :
    (fit : Option (ℕ × ℕ)) (p : Page)
    → p.stopped ≡ true
    → p.timer ≡ none
    → StaysStopped p (run_frame fit p)
unfolding run_frame
run_frame-StaysStopped none p s t =
    if_StaysStopped p.terminal_hidden p _ _ (s, t, refl) (s, t, refl)
run_frame-StaysStopped (some (cols, rows)) p s t =
    if_StaysStopped p.terminal_hidden p _ _ (s, t, refl)
      (if_StaysStopped
        (is_open (state_of p.socket p.sockets)
          && (not (cols == p.last_cols) || not (rows == p.last_rows)))
        p _ _ (send-StaysStopped (Message.resize cols rows) _ s t) (s, t, refl))

draw-StaysStopped :
    (frame : Bool) (fit : Option (ℕ × ℕ)) (p : Page)
    → p.stopped ≡ true
    → p.timer ≡ none
    → StaysStopped p (draw frame fit p)
draw-StaysStopped false fit p s t = (s, t, refl)
draw-StaysStopped true fit p s t = run_frame-StaysStopped fit p s t

on_close-StaysStopped :
    (i code delay : ℕ) (p : Page)
    → p.stopped ≡ true
    → p.timer ≡ none
    → StaysStopped p (on_close i code delay p)
unfolding on_close cancel_reconnect schedule_reconnect
on_close-StaysStopped i code delay p s t =
    if_StaysStopped (not (is_current i p.socket)) p p _ (s, t, refl)
      (if_StaysStopped (is_auth_code code) p _ _ (refl, refl, refl) (ground arith))

step-StaysStopped :
    (e : Event) (p : Page)
    → is_entry e ≡ false
    → p.stopped ≡ true
    → p.timer ≡ none
    → StaysStopped p (step e p)
unfolding step on_open on_error on_message close_socket comes_back cancel_reconnect
    schedule_reconnect resize_terminal
step-StaysStopped (opens i) p n s t = ground (
  arith,
  length-set {0} p.sockets i open_state,
  length-set {0} (set p.sockets i open_state) i
      (closing_state (get_elem? (set p.sockets i open_state) i)),
)
step-StaysStopped (errs i) p n s t =
    ground (arith, length-set {0} p.sockets i (closing_state (get_elem? p.sockets i)))
step-StaysStopped (closes i code delay) p n s t =
    if_StaysStopped (can_close (get_elem? p.sockets i)) p _ p
      (let (a, b, c) =
          on_close-StaysStopped i code delay (record p { sockets = set p.sockets i closed }) s t in
        (a, b, c ∙ length-set p.sockets i closed))
      (s, t, refl)
step-StaysStopped (receives i) p n s t = ground arith
step-StaysStopped timer_fires p n s t = ground arith
step-StaysStopped comes_online p n s t = ground arith
step-StaysStopped becomes_visible p n s t = ground arith
step-StaysStopped (logs_in ok) p n s t = unfold enter in ground arith
step-StaysStopped (restores ok) p n s t = unfold enter in ground arith
step-StaysStopped logs_out p n s t =
    close_current-StaysStopped p.socket (record p { stopped = true; timer = none }) refl refl
step-StaysStopped resizes p n s t = ground arith
step-StaysStopped (draws fit) p n s t = draw-StaysStopped p.frame fit p s t
step-StaysStopped (types bytes) p n s t =
    unfold on_data in
    if_StaysStopped (is_open (state_of p.socket p.sockets)) p _ p
      (send_all-StaysStopped (chunks (length bytes) input_chunk_size bytes) p s t) (s, t, refl)

run-StaysStopped :
    (es : List Event) (p : Page)
    → all (λ e. not (is_entry e)) es ≡ true
    → p.stopped ≡ true
    → p.timer ≡ none
    → StaysStopped p (run es p)
unfolding run
run-StaysStopped [] p h s t = (s, t, refl)
run-StaysStopped (e ∷ es) p h s t =
    let (s', t', l) = step-StaysStopped e p (ground arith) s t in
    let (s'', t'', l') = run-StaysStopped es (step e p) (ground arith) s' t' in (s'', t'', l' ∙ l)

-- Whatever has happened to the page since it was loaded: if it is stopped (after a logout, or a close
-- for a lost login), then it waits for no reconnect, and no sequence of network, timer, window or
-- user events makes it wait for one, go on or open a socket, until a login or a restored session
-- succeeds.
pub stopped_until_login :
    (before es : List Event)
    → all (λ e. not (is_entry e)) es ≡ true
    → (run before initial).stopped ≡ true
    → ((run before initial).timer ≡ none)
      × StaysStopped (run before initial) (run es (run before initial))
stopped_until_login before es h s =
    let idle = (run-Inv before initial initial-Inv).stopped_idle s in
    (idle, run-StaysStopped es (run before initial) h s idle)
