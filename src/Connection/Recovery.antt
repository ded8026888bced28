-- ===== src/Connection/Recovery.antt =====
-- internal/app/static/app.js: once it has logged in, the page is never left without a way back: it
-- is stopped, or a reconnect is pending, or its socket will still report its close.
use termdock.Base.{
  ℕ, zero, suc, ◌≡◌, refl, inl, inr, Bool, true, false, not, ◌&&◌, ◌||◌, List, [], ◌∷◌, ◌++◌,
  Option, none, some, arith, ◌==◌, Bool-cases, if◌then◌else◌, length, get_elem?, set, is_some,
}
use termdock.Connection.{
  ReadyState, connecting, open_state, closed, Page, state_of, is_live, is_current, closing_state,
  close_socket, cancel_reconnect, schedule_reconnect, connect, resize_terminal, run_frame, on_open,
  on_error, on_message, on_close, on_data, send, send_all, Message, chunks, input_chunk_size,
  is_open,
}
use termdock.Connection.Single.{current_state}
use termdock.Connection.Events.{
  Event, opens, errs, closes, receives, timer_fires, comes_online, becomes_visible, logs_in,
  restores, logs_out, resizes, draws, types, is_connecting_state, can_close, fire, draw, enter,
  comes_back, close_current, step, run,
}

abbrev pub is_recovering : Page → Bool
is_recovering p = p.stopped || (is_some p.timer || can_close (state_of p.socket p.sockets))

can_close-set :
    (xs : List ReadyState) (i j : ℕ) (v : ReadyState)
    → can_close (some v) ≡ true
    → can_close (get_elem? xs j) ≡ true
    → can_close (get_elem? (set xs i v) j) ≡ true
can_close-set [] i j v c h = h
can_close-set (x ∷ xs) zero zero v c h = c
can_close-set (x ∷ xs) zero (suc j) v c h = h
can_close-set (x ∷ xs) (suc i) zero v c h = h
can_close-set (x ∷ xs) (suc i) (suc j) v c h = can_close-set xs i j v c h

can_close-closing :
    (xs : List ReadyState) (i j : ℕ)
    → can_close (get_elem? xs j) ≡ true
    → can_close (get_elem? (set xs i (closing_state (get_elem? xs i))) j) ≡ true
can_close-closing [] i j h = h
can_close-closing (x ∷ xs) zero zero h = ground arith
can_close-closing (x ∷ xs) zero (suc j) h = h
can_close-closing (x ∷ xs) (suc i) zero h = h
can_close-closing (x ∷ xs) (suc i) (suc j) h = can_close-closing xs i j h

get_elem?-set_other :
    (xs : List ReadyState) (i j : ℕ) (v : ReadyState)
    → (i == j) ≡ false
    → get_elem? (set xs i v) j ≡ get_elem? xs j
get_elem?-set_other [] i j v d = refl
get_elem?-set_other (x ∷ xs) zero zero v d = absurd (ground arith)
get_elem?-set_other (x ∷ xs) zero (suc j) v d = refl
get_elem?-set_other (x ∷ xs) (suc i) zero v d = refl
get_elem?-set_other (x ∷ xs) (suc i) (suc j) v d = get_elem?-set_other xs i j v (ground arith)

can_close-append :
    (xs ys : List ReadyState) (j : ℕ)
    → can_close (get_elem? xs j) ≡ true
    → can_close (get_elem? (xs ++ ys) j) ≡ true
can_close-append [] ys j h = absurd (ground arith)
can_close-append (x ∷ xs) ys zero h = h
can_close-append (x ∷ xs) ys (suc j) h = can_close-append xs ys j h

new_can_close :
    (xs : List ReadyState) → can_close (get_elem? (xs ++ (connecting ∷ [])) (length xs)) ≡ true
new_can_close [] = refl
new_can_close (x ∷ xs) = new_can_close xs

live_can_close : (o : Option ReadyState) → is_live o ≡ true → can_close o ≡ true
live_can_close o h = ground arith

connect_recovers : (p : Page) → is_recovering (connect p) ≡ true
unfolding connect
connect_recovers p =
    ground (arith, live_can_close (state_of p.socket p.sockets), new_can_close p.sockets)

comes_back_recovers : (p : Page) → is_recovering (comes_back p) ≡ true
unfolding comes_back schedule_reconnect cancel_reconnect
comes_back_recovers p = ground (arith, live_can_close (state_of p.socket p.sockets))

close_socket_recovers :
    (i : ℕ) (p : Page) → is_recovering p ≡ true → is_recovering (close_socket i p) ≡ true
unfolding close_socket
close_socket_recovers i p h = by_socket p.socket refl
  where
    by_socket : (socket : Option ℕ) → p.socket ≡ socket → is_recovering (close_socket i p) ≡ true
    by_socket none e = ground arith
    by_socket (some j) e = ground (arith, can_close-closing p.sockets i j)

on_open_recovers :
    (i : ℕ) (p : Page)
    → is_recovering p ≡ true
    → can_close (get_elem? p.sockets i) ≡ true
    → is_recovering (on_open i p) ≡ true
unfolding on_open resize_terminal cancel_reconnect
on_open_recovers i p h c =
    ground (arith, close_socket_recovers i p h, current_state i p.socket p.sockets)

on_close_recovers :
    (i code delay : ℕ) (p : Page)
    → (is_current i p.socket ≡ false → is_recovering p ≡ true)
    → is_recovering (on_close i code delay p) ≡ true
unfolding on_close cancel_reconnect schedule_reconnect
on_close_recovers i code delay p h = ground arith

if_recovers :
    (test : Bool) (p q : Page)
    → is_recovering p ≡ true
    → is_recovering q ≡ true
    → is_recovering (if test then p else q) ≡ true
if_recovers true p q h k = h
if_recovers false p q h k = k

opened_recovers :
    (i : ℕ) (p : Page)
    → is_recovering p ≡ true
    → is_recovering (record p { sockets = set p.sockets i open_state }) ≡ true
opened_recovers i p h = by_socket p.socket refl
  where
    by_socket :
        (socket : Option ℕ)
        → p.socket ≡ socket
        → is_recovering (record p { sockets = set p.sockets i open_state }) ≡ true
    by_socket none e = ground arith
    by_socket (some j) e = ground (arith, can_close-set p.sockets i j open_state refl)

other_closed_recovers :
    (i : ℕ) (p : Page)
    → is_recovering p ≡ true
    → is_current i p.socket ≡ false
    → is_recovering (record p { sockets = set p.sockets i closed }) ≡ true
other_closed_recovers i p h d = by_socket p.socket refl
  where
    by_socket :
        (socket : Option ℕ)
        → p.socket ≡ socket
        → is_recovering (record p { sockets = set p.sockets i closed }) ≡ true
    by_socket none e = ground arith
    by_socket (some j) e = ground (arith, get_elem?-set_other p.sockets i j closed)

enter_recovers : (ok : Bool) (p : Page) → is_recovering p ≡ true → is_recovering (enter ok p) ≡ true
unfolding enter
enter_recovers false p h = h
enter_recovers true p h = connect_recovers _

send_all_recovers :
    (parts : List (List ℕ)) (p : Page)
    → is_recovering p ≡ true
    → is_recovering (send_all parts p) ≡ true
send_all_recovers [] p h = h
send_all_recovers (part ∷ parts) p h =
    send_all_recovers parts (send (Message.input part) p) (ground arith)

draw_recovers :
    (frame : Bool) (fit : Option (ℕ × ℕ)) (p : Page)
    → is_recovering p ≡ true
    → is_recovering (draw frame fit p) ≡ true
unfolding run_frame
draw_recovers false fit p h = h
draw_recovers true none p h = if_recovers p.terminal_hidden _ _ h h
draw_recovers true (some (cols, rows)) p h = if_recovers p.terminal_hidden _ _ h (
    if_recovers
      (is_open (state_of p.socket p.sockets)
        && (not (cols == p.last_cols) || not (rows == p.last_rows)))
      _ _ (sent p.socket refl) h)
  where
    sent :
        (socket : Option ℕ)
        → p.socket ≡ socket
        → is_recovering (
            send (Message.resize cols rows) (record p {
              frame = false;
              cols = cols;
              rows = rows;
              new_output_hidden = p.at_bottom || p.new_output_hidden;
              last_cols = cols;
              last_rows = rows;
            }))
          ≡ true
    sent none e = ground arith
    sent (some i) e = ground arith

can_open_close :
    (xs : List ReadyState) (i : ℕ)
    → is_connecting_state (get_elem? xs i) ≡ true
    → can_close (get_elem? (set xs i open_state) i) ≡ true
can_open_close xs i c = can_close-set xs i i open_state refl (ground arith)

step_recovers : (e : Event) (p : Page) → is_recovering p ≡ true → is_recovering (step e p) ≡ true
unfolding step
step_recovers (opens i) p h = elim (Bool-cases (is_connecting_state (get_elem? p.sockets i))) [
  | inl c ↦ simp c (
      on_open_recovers i (record p { sockets = set p.sockets i open_state }) (opened_recovers i p h)
        (can_open_close p.sockets i c))
  | inr c ↦ simp c h
]
step_recovers (errs i) p h = unfold on_error in close_socket_recovers i p h
step_recovers (closes i code delay) p h =
    if_recovers (can_close (get_elem? p.sockets i)) _ p
      (on_close_recovers i code delay (record p { sockets = set p.sockets i closed })
        (other_closed_recovers i p h))
      h
step_recovers (receives i) p h = unfold on_message in if_recovers (is_current i p.socket) _ p h h
step_recovers timer_fires p h = fires p.timer refl
  where
    fires : (timer : Option ℕ) → p.timer ≡ timer → is_recovering (fire timer p) ≡ true
    fires none e = h
    fires (some _) e = connect_recovers _
step_recovers comes_online p h = comes_back_recovers p
step_recovers becomes_visible p h = if_recovers (is_some p.socket) p _ h (comes_back_recovers p)
step_recovers (logs_in ok) p h = enter_recovers ok p h
step_recovers (restores ok) p h = enter_recovers ok p h
step_recovers logs_out p h = leaves p.socket
  where
    leaves :
        (socket : Option ℕ)
        → is_recovering (close_current socket (record (cancel_reconnect p) { stopped = true }))
          ≡ true
    leaves none = refl
    leaves (some i) = unfold close_socket in refl
step_recovers resizes p h = unfold resize_terminal in h
step_recovers (draws fit) p h = draw_recovers p.frame fit p h
step_recovers (types bytes) p h =
    unfold on_data in
    if_recovers (is_open (state_of p.socket p.sockets)) _ p
      (send_all_recovers (chunks (length bytes) input_chunk_size bytes) p h) h

run_recovers :
    (es : List Event) (p : Page) → is_recovering p ≡ true → is_recovering (run es p) ≡ true
unfolding run
run_recovers [] p h = h
run_recovers (e ∷ es) p h = run_recovers es (step e p) (step_recovers e p h)

-- Once a login or a restored session has succeeded, no sequence of events leaves the page stuck:
-- it has been stopped (by a logout, or a close for a lost login), or a reconnect is pending, or its
-- current socket exists and will still report its close.
pub never_stranded :
    (es : List Event) (p : Page) → is_recovering (run es (step (logs_in true) p)) ≡ true
unfolding step enter
never_stranded es p = run_recovers es _ (connect_recovers _)
