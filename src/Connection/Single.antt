-- ===== src/Connection/Single.antt =====
-- internal/app/static/app.js: the page has at most one live WebSocket.
use termdock.Base.{
  ℕ, zero, suc, ◌≡◌, refl, ◌⊎◌, inl, inr, Bool, true, false, List, [], ◌∷◌, ◌++◌, Option, none,
  some, arith, Bool-cases, if◌then◌else◌, length, get_elem?, set, ==_iff, is_some,
}
use termdock.Connection.{
  ReadyState, connecting, open_state, closed, Page, state_of, is_live, is_current, closing_state,
  close_socket, cancel_reconnect, schedule_reconnect, connect, resize_terminal, run_frame, on_open,
  on_error, on_message, on_close, on_data, send, send_all, Message, chunks, input_chunk_size,
  is_open,
}
use termdock.Connection.Events.{
  Event, opens, errs, closes, receives, timer_fires, comes_online, becomes_visible, logs_in,
  restores, logs_out, resizes, draws, types, is_connecting_state, can_close, fire, draw, enter,
  comes_back, close_current, step, run, initial,
}

-- Every live socket is the page's current one, and a stopped page waits for no reconnect.
pub record Inv (p : Page) : Type 0 where
  pub live_current : (i : ℕ) → is_live (get_elem? p.sockets i) ≡ true → is_current i p.socket ≡ true
  pub stopped_idle : p.stopped ≡ true → p.timer ≡ none

live-set :
    (xs : List ReadyState) (i j : ℕ) (v : ReadyState)
    → is_live (some v) ≡ false
    → is_live (get_elem? (set xs i v) j) ≡ true
    → is_live (get_elem? xs j) ≡ true
live-set [] i j v d h = h
live-set (x ∷ xs) zero zero v d h = ground arith
live-set (x ∷ xs) zero (suc j) v d h = h
live-set (x ∷ xs) (suc i) zero v d h = h
live-set (x ∷ xs) (suc i) (suc j) v d h = live-set xs i j v d h

live-set_open :
    (xs : List ReadyState) (i j : ℕ)
    → is_connecting_state (get_elem? xs i) ≡ true
    → is_live (get_elem? (set xs i open_state) j) ≡ true
    → is_live (get_elem? xs j) ≡ true
live-set_open [] i j c h = h
live-set_open (x ∷ xs) zero zero c h = ground arith
live-set_open (x ∷ xs) zero (suc j) c h = h
live-set_open (x ∷ xs) (suc i) zero c h = h
live-set_open (x ∷ xs) (suc i) (suc j) c h = live-set_open xs i j c h

live-append :
    (xs : List ReadyState) (j : ℕ)
    → is_live (get_elem? (xs ++ (connecting ∷ [])) j) ≡ true
    → (is_live (get_elem? xs j) ≡ true) ⊎ (j ≡ length xs)
live-append [] zero h = inr refl
live-append [] (suc j) h = inl h
live-append (x ∷ xs) zero h = inl h
live-append (x ∷ xs) (suc j) h = ground (arith, live-append xs j h)

closing_state-dead : (o : Option ReadyState) → is_live (some (closing_state o)) ≡ false
closing_state-dead o = ground arith

-- The current socket's state, where a socket is current.
pub current_state :
    (i : ℕ) (socket : Option ℕ) (xs : List ReadyState)
    → is_current i socket ≡ true
    → state_of socket xs ≡ get_elem? xs i
current_state i none xs h = cc
current_state i (some j) xs h = cc ((==_iff i j).0 h)

connect-Inv : (p : Page) → Inv p → Inv (connect p)
unfolding connect
connect-Inv p v = record {
  live_current = λ i h.
      ground (arith, v.live_current i, live-append p.sockets i, current_state i p.socket p.sockets);
  stopped_idle = ground arith;
}

close_socket-Inv : (i : ℕ) (p : Page) → Inv p → Inv (close_socket i p)
unfolding close_socket
close_socket-Inv i p v = record {
  live_current = λ j h.
      v.live_current j (live-set p.sockets i j _ (closing_state-dead (get_elem? p.sockets i)) h);
  stopped_idle = v.stopped_idle;
}

schedule_reconnect-Inv : (delay : ℕ) (p : Page) → Inv p → Inv (schedule_reconnect delay p)
unfolding schedule_reconnect
schedule_reconnect-Inv delay p v = record {
  live_current = λ j h. ground (arith, v.live_current j);
  stopped_idle = ground arith;
}

cancel_reconnect-Inv : (p : Page) → Inv p → Inv (cancel_reconnect p)
unfolding cancel_reconnect
cancel_reconnect-Inv p v = record { live_current = v.live_current; stopped_idle = λ h. refl }

send-Inv : (message : Message) (p : Page) → Inv p → Inv (send message p)
send-Inv message p v = record {
  live_current = λ i h. ground (arith, v.live_current i);
  stopped_idle = ground arith;
}

send_all-Inv : (parts : List (List ℕ)) (p : Page) → Inv p → Inv (send_all parts p)
send_all-Inv [] p v = v
send_all-Inv (part ∷ parts) p v =
    send_all-Inv parts (send (Message.input part) p) (send-Inv (Message.input part) p v)

on_open-Inv : (i : ℕ) (p : Page) → Inv p → Inv (on_open i p)
unfolding on_open
on_open-Inv i p v = record {
  live_current = λ j h. ground (arith, v.live_current j, (close_socket-Inv i p v).live_current j);
  stopped_idle = ground arith;
}

on_close-Inv :
    (i code delay : ℕ) (p : Page)
    → Inv p
    → is_live (get_elem? p.sockets i) ≡ false
    → Inv (on_close i code delay p)
unfolding on_close
on_close-Inv i code delay p v dead = record {
  live_current = λ j h. ground (
    arith,
    v.live_current j,
    current_state j p.socket p.sockets,
    current_state i p.socket p.sockets,
  );
  stopped_idle = ground arith;
}

run_frame-Inv : (fit : Option (ℕ × ℕ)) (p : Page) → Inv p → Inv (run_frame fit p)
unfolding run_frame
run_frame-Inv fit p v = record {
  live_current = λ j h. ground (arith, v.live_current j);
  stopped_idle = ground arith;
}

enter-Inv : (ok : Bool) (p : Page) → Inv p → Inv (enter ok p)
unfolding enter
enter-Inv false p v = v
enter-Inv true p v =
    connect-Inv _
      (record { live_current = v.live_current; stopped_idle = λ h. absurd (ground arith) })

comes_back-Inv : (p : Page) → Inv p → Inv (comes_back p)
unfolding comes_back
comes_back-Inv p v = schedule_reconnect-Inv 0 _ (cancel_reconnect-Inv p v)

dead_after_close : (xs : List ReadyState) (i : ℕ) → is_live (get_elem? (set xs i closed) i) ≡ false
dead_after_close [] i = refl
dead_after_close (x ∷ xs) zero = refl
dead_after_close (x ∷ xs) (suc i) = dead_after_close xs i

if_Inv : (test : Bool) (p q : Page) → Inv p → Inv q → Inv (if test then p else q)
if_Inv true p q v w = v
if_Inv false p q v w = w

fire-Inv : (timer : Option ℕ) (p : Page) → Inv p → Inv (fire timer p)
fire-Inv none p v = v
fire-Inv (some _) p v =
    connect-Inv _ (record { live_current = v.live_current; stopped_idle = λ h. refl })

draw-Inv : (frame : Bool) (fit : Option (ℕ × ℕ)) (p : Page) → Inv p → Inv (draw frame fit p)
draw-Inv false fit p v = v
draw-Inv true fit p v = run_frame-Inv fit p v

close_current-Inv : (socket : Option ℕ) (p : Page) → Inv p → Inv (close_current socket p)
close_current-Inv none p v = v
close_current-Inv (some i) p v = close_socket-Inv i p v

-- Every event keeps the invariant.
pub step-Inv : (e : Event) (p : Page) → Inv p → Inv (step e p)
unfolding step cancel_reconnect
step-Inv (opens i) p v = elim (Bool-cases (is_connecting_state (get_elem? p.sockets i))) [
  | inl c ↦ simp c (
      on_open-Inv i (record p { sockets = set p.sockets i open_state })
        (record {
          live_current = λ j h. v.live_current j (live-set_open p.sockets i j c h);
          stopped_idle = v.stopped_idle;
        }))
  | inr c ↦ simp c v
]
step-Inv (errs i) p v = unfold on_error in close_socket-Inv i p v
step-Inv (closes i code delay) p v =
    if_Inv (can_close (get_elem? p.sockets i)) _ p
      (on_close-Inv i code delay (record p { sockets = set p.sockets i closed })
        (record {
          live_current = λ j h. v.live_current j (live-set p.sockets i j closed refl h);
          stopped_idle = v.stopped_idle;
        })
        (dead_after_close p.sockets i))
      v
step-Inv (receives i) p v =
    unfold on_message in
    if_Inv (is_current i p.socket) _ p
      (record { live_current = v.live_current; stopped_idle = v.stopped_idle }) v
step-Inv timer_fires p v = fire-Inv p.timer p v
step-Inv comes_online p v = comes_back-Inv p v
step-Inv becomes_visible p v = if_Inv (is_some p.socket) p _ v (comes_back-Inv p v)
step-Inv (logs_in ok) p v = enter-Inv ok p v
step-Inv (restores ok) p v = enter-Inv ok p v
step-Inv logs_out p v =
    close_current-Inv p.socket _
      (record { live_current = v.live_current; stopped_idle = λ h. refl })
step-Inv resizes p v =
    unfold resize_terminal in
    record { live_current = v.live_current; stopped_idle = v.stopped_idle }
step-Inv (draws fit) p v = draw-Inv p.frame fit p v
step-Inv (types bytes) p v =
    unfold on_data in
    if_Inv (is_open (state_of p.socket p.sockets)) _ p
      (send_all-Inv (chunks (length bytes) input_chunk_size bytes) p v) v

pub run-Inv : (es : List Event) (p : Page) → Inv p → Inv (run es p)
unfolding run
run-Inv [] p v = v
run-Inv (e ∷ es) p v = run-Inv es (step e p) (step-Inv e p v)

pub initial-Inv : Inv initial
initial-Inv = record { live_current = λ i h. absurd (ground arith); stopped_idle = λ h. refl }

current_unique :
    (i j : ℕ) (socket : Option ℕ) → is_current i socket ≡ true → is_current j socket ≡ true → i ≡ j
current_unique i j none h k = cc
current_unique i j (some c) h k = ground arith

-- Whatever happens to the page after it is loaded, at most one of the sockets that it made is
-- connecting or open, and that one is the page's current socket.
pub one_live_socket :
    (es : List Event) (i j : ℕ)
    → let p = run es initial in
      is_live (get_elem? p.sockets i) ≡ true
      → is_live (get_elem? p.sockets j) ≡ true
      → (i ≡ j) × (is_current i p.socket ≡ true)
one_live_socket es i j h k =
    let v = run-Inv es initial initial-Inv in
    let mine = v.live_current i h in
    (current_unique i j (run es initial).socket mine (v.live_current j k), mine)
