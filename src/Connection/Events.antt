-- ===== src/Connection/Events.antt =====
-- internal/app/static/app.js: what can happen to the page, as one step function. The browser's
-- part is in the guards: a socket opens from CONNECTING alone, and reports its close once.
use termdock.Base.{
  ℕ, Bool, true, false, List, [], ◌∷◌, Option, none, some, if◌then◌else◌, is_some, get_elem?, set,
}
use termdock.Connection.{
  ReadyState, connecting, open_state, closed, Status, Page, close_socket, cancel_reconnect,
  schedule_reconnect, connect, resize_terminal, run_frame, on_open, on_error, on_message, on_close,
  on_data,
}

pub data Event : Type 0 where
  opens : ℕ → Event
  errs : ℕ → Event
  -- The socket, the close code and the delay drawn for a reconnect.
  closes : ℕ → ℕ → ℕ → Event
  receives : ℕ → Event
  timer_fires : Event
  comes_online : Event
  becomes_visible : Event
  -- The answer to the login form, or to the status request of `restoreSession`, was 2xx or not.
  logs_in : Bool → Event
  restores : Bool → Event
  logs_out : Event
  resizes : Event
  draws : Option (ℕ × ℕ) → Event
  types : List ℕ → Event

abbrev pub is_connecting_state : Option ReadyState → Bool
is_connecting_state (some connecting) = true
is_connecting_state _ = false

-- A socket that exists and has not reported its close.
abbrev pub can_close : Option ReadyState → Bool
can_close none = false
can_close (some closed) = false
can_close (some _) = true

unfoldable pub enter : Bool → Page → Page
enter false p = p
enter true p = connect (record p { stopped = false; login_hidden = true; terminal_hidden = false })

unfoldable pub comes_back : Page → Page
comes_back p = schedule_reconnect 0 (cancel_reconnect p)

abbrev pub close_current : Option ℕ → Page → Page
close_current none p = p
close_current (some i) p = close_socket i p

-- The timer's callback, if one is pending.
abbrev pub fire : Option ℕ → Page → Page
fire none p = p
fire (some _) p = connect (record p { timer = none })

-- The frame's callback, if one is pending.
abbrev pub draw : Bool → Option (ℕ × ℕ) → Page → Page
draw false fit p = p
draw true fit p = run_frame fit p

unfoldable pub step : Event → Page → Page
step (opens i) p =
    if is_connecting_state (get_elem? p.sockets i)
    then on_open i (record p { sockets = set p.sockets i open_state })
    else p
step (errs i) p = on_error i p
step (closes i code delay) p =
    if can_close (get_elem? p.sockets i)
    then on_close i code delay (record p { sockets = set p.sockets i closed })
    else p
step (receives i) p = on_message i p
step timer_fires p = fire p.timer p
step comes_online p = comes_back p
step becomes_visible p = if is_some p.socket then p else comes_back p
step (logs_in ok) p = enter ok p
step (restores ok) p = enter ok p
step logs_out p = close_current p.socket (record (cancel_reconnect p) { stopped = true })
step resizes p = resize_terminal p
step (draws fit) p = draw p.frame fit p
step (types bytes) p = on_data bytes p

unfoldable pub run : List Event → Page → Page
run [] p = p
run (e ∷ es) p = run es (step e p)

-- The page as it is loaded.
abbrev pub initial : Page
initial = record {
  stopped = false;
  timer = none;
  socket = none;
  sockets = [];
  status = Status.unset;
  login_hidden = false;
  terminal_hidden = true;
  frame = false;
  cols = 80;
  rows = 24;
  last_cols = 0;
  last_rows = 0;
  at_bottom = true;
  new_output_hidden = true;
  sent = [];
}
