-- ===== src/Connection.antt =====
-- internal/app/static/app.js, the terminal's connection: the WebSocket and its handlers, the
-- reconnect timer, login and logout, and the messages that the page sends. A socket is an index
-- into the list of all sockets that the page ever made, so that a handler's `current` and the
-- page's `socket` can differ.
pub mod Events
pub mod Single
pub mod Stopped
pub mod Recovery
pub mod Expiry
pub mod Messages
pub mod Delay
mod Tests
use termdock.Base.{
  ℕ, ◌+◌, ◌-◌, ◌*◌, ◌/◌, Bool, true, false, not, ◌&&◌, ◌||◌, List, [], ◌∷◌, ◌++◌, Option, none,
  some, ◌==◌, if◌then◌else◌, is_some, length, get_elem?, set, take, drop,
}

pub data ReadyState : Type 0 where
  connecting open_state closing closed : ReadyState

pub data Status : Type 0 where
  unset : Status
  is_connecting : Status
  is_connected : Status
  -- The seconds that the text names, 0 for the text without them.
  is_reconnecting : ℕ → Status
  is_expired : Status

pub data Message : Type 0 where
  resize : ℕ → ℕ → Message
  input : List ℕ → Message

pub record Page : Type 0 where
  pub stopped : Bool
  -- The delay of the pending `reconnectTimer`.
  pub timer : Option ℕ
  pub socket : Option ℕ
  pub sockets : List ReadyState
  pub status : Status
  pub login_hidden : Bool
  pub terminal_hidden : Bool
  -- Is a `resizeFrame` pending?
  pub frame : Bool
  pub cols : ℕ
  pub rows : ℕ
  pub last_cols : ℕ
  pub last_rows : ℕ
  pub at_bottom : Bool
  pub new_output_hidden : Bool
  -- Every message with the socket that took it, the last one first.
  pub sent : List (ℕ × Message)

-- `socket?.readyState`.
abbrev pub state_of : Option ℕ → List ReadyState → Option ReadyState
state_of none sockets = none
state_of (some i) sockets = get_elem? sockets i

abbrev pub is_open : Option ReadyState → Bool
is_open (some open_state) = true
is_open _ = false

-- OPEN or CONNECTING.
abbrev pub is_live : Option ReadyState → Bool
is_live (some open_state) = true
is_live (some connecting) = true
is_live _ = false

abbrev pub is_current : ℕ → Option ℕ → Bool
is_current i none = false
is_current i (some j) = i == j

-- `socket.close()`: a socket that is closed already stays so.
abbrev pub closing_state : Option ReadyState → ReadyState
closing_state (some closed) = closed
closing_state _ = closing

unfoldable pub close_socket : ℕ → Page → Page
close_socket i p = record p { sockets = set p.sockets i (closing_state (get_elem? p.sockets i)) }

unfoldable pub cancel_reconnect : Page → Page
cancel_reconnect p = record p { timer = none }

-- 15000 * (1 - 0.2 + random * 0.2 * 2), rounded, for a random number `part / whole` below 1.
unfoldable pub reconnect_delay : ℕ → ℕ → ℕ
reconnect_delay part whole = 12000 + (12000 * part + whole) / (2 * whole)

-- The seconds in the status text, `Math.ceil(delay / 1000)`.
abbrev pub seconds_up : ℕ → ℕ
seconds_up delay = (delay + 999) / 1000

-- The delay that was drawn is given, 0 for an immediate reconnect.
unfoldable pub schedule_reconnect : ℕ → Page → Page
schedule_reconnect delay p =
    if p.stopped || (is_some p.timer || is_live (state_of p.socket p.sockets))
    then p
    else record p { timer = some delay; status = is_reconnecting (seconds_up delay) }

unfoldable pub connect : Page → Page
connect p = if p.stopped || is_live (state_of p.socket p.sockets) then p else record p {
  status = is_connecting;
  socket = some (length p.sockets);
  sockets = p.sockets ++ (connecting ∷ []);
}

unfoldable pub resize_terminal : Page → Page
resize_terminal p = record p { frame = true }

abbrev pub send : Message → Page → Page
send message p = elim p.socket [ none ↦ p | some i ↦ record p { sent = (i, message) ∷ p.sent } ]

-- The callback of `requestAnimationFrame`. `fit` gives the size that the screen has room for, none
-- where the screen is empty.
unfoldable pub run_frame : Option (ℕ × ℕ) → Page → Page
run_frame fit p =
    let q = record p { frame = false } in
    if q.terminal_hidden then q else elim fit [
      | none ↦ q
      | some (cols, rows) ↦
          let fitted = record q {
            cols = cols;
            rows = rows;
            new_output_hidden = q.at_bottom || q.new_output_hidden;
          } in
          if is_open (state_of p.socket p.sockets)
            && (not (cols == p.last_cols) || not (rows == p.last_rows))
          then send (resize cols rows) (record fitted { last_cols = cols; last_rows = rows })
          else fitted
    ]

-- The handlers of socket `i`.
unfoldable pub on_open : ℕ → Page → Page
unfolding close_socket cancel_reconnect resize_terminal
on_open i p =
    if is_current i p.socket
    then resize_terminal (record (cancel_reconnect p) { status = is_connected })
    else close_socket i p

unfoldable pub on_error : ℕ → Page → Page
unfolding close_socket
on_error i p = close_socket i p

-- The output handler; the terminal follows it where it stood at the bottom.
unfoldable pub on_message : ℕ → Page → Page
on_message i p = if is_current i p.socket then record p { new_output_hidden = p.at_bottom } else p

abbrev pub is_auth_code : ℕ → Bool
is_auth_code code = code == 1008 || code == 4401

unfoldable pub on_close : ℕ → ℕ → ℕ → Page → Page
unfolding cancel_reconnect schedule_reconnect
on_close i code delay p =
    let q = record p { socket = none } in
    if not (is_current i p.socket)
    then p
    else if is_auth_code code
    then cancel_reconnect (record q {
      status = is_expired;
      stopped = true;
      login_hidden = false;
      terminal_hidden = true;
    })
    else schedule_reconnect delay q

-- `terminalView.onData`, for the bytes of the text: chunks of at most `size`, in order.
unfoldable pub chunks : ℕ → ℕ → List ℕ → List (List ℕ)
chunks fuel size [] = []
chunks ℕ.zero size (b ∷ bs) = []
chunks (ℕ.suc fuel) size (b ∷ bs) = take size (b ∷ bs) ∷ chunks fuel size (drop size (b ∷ bs))

abbrev pub input_chunk_size : ℕ
input_chunk_size = 32768

abbrev pub send_all : List (List ℕ) → Page → Page
send_all [] p = p
send_all (part ∷ parts) p = send_all parts (send (input part) p)

unfoldable pub on_data : List ℕ → Page → Page
unfolding chunks
on_data bytes p =
    if is_open (state_of p.socket p.sockets)
    then send_all (chunks (length bytes) input_chunk_size bytes) p
    else p
