-- ===== src/Connection/Expiry.antt =====
-- How the server ends a terminal connection (`webSocket` of internal/server/server.go), and what
-- the page (internal/app/static/app.js) makes of it.
use termdock.Base.{ℕ, ◌≡◌, Bool, true, false, not, arith, if◌then◌else◌, get_elem?, is_some}
use termdock.Connection.{Page, is_current, schedule_reconnect, on_close}
use termdock.Connection.Events.{closes, can_close, step}

-- The ways in which a connection ends: the HTTP answer of a refused upgrade, a close frame, or a
-- connection that is dropped without one.
pub data Ending : Type 0 where
  refused : ℕ → Ending
  frame : ℕ → Ending
  dropped : Ending

-- Why a bridged connection ends, where the page has not closed it: gorilla/websocket answers a message
-- beyond the read limit with code 1009 and a broken frame with code 1002; all else is
-- `connection.Close()`, which writes no close frame.
pub data Reason : Type 0 where
  message_too_big protocol_error other_reason : Reason

abbrev pub ending_of : Reason → Ending
ending_of message_too_big = frame 1009
ending_of protocol_error = frame 1002
ending_of other_reason = dropped

-- `webSocket`, from its checks to the end of the connection.
unfoldable pub web_socket : Bool → Bool → Bool → Reason → Ending
web_socket authenticated valid_origin attached reason =
    if not authenticated
    then refused 401
    else if not valid_origin
    then refused 403
    else if not attached
    then frame 1011
    else ending_of reason

-- The code of the browser's close event: 1006 where no close frame came.
unfoldable pub close_code : Ending → ℕ
close_code (refused status) = 1006
close_code (frame code) = code
close_code dropped = 1006

-- However the server ends the page's current connection, a lost login (`authenticated` false)
-- included, the page takes it for a broken network: it does not stop, does not show the login and
-- keeps a reconnect pending.
pub web_socket-retries :
    (authenticated valid_origin attached : Bool) (reason : Reason) (i delay : ℕ) (p : Page)
    → p.stopped ≡ false
    → is_current i p.socket ≡ true
    → can_close (get_elem? p.sockets i) ≡ true
    → let q =
        step
          (closes i (close_code (web_socket authenticated valid_origin attached reason)) delay)
          p in
      (q.stopped ≡ false) × (q.login_hidden ≡ p.login_hidden) × (is_some q.timer ≡ true)
unfolding step on_close web_socket close_code schedule_reconnect
web_socket-retries authenticated valid_origin attached reason i delay p s c h = ground arith
