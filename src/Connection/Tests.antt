-- ===== src/Connection/Tests.antt =====
-- The theorems of the connection's properties (internal/app/static/app.js), applied at pages that
-- the events of a short run lead to.
use termdock.Base.{ℕ, ◌≡◌, refl, true, false, List, [], ◌∷◌, ◌++◌, none, some, is_some}
use termdock.Connection.{
  Page, is_current, close_socket, cancel_reconnect, connect, resize_terminal, on_open, on_data,
  input_chunk_size,
}
use termdock.Connection.Events.{
  Event, opens, closes, timer_fires, logs_in, restores, logs_out, draws, comes_online,
  becomes_visible, enter, step, run, initial,
}
use termdock.Connection.Single.{one_live_socket}
use termdock.Connection.Stopped.{StaysStopped, stopped_until_login}
use termdock.Connection.Recovery.{is_recovering, never_stranded}
use termdock.Connection.Expiry.{web_socket, close_code, other_reason, web_socket-retries}
use termdock.Connection.Messages.{input_of, SmallInputs, on_data-delivers}

abbrev opening : List Event
opening = restores true ∷ opens 0 ∷ []

abbrev opened : Page
opened = run opening initial

-- The connection broke after the size was sent, and the next socket is about to open.
abbrev reopening : Page
reopening = run (draws (some (100, 30)) ∷ closes 0 1006 15000 ∷ timer_fires ∷ []) opened

one_live_socket_example : (◌≡◌ {A = ℕ} 0 0) × (is_current 0 opened.socket ≡ true)
unfolding run step enter connect on_open close_socket cancel_reconnect resize_terminal
one_live_socket_example = one_live_socket opening 0 0 refl refl

never_stranded_example :
    is_recovering (run (closes 0 1006 15000 ∷ timer_fires ∷ []) (step (logs_in true) initial))
    ≡ true
never_stranded_example = never_stranded (closes 0 1006 15000 ∷ timer_fires ∷ []) initial

abbrev until_logout : List Event
until_logout = restores true ∷ opens 0 ∷ logs_out ∷ []

stopped_until_login_example :
    ((run until_logout initial).timer ≡ none)
    × StaysStopped
        (run until_logout initial)
        (run (comes_online ∷ becomes_visible ∷ closes 0 1005 15000 ∷ []) (run until_logout initial))
unfolding run step enter connect on_open close_socket cancel_reconnect resize_terminal
stopped_until_login_example =
    stopped_until_login until_logout (comes_online ∷ becomes_visible ∷ closes 0 1005 15000 ∷ [])
      refl refl

web_socket-retries_example :
    let q = step (closes 0 (close_code (web_socket false true true other_reason)) 15000) opened in
    (q.stopped ≡ false) × (q.login_hidden ≡ opened.login_hidden) × (is_some q.timer ≡ true)
unfolding run step enter connect on_open close_socket cancel_reconnect resize_terminal
web_socket-retries_example =
    web_socket-retries false true true other_reason 0 15000 opened refl refl refl

on_data-delivers_example :
    (input_of 0 (on_data (97 ∷ 98 ∷ []) opened).sent ≡ input_of 0 opened.sent ++ (97 ∷ 98 ∷ []))
    × SmallInputs input_chunk_size (on_data (97 ∷ 98 ∷ []) opened).sent
unfolding run step enter connect on_open close_socket cancel_reconnect resize_terminal
on_data-delivers_example = on_data-delivers 0 (97 ∷ 98 ∷ []) opened refl refl tt
