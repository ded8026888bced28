-- ===== src/Session.antt =====
-- internal/server/persistent_session.go and internal/session/limiter.go: the terminal session that
-- outlives its browser connections, and the limiter of such sessions. A connection is a number.
-- Each function is what the code does while it holds `session.mu`, or the limiter's mutex.
pub mod Host
pub mod Slots
pub mod Clients
pub mod Reaper
mod Tests
use termdock.Base.{
  ℕ, suc, ◌+◌, ◌-◌, Bool, true, false, not, ◌&&◌, ◌||◌, List, [], ◌∷◌, Option, none, some, ltb, leb,
  ◌==◌, if◌then◌else◌, is_some,
}
use termdock.Base.Text.{Text, text_eq}

pub record Limiter : Type 0 where
  pub active : ℕ
  pub maximum : ℕ

unfoldable pub acquire : Limiter → Bool × Limiter
acquire limiter =
    if leb limiter.maximum limiter.active
    then (false, limiter)
    else (true, record limiter { active = suc limiter.active })

unfoldable pub release : Limiter → Limiter
release limiter =
    if ltb 0 limiter.active then record limiter { active = limiter.active - 1 } else limiter

pub record Target : Type 0 where
  pub session : Text
  pub window : ℕ

-- `detached_at` is none for the zero time.
pub record PersistentSession : Type 0 where
  pub client : Option ℕ
  pub client_id : ℕ
  pub is_closed : Bool
  pub detached_at : Option ℕ
  pub retention : ℕ
  pub tmux_target : Option Target

unfoldable pub new_persistent_session : ℕ → PersistentSession
new_persistent_session retention = record {
  client = none;
  client_id = 0;
  is_closed = false;
  detached_at = none;
  retention = retention;
  tmux_target = none;
}

abbrev pub same_client : Option ℕ → ℕ → Bool
same_client none connection = false
same_client (some other) connection = other == connection

unfoldable pub is_current_client : ℕ → ℕ → PersistentSession → Bool
is_current_client connection id s = same_client s.client connection && s.client_id == id

-- The connection that an attachment replaces, and that it closes.
abbrev pub replaced : Option ℕ → ℕ → Option ℕ
replaced none connection = none
replaced (some old) connection = if old == connection then none else some old

pub record Attached : Type 0 where
  -- none for `errTerminalSessionClosed`
  pub id : Option ℕ
  pub closes : Option ℕ
  pub session : PersistentSession

unfoldable pub attach : ℕ → PersistentSession → Attached
attach connection s =
    if s.is_closed then record { id = none; closes = none; session = s } else record {
      id = some (suc s.client_id);
      closes = replaced s.client connection;
      session = record s {
        client_id = suc s.client_id;
        client = some connection;
        detached_at = none;
      };
    }

unfoldable pub detach : ℕ → ℕ → ℕ → PersistentSession → PersistentSession
unfolding is_current_client
detach connection id now s =
    if is_current_client connection id s
    then record s { client = none; detached_at = some now }
    else s

-- What of the input of a connection reaches the terminal.
unfoldable pub write : ℕ → ℕ → List ℕ → PersistentSession → Option (List ℕ)
write connection id bytes s = if is_current_client connection id s then some bytes else none

-- `publish` for a read of the terminal: the connection that the output is written to. A write that
-- fails detaches it.
abbrev pub publish_to : Option ℕ → Bool → ℕ → PersistentSession → Option ℕ × PersistentSession
publish_to none written now s = (none, s)
publish_to (some connection) written now s =
    if written then (some connection, s) else (none, detach connection s.client_id now s)

unfoldable pub publish : Bool → ℕ → PersistentSession → Option ℕ × PersistentSession
publish written now s = publish_to s.client written now s

-- The connection that the end of the session closes, if any.
unfoldable pub close : PersistentSession → Option ℕ × PersistentSession
close s =
    if s.is_closed then (none, s) else (s.client, record s { is_closed = true; client = none })

abbrev pub names_session : Text → Option Target → Bool
names_session name none = false
names_session name (some target) = text_eq target.session name

unfoldable pub set_tmux_target : Target → PersistentSession → PersistentSession
set_tmux_target target s = record s { tmux_target = some target }

unfoldable pub clear_tmux_target : Text → PersistentSession → PersistentSession
clear_tmux_target name s =
    if names_session name s.tmux_target then record s { tmux_target = none } else s

abbrev pub renamed : Text → Text → Option Target → Option Target
renamed old_name new_name none = none
renamed old_name new_name (some target) =
    if text_eq target.session old_name
    then some (record target { session = new_name })
    else some target

unfoldable pub rename_tmux_target : Text → Text → PersistentSession → PersistentSession
rename_tmux_target old_name new_name s = record s {
  tmux_target = renamed old_name new_name s.tmux_target;
}
