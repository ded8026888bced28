-- ===== src/Tmux.antt =====
-- internal/server/tmux.go: the routes that create, enter, leave, rename and end tmux sessions. What
-- the tmux program answers is a parameter of each request.
pub mod Routes
pub mod Typing
pub mod Names
pub mod Safety
pub mod Order
pub mod Panel
mod Tests
use termdock.Base.{
  ℕ, suc, ◌+◌, Bool, true, false, not, ◌&&◌, ◌||◌, List, [], ◌∷◌, ◌++◌, Option, none, some, ltb,
  leb, ◌==◌, if◌then◌else◌, length, take, all,
}
use termdock.Base.Text.{Text, text_eq, codes, includes}
use termdock.Session.{
  PersistentSession, Target, names_session, set_tmux_target, clear_tmux_target, rename_tmux_target,
}

abbrev pub is_digit : ℕ → Bool
is_digit c = leb b'0' c && leb c b'9'

abbrev pub is_alphanumeric : ℕ → Bool
is_alphanumeric c = is_digit c || ((leb b'A' c && leb c b'Z') || (leb b'a' c && leb c b'z'))

abbrev pub is_name_char : ℕ → Bool
is_name_char c = is_alphanumeric c || (c == b'_' || (c == b'.' || c == b'-'))

-- `^[A-Za-z0-9][A-Za-z0-9_.-]{0,63}$`
unfoldable pub valid_name : Text → Bool
valid_name [] = false
valid_name (c ∷ cs) = is_alphanumeric c && (all is_name_char cs && leb (length cs) 63)

-- `^[0-9]+$`
unfoldable pub valid_index : Text → Bool
valid_index [] = false
valid_index (c ∷ cs) = all is_digit (c ∷ cs)

-- How a command of the tmux program ends, with its output.
pub data Outcome : Type 0 where
  succeeds : Text → Outcome
  fails : Text → Outcome

abbrev pub has_failed : Outcome → Bool
has_failed (succeeds _) = false
has_failed (fails _) = true

abbrev pub output_of : Outcome → Text
output_of (succeeds output) = output
output_of (fails output) = output

-- The world during one request: is tmux installed, how its commands end by their arguments, does a
-- write to the terminal fail and how much is typed then, `strconv.Atoi` (its value on an error too)
-- and `%d`.
pub record Tools : Type 0 where
  pub available : Bool
  pub run : List Text → Outcome
  pub write_fails : Bool
  pub written : ℕ
  pub number : Text → ℕ
  pub digits : ℕ → Text

-- The default session's name, the current terminal session, what was typed into it by each write,
-- and the commands that the tmux program was given, but for the queries.
pub record Tmux : Type 0 where
  pub default_tmux : Text
  pub session : Option PersistentSession
  pub typed : List Text
  pub commands : List (List Text)

-- An error's status, or the status of a success.
pub data Reply : Type 0 where
  refused : ℕ → Reply
  accepted : ℕ → Reply

abbrev pub target_of : Option PersistentSession → Option Target
target_of none = none
target_of (some session) = session.tmux_target

unfoldable pub current_tmux_target : Tmux → Option Target
current_tmux_target t = target_of t.session

-- How `switchTmuxTarget` ends: its nil error, "terminal unavailable" or another error.
pub data Switched : Type 0 where
  switched : Switched
  unavailable : Switched
  failed : Switched

abbrev pub attach_line : Text → Text
attach_line target = codes "tmux attach-session -t " ++ (target ++ (10 ∷ []))

abbrev pub kept_window : Text → Option Target → ℕ
kept_window name none = 0
kept_window name (some current) = if text_eq current.session name then current.window else 0

abbrev pub selected_window : Text → Option ℕ → Option Target → ℕ
selected_window name (some window) current = window
selected_window name none current = kept_window name current

-- A command of the tmux program that can change it, whether it then fails or not.
abbrev pub tell : List Text → Tmux → Tmux
tell command t = record t { commands = t.commands ++ (command ∷ []) }

-- The session with its new target.
abbrev pub point : Text → Option ℕ → PersistentSession → Tmux → Tmux
point name window session t = record t {
  session = some (
      set_tmux_target
        (record { session = name; window = selected_window name window session.tmux_target })
        session);
}

module _ (tools : Tools) where
  abbrev pub target_text : Text → Option ℕ → Text
  target_text name none = name
  target_text name (some window) = name ++ (b':' ∷ tools.digits window)

  -- A write to the terminal types its text, or a beginning of it where it fails.
  abbrev pub typed_part : Text → Text
  typed_part line = if tools.write_fails then take tools.written line else line

  abbrev pub type_line : Text → Tmux → Tmux
  type_line line t = record t { typed = t.typed ++ (typed_part line ∷ []) }

  abbrev pub window_command : Text → ℕ → List Text
  window_command name window =
      codes "select-window" ∷ codes "-t" ∷ target_text name (some window) ∷ []

  abbrev pub selects_badly : Text → Option ℕ → Bool
  selects_badly name none = false
  selects_badly name (some window) = has_failed (tools.run (window_command name window))

  abbrev pub select_in : Text → Option ℕ → Tmux → Tmux
  select_in name none t = t
  select_in name (some window) t = tell (window_command name window) t

  -- The client is switched where it shows another session.
  abbrev pub client_command : Text → List Text
  client_command name = codes "switch-client" ∷ codes "-t" ∷ name ∷ []

  abbrev pub client_commands : Target → Text → List (List Text)
  client_commands current name =
      if text_eq current.session name then [] else client_command name ∷ []

  abbrev pub switch_client : Target → Text → Tmux → Tmux
  switch_client current name t = record t { commands = t.commands ++ client_commands current name }

  -- `switchTmuxTarget` with a terminal, given its current target.
  unfoldable pub switch_from :
      Option Target → Text → Option ℕ → PersistentSession → Tmux → Switched × Tmux
  unfolding set_tmux_target
  switch_from none name window session t =
      let after = type_line (attach_line (target_text name window)) t in
      if tools.write_fails then (failed, after) else (switched, point name window session after)
  switch_from (some current) name window session t =
      let moved = switch_client current name t in
      let chosen = select_in name window moved in
      if not (text_eq current.session name) && has_failed (tools.run (client_command name))
      then (failed, moved)
      else if selects_badly name window
      then (failed, chosen)
      else (switched, point name window session chosen)

  abbrev pub switch_in : Option PersistentSession → Text → Option ℕ → Tmux → Switched × Tmux
  switch_in none name window t = (unavailable, t)
  switch_in (some session) name window t = switch_from session.tmux_target name window session t

  unfoldable pub switch_tmux_target : Text → Option ℕ → Tmux → Switched × Tmux
  unfolding switch_from
  switch_tmux_target name window t =
      let mouse = codes "set-option" ∷ codes "-t" ∷ name ∷ codes "mouse" ∷ codes "on" ∷ [] in
      if has_failed (tools.run (codes "has-session" ∷ codes "-t" ∷ name ∷ []))
      then (failed, t)
      else switch_in t.session name window (tell mouse t)
