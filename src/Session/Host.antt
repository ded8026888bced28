-- ===== src/Session/Host.antt =====
-- internal/server/server.go: the server's current terminal session and its slot, `terminalSession`,
-- `closeTerminalSession`, the attachment in `webSocket`, and all that can happen in between. A
-- session is an index into the list of all sessions that were started.
use termdock.Base.{
  ℕ, ◌≡◌, Bool, true, false, not, List, [], ◌∷◌, ◌++◌, Option, none, some, ◌==◌, if◌then◌else◌,
  length, get_elem?, set,
}
use termdock.Session.{
  Limiter, acquire, release, PersistentSession, new_persistent_session, attach, detach, close,
}

pub record Host : Type 0 where
  pub sessions : List PersistentSession
  -- `server.session`
  pub current : Option ℕ
  pub limiter : Limiter
  pub retention : ℕ

abbrev pub closed_session : Option PersistentSession → Bool
closed_session none = false
closed_session (some s) = s.is_closed

-- Has the current session been closed?
abbrev pub current_closed : Option ℕ → List PersistentSession → Bool
current_closed none sessions = false
current_closed (some i) sessions = closed_session (get_elem? sessions i)

-- Give the current session up, with its slot.
unfoldable pub vacate : Host → Host
unfolding release
vacate h = record h { current = none; limiter = release h.limiter }

-- A slot, a process and a session; without a process the slot is given back.
unfoldable pub start_session : Bool → Host → Option ℕ × Host
unfolding acquire release new_persistent_session
start_session starts h =
    let (free, taken) = acquire h.limiter in
    if not free
    then (none, h)
    else if not starts
    then (none, record h { limiter = release taken })
    else (
      some (length h.sessions),
      record h {
        sessions = h.sessions ++ (new_persistent_session h.retention ∷ []);
        current = some (length h.sessions);
        limiter = taken;
      },
    )

abbrev pub reuse_or_start : Option ℕ → Bool → Host → Option ℕ × Host
reuse_or_start none starts h = start_session starts h
reuse_or_start (some i) starts h = (some i, h)

-- `terminalSession`, where `starts` says whether a process can be started.
unfoldable pub terminal_session : Bool → Host → Option ℕ × Host
unfolding vacate start_session
terminal_session starts h =
    if current_closed h.current h.sessions
    then start_session starts (vacate h)
    else reuse_or_start h.current starts h

abbrev pub leave : Option ℕ → Host → Host
leave none h = h
leave (some _) h = vacate h

-- The part of `closeTerminalSession` under the mutex. The session is closed later on.
unfoldable pub close_terminal_session : Host → Host
unfolding vacate
close_terminal_session h = leave h.current h

abbrev pub is_current_session : ℕ → Option ℕ → Bool
is_current_session i none = false
is_current_session i (some j) = i == j

-- The end of the goroutine that waits for session `i` to end.
unfoldable pub clean_up : ℕ → Host → Host
unfolding vacate
clean_up i h = if is_current_session i h.current then vacate h else h

unfoldable pub change_session : ℕ → (PersistentSession → PersistentSession) → Host → Host
change_session i change h = elim (get_elem? h.sessions i) [
  | none ↦ h
  | some s ↦ record h { sessions = set h.sessions i (change s) }
]

-- A step of the server. The session that a handler works on may have been replaced meanwhile.
pub data Step (h : Host) : Host → Type 0 where
  asks : (starts : Bool) → Step h (terminal_session starts h).1
  attaches : (i connection : ℕ) → Step h (change_session i (λ s. (attach connection s).session) h)
  detaches : (i connection id now : ℕ) → Step h (change_session i (detach connection id now) h)
  -- The process exits, its lifetime is over, the reaper ends it, or a logout does.
  closes : (i : ℕ) → Step h (change_session i (λ s. (close s).1) h)
  cleans :
      (i : ℕ) (s : PersistentSession)
      → get_elem? h.sessions i ≡ some s
      → s.is_closed ≡ true
      → Step h (clean_up i h)
  logs_out : Step h (close_terminal_session h)

abbrev pub fresh : ℕ → ℕ → Host
fresh maximum retention = record {
  sessions = [];
  current = none;
  limiter = record { active = 0; maximum = maximum };
  retention = retention;
}

pub data Reach (maximum retention : ℕ) : Host → Type 0 where
  start : Reach maximum retention (fresh maximum retention)
  next : {h k : Host} → Reach maximum retention h → Step h k → Reach maximum retention k
