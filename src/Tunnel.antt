-- ===== src/Tunnel.antt =====
-- internal/tunnel/manager.go: `superviseFixed`, which restarts the process of a fixed tunnel.
-- Durations are nanoseconds.
pub mod Backoff
mod Tests
use termdock.Base.{
  ℕ, ◌+◌, ◌*◌, Bool, true, false, not, List, [], ◌∷◌, Option, none, some, ltb, if◌then◌else◌,
}
use termdock.Base.Text.{Text, codes}

abbrev pub initial_restart_delay : ℕ
initial_restart_delay = 2000000000

abbrev pub max_restart_delay : ℕ
max_restart_delay = 300000000000

abbrev pub healthy_run_threshold : ℕ
healthy_run_threshold = 60000000000

pub record Status : Type 0 where
  pub running : Bool
  pub restart_count : ℕ
  pub err : Option Text

-- The loop's variables: is `command` a started one, the delay, and the manager's status.
pub record Supervisor : Type 0 where
  pub is_started : Bool
  pub restart_delay : ℕ
  pub status : Status

-- What one turn meets: how the process ends and how long it took, whether the context is done while
-- the loop waits, and whether the next process gets its pipe and starts.
pub record Turn : Type 0 where
  pub uptime : ℕ
  pub exit : Option Text
  pub is_done : Bool
  pub pipe_error : Option Text
  pub start_error : Option Text

abbrev pub next_restart_delay : ℕ → ℕ
next_restart_delay current =
    if ltb max_restart_delay (current * 2) then max_restart_delay else current * 2

-- `Wait` of a command that was not started is an error at once.
abbrev pub wait : Bool → Option Text → Option Text
wait true exit = exit
wait false exit = some (codes "exec: not started")

abbrev pub exited : Option Text → Status → Status
exited err status = record status { running = false; err = err }

-- `setRestartError`
abbrev pub set_restart_error : Text → Supervisor → Supervisor
set_restart_error error s = record s {
  is_started = false;
  status = record s.status { running = false; err = some error };
}

abbrev pub restarted : Supervisor → Supervisor
restarted s = record s {
  is_started = true;
  status = record { running = true; restart_count = s.status.restart_count + 1; err = none };
}

abbrev pub restart : Option Text → Option Text → Supervisor → Supervisor
restart (some error) start_error s = set_restart_error error s
restart none (some error) s = set_restart_error error s
restart none none s = restarted s

-- The wait of a turn: a healthy run resets the delay.
abbrev pub delay_of : Turn → Supervisor → ℕ
delay_of turn s =
    if ltb turn.uptime healthy_run_threshold then s.restart_delay else initial_restart_delay

-- The state while the loop waits, and after a restart.
unfoldable pub ended : Turn → Supervisor → Supervisor
ended turn s = record s {
  restart_delay = delay_of turn s;
  status = exited (wait s.is_started turn.exit) s.status;
}

unfoldable pub turned : Turn → Supervisor → Supervisor
turned turn s =
    restart turn.pipe_error turn.start_error
      (record (ended turn s) { restart_delay = next_restart_delay (delay_of turn s) })

-- The loop over what it meets: the delays it asks for, and its last state.
unfoldable pub supervise_fixed : Supervisor → List Turn → List ℕ × Supervisor
supervise_fixed s [] = ([], s)
supervise_fixed s (turn ∷ turns) =
    let (delays, final) = supervise_fixed (turned turn s) turns in
    if turn.is_done then (delay_of turn s ∷ [], ended turn s) else (delay_of turn s ∷ delays, final)

-- The loop begins when `Start` has started the process.
abbrev pub started : Supervisor
started = record {
  is_started = true;
  restart_delay = initial_restart_delay;
  status = record { running = true; restart_count = 0; err = none };
}
