-- ===== src/Tunnel/Tests.antt =====
-- Runs of the loop that restarts a fixed tunnel.
use termdock.Base.{ℕ, ◌≡◌, refl, false, List, [], ◌∷◌, Option, none, some, arith}
use termdock.Base.Text.{Text, codes}
use termdock.Tunnel.{Turn, supervise_fixed, turned, ended, started}
use termdock.Tunnel.Backoff.{doubling, healthy_run-delays}

abbrev a_turn : ℕ → Option Text → Turn
a_turn uptime start_error = record {
  uptime = uptime;
  exit = none;
  is_done = false;
  pipe_error = none;
  start_error = start_error;
}

abbrev turns : List Turn
turns =
    a_turn 5 none
    ∷ a_turn 90000000000 none
    ∷ a_turn 7 (some (codes "no binary"))
    ∷ a_turn 0 none
    ∷ []

delays_run :
    (supervise_fixed started turns).0 ≡ 2000000000 ∷ 2000000000 ∷ 4000000000 ∷ 8000000000 ∷ []
unfolding supervise_fixed turned ended
delays_run = refl

-- The error of a failed start is replaced by that of `Wait`.
start_error_run :
    (ended (a_turn 0 none) (turned (a_turn 7 (some (codes "no binary"))) started)).status.err
    ≡ some (codes "exec: not started")
unfolding turned ended
start_error_run = refl

healthy_run-delays_example :
    (supervise_fixed started (a_turn 90000000000 none ∷ a_turn 7 none ∷ [])).0
    ≡ doubling 0 (a_turn 90000000000 none ∷ a_turn 7 none ∷ [])
healthy_run-delays_example =
    healthy_run-delays started (a_turn 90000000000 none) (a_turn 7 none ∷ []) (ground arith) refl
      ((refl, refl), tt)
