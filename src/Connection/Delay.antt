-- ===== src/Connection/Delay.antt =====
-- internal/app/static/app.js: how long the page waits before it reconnects.
use native.Mathlib.Nat.{div-lt_iff_lt-mul}
use termdock.Base.{ℕ, ◌+◌, ◌*◌, ◌/◌, ◌≤◌, ◌<◌, arith}
use termdock.Connection.{reconnect_delay, seconds_up}

-- A reconnect waits between 12 and 18 seconds, whatever the random number below 1 was, and the status
-- text names no fewer than 12 and no more than 18 seconds, rounded up.
pub reconnect_delay-bounds :
    (part whole : ℕ)
    → part < whole
    → (12000 ≤ reconnect_delay part whole)
      × (reconnect_delay part whole ≤ 18000)
      × (12 ≤ seconds_up (reconnect_delay part whole))
      × (seconds_up (reconnect_delay part whole) ≤ 18)
unfolding reconnect_delay
reconnect_delay-bounds part whole h =
    (omega arith, omega (arith, below), omega arith, omega (arith, below))
  where
    below : (12000 * part + whole) / (2 * whole) < 6001
    below = (div-lt_iff_lt-mul (omega arith)).1 (omega arith)
