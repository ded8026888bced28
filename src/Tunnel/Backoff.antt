-- ===== src/Tunnel/Backoff.antt =====
-- internal/tunnel/manager.go: the delays before a fixed tunnel is restarted.
use termdock.Base.{
  ℕ, ◌+◌, ◌*◌, ◌^◌, ◌≤◌, ◌≡◌, min, refl, ap, ◌∙◌, true, false, List, [], ◌∷◌, Option, none, some,
  arith, ltb, All, Bool-cases, inl, inr,
}
use native.Mathlib.Nat.{pow-succ'}
use termdock.Base.Text.{Text}
use termdock.Tunnel.{
  initial_restart_delay, max_restart_delay, healthy_run_threshold, Turn, Supervisor,
  next_restart_delay, delay_of, ended, turned, restart, supervise_fixed, started,
}

abbrev pub IsDelay : ℕ → Type 0
IsDelay delay = (initial_restart_delay ≤ delay) × (delay ≤ max_restart_delay)

restart-delay :
    (pipe_error start_error : Option Text) (s : Supervisor)
    → (restart pipe_error start_error s).restart_delay ≡ s.restart_delay
restart-delay (some e) start_error s = refl
restart-delay none (some e) s = refl
restart-delay none none s = refl

turned-delay :
    (turn : Turn) (s : Supervisor)
    → (turned turn s).restart_delay ≡ next_restart_delay (delay_of turn s)
unfolding turned
turned-delay turn s =
    restart-delay turn.pipe_error turn.start_error
      (record (ended turn s) { restart_delay = next_restart_delay (delay_of turn s) })

delay_of-IsDelay :
    (turn : Turn) (s : Supervisor) → IsDelay s.restart_delay → IsDelay (delay_of turn s)
delay_of-IsDelay turn s h = elim (Bool-cases (ltb turn.uptime healthy_run_threshold)) [
  | inl e ↦ rw e h
  | inr e ↦ rw e (ground arith, ground arith)
]

next-IsDelay : (delay : ℕ) → IsDelay delay → IsDelay (next_restart_delay delay)
next-IsDelay delay (l, h) = (ground arith, ground arith)

supervise_fixed-delays :
    (s : Supervisor) (turns : List Turn)
    → IsDelay s.restart_delay
    → All IsDelay (supervise_fixed s turns).0
unfolding supervise_fixed turned ended
supervise_fixed-delays s [] h = tt
supervise_fixed-delays s (turn ∷ turns) h =
    let now = delay_of-IsDelay turn s h in
    elim (Bool-cases turn.is_done) [
      | inl e ↦ rw e (now, tt)
      | inr e ↦ rw e (
        now,
        supervise_fixed-delays (turned turn s) turns
            (rw (turned-delay turn s) (next-IsDelay (delay_of turn s) now)),
      )
    ]

-- However the process of a fixed tunnel ends and however often it fails to start, every delay before
-- a restart is between two seconds and five minutes.
pub supervise_fixed-IsDelay : (turns : List Turn) → All IsDelay (supervise_fixed started turns).0
supervise_fixed-IsDelay turns = supervise_fixed-delays started turns (ground arith, ground arith)

-- Runs that are no healthy ones, and between which the tunnel is not stopped.
abbrev pub AllFast : List Turn → Type 0
AllFast turns =
    All (λ turn. (ltb turn.uptime healthy_run_threshold ≡ true) × (turn.is_done ≡ false)) turns

-- Twice as long each time, up to the bound.
abbrev pub doubling : ℕ → List Turn → List ℕ
doubling n [] = []
doubling n (turn ∷ turns) =
    min (initial_restart_delay * 2 ^ n) max_restart_delay ∷ doubling (n + 1) turns

doubles :
    (n : ℕ)
    → next_restart_delay (min (initial_restart_delay * 2 ^ n) max_restart_delay)
      ≡ min (initial_restart_delay * 2 ^ (n + 1)) max_restart_delay
doubles n = ground (arith, pow-succ' 2 n)

supervise_fixed-going :
    (s : Supervisor) (turn : Turn) (turns : List Turn)
    → turn.is_done ≡ false
    → (supervise_fixed s (turn ∷ turns)).0
      ≡ delay_of turn s ∷ (supervise_fixed (turned turn s) turns).0
unfolding supervise_fixed
supervise_fixed-going s turn turns going = rw going refl

ap2_cons : {a b : ℕ} {xs ys : List ℕ} → a ≡ b → xs ≡ ys → a ∷ xs ≡ b ∷ ys
ap2_cons {b = b} {xs = xs} p q = ap (λ (a : ℕ). a ∷ xs) p ∙ ap (λ (zs : List ℕ). b ∷ zs) q

fast_delays :
    (n : ℕ) (s : Supervisor) (turns : List Turn)
    → s.restart_delay ≡ min (initial_restart_delay * 2 ^ n) max_restart_delay
    → AllFast turns
    → (supervise_fixed s turns).0 ≡ doubling n turns
unfolding supervise_fixed
fast_delays n s [] e h = refl
fast_delays n s (turn ∷ turns) e ((fast, going), h) =
    let rest =
      fast_delays (n + 1) (turned turn s) turns
        (turned-delay turn s ∙ rw fast (ap next_restart_delay e ∙ doubles n)) h in
    let now : delay_of turn s ≡ min (initial_restart_delay * 2 ^ n) max_restart_delay = rw fast e in
    supervise_fixed-going s turn turns going ∙ ap2_cons now rest

-- After a run of at least a minute, whatever happened before it, and as long as the tunnel is not
-- stopped and all runs after it are shorter than that, the delays are two seconds, doubled each time
-- and cut to five minutes.
pub healthy_run-delays :
    (s : Supervisor) (turn : Turn) (turns : List Turn)
    → healthy_run_threshold ≤ turn.uptime
    → turn.is_done ≡ false
    → AllFast turns
    → (supervise_fixed s (turn ∷ turns)).0 ≡ doubling 0 (turn ∷ turns)
healthy_run-delays s turn turns long going h =
    let healthy : delay_of turn s ≡ initial_restart_delay = ground arith in
    let rest =
      fast_delays 1 (turned turn s) turns (turned-delay turn s ∙ ap next_restart_delay healthy) h in
    supervise_fixed-going s turn turns going ∙ ap2_cons healthy rest
