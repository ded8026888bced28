-- ===== src/Config/Settings.antt =====
-- internal/config/config.go: where the settings of a loaded configuration come from.
use termdock.Base.{
  ℕ, ◌≡◌, refl, subst, Bool, true, false, List, [], ◌∷◌, Option, none, some, if◌then◌else◌,
  Bool-cases, inl, inr,
}
use termdock.Base.Text.{Text, codes}
use mathlib.Core.Option.{some-injective, none-ne-some}
use termdock.Config.{
  Config, DiskConfig, Info, Start, defaults, merge, apply_environment, default_shell, is_executable,
  is_writable, file_terminal, file_others, environment_terminal, environment_others, read_durations,
}
use termdock.Config.Loading.{load, validate, checked, over, merged, from_file, file_settings}
use termdock.Config.Sources.{
  first_set, IsFrom, file_text, Holds, or_positive-sessions, or_count-sessions,
  read_durations-counts, or_text-first, with_terminal-IsFrom,
}
use termdock.Config.Complete.{IsComplete, file_values, load-IsComplete}

module _ (start : Start) where
  merge-IsFrom :
      (disk : DiskConfig) (cfg : Config) (ls ss ms : List Text)
      → IsFrom ls ss ms cfg
      → Holds
          (IsFrom (disk.listen ∷ ls) (disk.shell ∷ ss) (disk.cloudflare.mode ∷ ms))
          (merge start disk cfg)
  unfolding merge
  merge-IsFrom disk cfg ls ss ms (l, s, m, w, n, counts) =
      with_terminal-IsFrom start
        (read_durations start disk.idle_timeout disk.max_lifetime disk.session_retention
          (file_terminal start disk cfg.terminal))
        (file_terminal start disk cfg.terminal) (file_others start disk cfg) (disk.listen ∷ ls)
        (disk.shell ∷ ss) (disk.cloudflare.mode ∷ ms)
        (read_durations-counts start disk.idle_timeout disk.max_lifetime disk.session_retention
          (file_terminal start disk cfg.terminal) counts)
        (or_text-first start disk.listen cfg.listen ls l)
        (or_text-first start disk.shell cfg.terminal.shell ss s)
        (or_text-first start disk.cloudflare.mode cfg.cloudflare.mode ms m) w
        (or_positive-sessions disk.max_sessions cfg.terminal.max_sessions n)

  apply_environment-IsFrom :
      (cfg : Config) (ls ss ms : List Text)
      → IsFrom ls ss ms cfg
      → Holds
          (IsFrom
            (start.getenv (codes "WEBTERM_LISTEN") ∷ ls)
            (start.getenv (codes "WEBTERM_SHELL") ∷ ss)
            (start.getenv (codes "WEBTERM_TUNNEL_MODE") ∷ ms))
          (apply_environment start cfg)
  unfolding apply_environment
  apply_environment-IsFrom cfg ls ss ms (l, s, m, w, n, counts) =
      with_terminal-IsFrom start
        (read_durations start (start.getenv (codes "WEBTERM_IDLE_TIMEOUT"))
          (start.getenv (codes "WEBTERM_MAX_LIFETIME"))
          (start.getenv (codes "WEBTERM_SESSION_RETENTION"))
          (environment_terminal start cfg.terminal))
        (environment_terminal start cfg.terminal) (environment_others start cfg)
        (start.getenv (codes "WEBTERM_LISTEN") ∷ ls) (start.getenv (codes "WEBTERM_SHELL") ∷ ss)
        (start.getenv (codes "WEBTERM_TUNNEL_MODE") ∷ ms)
        (read_durations-counts start (start.getenv (codes "WEBTERM_IDLE_TIMEOUT"))
          (start.getenv (codes "WEBTERM_MAX_LIFETIME"))
          (start.getenv (codes "WEBTERM_SESSION_RETENTION"))
          (environment_terminal start cfg.terminal) counts)
        (or_text-first start (start.getenv (codes "WEBTERM_LISTEN")) cfg.listen ls l)
        (or_text-first start (start.getenv (codes "WEBTERM_SHELL")) cfg.terminal.shell ss s)
        (or_text-first start (start.getenv (codes "WEBTERM_TUNNEL_MODE")) cfg.cloudflare.mode ms m)
        w
        (or_count-sessions (start.atoi (start.getenv (codes "WEBTERM_MAX_SESSIONS")))
          cfg.terminal.max_sessions n)

  -- The three lists the file's settings come from.
  abbrev listens : Text → List Text
  listens path = file_text (λ (d : DiskConfig). d.listen) start path ∷ codes "127.0.0.1:7681" ∷ []

  abbrev shells : Text → List Text
  shells path = file_text (λ (d : DiskConfig). d.shell) start path ∷ default_shell start ∷ []

  abbrev modes : Text → List Text
  modes path = file_text (λ (d : DiskConfig). d.cloudflare.mode) start path ∷ codes "disabled" ∷ []

  default_shell-first : default_shell start ≡ first_set (default_shell start ∷ [])
  unfolding default_shell
  default_shell-first = elim (Bool-cases (is_executable (start.stat (codes "/bin/bash")))) [
    | inl e ↦ rw e refl
    | inr e ↦ rw e refl
  ]

  defaults-IsFrom :
      IsFrom
        (codes "127.0.0.1:7681" ∷ [])
        (default_shell start ∷ [])
        (codes "disabled" ∷ [])
        (defaults start)
  unfolding defaults
  defaults-IsFrom = (refl, default_shell-first, refl, refl, refl, (refl, refl, refl))

  merged-IsFrom :
      (decoded : Option DiskConfig)
      → Holds
          (IsFrom
            (elim decoded [ none ↦ [] | some disk ↦ disk.listen ] ∷ codes "127.0.0.1:7681" ∷ [])
            (elim decoded [ none ↦ [] | some disk ↦ disk.shell ] ∷ default_shell start ∷ [])
            (elim decoded [ none ↦ [] | some disk ↦ disk.cloudflare.mode ] ∷ codes "disabled" ∷ []))
          (merged start decoded)
  merged-IsFrom none = tt
  merged-IsFrom (some disk) =
      merge-IsFrom disk (defaults start) (codes "127.0.0.1:7681" ∷ []) (default_shell start ∷ [])
        (codes "disabled" ∷ []) defaults-IsFrom

  from_file-IsFrom :
      (c : ℕ) (cs : Text) (info : Option Info)
      → Holds
          (IsFrom (listens (c ∷ cs)) (shells (c ∷ cs)) (modes (c ∷ cs)))
          (from_file start (c ∷ cs) info)
  from_file-IsFrom c cs none = tt
  from_file-IsFrom c cs (some info) = elim (Bool-cases (is_writable info)) [
    | inl e ↦ rw e tt
    | inr e ↦ rw e (merged-IsFrom (start.decoded (c ∷ cs)))
  ]

  file_settings-IsFrom :
      (path : Text)
      → Holds (IsFrom (listens path) (shells path) (modes path)) (file_settings start path)
  file_settings-IsFrom [] = defaults-IsFrom
  file_settings-IsFrom (c ∷ cs) = from_file-IsFrom c cs (start.stat (c ∷ cs))

  over-IsFrom :
      (read : Option Config) (ls ss ms : List Text)
      → Holds (IsFrom ls ss ms) read
      → Holds
          (IsFrom
            (start.getenv (codes "WEBTERM_LISTEN") ∷ ls)
            (start.getenv (codes "WEBTERM_SHELL") ∷ ss)
            (start.getenv (codes "WEBTERM_TUNNEL_MODE") ∷ ms))
          (over start read)
  over-IsFrom none ls ss ms h = tt
  over-IsFrom (some cfg) ls ss ms h = apply_environment-IsFrom cfg ls ss ms h

  tested-Holds :
      (ls ss ms : List Text) (found cfg : Config) (t : Bool)
      → validate start found ≡ t
      → IsFrom ls ss ms found
      → (if t then some found else none) ≡ some cfg
      → IsFrom ls ss ms cfg × (validate start cfg ≡ true)
  tested-Holds ls ss ms found cfg true v h e =
      subst (λ c. IsFrom ls ss ms c × (validate start c ≡ true)) (some-injective found cfg e) (h, v)
  tested-Holds ls ss ms found cfg false v h e = absurd (none-ne-some cfg e)

  checked-Holds :
      (ls ss ms : List Text) (read : Option Config) (cfg : Config)
      → Holds (IsFrom ls ss ms) read
      → checked start read ≡ some cfg
      → IsFrom ls ss ms cfg × (validate start cfg ≡ true)
  checked-Holds ls ss ms none cfg h e = absurd (none-ne-some cfg e)
  checked-Holds ls ss ms (some found) cfg h e =
      tested-Holds ls ss ms found cfg (validate start found) refl h e

-- Whenever `Load` gives settings, they passed `Validate`, the listening address is that of
-- WEBTERM_LISTEN, or of the file where that variable is empty, or 127.0.0.1:7681 where the file
-- sets none either. Likewise the shell comes from WEBTERM_SHELL, the file or the default shell, and
-- the tunnel's mode from WEBTERM_TUNNEL_MODE, the file or "disabled", and the tunnel's program, its
-- token file, the number of sessions and the three durations from their variables, the file or the
-- defaults: the number is the first one that is positive, and a duration the first text that is not
-- empty, zero for "0" and otherwise as `time.ParseDuration` reads it. The trusted origins and
-- proxies, the cookie's security and the message size, where it is positive, are those of the file,
-- or the defaults. The working directory is the root, whatever the file says, at least one session
-- is allowed, and no timeout is negative.
pub load-IsFrom :
    (start : Start) (path : Text) (cfg : Config)
    → load start path ≡ some cfg
    → IsFrom
        (start.getenv (codes "WEBTERM_LISTEN")
          ∷ file_text (λ (d : DiskConfig). d.listen) start path
          ∷ codes "127.0.0.1:7681"
          ∷ [])
        (start.getenv (codes "WEBTERM_SHELL")
          ∷ file_text (λ (d : DiskConfig). d.shell) start path
          ∷ default_shell start
          ∷ [])
        (start.getenv (codes "WEBTERM_TUNNEL_MODE")
          ∷ file_text (λ (d : DiskConfig). d.cloudflare.mode) start path
          ∷ codes "disabled"
          ∷ [])
        cfg
      × (validate start cfg ≡ true)
      × IsComplete start (file_values start path) cfg
unfolding load
load-IsFrom start path cfg e =
    let (from, valid) =
      checked-Holds start (start.getenv (codes "WEBTERM_LISTEN") ∷ listens start path)
        (start.getenv (codes "WEBTERM_SHELL") ∷ shells start path)
        (start.getenv (codes "WEBTERM_TUNNEL_MODE") ∷ modes start path)
        (over start (file_settings start path)) cfg
        (over-IsFrom start (file_settings start path) (listens start path) (shells start path)
          (modes start path) (file_settings-IsFrom start path))
        e in
    (from, valid, load-IsComplete start path cfg e)
