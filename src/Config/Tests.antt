-- ===== src/Config/Tests.antt =====
-- Runs of `Load` on concrete files and variables.
use termdock.Base.{ℕ, ◌≡◌, refl, true, false, [], ◌∷◌, none, some, if◌then◌else◌}
use termdock.Base.Int.{pos}
use termdock.Base.Text.{Text, text_eq, codes}
use termdock.Config.{Config, DiskConfig, Start, default_shell, defaults}
use termdock.Config.Loading.{load, validate}
use termdock.Config.Sources.{IsFrom}
use termdock.Config.Complete.{IsComplete}
use termdock.Config.Settings.{load-IsFrom}

-- A file that sets the sessions, a directory and a timeout.
abbrev a_file : DiskConfig
a_file = record {
  listen = [];
  shell = [];
  working_dir = codes "/home/webterm";
  max_sessions = pos 4;
  idle_timeout = codes "30m";
  max_lifetime = [];
  session_retention = [];
  trusted_origins = none;
  trusted_proxies = some (codes "10.0.0.0/8" ∷ []);
  cookie_secure = none;
  max_message_size = pos 0;
  cloudflare = record { mode = []; binary = []; token_file = [] };
}

abbrev a_start : ℕ → Text → Start
a_start mode listen = record {
  stat = λ path.
      if text_eq path (codes "/etc/c.json")
      then some (record { is_dir = false; mode = mode })
      else if text_eq path (codes "/bin/sh")
      then some (record { is_dir = false; mode = 493 })
      else none;
  decoded = λ path. if text_eq path (codes "/etc/c.json") then some a_file else none;
  getenv = λ name. if text_eq name (codes "WEBTERM_LISTEN") then listen else [];
  parse_duration = λ value. if text_eq value (codes "30m") then some (pos 1800000000000) else none;
  atoi = λ value. none;
  is_cidr = λ value. text_eq value (codes "10.0.0.0/8");
  is_ip = λ value. false;
}

abbrev a_config : Config
unfolding defaults
a_config =
    let start = a_start 384 (codes ":80") in
    record (defaults start) {
      listen = codes ":80";
      terminal = record (defaults start).terminal {
        max_sessions = pos 4;
        idle_timeout = pos 1800000000000;
      };
      security = record (defaults start).security { trusted_proxies = codes "10.0.0.0/8" ∷ [] };
    }

load_run : load (a_start 384 (codes ":80")) (codes "/etc/c.json") ≡ some a_config
unfolding load
load_run = refl

-- A file that its group may write is refused.
load_writable : load (a_start 432 []) (codes "/etc/c.json") ≡ none
unfolding load
load_writable = refl

load-IsFrom_example :
    IsFrom
      (codes ":80" ∷ [] ∷ codes "127.0.0.1:7681" ∷ [])
      ([] ∷ [] ∷ codes "/bin/sh" ∷ [])
      ([] ∷ [] ∷ codes "disabled" ∷ [])
      a_config
    × (validate (a_start 384 (codes ":80")) a_config ≡ true)
    × IsComplete (a_start 384 (codes ":80")) a_file a_config
unfolding default_shell
load-IsFrom_example =
    load-IsFrom (a_start 384 (codes ":80")) (codes "/etc/c.json") a_config load_run
