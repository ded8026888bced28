-- ===== src/Config.antt =====
-- internal/config/config.go: the settings, from the defaults, the configuration file and the
-- environment, and `Validate`.
pub mod Loading
pub mod Settings
pub mod Sources
pub mod Complete
mod Tests
use termdock.Base.{
  ℕ, ◌+◌, ◌/◌, ◌%◌, Bool, true, false, not, ◌&&◌, ◌||◌, List, [], ◌∷◌, Option, none, some, ltb,
  ◌==◌, if◌then◌else◌, all, is_some,
}
use termdock.Base.Int.{ℤ, pos, negsuc}
use termdock.Base.Text.{Text, text_eq, codes, trim}
use termdock.Filepath.{is_abs}

-- Durations are nanoseconds.
pub record Terminal : Type 0 where
  pub shell : Text
  pub working_dir : Text
  pub max_sessions : ℤ
  pub idle_timeout : ℤ
  pub max_lifetime : ℤ
  pub session_retention : ℤ

pub record Security : Type 0 where
  pub trusted_origins : List Text
  pub trusted_proxies : List Text
  pub cookie_secure : Bool
  pub max_message_size : ℤ

pub record Cloudflare : Type 0 where
  pub mode : Text
  pub binary : Text
  pub token_file : Text

pub record Config : Type 0 where
  pub listen : Text
  pub terminal : Terminal
  pub security : Security
  pub cloudflare : Cloudflare

-- The decoded file: a text that is missing is empty, a number that is missing is 0.
pub record DiskConfig : Type 0 where
  pub listen : Text
  pub shell : Text
  pub working_dir : Text
  pub max_sessions : ℤ
  pub idle_timeout : Text
  pub max_lifetime : Text
  pub session_retention : Text
  pub trusted_origins : Option (List Text)
  pub trusted_proxies : Option (List Text)
  pub cookie_secure : Option Bool
  pub max_message_size : ℤ
  pub cloudflare : Cloudflare

-- What `os.Stat` tells of a path: is it a directory, and its permission bits.
pub record Info : Type 0 where
  pub is_dir : Bool
  pub mode : ℕ

-- The world at the start: the files, the environment, and Go's `time.ParseDuration`,
-- `strconv.Atoi`, `net.ParseCIDR` and `net.ParseIP`, the last two by whether they succeed.
pub record Start : Type 0 where
  pub stat : Text → Option Info
  pub decoded : Text → Option DiskConfig
  pub getenv : Text → Text
  pub parse_duration : Text → Option ℤ
  pub atoi : Text → Option ℤ
  pub is_cidr : Text → Bool
  pub is_ip : Text → Bool

abbrev bit : ℕ → ℕ → Bool
bit mode value = (mode / value) % 2 == 1

-- `info.Mode()&0o111 != 0`
abbrev pub is_executable : Option Info → Bool
is_executable none = false
is_executable (some info) =
    not info.is_dir && (bit info.mode 1 || (bit info.mode 8 || bit info.mode 64))

-- `info.Mode().Perm()&0o022 != 0`
abbrev pub is_writable : Info → Bool
is_writable info = bit info.mode 2 || bit info.mode 16

abbrev pub or_text : Text → Text → Text
or_text [] current = current
or_text (c ∷ cs) current = c ∷ cs

abbrev pub or_some {ℓ} : {A : Type ℓ} → Option A → A → A
or_some none current = current
or_some (some value) current = value

abbrev pub or_positive : ℤ → ℤ → ℤ
or_positive (pos n) current = if n == 0 then current else pos n
or_positive (negsuc n) current = current

abbrev pub or_count : Option ℤ → ℤ → ℤ
or_count none current = current
or_count (some n) current = or_positive n current

abbrev pub positive : Option ℤ → Option ℤ
positive none = none
positive (some (pos n)) = some (pos n)
positive (some (negsuc n)) = none

module _ (start : Start) where
  unfoldable pub default_shell : Text
  default_shell =
      if is_executable (start.stat (codes "/bin/bash")) then codes "/bin/bash" else codes "/bin/sh"

  unfoldable pub defaults : Config
  unfolding default_shell
  defaults = record {
    listen = codes "127.0.0.1:7681";
    terminal = record {
      shell = default_shell;
      working_dir = codes "/";
      max_sessions = pos 1;
      idle_timeout = pos 0;
      max_lifetime = pos 0;
      session_retention = pos 3600000000000;
    };
    security = record {
      trusted_origins = [];
      trusted_proxies = [];
      cookie_secure = true;
      max_message_size = pos 65536;
    };
    cloudflare = record {
      mode = codes "disabled";
      binary = codes "/usr/local/bin/cloudflared";
      token_file = codes "/etc/webterm/cloudflare-token";
    };
  }

  -- `none` is an error.
  unfoldable pub parse_optional_duration : Text → ℤ → Option ℤ
  parse_optional_duration value current =
      if text_eq value []
      then some current
      else if text_eq value (codes "0")
      then some (pos 0)
      else positive (start.parse_duration value)

  -- The three durations, of which each must parse.
  abbrev pub with_durations : Option ℤ → Option ℤ → Option ℤ → Terminal → Option Terminal
  with_durations (some idle) (some lifetime) (some retention) terminal = some (record terminal {
    idle_timeout = idle;
    max_lifetime = lifetime;
    session_retention = retention;
  })
  with_durations none _ _ terminal = none
  with_durations (some _) none _ terminal = none
  with_durations (some _) (some _) none terminal = none

  abbrev pub read_durations : Text → Text → Text → Terminal → Option Terminal
  read_durations idle lifetime retention terminal =
      with_durations (parse_optional_duration idle terminal.idle_timeout)
        (parse_optional_duration lifetime terminal.max_lifetime)
        (parse_optional_duration retention terminal.session_retention) terminal

  abbrev pub with_terminal : Option Terminal → Config → Option Config
  with_terminal none cfg = none
  with_terminal (some terminal) cfg = some (record cfg { terminal = terminal })

  abbrev pub merge_cloudflare : Text → Text → Text → Cloudflare → Cloudflare
  merge_cloudflare mode binary token_file current = record {
    mode = or_text mode current.mode;
    binary = or_text binary current.binary;
    token_file = or_text token_file current.token_file;
  }

  -- The parts of the file's settings that cannot fail, over the current ones.
  abbrev pub file_terminal : DiskConfig → Terminal → Terminal
  file_terminal disk terminal = record terminal {
    shell = or_text disk.shell terminal.shell;
    max_sessions = or_positive disk.max_sessions terminal.max_sessions;
  }

  abbrev pub file_others : DiskConfig → Config → Config
  file_others disk cfg = record cfg {
    listen = or_text disk.listen cfg.listen;
    security = record {
      max_message_size = or_positive disk.max_message_size cfg.security.max_message_size;
      trusted_origins = or_some disk.trusted_origins cfg.security.trusted_origins;
      trusted_proxies = or_some disk.trusted_proxies cfg.security.trusted_proxies;
      cookie_secure = or_some disk.cookie_secure cfg.security.cookie_secure;
    };
    cloudflare =
        merge_cloudflare disk.cloudflare.mode disk.cloudflare.binary disk.cloudflare.token_file
          cfg.cloudflare;
  }

  -- The file over the defaults.
  unfoldable pub merge : DiskConfig → Config → Option Config
  unfolding parse_optional_duration
  merge disk cfg =
      with_terminal
        (read_durations disk.idle_timeout disk.max_lifetime disk.session_retention
          (file_terminal disk cfg.terminal))
        (file_others disk cfg)

  -- The same for the environment.
  abbrev pub environment_terminal : Terminal → Terminal
  environment_terminal terminal = record terminal {
    shell = or_text (start.getenv (codes "WEBTERM_SHELL")) terminal.shell;
    max_sessions =
        or_count (start.atoi (start.getenv (codes "WEBTERM_MAX_SESSIONS"))) terminal.max_sessions;
  }

  abbrev pub environment_others : Config → Config
  environment_others cfg = record cfg {
    listen = or_text (start.getenv (codes "WEBTERM_LISTEN")) cfg.listen;
    cloudflare =
        merge_cloudflare (start.getenv (codes "WEBTERM_TUNNEL_MODE"))
          (start.getenv (codes "WEBTERM_CLOUDFLARED"))
          (start.getenv (codes "WEBTERM_CLOUDFLARE_TOKEN_FILE")) cfg.cloudflare;
  }

  -- The environment over both.
  unfoldable pub apply_environment : Config → Option Config
  unfolding parse_optional_duration
  apply_environment cfg =
      with_terminal
        (read_durations (start.getenv (codes "WEBTERM_IDLE_TIMEOUT"))
          (start.getenv (codes "WEBTERM_MAX_LIFETIME"))
          (start.getenv (codes "WEBTERM_SESSION_RETENTION")) (environment_terminal cfg.terminal))
        (environment_others cfg)
