-- ===== src/Config/Loading.antt =====
-- internal/config/config.go: `Validate` and `Load`.
use termdock.Base.{
  ℕ, Bool, true, not, ◌&&◌, ◌||◌, [], ◌∷◌, Option, none, some, ltb, if◌then◌else◌, all,
}
use termdock.Base.Int.{ℤ, pos, negsuc}
use termdock.Base.Text.{Text, text_eq, codes, trim_space}
use termdock.Filepath.{is_abs}
use termdock.Config.{
  Config, Terminal, Security, Cloudflare, DiskConfig, Info, Start, is_executable, is_writable,
  defaults, merge, apply_environment,
}

-- Is the number below the bound?
abbrev pub below : ℤ → ℕ → Bool
below (pos n) bound = ltb n bound
below (negsuc n) bound = true

abbrev pub is_mode : Text → Bool
is_mode mode =
    text_eq mode (codes "disabled")
    || (text_eq mode (codes "quick") || text_eq mode (codes "fixed"))

abbrev pub is_proxy : Start → Text → Bool
is_proxy start proxy =
    not (text_eq (trim_space proxy) [])
    && (start.is_cidr (trim_space proxy) || start.is_ip (trim_space proxy))

abbrev pub is_shell : Start → Text → Bool
is_shell start shell = is_abs shell && is_executable (start.stat shell)

abbrev pub limits_hold : Terminal → Security → Bool
limits_hold terminal security =
    not (below terminal.max_sessions 1 || below security.max_message_size 1024)

abbrev pub timeouts_hold : Terminal → Bool
timeouts_hold terminal = not (
    below terminal.idle_timeout 0
    || (below terminal.max_lifetime 0 || below terminal.session_retention 0))

abbrev pub tunnel_holds : Cloudflare → Bool
tunnel_holds tunnel =
    is_mode tunnel.mode
    && ((text_eq tunnel.mode (codes "disabled") || is_abs tunnel.binary)
        && (not (text_eq tunnel.mode (codes "fixed")) || is_abs tunnel.token_file))

-- Does `Validate` give no error?
unfoldable pub validate : Start → Config → Bool
validate start cfg =
    not (text_eq cfg.listen [])
    && (is_shell start cfg.terminal.shell
        && (limits_hold cfg.terminal cfg.security
            && (timeouts_hold cfg.terminal
                && (tunnel_holds cfg.cloudflare
                    && all (is_proxy start) cfg.security.trusted_proxies))))

abbrev pub checked : Start → Option Config → Option Config
checked start none = none
checked start (some cfg) = if validate start cfg then some cfg else none

abbrev pub over : Start → Option Config → Option Config
over start none = none
over start (some cfg) = apply_environment start cfg

abbrev pub merged : Start → Option DiskConfig → Option Config
merged start none = none
merged start (some disk) = merge start disk (defaults start)

abbrev pub from_file : Start → Text → Option Info → Option Config
from_file start path none = none
from_file start path (some info) =
    if is_writable info then none else merged start (start.decoded path)

abbrev pub file_settings : Start → Text → Option Config
file_settings start [] = some (defaults start)
file_settings start (c ∷ cs) = from_file start (c ∷ cs) (start.stat (c ∷ cs))

-- `Load`, `none` for an error. `decoded` is none for a file that cannot be read or decoded.
unfoldable pub load : Start → Text → Option Config
unfolding defaults merge apply_environment validate
load start path = checked start (over start (file_settings start path))
