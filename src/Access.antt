-- ===== src/Access.antt =====
-- internal/server/address.go, and of internal/server/server.go the functions that decide whether a
-- proxy's headers are believed: `forwardedTrusted`, `proxyMatches`, `cookieSecure`, `validOrigin`.
pub mod Spoofing
mod Tests
use termdock.Base.{
  ℕ, Bool, true, false, not, ◌&&◌, ◌||◌, List, [], ◌∷◌, Option, none, some, ◌==◌, if◌then◌else◌,
}
use termdock.Base.Text.{Text, text_eq, codes, split, trim_space}
use mathlib.Core.List.{reverse}

-- `net.IP`, its bytes.
abbrev pub Ip : Type 0
Ip = Text

-- Go's `net.SplitHostPort` (the host), `net.ParseIP`, `IP.IsLoopback`, `IP.Equal`, `net.ParseCIDR`
-- (the network by the addresses it contains), the host `url.Parse` reads, and `strings.EqualFold`.
pub record Network : Type 0 where
  pub split_host_port : Text → Option Text
  pub parse_ip : Text → Option Ip
  pub is_loopback : Ip → Bool
  pub equal : Ip → Ip → Bool
  pub parse_cidr : Text → Option (Ip → Bool)
  pub url_host : Text → Option Text
  pub equal_fold : Text → Text → Bool

-- What is read of a request. A header that is missing is empty.
pub record Request : Type 0 where
  pub remote_addr : Text
  pub host : Text
  pub is_tls : Bool
  pub origin : Text
  pub forwarded_host : Text
  pub forwarded_proto : Text

-- The settings that matter: `security.trusted_proxies`, `trusted_origins` and `cookie_secure`.
pub record Trust : Type 0 where
  pub proxies : List Text
  pub origins : List Text
  pub cookie_secure : Bool

abbrev or_address : Option Text → Text → Text
or_address none address = address
or_address (some []) address = address
or_address (some (c ∷ cs)) address = c ∷ cs

-- `clientAddress`
unfoldable pub client_address : Network → Request → Text
client_address net request =
    or_address (net.split_host_port (trim_space request.remote_addr))
      (trim_space request.remote_addr)

abbrev is_same : Network → Option Ip → Ip → Bool
is_same net none address = false
is_same net (some candidate) address = net.equal candidate address

abbrev contains : Network → Option (Ip → Bool) → Text → Ip → Bool
contains net none trusted address = is_same net (net.parse_ip trusted) address
contains net (some network) trusted address = network address

unfoldable pub proxy_matches : Network → Text → Ip → Bool
proxy_matches net trusted address =
    not (text_eq (trim_space trusted) [])
    && contains net (net.parse_cidr (trim_space trusted)) (trim_space trusted) address

unfoldable pub any_matches : Network → List Text → Ip → Bool
unfolding proxy_matches
any_matches net [] address = false
any_matches net (trusted ∷ rest) address =
    proxy_matches net trusted address || any_matches net rest address

abbrev pub trusts : Network → List Text → Option Ip → Bool
trusts net proxies none = false
trusts net proxies (some address) = net.is_loopback address || any_matches net proxies address

unfoldable pub forwarded_trusted : Network → Trust → Request → Bool
unfolding client_address any_matches
forwarded_trusted net trust request =
    trusts net trust.proxies (net.parse_ip (client_address net request))

-- The cookie gets the attribute Secure.
unfoldable pub cookie_secure : Network → Trust → Request → Bool
unfolding forwarded_trusted
cookie_secure net trust request =
    trust.cookie_secure
    && (request.is_tls
        || (forwarded_trusted net trust request
            && net.equal_fold request.forwarded_proto (codes "https")))

-- The part before the first comma.
abbrev pub first_part : List Text → Text
first_part [] = []
first_part (part ∷ parts) = part

abbrev or_host : Text → Text → Text
or_host [] host = host
or_host (c ∷ cs) host = c ∷ cs

-- The host that the page is served under, as the server believes it.
unfoldable pub request_host : Network → Trust → Request → Text
unfolding forwarded_trusted
request_host net trust request =
    if forwarded_trusted net trust request
    then or_host (trim_space (first_part (split b',' request.forwarded_host))) request.host
    else request.host

-- `strings.TrimSuffix(text, "/")`
abbrev drop_slash : Text → Text
drop_slash [] = []
drop_slash (c ∷ cs) = if c == b'/' then cs else c ∷ cs

abbrev pub trim_slash : Text → Text
trim_slash text = reverse (drop_slash (reverse text))

abbrev pub any_origin : Network → List Text → Text → Bool
any_origin net [] origin = false
any_origin net (trusted ∷ rest) origin =
    net.equal_fold (trim_slash origin) (trim_slash trusted) || any_origin net rest origin

unfoldable pub same_site : Network → Trust → Request → Option Text → Bool
unfolding request_host
same_site net trust request none = false
same_site net trust request (some host) =
    not (text_eq host [])
    && (net.equal_fold host (request_host net trust request)
        || any_origin net trust.origins request.origin)

unfoldable pub valid_origin : Network → Trust → Request → Bool
unfolding same_site
valid_origin net trust request = same_site net trust request (net.url_host request.origin)

-- The status that `webSocket` answers with before the terminal is attached, 101 for the upgrade.
unfoldable pub web_socket_status : Bool → Network → Trust → Request → ℕ
unfolding valid_origin
web_socket_status authenticated net trust request =
    if not authenticated then 401 else if not (valid_origin net trust request) then 403 else 101
