-- ===== src/Access/Tests.antt =====
-- Runs on a remote client, a local proxy and a trusted one.
use termdock.Base.{ℕ, ◌≡◌, refl, true, false, [], ◌∷◌, Option, none, some, if◌then◌else◌}
use termdock.Base.Text.{Text, text_eq, codes}
use termdock.Access.{
  Network, Request, Trust, any_matches, client_address, valid_origin, cookie_secure,
  web_socket_status,
}
use termdock.Access.Spoofing.{untrusted_peer-direct}

abbrev after_scheme : Text → Text
after_scheme [] = []
after_scheme (c ∷ []) = []
after_scheme (c ∷ d ∷ cs) =
    if (text_eq (c ∷ d ∷ []) (codes "//")) then cs else after_scheme (d ∷ cs)

abbrev before : ℕ → Text → Option Text
before c [] = none
before c (d ∷ ds) =
    if text_eq (c ∷ []) (d ∷ [])
    then some []
    else elim (before c ds) [ none ↦ none | some host ↦ some (d ∷ host) ]

-- An address is its own text here, and no network is read.
abbrev a_network : Network
a_network = record {
  split_host_port = before b':';
  parse_ip = λ text. if text_eq text [] then none else some text;
  is_loopback = text_eq (codes "127.0.0.1");
  equal = text_eq;
  parse_cidr = λ text. none;
  url_host =
      λ origin. if text_eq (after_scheme origin) [] then none else some (after_scheme origin);
  equal_fold = text_eq;
}

abbrev from : Text → Request
from peer = record {
  remote_addr = peer;
  host = codes "dock";
  is_tls = false;
  origin = codes "https://evil/";
  forwarded_host = codes "evil/";
  forwarded_proto = codes "https";
}

abbrev a_trust : Trust
a_trust = record {
  proxies = codes " 10.0.0.9 " ∷ [];
  origins = codes "https://good/" ∷ [];
  cookie_secure = true;
}

local_proxy_run : web_socket_status true a_network a_trust (from (codes "127.0.0.1:5000")) ≡ 101
unfolding web_socket_status any_matches
local_proxy_run = refl

trusted_proxy_run : cookie_secure a_network a_trust (from (codes "10.0.0.9:5000")) ≡ true
unfolding cookie_secure any_matches
trusted_proxy_run = refl

untrusted_peer-direct_example :
    (valid_origin a_network a_trust (from (codes "9.9.9.9:5000")) ≡ false)
    × (cookie_secure a_network a_trust (from (codes "9.9.9.9:5000")) ≡ false)
    × (web_socket_status true a_network a_trust (from (codes "9.9.9.9:5000")) ≡ 403)
unfolding client_address any_matches
untrusted_peer-direct_example =
    untrusted_peer-direct a_network a_trust (from (codes "9.9.9.9:5000")) (codes "9.9.9.9") true
      refl refl refl
