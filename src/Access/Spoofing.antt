-- ===== src/Access/Spoofing.antt =====
-- internal/server/server.go: what the forwarding headers of a peer that is not trusted change.
use termdock.Base.{
  ◌≡◌, refl, Bool, false, not, ◌&&◌, ◌||◌, [], Option, none, some, if◌then◌else◌, arith,
}
use termdock.Base.Text.{Text, text_eq}
use termdock.Access.{
  Network, Ip, Request, Trust, client_address, any_matches, forwarded_trusted, cookie_secure,
  request_host, same_site, any_origin, valid_origin, web_socket_status,
}

-- The origin names the host of the request itself, or is one of those that the settings trust.
abbrev pub is_direct : Network → Trust → Request → Option Text → Bool
is_direct net trust request none = false
is_direct net trust request (some site) =
    not (text_eq site [])
    && (net.equal_fold site request.host || any_origin net trust.origins request.origin)

untrusted :
    (net : Network) (trust : Trust) (request : Request) (address : Ip)
    → net.parse_ip (client_address net request) ≡ some address
    → net.is_loopback address ≡ false
    → any_matches net trust.proxies address ≡ false
    → forwarded_trusted net trust request ≡ false
unfolding forwarded_trusted
untrusted net trust request address p l h = rw p (rw l h)

same_site-direct :
    (net : Network) (trust : Trust) (request : Request) (site : Option Text)
    → forwarded_trusted net trust request ≡ false
    → same_site net trust request site ≡ is_direct net trust request site
unfolding same_site request_host
same_site-direct net trust request none h = refl
same_site-direct net trust request (some site) h = rw h refl

-- Where the peer's address is read, is no loopback address and matches no trusted proxy, the
-- forwarding headers change nothing: an origin is valid exactly if it has a host that is the
-- request's own, or is a trusted origin, the cookie is secure exactly if the settings ask for it and
-- the connection is TLS, and a WebSocket is opened exactly if the request is authenticated and its
-- origin is valid in that sense, 401 and 403 telling the other two cases.
pub untrusted_peer-direct :
    (net : Network) (trust : Trust) (request : Request) (address : Ip) (authenticated : Bool)
    → net.parse_ip (client_address net request) ≡ some address
    → net.is_loopback address ≡ false
    → any_matches net trust.proxies address ≡ false
    → (valid_origin net trust request ≡ is_direct net trust request (net.url_host request.origin))
      × (cookie_secure net trust request ≡ (trust.cookie_secure && request.is_tls))
      × (web_socket_status authenticated net trust request ≡ (
          if not authenticated
          then 401
          else if is_direct net trust request (net.url_host request.origin)
          then 101
          else 403))
unfolding valid_origin cookie_secure web_socket_status
untrusted_peer-direct net trust request address authenticated p l h =
    let u = untrusted net trust request address p l h in
    let v = same_site-direct net trust request (net.url_host request.origin) u in
    (v, rw u (ground arith), rw v (ground arith))
