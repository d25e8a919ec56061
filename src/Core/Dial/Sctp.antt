-- ===== src/Core/Dial/Sctp.antt =====
-- src/core/link_sctp_linux.go: dialling, the addresses, and the accept loop. The sctp package, name
-- resolution and the texts of addresses are parameters.
use v6space.Base.{
  ℕ, ◌≡◌, refl, Bool, true, false, Option, none, some, List, [], ◌∷◌, ◌++◌, ◌==◌, if◌then◌else◌,
  has_char, split_by, codes, lookup,
}
use v6space.Core.Link.{LinkOptions}
use v6space.Core.Net.{is_link_local}
use v6space.Core.Net.HostPort.{split_host_port, split_host_port-colon}
use v6space.Core.Dial.{Url, LinkInfo, info_Eq, link_info_for, link_options_for_listener, Dial}

-- sctp.SCTPAddr.
pub record SctpAddr : Type 0 where
  pub ip_addrs : List (List ℕ)
  pub port : ℕ

-- net.ResolveIPAddr, the text of an address, and what strconv.Atoi gives besides its error.
pub record Resolver : Type 0 where
  pub resolve : List ℕ → Option (List ℕ)
  pub ip_text : List ℕ → List ℕ
  pub atoi : List ℕ → ℕ

-- The loop of getAddress: names that do not resolve are passed over.
abbrev pub add_resolved : Option (List ℕ) → List (List ℕ) → List (List ℕ)
add_resolved none ips = ips
add_resolved (some ip) ips = ip ∷ ips

unfoldable pub resolve_all : Resolver → List (List ℕ) → List (List ℕ)
resolve_all r [] = []
resolve_all r (t ∷ ts) = add_resolved (r.resolve t) (resolve_all r ts)

-- getAddress; `none` is the panic on a host without a port.
abbrev pub address_of : Resolver → Option (List ℕ × List ℕ) → Option SctpAddr
address_of r none = none
address_of r (some (ip, port)) =
    let parts = split_by b',' ip in
    some (record { ip_addrs = resolve_all r (parts.0 ∷ parts.1); port = r.atoi port })

unfoldable pub get_address : Resolver → List ℕ → Option SctpAddr
get_address r host = address_of r (split_host_port host)

pub data SctpOutcome : Type 0 where
  already bad_host unresolved crashes not_connected : SctpOutcome
  created : LinkInfo → LinkOptions → Bool → Bool → SctpOutcome

-- Whether the socket is made, connects and takes the events.
abbrev pub connected : Bool → LinkInfo → LinkOptions → Option SctpAddr → SctpOutcome
connected works info options none = crashes
connected works info options (some a) =
    if works then created info options false false else not_connected

abbrev pub resolved :
    Resolver → Bool → LinkInfo → LinkOptions → List ℕ → Option (List ℕ) → SctpOutcome
resolved r works info options port none = unresolved
resolved r works info options port (some ip) =
    connected works info options (get_address r (r.ip_text ip ++ b':' ∷ port))

abbrev pub with_host :
    Resolver → Bool → LinkInfo → LinkOptions → Option (List ℕ × List ℕ) → SctpOutcome
with_host r works info options none = bad_host
with_host r works info options (some (host, port)) =
    resolved r works info options port (r.resolve host)

abbrev pub sctp_info : Dial → LinkInfo
sctp_info d = link_info_for (codes "sctp") d.sintf (split_by b'%' d.url.host).0

-- linkSCTP.dial.
unfoldable pub dial_sctp : Resolver → Bool → List (LinkInfo × Option ℕ) → Dial → SctpOutcome
dial_sctp r works links d = elim (lookup (sctp_info d) links) [
  | some v ↦ already
  | none ↦ with_host r works (sctp_info d) d.options (split_host_port d.url.host)
]

-- The accept loop: a connection with its addresses as JSON and the first of them, `none` for an
-- error of Accept or of the encoding.
unfoldable pub accept_sctp : Url → List ℕ → List (Option (List ℕ × List ℕ)) → List SctpOutcome
accept_sctp u sintf [] = []
accept_sctp u sintf (none ∷ events) = []
accept_sctp u sintf (some (json, ip) ∷ events) =
    created (link_info_for (codes "sctp") sintf json) (link_options_for_listener u) true
      (is_link_local ip)
    ∷ accept_sctp u sintf events

pub data SctpListen : Type 0 where
  listen_crashes listen_failed : SctpListen
  listening : SctpAddr → SctpListen

-- linkSCTP.listen up to the accept loop, over whether the socket listens.
abbrev pub listen_on : Bool → Option SctpAddr → SctpListen
listen_on works none = listen_crashes
listen_on works (some a) = if works then listening a else listen_failed

unfoldable pub listen_sctp : Resolver → Bool → Url → SctpListen
listen_sctp r works u = listen_on works (get_address r u.host)

-- Dialling a new sctp link whose host resolves to an address with a colon in its text, as every
-- IPv6 address has, crashes the node, whatever the port is and whether or not the other node is
-- there; and so does listening on a URL whose host has no port.
pub dial_sctp-crashes :
    (r : Resolver) (works : Bool) (links : List (LinkInfo × Option ℕ)) (d : Dial) (u : Url)
    (host port ip text : List ℕ) (c : ℕ)
    → lookup (sctp_info d) links ≡ none
    → split_host_port d.url.host ≡ some (host, port)
    → r.resolve host ≡ some ip
    → r.ip_text ip ≡ c ∷ text
    → (c == b'[') ≡ false
    → has_char b':' (c ∷ text) ≡ true
    → split_host_port u.host ≡ none
    → (dial_sctp r works links d ≡ crashes) × (listen_sctp r works u ≡ listen_crashes)
unfolding dial_sctp get_address listen_sctp
dial_sctp-crashes r works links d u host port ip text c fresh host_port found shape bare colon
      no_port =
    (
      rw
          (
            dial_sctp,
            fresh,
            host_port,
            found,
            get_address,
            shape,
            split_host_port-colon c text port bare colon,
          )
          refl,
      rw (listen_sctp, get_address, no_port) refl,
    )
