-- ===== src/Core/Dial/Tls.antt =====
-- src/core/link_tls.go: dialling with a server name, the address that a listener takes, which
-- link_tcp.go makes in the same way, and the server name that links.call gives.
use v6space.Base.{
  ℕ, ◌≡◌, ◌⊎◌, Bool, true, false, Option, none, some, List, [], ◌∷◌, ◌++◌, if◌then◌else◌, ◌≢◌,
  lookup,
}
use v6space.Core.Link.{LinkOptions}
use v6space.Core.Net.HostPort.{split_host_port}
use v6space.Core.Dial.{Url, LinkInfo, info_Eq, link_info_for, Dial, tls_name, Names}
use v6space.Core.Dial.Transport.{
  TcpAddr, Text, tcp_id_for, Interface, DialerFor, refused, dialer, dialer_for, Outcome,
  resolve_failed, no_dialer, already, dial_failed, created, accept_loop, is_empty_text,
}

-- linkTLS.dial, over the resolved address and over whether a server name lets the connection be
-- made; the name that the client sends stands beside the outcome where it dials.
abbrev pub dialled : Bool → LinkInfo → LinkOptions → Outcome
dialled true info options = created info options false false
dialled false info options = dial_failed

abbrev pub unless_linked :
    (List ℕ → Bool) → LinkInfo → Dial → Option (Option ℕ) → Outcome × Option (List ℕ)
unless_linked connects info d (some v) = (already, none)
unless_linked connects info d none = (dialled (connects d.sni) info d.options, some d.sni)

abbrev pub tls_dialled :
    Text
    → List (LinkInfo × Option ℕ)
    → (List ℕ → Bool)
    → Dial
    → DialerFor
    → Outcome × Option (List ℕ)
tls_dialled text links connects d (refused e) = (no_dialer e, none)
tls_dialled text links connects d (dialer dst src) =
    let info = link_info_for tls_name d.sintf (tcp_id_for text dst) in
    unless_linked connects info d (lookup info links)

abbrev pub tls_resolved :
    Text
    → List (LinkInfo × Option ℕ)
    → Option (List Interface)
    → (List ℕ → Bool)
    → Dial
    → Option TcpAddr
    → Outcome × Option (List ℕ)
tls_resolved text links interfaces connects d none = (resolve_failed, none)
tls_resolved text links interfaces connects d (some addr) =
    tls_dialled text links connects d (dialer_for interfaces addr d.sintf)

unfoldable pub dial_tls :
    Text
    → List (LinkInfo × Option ℕ)
    → Option (List Interface)
    → Option TcpAddr
    → (List ℕ → Bool)
    → Dial
    → Outcome × Option (List ℕ)
dial_tls text links interfaces resolved connects d =
    tls_resolved text links interfaces connects d resolved

-- The address that a listener listens on: with a source interface, that interface is the zone of
-- the host.
abbrev pub zoned_host : List ℕ → List ℕ → Option (List ℕ × List ℕ) → List ℕ
zoned_host hostport sintf none = hostport
zoned_host hostport sintf (some (host, port)) = b'[' ∷ host ++ b'%' ∷ sintf ++ b']' ∷ b':' ∷ port

unfoldable pub listen_host : List ℕ → List ℕ → List ℕ
listen_host hostport sintf =
    if is_empty_text sintf then hostport else zoned_host hostport sintf (split_host_port hostport)

-- The accept loop of the TLS listener.
unfoldable pub accept_tls : Text → Url → List ℕ → List (Option TcpAddr) → List Outcome
accept_tls text u sintf events = accept_loop text u sintf tls_name events

-- The server name of a URL: the one of its query, where net.ParseIP refuses that text, and else the
-- host, where net.SplitHostPort finds one and net.ParseIP refuses it, and else none. net.ParseIP
-- refuses addresses with a zone too.
abbrev pub IsServerName : Names → Url → List ℕ → Type 0
IsServerName names u t =
    ((u.sni ≢ []) × (names.is_ip u.sni ≡ false) × (t ≡ u.sni))
    ⊎ (((u.sni ≡ []) ⊎ (names.is_ip u.sni ≡ true))
        × (names.split_host u.host ≡ some t)
        × (names.is_ip t ≡ false))
    ⊎ (((u.sni ≡ []) ⊎ (names.is_ip u.sni ≡ true))
        × ((names.split_host u.host ≡ none)
            ⊎ ((h : List ℕ) × (names.split_host u.host ≡ some h) × (names.is_ip h ≡ true)))
        × (t ≡ []))

from_host : Names → Option (List ℕ) → List ℕ
from_host names o = elim o as (λ _. List ℕ) [
  | none ↦ []
  | some host ↦ if names.is_ip host then [] else host
]
