-- ===== src/Core/Dial/Transport.antt =====
-- Dialling up to the connection: dialerFor and the dialling of src/core/link_tcp.go and link_unix.go,
-- with the accept loop of the TCP listener.
use v6space.Base.{
  ℕ, Bool, true, false, not, ◌&&◌, ◌||◌, Option, none, some, List, [], ◌∷◌, if◌then◌else◌, bytes_eq,
  lookup,
}
use v6space.Core.Link.{LinkOptions}
use v6space.Core.Net.{to4, is_some, is_link_local, is_global}
use v6space.Core.Dial.{Url, LinkInfo, info_Eq, link_info_for, link_options_for_listener, Dial}

-- net.TCPAddr.
pub record TcpAddr : Type 0 where
  pub ip : List ℕ
  pub port : ℕ
  pub zone : List ℕ

-- The text of an IP address and of a TCP address.
pub record Text : Type 0 where
  pub ip_string : List ℕ → List ℕ
  pub addr_string : TcpAddr → List ℕ

-- tcpIDFor; both cases that are not link-local have one text.
unfoldable pub tcp_id_for : Text → TcpAddr → List ℕ
tcp_id_for text remote =
    if is_link_local remote.ip then text.ip_string remote.ip else text.addr_string remote

-- net.Interface, with the addresses that it has, `none` where they are not available; an address
-- is `none` where it does not parse.
pub record Interface : Type 0 where
  pub name : List ℕ
  pub up : Bool
  pub addrs : Option (List (Option (List ℕ)))

pub data DialerError : Type 0 where
  needs_zone interfaces_error not_found not_up no_addresses no_source : DialerError

pub data DialerFor : Type 0 where
  refused : DialerError → DialerFor
  -- The destination, with its zone, and the local address, if one is set.
  dialer : TcpAddr → Option (List ℕ) → DialerFor

unfoldable pub find_interface : List ℕ → List Interface → Option Interface
find_interface sintf [] = none
find_interface sintf (i ∷ is) = if bytes_eq i.name sintf then some i else find_interface sintf is

abbrev pub same : Bool → Bool → Bool
same true b = b
same false b = not b

-- Whether the loop of dialerFor takes the source address: the scope test, then the family test.
unfoldable pub suits : List ℕ → List ℕ → Bool
suits dst src =
    (is_global src || is_link_local src)
    && (same (is_global src) (is_global dst) || same (is_link_local src) (is_link_local dst))
    && same (is_some (to4 src)) (is_some (to4 dst))

unfoldable pub pick_source : List ℕ → List (Option (List ℕ)) → Option (List ℕ)
pick_source dst [] = none
pick_source dst (none ∷ addrs) = pick_source dst addrs
pick_source dst (some src ∷ addrs) = if suits dst src then some src else pick_source dst addrs

abbrev pub is_empty_text : List ℕ → Bool
is_empty_text [] = true
is_empty_text (c ∷ cs) = false

abbrev pub from_source : TcpAddr → Option (List ℕ) → DialerFor
from_source dst none = refused no_source
from_source dst (some src) = dialer dst (some src)

unfoldable pub from_addrs : TcpAddr → Option (List (Option (List ℕ))) → DialerFor
from_addrs dst none = refused no_addresses
from_addrs dst (some addrs) = from_source dst (pick_source dst.ip addrs)

unfoldable pub from_interface : TcpAddr → Option Interface → DialerFor
from_interface dst none = refused not_found
from_interface dst (some i) = if i.up then from_addrs dst i.addrs else refused not_up

-- The part of dialerFor for a source interface, the destination's zone being set.
unfoldable pub dialer_on : Option (List Interface) → List ℕ → TcpAddr → DialerFor
dialer_on none sintf dst = refused interfaces_error
dialer_on (some interfaces) sintf dst = from_interface dst (find_interface sintf interfaces)

-- dialerFor.
unfoldable pub dialer_for : Option (List Interface) → TcpAddr → List ℕ → DialerFor
dialer_for interfaces dst sintf =
    let zoned =
      if is_link_local dst.ip && not (is_empty_text sintf)
      then record dst { zone = sintf }
      else dst in
    if is_link_local dst.ip && is_empty_text zoned.zone
    then refused needs_zone
    else if is_empty_text sintf
    then dialer zoned none
    else dialer_on interfaces sintf zoned

pub data Outcome : Type 0 where
  resolve_failed dial_failed : Outcome
  no_dialer : DialerError → Outcome
  already : Outcome
  -- The link that create makes: the table's key, the options, and whether it is incoming and
  -- forced.
  created : LinkInfo → LinkOptions → Bool → Bool → Outcome

-- linkTCP.dial and linkTLS.dial after name resolution, over whether the connection is made.
unfoldable pub dial_tcp :
    Text
    → List (LinkInfo × Option ℕ)
    → Option (List Interface)
    → Option TcpAddr
    → Bool
    → List ℕ
    → Dial
    → Outcome
dial_tcp text links interfaces resolved dialled link_type d = elim resolved [
  | none ↦ resolve_failed
  | some addr ↦ elim (dialer_for interfaces addr d.sintf) [
    | refused e ↦ no_dialer e
    | dialer dst src ↦
        let info = link_info_for link_type d.sintf (tcp_id_for text dst) in
        elim (lookup info links) [
          | some v ↦ already
          | none ↦ if dialled then created info d.options false false else dial_failed
        ]
  ]
]

-- linkUNIX.dial and linkSOCKS.dial, which go by the path.
unfoldable pub dial_path : List (LinkInfo × Option ℕ) → Bool → Bool → List ℕ → Dial → Outcome
dial_path links resolved dialled link_type d =
    let info = link_info_for link_type [] d.url.path in
    elim (lookup info links) [
      | some v ↦ already
      | none ↦
          if not resolved
          then resolve_failed
          else if dialled
          then created info d.options false false
          else dial_failed
    ]

-- The accept loop of the listener of link_tcp.go and link_tls.go over what Accept gives, `none`
-- for an error.
unfoldable pub accept_loop : Text → Url → List ℕ → List ℕ → List (Option TcpAddr) → List Outcome
accept_loop text u sintf link_type [] = []
accept_loop text u sintf link_type (none ∷ events) = []
accept_loop text u sintf link_type (some remote ∷ events) =
    created (link_info_for link_type sintf (tcp_id_for text remote)) (link_options_for_listener u)
      true (is_link_local remote.ip)
    ∷ accept_loop text u sintf link_type events
