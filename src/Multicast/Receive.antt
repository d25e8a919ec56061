-- ===== src/Multicast/Receive.antt =====
-- listen of src/multicast/multicast.go: what a packet on the group's socket leads to.
use v6space.Base.{
  ℕ, ◌+◌, ◌-◌, ◌*◌, Bool, true, ◌&&◌, Option, none, some, List, [], ◌∷◌, length, get_or, take, drop,
  ltb, leb, if◌then◌else◌, bytes_eq, nat_Eq,
}
use v6space.Core.Address.{key_size}
use v6space.Core.Address.Prefix.{hex_encode}
use v6space.Core.Net.{is_link_local_multicast, ip_equal}
use v6space.Core.Net.Decimal.{print_uint8}
use v6space.Core.Dial.{Url, tls_name}
use v6space.Core.Dial.Transport.{TcpAddr, Text}
use v6space.Multicast.{InterfaceInfo}

-- The checks of listen on the bytes of a beacon: the key, the address and the port.
unfoldable pub parse_beacon : List ℕ → List ℕ → Option (List ℕ × (List ℕ × ℕ))
parse_beacon self_key bs =
    let key = take key_size bs in
    let end = length bs - 2 in
    if ltb (length bs) key_size
    then none
    else if bytes_eq key self_key
    then none
    else if leb end key_size
    then none
    else some (key, (drop key_size (take end bs), get_or bs end 0 * 256 + get_or bs (end + 1) 0))

-- The interface that a beacon came in on: the last one of that name.
unfoldable pub interface_named :
    List ℕ → List (ℕ × InterfaceInfo) → Option InterfaceInfo → Option InterfaceInfo
interface_named zone [] found = found
interface_named zone ((k, info) ∷ is) found =
    interface_named zone is (if bytes_eq info.iface.name zone then some info else found)

-- The URL that the node calls for a beacon.
abbrev pub beacon_url : Text → TcpAddr → List ℕ → ℕ → Url
beacon_url text a key priority = record {
  scheme = tls_name;
  host = text.addr_string (record a { zone = [] });
  path = b'/' ∷ [];
  keys = hex_encode key ∷ [];
  priority = print_uint8 priority;
  sni = [];
}

-- What listen has of the system: the resolution of an address, and the texts of addresses.
pub record Receiver : Type 0 where
  pub own_key : List ℕ
  pub group : List ℕ
  pub resolve : List ℕ → ℕ → Option TcpAddr
  pub text : Text

unfoldable pub call_on : Receiver → Option InterfaceInfo → List ℕ → TcpAddr → Option (Url × List ℕ)
call_on r none key a = none
call_on r (some info) key a =
    if info.listen then some (beacon_url r.text a key info.priority, info.iface.name) else none

unfoldable pub resolved_call :
    Receiver → List (ℕ × InterfaceInfo) → TcpAddr → List ℕ → Option TcpAddr → Option (Url × List ℕ)
resolved_call r interfaces from key none = none
resolved_call r interfaces from key (some a) =
    if ip_equal from.ip a.ip
    then call_on r (interface_named from.zone interfaces none) key a
    else none

unfoldable pub parsed_call :
    Receiver
    → List (ℕ × InterfaceInfo)
    → TcpAddr
    → Option (List ℕ × (List ℕ × ℕ))
    → Option (Url × List ℕ)
parsed_call r interfaces from none = none
parsed_call r interfaces from (some (key, (ip, port))) =
    resolved_call r interfaces from key (r.resolve ip port)

-- The destination of the packet, where the system tells it, is the group.
abbrev pub for_group : List ℕ → Option (List ℕ) → Bool
for_group group none = true
for_group group (some dst) = is_link_local_multicast dst && ip_equal dst group

-- One round of listen: the call that a packet leads to, if it does.
unfoldable pub receive :
    Receiver → List (ℕ × InterfaceInfo) → Option (List ℕ) → TcpAddr → List ℕ → Option (Url × List ℕ)
receive r interfaces dst from bs =
    if for_group r.group dst
    then parsed_call r interfaces from (parse_beacon r.own_key bs)
    else none
