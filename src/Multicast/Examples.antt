-- ===== src/Multicast/Examples.antt =====
-- Tests of multicast.
use v6space.Base.{
  ℕ, zero, suc, ◌<◌, ◌≤◌, ◌≡◌, ◌↔◌, refl, Bool, true, false, Option, none, some, List, [], ◌∷◌,
  ◌++◌, replicate, All, All-append, All-replicate, length, lookup, nat_Eq, take, bytes_eq, arith,
}
use v6space.Core.Address.Bits.{IsByte}
use v6space.Core.Address.Prefix.{hex_encode}
use v6space.Core.Link.{LinkOptions, Link, Wire, handshake, accepted}
use v6space.Core.Dial.{Url, Names, Dial, tls, tls_name, dialling, call}
use v6space.Core.Dial.Transport.{TcpAddr, Text}
use v6space.Multicast.{
  MulticastInterface, Interface, InterfaceInfo, ListenerInfo, Matches, Env, Multicast, announce,
  update_interfaces, make_beacon, joined, sends,
}
use v6space.Multicast.Receive.{parse_beacon, Receiver, receive, for_group}
use v6space.Multicast.Beacon.{parse_beacon-make_beacon, receive-IsCall, IsCall, beacon_peer}
use v6space.Multicast.Interfaces.{IsInUse}
use v6space.Multicast.Listeners.{announce-IsInUse}
use v6space.Multicast.Announce.{first_address, rounds, rounds-sends}

abbrev own_key : List ℕ
own_key = replicate 32 1

abbrev peer_key : List ℕ
peer_key = replicate 32 7

abbrev peer_ip : List ℕ
peer_ip = 0xfe ∷ 0x80 ∷ replicate 14 2

abbrev peer_addr : TcpAddr
peer_addr = record { ip = peer_ip; port = 300; zone = [] }

others : bytes_eq peer_key own_key ≡ false
unfolding bytes_eq
others = refl

parse_beacon-make_beacon_example :
    parse_beacon own_key (make_beacon peer_key peer_addr) ≡ some (peer_key, (peer_ip, 300))
parse_beacon-make_beacon_example =
    parse_beacon-make_beacon own_key peer_key peer_addr refl (omega arith) (omega arith) others

abbrev eth : List ℕ
eth = b'e' ∷ []

abbrev own_ip : List ℕ
own_ip = 0xfe ∷ 0x80 ∷ replicate 14 1

abbrev iface : Interface
iface = record {
  index = 4;
  name = eth;
  up = true;
  multicast = true;
  point_to_point = false;
  system_addrs = some (some own_ip ∷ []);
}

abbrev settings : MulticastInterface
settings = record { regex = 0; beacon = true; listen = true; port = 9; priority = 3 }

abbrev matches : Matches
matches r name = true

abbrev info : InterfaceInfo
info = record {
  iface = iface;
  addrs = some own_ip ∷ [];
  beacon = true;
  listen = true;
  port = 9;
  priority = 0;
}

in_use : lookup 4 (update_interfaces matches (settings ∷ []) (some (iface ∷ []))) ≡ some info
unfolding update_interfaces lookup v6space.Multicast.with_addrs v6space.Multicast.allowed_interfaces
    v6space.Multicast.config_for v6space.Base.insert
in_use = refl

abbrev env : Env
env = record {
  self_key = own_key;
  now = 100;
  opens = λ ip name port. some (6, some (record { ip = ip; port = port; zone = [] }));
}

abbrev old : ListenerInfo
old = record {
  listener = 5;
  addr = some (record { ip = own_ip; port = 9; zone = [] });
  time = 90;
  interval = 3;
}

abbrev before : Multicast
before = record { is_open = true; sock = true; interfaces = []; listeners = (4, old) ∷ [] }

kept :
    lookup 4 (announce matches (settings ∷ []) (some (iface ∷ [])) env before).0.listeners
    ≡ some (record old { interval = 4 })
unfolding announce lookup v6space.Multicast.announce_all update_interfaces
    v6space.Multicast.with_addrs v6space.Multicast.allowed_interfaces v6space.Multicast.config_for
    v6space.Base.insert v6space.Multicast.announce_on v6space.Core.Net.to4 bytes_eq
    v6space.Core.Net.is_link_local v6space.Multicast.announce_at v6space.Multicast.stop_stale
    v6space.Multicast.keeps v6space.Multicast.has_addr v6space.Core.Net.ip_equal
    v6space.Multicast.announce_listener v6space.Multicast.announce_opened make_beacon
kept = refl

announce-IsInUse_example :
    (i : InterfaceInfo) × (lookup 4
        (announce matches (settings ∷ []) (some (iface ∷ [])) env before).0.interfaces
      ≡ some i)
    × IsInUse matches (settings ∷ []) 4 i
announce-IsInUse_example =
    announce-IsInUse matches (settings ∷ []) (some (iface ∷ [])) env before 4
      (record old { interval = 4 }) refl kept

abbrev own_addr : TcpAddr
own_addr = record { ip = own_ip; port = 9; zone = [] }

usable_address : first_address info.addrs ≡ some own_ip
unfolding v6space.Core.Net.is_link_local v6space.Core.Net.to4 bytes_eq
usable_address = refl

abbrev listeners : List (ℕ × ListenerInfo)
listeners = (4, old) ∷ []

listens : lookup {K = ℕ} 4 listeners ≡ some old
unfolding lookup
listens = refl

rounds-sends_example :
    rounds env info 100 20 listeners
    ≡ replicate 20 (joined info ++ sends (make_beacon own_key own_addr) eth ∷ [])
rounds-sends_example =
    rounds-sends env info own_ip own_addr 20 100 listeners old usable_address refl listens refl
      (omega arith)

abbrev text : Text
text = record { ip_string = λ ip. b'i' ∷ []; addr_string = λ a. b'a' ∷ [] }

abbrev receiver : Receiver
receiver = record {
  own_key = own_key;
  group = 0xff ∷ 2 ∷ replicate 14 1;
  resolve = λ ip port. some (record { ip = ip; port = port; zone = [] });
  text = text;
}

abbrev beacon : List ℕ
beacon = peer_key ++ (peer_ip ++ 1 ∷ 44 ∷ [])

abbrev source : TcpAddr
source = record { ip = peer_ip; port = 300; zone = eth }

abbrev url : Url
url = record {
  scheme = tls_name;
  host = b'a' ∷ [];
  path = b'/' ∷ [];
  keys = hex_encode peer_key ∷ [];
  priority = b'0' ∷ [];
  sni = [];
}

calls : receive receiver ((4, info) ∷ []) none source beacon ≡ some (url, eth)
unfolding receive v6space.Multicast.Receive.parsed_call parse_beacon bytes_eq
    v6space.Multicast.Receive.resolved_call v6space.Core.Net.ip_equal
    v6space.Multicast.Receive.call_on v6space.Multicast.Receive.interface_named
    v6space.Core.Net.Decimal.print_uint8
calls = refl

receive-IsCall_example :
    (receive receiver ((4, info) ∷ []) none source beacon ≡ some (url, eth))
    ↔ IsCall receiver ((4, info) ∷ []) none source beacon url eth
receive-IsCall_example = receive-IsCall receiver ((4, info) ∷ []) none source beacon url eth

abbrev names : Names
names = record { is_ip = λ t. false; split_host = λ t. none }

abbrev options : LinkOptions
options = record { pinned_keys = peer_key ∷ []; priority = 0 }

abbrev dial : Dial
dial = record { kind = tls; url = url; options = options; sintf = eth; sni = [] }

abbrev link : Link
link = record { options = options; info = 0; incoming = false; force = false }

abbrev meta_bytes : List ℕ
meta_bytes = b'm' ∷ b'e' ∷ b't' ∷ b'a' ∷ 0 ∷ 4 ∷ peer_key

abbrev wire : Wire
wire = record {
  deadline_set = true;
  written = some 38;
  received = some meta_bytes;
  deadline_cleared = true;
}

dials : (call names [] url eth).1 ≡ dialling dial
unfolding call lookup v6space.Core.Dial.call_with v6space.Core.Dial.pinned
    v6space.Core.Address.hex_decode hex_encode v6space.Core.Dial.priority_of
    v6space.Core.Net.Decimal.parse_uint8 v6space.Core.Net.Decimal.decimal
    v6space.Core.Dial.call_scheme v6space.Core.Dial.scheme_of bytes_eq v6space.Core.Dial.tls_sni
dials = refl

lets_in : handshake [] link wire ≡ accepted peer_key
unfolding handshake v6space.Core.Link.read_meta v6space.Core.Version.decode v6space.Core.Link.admit
    v6space.Core.Version.check bytes_eq v6space.Core.Link.member
lets_in = refl

are_bytes : All IsByte beacon
are_bytes =
    All-append IsByte peer_key (peer_ip ++ 1 ∷ 44 ∷ []) (All-replicate IsByte 32 7 (omega arith)) (
      All-append IsByte peer_ip (1 ∷ 44 ∷ [])
        (omega arith, (omega arith, All-replicate IsByte 14 2 (omega arith)))
        (omega arith, (omega arith, tt)))

beacon_peer_example : (peer_key ≡ take 32 beacon) × (bytes_eq peer_key own_key ≡ false)
beacon_peer_example =
    beacon_peer receiver ((4, info) ∷ []) none source beacon url eth names [] dial [] link wire
      peer_key are_bytes calls dials refl lets_in
