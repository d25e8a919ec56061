-- ===== src/Core/Examples/Peers.antt =====
-- Tests of dialling and of the configured peers.
use v6space.Base.{
  ℕ, Option, ◌++◌, ◌≤◌, zero, suc, ◌≡◌, ◌≢◌, ◌↔◌, ◌⊎◌, refl, true, false, not, ◌&&◌, ◌||◌, none,
  some, List, [], ◌∷◌, replicate, if◌then◌else◌, lookup, arith, bytes_eq, ap, get_or,
}
use v6space.Core.Address.Prefix.{hex_encode}
use v6space.Core.Version.{decode, check}
use v6space.Core.Link.{LinkOptions, Link, Wire, handshake, accepted}
use v6space.Core.Net.{is_link_local, is_some, to4}
use v6space.Core.Dial.{
  Url, LinkInfo, link_info_for, Names, tls_name, Dial, tls, dialling, call, call_with, call_scheme,
  scheme_of, pinned, priority_of, tls_sni,
}
use v6space.Core.Dial.Transport.{
  TcpAddr, Text, Interface, dialer, dialer_for, Outcome, created, dial_tcp,
}
use v6space.Core.Dial.Call.{IsPinned, handshake-call}
use v6space.Core.Dial.Retry.{Attempt, dial_error, done, retry, retry_ends}
use v6space.Core.Reports.{Running, Table, DebugPeer, has_conn}
use v6space.Core.Dial.{info_Eq}
use v6space.Core.Peers.{
  Peer, peer_eq, Config, no_config, Node, Parse, add_peer_in, add_peer, remove_peer, remove_peers,
  LoopStep, add_peer_loop, emptied, link_of,
}
use v6space.Core.Peers.Removal.{own_links, called_peers, repeated, remove_peers_late}
use v6space.Core.Peers.Known.{
  is_known, is_known_after, succeeds, peers_refine, remove_peer-leaves_link,
}
use v6space.Core.Peers.Loop.{HasCrash, HasUnparsable, add_peer_loop_cases}

abbrev peer_key : List ℕ
peer_key = replicate 32 7

abbrev meta_bytes : List ℕ
meta_bytes = b'm' ∷ b'e' ∷ b't' ∷ b'a' ∷ 0 ∷ 4 ∷ peer_key

abbrev url : Url
url = record {
  scheme = tls_name;
  host = b'h' ∷ [];
  path = [];
  keys = hex_encode peer_key ∷ [];
  priority = [];
  sni = [];
}

abbrev names : Names
names = record { is_ip = λ t. false; split_host = λ t. none }

abbrev options : LinkOptions
options = record { pinned_keys = peer_key ∷ []; priority = 0 }

abbrev dial : Dial
dial = record { kind = tls; url = url; options = options; sintf = []; sni = [] }

abbrev link : Link
link = record { options = options; info = 0; incoming = false; force = false }

abbrev wire : Wire
wire = record {
  deadline_set = true;
  written = some 38;
  received = some meta_bytes;
  deadline_cleared = true;
}

called : (call names [] url []).1 ≡ dialling dial
unfolding call call_with call_scheme scheme_of pinned priority_of tls_sni hex_encode lookup
    v6space.Core.Address.hex_decode bytes_eq
called = refl

accepts : handshake [] link wire ≡ accepted peer_key
unfolding handshake v6space.Core.Link.read_meta decode v6space.Core.Link.admit check bytes_eq
    v6space.Core.Link.member
accepts = refl

handshake-call_example : (url.keys ≡ []) ⊎ IsPinned peer_key url.keys
handshake-call_example =
    handshake-call names [] url [] dial [] link wire peer_key called refl accepts

abbrev outcome : ℕ → Attempt
outcome zero = done
outcome (suc zero) = dial_error
outcome (suc (suc n)) = done

retry_ends_example :
    ((retry 3 outcome 1 ≡ some (1 ∷ [])) × (outcome 1 ≢ dial_error))
    ⊎ ((retry 3 outcome 1 ≡ some (1 ∷ 2 ∷ []))
        × (outcome 1 ≡ dial_error)
        × (outcome 2 ≢ dial_error))
    ⊎ ((retry 3 outcome 1 ≡ some (1 ∷ 2 ∷ 3 ∷ []))
        × (outcome 1 ≡ dial_error)
        × (outcome 2 ≡ dial_error))
retry_ends_example = retry_ends 3 outcome (omega arith)

abbrev local_ip : List ℕ
local_ip = 0xfe ∷ 0x80 ∷ replicate 14 1

abbrev target : TcpAddr
target = record { ip = 0xfe ∷ 0x80 ∷ replicate 14 2; port = 9; zone = [] }

abbrev eth : List ℕ
eth = b'e' ∷ []

abbrev interfaces : List Interface
interfaces = record { name = eth; up = true; addrs = some (some local_ip ∷ []) } ∷ []

dials_from :
    dialer_for (some interfaces) target eth ≡ dialer (record target { zone = eth }) (some local_ip)
unfolding dialer_for is_link_local to4 bytes_eq v6space.Core.Dial.Transport.dialer_on
    v6space.Core.Dial.Transport.from_interface v6space.Core.Dial.Transport.find_interface
    v6space.Core.Dial.Transport.from_addrs v6space.Core.Dial.Transport.pick_source
    v6space.Core.Dial.Transport.suits v6space.Core.Net.is_global v6space.Core.Net.ip_equal
    v6space.Core.Net.is_loopback v6space.Core.Net.is_multicast
dials_from = refl

abbrev parse : Parse
parse t = some url

abbrev peer : Peer
peer = record { uri = b'p' ∷ []; source_interface = [] }

abbrev node : Node
node = record { config = no_config; links = []; stopped = false; timer = false; closed = [] }

abbrev other_peer : Peer
other_peer = record { uri = b'o' ∷ []; source_interface = [] }

abbrev first_info : LinkInfo
first_info = link_info_for tls_name [] (b'1' ∷ [])

abbrev second_info : LinkInfo
second_info = link_info_for tls_name [] (b'2' ∷ [])

abbrev linked : Node
linked = record node {
  config = record no_config {
    peers = (peer, some first_info) ∷ (other_peer, some second_info) ∷ [];
  };
  links = (first_info, some 1) ∷ (second_info, some 2) ∷ [];
}

peers_refine_example :
    (is_known (add_peer_in names parse peer node linked node).node peer ≡ (
      if succeeds (add_peer_in names parse peer node linked node).error
      then peer_eq peer peer || is_known node peer
      else is_known node peer))
    × (is_known (remove_peer peer node).0 peer ≡ (not (peer_eq peer peer) && is_known node peer))
    × (succeeds (remove_peer peer node).1 ≡ is_known node peer)
    × (is_known_after (remove_peers (λ r. 1) node) peer ≡ false)
    × (remove_peers (λ r. 0) node
        ≡ some (record node {
          config = record node.config { peers = [] };
          closed = node.closed ++ own_links node.config.peers node.links;
        }))
peers_refine_example = peers_refine names parse peer peer (λ r. 1) node linked node

remove_peers_late_example :
    ((info : LinkInfo) × (some second_info ≡ some info)
      × (remove_peers (λ r. 2) linked
          ≡ some (emptied linked (repeated 2 (link_of (lookup info linked.links))))))
    ⊎ ((some second_info ≡ none)
        × (called_peers ((peer, some first_info) ∷ []) ≡ 0)
        × (remove_peers (λ r. 2) linked ≡ some (emptied linked [])))
    ⊎ ((some second_info ≡ none) × (1 ≤ 1) × (remove_peers (λ r. 2) linked ≡ none))
remove_peers_late_example =
    remove_peers_late (λ r. 2) linked ((peer, some first_info) ∷ []) other_peer (some second_info)
      refl (λ q. omega arith)

abbrev text : Text
text = record { ip_string = λ ip. b'i' ∷ []; addr_string = λ a. b'a' ∷ [] }

abbrev remote : TcpAddr
remote = record { ip = 10 ∷ 0 ∷ 0 ∷ 1 ∷ []; port = 9; zone = [] }

abbrev dialled_info : LinkInfo
dialled_info = link_info_for tls_name [] (b'a' ∷ [])

adds : succeeds (add_peer names parse peer node).error ≡ true
unfolding add_peer v6space.Core.Peers.add_peer_in lookup v6space.Core.Peers.remember call call_with
    pinned v6space.Core.Address.hex_decode hex_encode priority_of call_scheme scheme_of bytes_eq
adds = refl

dials :
    dial_tcp text [] none (some remote) true tls_name dial
    ≡ created dialled_info options false false
unfolding dial_tcp dialer_for is_link_local to4 lookup v6space.Core.Dial.Transport.tcp_id_for
dials = refl

not_host : dialled_info.remote ≢ url.host
not_host e = absurd (omega (arith, ap (λ t. get_or t 0 0) e))

remove_peer-leaves_link_example :
    (remove_peer peer (record (add_peer names parse peer node).node {
      links = (dialled_info, some 5) ∷ [];
    })).0.closed
    ≡ (add_peer names parse peer node).node.closed
remove_peer-leaves_link_example =
    remove_peer-leaves_link names parse text none peer node url dial (some remote) dialled_info
      options false false 5 refl adds dials not_host

abbrev bad_parse : Parse
bad_parse t = none

abbrev configured : Node
configured = record node { config = record no_config { peers = (peer, none) ∷ [] } }

add_peer_loop_cases_example :
    ((false ≡ true) × (add_peer_loop names bad_parse configured ≡ (configured, [])))
    ⊎ ((false ≡ false)
        × ((add_peer_loop names bad_parse configured).0.timer ≡ true)
        × (HasCrash (add_peer_loop names bad_parse configured).1
            ↔ HasUnparsable bad_parse configured.config.peers))
add_peer_loop_cases_example = add_peer_loop_cases names bad_parse configured

abbrev running : Running
running = record { conn = 3; lname = b'n' ∷ [] }

abbrev table : Table
table = (dialled_info, some running) ∷ []

abbrev debug_peer : DebugPeer
debug_peer = record {
  key = peer_key;
  root = peer_key;
  coords = [];
  port = 1;
  priority = 0;
  conn = 3;
  remote_addr = b'r' ∷ [];
  counters = none;
}

abbrev no_split : List ℕ → Option (List ℕ)
no_split t = none

filed : lookup {K = LinkInfo} dialled_info table ≡ some (some running)
unfolding lookup v6space.Core.Dial.info_eq bytes_eq
filed = refl

not_there : has_conn 4 table ≡ false
unfolding has_conn
not_there = refl

alone : has_conn 3 [] ≡ false
unfolding has_conn
alone = refl
