-- ===== src/Core/Peers.antt =====
-- The configured peers and the node around them: src/core/api.go (AddPeer, RemovePeer, RemovePeers,
-- CallPeer, Listen), src/core/core.go (New, _addPeerLoop, RetryPeersNow, Stop) and
-- src/core/options.go. The parsing of URLs is a parameter.
pub mod Known
pub mod Loop
pub mod Removal
use v6space.Base.{
  ℕ, zero, suc, ◌+◌, Bool, true, false, not, ◌&&◌, ◌||◌, Option, none, some, List, [], ◌∷◌, ◌++◌,
  length, replicate, ◌==◌, ltb, if◌then◌else◌, bytes_eq, bytes_eq_iff, bytes_Eq, Eq, lookup, insert,
  erase, arith, ◌≡◌, ◌↔◌, refl,
}
use v6space.Core.Address.{copy_into}
use v6space.Core.Dial.{
  Url, LinkInfo, info_Eq, Names, Called, connected, invalid_key, invalid_priority, unknown_scheme,
  dialling, Dial, call, scheme_of, Scheme, tcp, tls, unix, socks, sctp, mpath,
}

-- Peer, the key of the configured peers.
pub record Peer : Type 0 where
  pub uri : List ℕ
  pub source_interface : List ℕ

unfoldable pub peer_eq : Peer → Peer → Bool
peer_eq a b = bytes_eq a.uri b.uri && bytes_eq a.source_interface b.source_interface

pub peer_eq_iff : (a b : Peer) → (peer_eq a b ≡ true) ↔ (a ≡ b)
unfolding peer_eq
peer_eq_iff a b =
    ground (arith, bytes_eq_iff a.uri b.uri, bytes_eq_iff a.source_interface b.source_interface)

instance abbrev pub peer_Eq : Eq Peer
peer_Eq = record { beq = peer_eq; beq_iff = peer_eq_iff }

pub data SetupOption : Type 0 where
  peer_option : Peer → SetupOption
  listen_address : List ℕ → SetupOption
  node_info : ℕ → SetupOption
  node_info_privacy : Bool → SetupOption
  network_domain : List ℕ → SetupOption
  allowed_public_key : List ℕ → SetupOption

-- Core.config; a NodeInfo map is a number.
pub record Config : Type 0 where
  pub peers : List (Peer × Option LinkInfo)
  pub listeners : List (List ℕ × Bool)
  pub nodeinfo : Option ℕ
  pub nodeinfo_privacy : Bool
  pub allowed_public_keys : List (List ℕ × Bool)
  pub prefix : List ℕ

-- _applyOption.
unfoldable pub apply_option : SetupOption → Config → Config
apply_option (peer_option p) c = record c { peers = insert p none c.peers }
apply_option (listen_address a) c = record c { listeners = insert a true c.listeners }
apply_option (node_info n) c = record c { nodeinfo = some n }
apply_option (node_info_privacy b) c = record c { nodeinfo_privacy = b }
apply_option (network_domain p) c = record c { prefix = p }
apply_option (allowed_public_key k) c = record c {
  allowed_public_keys = insert (copy_into (replicate 32 0) k) true c.allowed_public_keys;
}

unfoldable pub apply_options : List SetupOption → Config → Config
apply_options [] c = c
apply_options (o ∷ os) c = apply_options os (apply_option o c)

abbrev pub no_config : Config
no_config = record {
  peers = [];
  listeners = [];
  nodeinfo = none;
  nodeinfo_privacy = false;
  allowed_public_keys = [];
  prefix = [];
}

-- The node: its configuration, the table of links, whether it was stopped, whether the peers'
-- timer is set, and the connections that were closed.
pub record Node : Type 0 where
  pub config : Config
  pub links : List (LinkInfo × Option ℕ)
  pub stopped : Bool
  pub timer : Bool
  pub closed : List ℕ

abbrev pub Parse : Type 0
Parse = List ℕ → Option Url

pub data PeerError : Type 0 where
  already_configured not_configured unparsable : PeerError
  not_called : Called → PeerError

pub record Added : Type 0 where
  pub node : Node
  pub dials : List Dial
  pub error : Option PeerError

abbrev pub refuse : PeerError → Node → Added
refuse e node = record { node = node; dials = []; error = some e }

-- AddPeer after the call: a call that reports no error is remembered with its link information.
unfoldable pub remember : Peer → LinkInfo × Called → Node → Added
remember p (info, dialling d) node = record {
  node = record node {
    config = record node.config { peers = insert p (some info) node.config.peers };
  };
  dials = d ∷ [];
  error = none;
}
remember p (info, connected) node = record {
  node = record node {
    config = record node.config { peers = insert p (some info) node.config.peers };
  };
  dials = [];
  error = none;
}
remember p (info, invalid_key) node = refuse (not_called invalid_key) node
remember p (info, invalid_priority) node = refuse (not_called invalid_priority) node
remember p (info, unknown_scheme) node = refuse (not_called unknown_scheme) node

-- AddPeer, over the node at each of its three turns: it looks for the peer, then it makes the call,
-- and then it remembers the peer; other calls can come in between.
unfoldable pub add_peer_in : Names → Parse → Peer → Node → Node → Node → Added
add_peer_in names parse p asked calling node = elim (lookup p asked.config.peers) [
  | some v ↦ refuse already_configured node
  | none ↦ elim (parse p.uri) [
    | none ↦ refuse unparsable node
    | some u ↦ remember p (call names calling.links u p.source_interface) node
  ]
]

-- AddPeer where no other call comes in between.
unfoldable pub add_peer : Names → Parse → Peer → Node → Added
add_peer names parse p node = add_peer_in names parse p node node node

-- The closing of a peer's link: the one that the table has under the remembered information.
abbrev pub link_of : Option (Option ℕ) → List ℕ
link_of none = []
link_of (some none) = []
link_of (some (some i)) = i ∷ []

unfoldable pub close_link : Option LinkInfo → List (LinkInfo × Option ℕ) → List ℕ
close_link none links = []
close_link (some info) links = link_of (lookup info links)

-- RemovePeer.
unfoldable pub remove_peer : Peer → Node → Node × Option PeerError
remove_peer p node = elim (lookup p node.config.peers) [
  | none ↦ (node, some not_configured)
  | some info ↦ (
    record node {
      config = record node.config { peers = erase p node.config.peers };
      closed = node.closed ++ close_link info node.links;
    },
    none,
  )
]

-- The loop's variable `linkInfo` of RemovePeers, after `n` further rounds or else at the loop's end.
unfoldable pub seen_after : ℕ → Option LinkInfo → List (Peer × Option LinkInfo) → Option LinkInfo
seen_after zero info peers = info
seen_after (suc n) info [] = info
seen_after (suc n) info ((p, next) ∷ peers) = seen_after n next peers

-- One closure, over what it sees in the variable, before the ones of the later rounds; `none` is the
-- panic of `*linkInfo` for nil.
abbrev pub close_seen :
    Option LinkInfo → List (LinkInfo × Option ℕ) → Option (List ℕ) → Option (List ℕ)
close_seen none links more = none
close_seen (some info) links none = none
close_seen (some info) links (some ids) = some (link_of (lookup info links) ++ ids)

-- The closures of RemovePeers, which run in the links' actor and all read the one variable of the
-- loop: the one that a peer's round makes reads it after `delay` of that peer further rounds.
unfoldable pub close_links :
    (Peer → ℕ) → List (Peer × Option LinkInfo) → List (LinkInfo × Option ℕ) → Option (List ℕ)
close_links delay [] links = some []
close_links delay ((p, none) ∷ peers) links = close_links delay peers links
close_links delay ((p, some info) ∷ peers) links =
    close_seen (seen_after (delay p) (some info) peers) links (close_links delay peers links)

abbrev pub emptied : Node → List ℕ → Node
emptied node ids = record node {
  config = record node.config { peers = [] };
  closed = node.closed ++ ids;
}

abbrev pub without_peers : Node → Option (List ℕ) → Option Node
without_peers node none = none
without_peers node (some ids) = some (emptied node ids)

-- RemovePeers, the map's order being the list's; `none` where the program panics.
unfoldable pub remove_peers : (Peer → ℕ) → Node → Option Node
remove_peers delay node = without_peers node (close_links delay node.config.peers node.links)

pub data LoopStep : Type 0 where
  -- `u` is nil in CallPeer.
  crashes : LoopStep
  called : Called → LoopStep

-- One peer of _addPeerLoop: an error of parsing is logged, and the call is made all the same.
unfoldable pub call_peer : Names → Parse → Node → Peer → LoopStep
call_peer names parse node p = elim (parse p.uri) [
  | none ↦ crashes
  | some u ↦ called (call names node.links u p.source_interface).1
]

unfoldable pub call_peers : Names → Parse → Node → List (Peer × Option LinkInfo) → List LoopStep
call_peers names parse node [] = []
call_peers names parse node ((p, info) ∷ peers) =
    call_peer names parse node p ∷ call_peers names parse node peers

-- _addPeerLoop: what its goroutines do, and the timer that is set again.
unfoldable pub add_peer_loop : Names → Parse → Node → Node × List LoopStep
add_peer_loop names parse node =
    if node.stopped
    then (node, [])
    else (record node { timer = true }, call_peers names parse node node.config.peers)

pub data Closing : Type 0 where
  cancels_context shuts_down_links closes_connection : Closing

-- _close, with what it does around the node's own state, in its order.
unfoldable pub stop : Node → Node × List Closing
stop node = (
  record node { stopped = true; timer = false },
  cancels_context ∷ shuts_down_links ∷ closes_connection ∷ [],
)

-- The dispatch of Core.Listen, without the schemes that only links.listen knows.
unfoldable pub listen_scheme : List ℕ → Option Scheme
listen_scheme name = elim (scheme_of name) [
  | none ↦ none
  | some kind ↦ elim kind as (λ _. Option Scheme) [
    | tcp ↦ some tcp
    | socks ↦ none
    | tls ↦ some tls
    | unix ↦ some unix
    | sctp ↦ none
    | mpath ↦ none
  ]
]
