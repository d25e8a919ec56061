-- ===== src/Core/Proto.antt =====
-- src/core/proto.go: the requests to other nodes and the answers to theirs; and of src/core/core.go
-- the session types: ReadFrom, WriteTo and MTU.
-- A reqInfo pointer is its serial number. What GetSelf and the JSON encoder, GetPeers and GetDHT
-- give is a parameter, Local. A message to an actor is handled in the step that sends it.
pub mod Requests
pub mod Chunks
pub mod Exchange
use v6space.Base.{
  ℕ, zero, suc, ◌+◌, ◌-◌, ◌%◌, ◌^◌, min, Bool, true, false, Option, none, some, List, [], ◌∷◌, ◌++◌,
  map, length, take, drop, replicate, ltb, ◌==◌, if◌then◌else◌, Eq, bytes_Eq, lookup, insert, erase,
}
use v6space.Core.NodeInfo
use v6space.Core.NodeInfo.{Nodeinfo, Effect, send, calls, run_callback, send_res}
use v6space.Core.Address.{copy_into, key_size, hex_decode, addr_for_key}
use v6space.Core.Address.Prefix.{hex_encode}

-- reqInfo, with the pointer's serial number for its timer too.
pub record ReqInfo : Type 0 where
  pub callback : ℕ
  pub serial : ℕ

pub data Kind : Type 0 where
  self peers dht : Kind

abbrev pub Pending : Type 0
Pending = List (List ℕ × ReqInfo)

pub record ProtoHandler : Type 0 where
  pub nodeinfo : Nodeinfo
  pub self_requests : Pending
  pub peers_requests : Pending
  pub dht_requests : Pending
  pub next_serial : ℕ

pub record Local : Type 0 where
  pub self_json : Option (List ℕ)
  pub peer_keys : List (List ℕ)
  pub dht_keys : List (List ℕ)
  pub conn_mtu : ℕ

pub data Action : Type 0 where
  sends : List ℕ → List ℕ → Action
  answers : ℕ → List ℕ → Action
  stops_timer : ℕ → Action
  starts_timer : ℕ → Action

abbrev pub init : ProtoHandler
init = record {
  nodeinfo = NodeInfo.init;
  self_requests = [];
  peers_requests = [];
  dht_requests = [];
  next_serial = 0;
}

abbrev pub type_session_traffic : ℕ
type_session_traffic = 1

abbrev pub type_session_proto : ℕ
type_session_proto = 2

abbrev pub type_proto_debug : ℕ
type_proto_debug = 255

-- The debug types of a request and of its response.
abbrev pub request_type : Kind → ℕ
request_type self = 1
request_type peers = 3
request_type dht = 5

abbrev pub response_type : Kind → ℕ
response_type self = 2
response_type peers = 4
response_type dht = 6

abbrev pub table : Kind → ProtoHandler → Pending
table self h = h.self_requests
table peers h = h.peers_requests
table dht h = h.dht_requests

abbrev pub set_table : Kind → Pending → ProtoHandler → ProtoHandler
set_table self t h = record h { self_requests = t }
set_table peers t h = record h { peers_requests = t }
set_table dht t h = record h { dht_requests = t }

-- _sendDebug.
abbrev pub send_debug : List ℕ → ℕ → List ℕ → Action
send_debug key d_type payload = sends key (type_session_proto ∷ type_proto_debug ∷ d_type ∷ payload)

-- What the send functions do to an older request of the same node.
unfoldable pub forget : List ℕ → Pending → Pending × List Action
forget key t = elim (lookup key t) [
  | none ↦ (t, [])
  | some info ↦ (erase key t, stops_timer info.serial ∷ [])
]

-- The body of sendGetSelfRequest, sendGetPeersRequest and sendGetDHTRequest.
unfoldable pub send_request : Kind → List ℕ → ℕ → ProtoHandler → ProtoHandler × List Action
send_request kind key call h =
    let cleared = forget key (table kind h) in
    let info : ReqInfo = record { callback = call; serial = h.next_serial } in
    (
      record (set_table kind (insert key info cleared.0) h) { next_serial = h.next_serial + 1 },
      cleared.1 ++ (starts_timer h.next_serial ∷ send_debug key (request_type kind) [] ∷ []),
    )

abbrev pub send_get_self_request : List ℕ → ℕ → ProtoHandler → ProtoHandler × List Action
send_get_self_request key call h = send_request self key call h

abbrev pub send_get_peers_request : List ℕ → ℕ → ProtoHandler → ProtoHandler × List Action
send_get_peers_request key call h = send_request peers key call h

abbrev pub send_get_dht_request : List ℕ → ℕ → ProtoHandler → ProtoHandler × List Action
send_get_dht_request key call h = send_request dht key call h

-- The timer's function: the request goes if it is still the one that set the timer.
unfoldable pub expire : Kind → List ℕ → ℕ → ProtoHandler → ProtoHandler
expire kind key serial h = elim (lookup key (table kind h)) [
  | none ↦ h
  | some info ↦ if info.serial == serial then set_table kind (erase key (table kind h)) h else h
]

-- _handleGetSelfResponse, _handleGetPeersResponse and _handleGetDHTResponse.
unfoldable pub handle_response : Kind → List ℕ → List ℕ → ProtoHandler → ProtoHandler × List Action
handle_response kind key bs h = elim (lookup key (table kind h)) [
  | none ↦ (h, [])
  | some info ↦ (
    set_table kind (erase key (table kind h)) h,
    stops_timer info.serial ∷ answers info.callback bs ∷ [],
  )
]

-- Core.MTU, a uint64.
unfoldable pub mtu : ℕ → ℕ
mtu conn_mtu = (conn_mtu + 2 ^ 64 - 1) % 2 ^ 64

-- The loop that packs keys while they fit.
unfoldable pub collect_keys : ℕ → List ℕ → List (List ℕ) → List ℕ
collect_keys room bs [] = bs
collect_keys room bs (key ∷ keys) =
    let tmp = bs ++ key in
    let rest = collect_keys room tmp keys in if ltb room (length tmp + 2) then bs else rest

unfoldable pub handle_get_self_request : Local → List ℕ → List Action
handle_get_self_request env key = elim env.self_json [
  | none ↦ []
  | some bs ↦ send_debug key (response_type self) bs ∷ []
]

unfoldable pub handle_get_peers_request : Local → List ℕ → List Action
handle_get_peers_request env key =
    send_debug key (response_type peers) (collect_keys (mtu env.conn_mtu) [] env.peer_keys) ∷ []

unfoldable pub handle_get_dht_request : Local → List ℕ → List Action
handle_get_dht_request env key =
    send_debug key (response_type dht) (collect_keys (mtu env.conn_mtu) [] env.dht_keys) ∷ []

-- handleDebug, by the debug type.
unfoldable pub handle_debug : Local → List ℕ → List ℕ → ProtoHandler → ProtoHandler × List Action
handle_debug env key [] h = (h, [])
handle_debug env key (b ∷ bs) h =
    if b == 1
    then (h, handle_get_self_request env key)
    else if b == 2
    then handle_response self key bs h
    else if b == 3
    then (h, handle_get_peers_request env key)
    else if b == 4
    then handle_response peers key bs h
    else if b == 5
    then (h, handle_get_dht_request env key)
    else if b == 6
    then handle_response dht key bs h
    else (h, [])

-- What the node information does, among the handler's actions.
abbrev pub lift : List Effect → List Action
lift [] = []
lift (send key bs ∷ es) = sends key bs ∷ lift es
lift (calls call bs ∷ es) = answers call bs ∷ lift es

abbrev pub with_nodeinfo : ProtoHandler → Nodeinfo × List Effect → ProtoHandler × List Action
with_nodeinfo h r = (record h { nodeinfo = r.0 }, lift r.1)

-- handleProto.
unfoldable pub handle_proto : Local → List ℕ → List ℕ → ProtoHandler → ProtoHandler × List Action
handle_proto env key [] h = (h, [])
handle_proto env key (b ∷ bs) h =
    if b == 1
    then with_nodeinfo h (send_res key h.nodeinfo)
    else if b == 2
    then with_nodeinfo h (run_callback key bs h.nodeinfo)
    else if b == type_proto_debug
    then handle_debug env key bs h
    else (h, [])

-- One turn of the loop of ReadFrom: the traffic that is handed up, and the handler's step.
unfoldable pub receive :
    Local → List ℕ → List ℕ → ProtoHandler → Option (List ℕ) × (ProtoHandler × List Action)
receive env from [] h = (none, (h, []))
receive env from (b ∷ bs) h =
    if b == type_session_traffic
    then (some bs, (h, []))
    else if b == type_session_proto
    then (none, handle_proto env (copy_into (replicate key_size 0) from) bs h)
    else (none, (h, []))

-- The bytes and the count that ReadFrom gives for traffic `bs` and a buffer `p`.
abbrev pub deliver : List ℕ → List ℕ → List ℕ × ℕ
deliver p bs = (copy_into p bs, if ltb (length p) (length bs) then length p else length bs)

-- WriteTo: what goes to the packet connection.
abbrev pub write_to : List ℕ → List ℕ
write_to p = type_session_traffic ∷ p

-- The loop of getPeersHandler and getDHTHandler that cuts the answer into keys; the fuel is at
-- least the number of bytes.
unfoldable pub split_keys : ℕ → List ℕ → List (List ℕ)
split_keys zero bs = []
split_keys (suc fuel) bs =
    let rest = split_keys fuel (drop key_size bs) in
    if ltb (length bs) key_size then [] else hex_encode (take key_size bs) ∷ rest

pub data Handled : Type 0 where
  undecodable : Handled
  -- `AddrForKey(kbs)[:]` of nil.
  crash : Handled
  listed : List ℕ → List (List ℕ) → Handled

-- getPeersHandler and getDHTHandler after the answer came: the address and the keys.
unfoldable pub list_answer : ℕ → List ℕ → List ℕ → Handled
list_answer p req_key info = elim (hex_decode req_key) [
  | none ↦ undecodable
  | some kbs ↦ elim (addr_for_key p kbs) [
    | none ↦ crash
    | some addr ↦ listed addr (split_keys (length info) info)
  ]
]
