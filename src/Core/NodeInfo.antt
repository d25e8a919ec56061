-- ===== src/Core/NodeInfo.antt =====
-- src/core/nodeinfo.go: the node's description and the callbacks that wait for those of others.
-- Times are seconds. The JSON marshaller and the build's data are a parameter of setting it.
pub mod Callbacks
use v6space.Base.{
  ℕ, ◌+◌, ◌-◌, Bool, true, false, Option, none, some, List, [], ◌∷◌, ◌++◌, length, ltb,
  if◌then◌else◌, Eq, bytes_Eq, lookup, insert, erase,
}

-- A callback is named by a number.
pub record Callback : Type 0 where
  pub call : ℕ
  pub created : ℕ

pub record Nodeinfo : Type 0 where
  pub my_node_info : List ℕ
  pub callbacks : List (List ℕ × Callback)

pub data Effect : Type 0 where
  send : List ℕ → List ℕ → Effect
  calls : ℕ → List ℕ → Effect

-- In-band packet types and protocol packet types.
abbrev pub type_session_proto : ℕ
type_session_proto = 2

abbrev pub type_proto_node_info_request : ℕ
type_proto_node_info_request = 1

abbrev pub type_proto_node_info_response : ℕ
type_proto_node_info_response = 2

abbrev pub init : Nodeinfo
init = record { my_node_info = []; callbacks = [] }

-- The loop of _cleanup over the map: entries older than a minute are deleted.
unfoldable pub drop_stale : ℕ → List (List ℕ × Callback) → List (List ℕ × Callback)
drop_stale now [] = []
drop_stale now ((k, c) ∷ m) =
    if ltb 60 (now - c.created) then drop_stale now m else (k, c) ∷ drop_stale now m

unfoldable pub cleanup : ℕ → Nodeinfo → Nodeinfo
cleanup now m = record m { callbacks = drop_stale now m.callbacks }

unfoldable pub add_callback : ℕ → List ℕ → ℕ → Nodeinfo → Nodeinfo
add_callback now sender call m = record m {
  callbacks = insert sender (record { call = call; created = now }) m.callbacks;
}

-- _callback.
unfoldable pub run_callback : List ℕ → List ℕ → Nodeinfo → Nodeinfo × List Effect
run_callback sender info m = elim (lookup sender m.callbacks) [
  | none ↦ (m, [])
  | some c ↦ (record m { callbacks = erase sender m.callbacks }, calls c.call info ∷ [])
]

pub data SetError : Type 0 where
  marshalling_failed too_long : SetError

-- _setNodeInfo, over what marshalling the completed description gave; the error, if any.
unfoldable pub set_node_info : Option (List ℕ) → Nodeinfo → Nodeinfo × Option SetError
set_node_info none m = (m, some marshalling_failed)
set_node_info (some json) m =
    if ltb 16384 (length json) then (m, some too_long) else (record m { my_node_info = json }, none)

-- _sendReq, with or without a callback.
unfoldable pub send_req : ℕ → List ℕ → Option ℕ → Nodeinfo → Nodeinfo × List Effect
send_req now key callback m =
    let request = send key (type_session_proto ∷ type_proto_node_info_request ∷ []) in
    elim callback [
      | none ↦ (m, request ∷ [])
      | some call ↦ (add_callback now key call m, request ∷ [])
    ]

-- _sendRes, of handleReq.
unfoldable pub send_res : List ℕ → Nodeinfo → Nodeinfo × List Effect
send_res key m =
    (m, send key (type_session_proto ∷ type_proto_node_info_response ∷ m.my_node_info) ∷ [])
