-- ===== src/Core/Examples/Requests.antt =====
-- Tests of the requests to other nodes, their answers, and the node information.
use v6space.Base.{
  ℕ, ◌+◌, ◌*◌, ◌≤◌, ◌<◌, ◌≡◌, refl, ◌⊎◌, false, none, some, List, [], ◌∷◌, ◌++◌, map, take,
  replicate, length, lookup, bytes_Eq, arith, bytes_eq, All, All-replicate, ◌≢◌,
}
use v6space.Core.Address.{addr_for_key}
use v6space.Core.Address.Bits.{IsByte}
use v6space.Core.Address.Prefix.{hex_encode}
use v6space.Core.NodeInfo.{Nodeinfo}
use v6space.Core.NodeInfo.Callbacks.{IsKeyed}
use v6space.Core.Proto.{
  self, Local, sends, answers, starts_timer, stops_timer, init, table, send_request, forget,
  receive, mtu, collect_keys, split_keys, list_answer, crash, listed,
}
use v6space.Core.Proto.Chunks.{collected_keys}
use v6space.Core.Proto.Exchange.{request_exchange, list_answer_cases}

abbrev alice : List ℕ
alice = replicate 32 1

abbrev bob : List ℕ
bob = replicate 32 2

abbrev carol : List ℕ
carol = replicate 32 3

-- A node with two peers and room for one key in an answer.
abbrev env : Local
env = record {
  self_json = some (b'{' ∷ b'}' ∷ []);
  peer_keys = alice ∷ carol ∷ [];
  dht_keys = [];
  conn_mtu = 60;
}

abbrev node : Nodeinfo
node = record {
  my_node_info = [];
  callbacks =
      (alice, record { call = 1; created = 10 }) ∷ (bob, record { call = 2; created = 90 }) ∷ [];
}

apart : bytes_eq alice bob ≡ false
unfolding bytes_eq
apart = refl

node-IsKeyed : IsKeyed node.callbacks
unfolding lookup bytes_eq
node-IsKeyed = (refl, (refl, tt))

request_exchange_example :
    let asked = send_request self bob 4 init in
    (request : List ℕ) × (response : List ℕ) × (asked.1
      ≡ (forget bob (table self init)).1 ++ (starts_timer 0 ∷ sends bob request ∷ []))
    × (receive env alice request init ≡ (none, (init, sends alice response ∷ [])))
    × ((receive env bob response asked.0).0 ≡ none)
    × ((receive env bob response asked.0).1.1 ≡ stops_timer 0 ∷ answers 4 (b'{' ∷ b'}' ∷ []) ∷ [])
request_exchange_example =
    request_exchange self env env alice bob (b'{' ∷ b'}' ∷ []) 4 init init refl refl refl

collected_keys_example :
    let info = collect_keys (mtu 60) [] (alice ∷ carol ∷ []) in
    (n : ℕ) × (split_keys (length info) info ≡ map hex_encode (take n (alice ∷ carol ∷ [])))
    × (3 + length info ≤ 60)
    × ((n ≡ 2) ⊎ (60 < 3 + 32 * (n + 1)))
collected_keys_example =
    collected_keys 60 (alice ∷ carol ∷ []) (refl, (refl, tt)) (omega arith) (omega arith)

bob-bytes : All IsByte bob
bob-bytes = All-replicate IsByte 32 2 (omega arith)

list_answer_cases_example :
    let answer = list_answer 252 (hex_encode bob) (collect_keys (mtu 60) [] (alice ∷ carol ∷ [])) in
    ((length bob ≡ 32)
      × ((n : ℕ) × (addr : List ℕ) × (addr_for_key 252 bob ≡ some addr)
          × (answer ≡ listed addr (map hex_encode (take n (alice ∷ carol ∷ []))))
          × ((n ≡ 2) ⊎ (60 < 3 + 32 * (n + 1)))))
    ⊎ ((length bob ≢ 32) × (answer ≡ crash))
list_answer_cases_example =
    list_answer_cases 252 60 bob (alice ∷ carol ∷ []) bob-bytes (refl, (refl, tt)) (omega arith)
      (omega arith)
