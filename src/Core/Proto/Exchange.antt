-- ===== src/Core/Proto/Exchange.antt =====
-- A request, the other node's answer, and its way back to the callback, packet by packet; and what
-- the handlers of the control interface make of it.
use v6space.Base.{
  ℕ, ◌+◌, ◌*◌, ◌≤◌, ◌<◌, ◌^◌, ◌≡◌, ◌≢◌, ◌↔◌, refl, sym, ap, ◌∙◌, ◌⊎◌, inl, inr, Bool, true, false,
  Option, none, some, List, [], ◌∷◌, ◌++◌, map, length, take, replicate, ◌==◌, ==_iff,
  if◌then◌else◌, All, arith, bytes_Eq, Bool-cases,
}
use v6space.Core.Address.{copy_into, addr_for_key}
use v6space.Core.Address.Bits.{IsByte}
use v6space.Core.Address.Prefix.{hex_encode, hex_decode-hex_encode}
use v6space.Core.Proto.{
  Kind, self, peers, dht, ProtoHandler, Local, sends, answers, stops_timer, starts_timer, table,
  request_type, response_type, forget, send_request, handle_response, mtu, collect_keys,
  handle_get_self_request, handle_get_peers_request, handle_get_dht_request, handle_debug,
  handle_proto, receive, write_to, split_keys, crash, listed, list_answer,
}
use v6space.Core.Proto.Chunks.{IsKey, collected_keys}
use v6space.Core.Proto.Requests.{response_answers, lookup-send_request}

pub copy_key : (dst key : List ℕ) → length dst ≡ length key → copy_into dst key ≡ key
copy_key [] [] e = refl
copy_key [] (x ∷ xs) e = absurd (omega arith)
copy_key (d ∷ ds) [] e = absurd (omega arith)
copy_key (d ∷ ds) (x ∷ xs) e = ap (◌∷◌ x) (copy_key ds xs (omega arith))

-- What a node has to say about itself, its peers and its part of the DHT.
abbrev pub answer : Kind → Local → Option (List ℕ)
answer self env = env.self_json
answer peers env = some (collect_keys (mtu env.conn_mtu) [] env.peer_keys)
answer dht env = some (collect_keys (mtu env.conn_mtu) [] env.dht_keys)

request_handled :
    (k : Kind) (env : Local) (a bs : List ℕ) (h : ProtoHandler)
    → length a ≡ 32
    → answer k env ≡ some bs
    → receive env a (2 ∷ 255 ∷ request_type k ∷ []) h
      ≡ (none, (h, sends a (2 ∷ 255 ∷ response_type k ∷ bs) ∷ []))
unfolding receive handle_proto handle_debug handle_get_self_request handle_get_peers_request
    handle_get_dht_request
request_handled self env a bs h size e = rw (copy_key (replicate 32 0) a (sym size), e) refl
request_handled peers env a bs h size e =
    rw (copy_key (replicate 32 0) a (sym size))
      (ap (λ o. (none, (h, elim o [ none ↦ [] | some x ↦ sends a (2 ∷ 255 ∷ 4 ∷ x) ∷ [] ]))) e)
request_handled dht env a bs h size e =
    rw (copy_key (replicate 32 0) a (sym size))
      (ap (λ o. (none, (h, elim o [ none ↦ [] | some x ↦ sends a (2 ∷ 255 ∷ 6 ∷ x) ∷ [] ]))) e)

response_handled :
    (k : Kind) (env : Local) (b bs : List ℕ) (h : ProtoHandler)
    → length b ≡ 32
    → receive env b (2 ∷ 255 ∷ response_type k ∷ bs) h ≡ (none, handle_response k b bs h)
unfolding receive handle_proto handle_debug
response_handled self env b bs h size = rw (copy_key (replicate 32 0) b (sym size)) refl
response_handled peers env b bs h size = rw (copy_key (replicate 32 0) b (sym size)) refl
response_handled dht env b bs h size = rw (copy_key (replicate 32 0) b (sym size)) refl

-- Node a asks node b, both with keys of 32 bytes, for what b can answer. The request's packet makes
-- b send one packet to a and change nothing of its own; and that packet, when it reaches a, stops
-- the request's timer and gives the callback exactly b's answer. Neither packet is handed up as
-- traffic.
pub request_exchange :
    (k : Kind) (env_a env_b : Local) (a b bs : List ℕ) (call : ℕ) (h_a h_b : ProtoHandler)
    → length a ≡ 32
    → length b ≡ 32
    → answer k env_b ≡ some bs
    → let asked = send_request k b call h_a in
      (request : List ℕ) × (response : List ℕ) × (asked.1
        ≡ (forget b (table k h_a)).1 ++ (starts_timer h_a.next_serial ∷ sends b request ∷ []))
      × (receive env_b a request h_b ≡ (none, (h_b, sends a response ∷ [])))
      × ((receive env_a b response asked.0).0 ≡ none)
      × ((receive env_a b response asked.0).1.1
          ≡ stops_timer h_a.next_serial ∷ answers call bs ∷ [])
unfolding send_request
request_exchange k env_a env_b a b bs call h_a h_b size_a size_b e =
    let asked = send_request k b call h_a in
    let back = response_handled k env_a b bs asked.0 size_b in
    (
      2 ∷ 255 ∷ request_type k ∷ [],
      2 ∷ 255 ∷ response_type k ∷ bs,
      refl,
      request_handled k env_b a bs h_b size_a e,
      ap (λ r. r.0) back,
      ap (λ r. r.1.1) back
          ∙ ap (λ r. r.1) (response_answers k b bs _ asked.0 (lookup-send_request k b call h_a)),
    )

handed_up :
    (env : Local) (from bs : List ℕ) (b : ℕ) (h : ProtoHandler)
    → (receive env from (b ∷ bs) h).0 ≡ (if b == 1 then some bs else none)
unfolding receive
handed_up env from bs b h = elim (Bool-cases (b == 1)) [
  | inl e ↦ rw (receive, e) refl
  | inr e ↦ elim (Bool-cases (b == 2)) [
    | inl f ↦ rw (receive, e, f) refl
    | inr f ↦ rw (receive, e, f) refl
  ]
]

nothing_up : (env : Local) (from : List ℕ) (h : ProtoHandler) → (receive env from [] h).0 ≡ none
unfolding receive
nothing_up env from h = refl

-- A packet is handed up as the traffic `bs` exactly where it is what WriteTo makes of `bs`.
pub receive_traffic_iff :
    (env : Local) (from pkt bs : List ℕ) (h : ProtoHandler)
    → ((receive env from pkt h).0 ≡ some bs) ↔ (pkt ≡ write_to bs)
receive_traffic_iff env from [] bs h =
    (λ e. absurd (cc (nothing_up env from h, e)), λ e. absurd (cc e))
receive_traffic_iff env from (b ∷ pkt) bs h =
    let up = handed_up env from pkt b h in
    elim (Bool-cases (b == 1)) [
      | inl e ↦
          let one = (==_iff b 1).0 e in
          let taken : (receive env from (b ∷ pkt) h).0 ≡ some pkt =
            up ∙ ap (λ t. if t then some pkt else none) e in
          (λ g. cc (one, sym taken ∙ g), λ g. taken ∙ cc g)
      | inr e ↦
          let refused : (receive env from (b ∷ pkt) h).0 ≡ none =
            up ∙ ap (λ t. if t then some pkt else none) e in
          (
            λ g. absurd (cc (refused, g)),
            λ g. let one : b ≡ 1 = cc g in absurd (cc (e, (==_iff b 1).1 one)),
          )
    ]

list_answer_crash :
    (p : ℕ) (kbs info : List ℕ)
    → All IsByte kbs
    → length kbs ≢ 32
    → list_answer p (hex_encode kbs) info ≡ crash
unfolding list_answer addr_for_key
list_answer_crash p kbs info v size =
    let e : length kbs == 32 ≡ false = ground (arith, size) in
    rw (list_answer, hex_decode-hex_encode kbs v, addr_for_key, e) refl

if_some {ℓ} :
    {A : Type ℓ} (b : Bool) (a : A) (o : Option A)
    → b ≡ true
    → o ≡ (if b then some a else none)
    → (c : A) × (o ≡ some c)
if_some b a o holds e = (a, e ∙ ap (λ t. if t then some a else none) holds)

addr_for_key-some :
    (p : ℕ) (kbs : List ℕ) → length kbs ≡ 32 → (addr : List ℕ) × (addr_for_key p kbs ≡ some addr)
unfolding addr_for_key
addr_for_key-some p kbs size = if_some (length kbs == 32) _ (addr_for_key p kbs) (rw size refl) refl

list_answer_listed :
    (p : ℕ) (kbs addr info : List ℕ)
    → All IsByte kbs
    → addr_for_key p kbs ≡ some addr
    → list_answer p (hex_encode kbs) info ≡ listed addr (split_keys (length info) info)
unfolding list_answer
list_answer_listed p kbs addr info v found =
    rw (list_answer, hex_decode-hex_encode kbs v, found) refl

-- What getPeersHandler and getDHTHandler make of the answer of a node with the keys `keys`, for a
-- caller that names the key `kbs` in hex. With 32 bytes they list, under the address of that key, the
-- first keys of the asked node in hex: all of them, or as many as its MTU, of at least 3, leaves room
-- for. With any other number of bytes they crash.
pub list_answer_cases :
    (p conn_mtu : ℕ) (kbs : List ℕ) (keys : List (List ℕ))
    → All IsByte kbs
    → All IsKey keys
    → 3 ≤ conn_mtu
    → conn_mtu < 2 ^ 64
    → let answer = list_answer p (hex_encode kbs) (collect_keys (mtu conn_mtu) [] keys) in
      ((length kbs ≡ 32)
        × ((n : ℕ) × (addr : List ℕ) × (addr_for_key p kbs ≡ some addr)
            × (answer ≡ listed addr (map hex_encode (take n keys)))
            × ((n ≡ length keys) ⊎ (conn_mtu < 3 + 32 * (n + 1)))))
      ⊎ ((length kbs ≢ 32) × (answer ≡ crash))
list_answer_cases p conn_mtu kbs keys v vk low high = elim (Bool-cases (length kbs == 32)) [
  | inr e ↦
      let other : length kbs ≢ 32 = λ size. absurd (cc (e, (==_iff (length kbs) 32).1 size)) in
      inr (other, list_answer_crash p kbs _ v other)
  | inl e ↦
      let size = (==_iff (length kbs) 32).0 e in
      let (n, same, fits, maximal) = collected_keys conn_mtu keys vk low high in
      let (addr, found) = addr_for_key-some p kbs size in
      inl (
        size,
        (n, addr, found, list_answer_listed p kbs addr _ v found ∙ ap (listed addr) same, maximal),
      )
]
