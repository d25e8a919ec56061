-- ===== src/Rest/Answers.antt =====
-- The handlers of /api/remote with the key in the path, the sums of the peers' traffic, the country
-- of an address, the public peers, and the order in which peers are listed.
use v6space.Base.{
  ℕ, ◌+◌, ◌%◌, ◌^◌, Bool, true, false, not, ◌&&◌, ◌||◌, Option, none, some, List, [], ◌∷◌, ◌==◌,
  ltb, if◌then◌else◌, bytes_eq, split_by,
}
use v6space.Rest.{text_less}

abbrev pub slash : ℕ
slash = b'/'

-- What the remote call gives: a result, the error of a timeout, or another error.
pub data Remote : Type 0 where
  result timed_out other_error : Remote

pub data KeyAnswer : Type 0 where
  bad_request : KeyAnswer
  -- The key that the function was called with, and the status.
  called : List ℕ → ℕ → KeyAnswer

abbrev pub remote_status : Remote → ℕ
remote_status result = 200
remote_status timed_out = 502
remote_status other_error = 400

abbrev pub call_with_key : List ℕ → Remote → KeyAnswer
call_with_key [] r = bad_request
call_with_key (c ∷ cs) r = called (c ∷ cs) (remote_status r)

-- The test for five parts; the others are those after the first.
abbrev pub key_answer : List (List ℕ) → (List ℕ → Remote) → KeyAnswer
key_answer (a ∷ b ∷ c ∷ key ∷ []) fn = call_with_key key (fn key)
key_answer (a ∷ b ∷ c ∷ key ∷ d ∷ more) fn = bad_request
key_answer (a ∷ b ∷ c ∷ []) fn = bad_request
key_answer (a ∷ b ∷ []) fn = bad_request
key_answer (a ∷ []) fn = bad_request
key_answer [] fn = bad_request

-- applyKeyParameterized.
unfoldable pub apply_key_parameterized : List ℕ → (List ℕ → Remote) → KeyAnswer
apply_key_parameterized path fn = key_answer (split_by slash path).1 fn

-- The traffic of a peer.
pub record Traffic : Type 0 where
  pub rx_bytes : ℕ
  pub tx_bytes : ℕ

-- getPeersRxTxBytes, in 64 bits.
unfoldable pub sum_bytes : List Traffic → ℕ → ℕ → ℕ × ℕ
sum_bytes [] rx tx = (rx, tx)
sum_bytes (p ∷ ps) rx tx = sum_bytes ps ((rx + p.rx_bytes) % 2 ^ 64) ((tx + p.tx_bytes) % 2 ^ 64)

abbrev pub get_peers_rx_tx_bytes : List Traffic → ℕ × ℕ
get_peers_rx_tx_bytes ps = sum_bytes ps 0 0

-- The country names that the database gives, and the texts by which it says that it has none.
pub record Country : Type 0 where
  pub short : List ℕ
  pub long : List ℕ

abbrev pub name_or_empty : List ℕ → List ℕ → List ℕ → List ℕ
name_or_empty unsupported invalid t = if bytes_eq t unsupported || bytes_eq t invalid then [] else t

-- getCountry, over whether the database is open and what it gives for the address.
unfoldable pub get_country : List ℕ → List ℕ → Option (Option Country) → Country
get_country unsupported invalid none = record { short = []; long = [] }
get_country unsupported invalid (some none) = record { short = []; long = [] }
get_country unsupported invalid (some (some c)) = record {
  short = name_or_empty unsupported invalid c.short;
  long = name_or_empty unsupported invalid c.long;
}

-- The fields of Peer that prepareGetPeers orders by.
pub record Peer : Type 0 where
  pub multicast : Bool
  pub priority : ℕ
  pub address : List ℕ
  pub port : ℕ

-- The comparison of prepareGetPeers.
unfoldable pub peer_less : Peer → Peer → Bool
peer_less a b =
    if a.multicast && not b.multicast
    then false
    else if not a.multicast && b.multicast
    then true
    else if not (a.priority == b.priority)
    then ltb a.priority b.priority
    else if text_less a.address b.address
    then true
    else if text_less b.address a.address
    then false
    else ltb a.port b.port

-- The fetching of the public peers: an error, or the status and the body, if that reads.
pub data Fetched : Type 0 where
  fetch_error : Fetched
  response : ℕ → Option (List ℕ) → Fetched

pub data PublicPeers : Type 0 where
  status : ℕ → PublicPeers
  body : List ℕ → PublicPeers

-- getApiPublicPeersHandler, over whether the configuration reads.
abbrev pub body_or_error : Option (List ℕ) → PublicPeers
body_or_error none = status 500
body_or_error (some bs) = body bs

unfoldable pub public_peers : Bool → Fetched → PublicPeers
public_peers false f = status 500
public_peers true fetch_error = status 500
public_peers true (response code bs) = if ltb 200 code then status code else body_or_error bs
