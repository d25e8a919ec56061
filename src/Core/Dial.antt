-- ===== src/Core/Dial.antt =====
-- Dialling a peer: links.call of src/core/link_linux.go, the dialling of link_tcp.go, link_tls.go,
-- link_unix.go and link_socks.go up to the connection, the accept loop of listeners, and the
-- retries at the end of the handler of link.go.
-- Urls are given parsed. Name resolution, the printing of addresses and the system's interfaces
-- are parameters.
pub mod Transport
pub mod Sctp
pub mod Mpath
pub mod Tls
pub mod Other
pub mod Call
pub mod Source
pub mod Retry
use v6space.Base.{
  ℕ, zero, suc, ◌+◌, Bool, true, false, not, ◌&&◌, ◌||◌, Option, none, some, List, [], ◌∷◌, ◌++◌,
  length, replicate, ◌==◌, ltb, if◌then◌else◌, bytes_eq, bytes_eq_iff, Eq, lookup, arith, ◌≡◌, ◌↔◌,
  refl,
}
use v6space.Core.Address.{copy_into, key_size, hex_decode}
use v6space.Core.Link.{LinkOptions}
use v6space.Core.Net.{to4, is_some, is_link_local, is_global}
use v6space.Core.Net.Decimal.{parse_uint8}

-- A parsed URL, with the values of its query that the links read.
pub record Url : Type 0 where
  pub scheme : List ℕ
  pub host : List ℕ
  pub path : List ℕ
  pub keys : List (List ℕ)
  pub priority : List ℕ
  pub sni : List ℕ

-- linkInfo, the key of the table of links.
pub record LinkInfo : Type 0 where
  pub link_type : List ℕ
  pub local : List ℕ
  pub remote : List ℕ

unfoldable pub info_eq : LinkInfo → LinkInfo → Bool
info_eq a b =
    bytes_eq a.link_type b.link_type && bytes_eq a.local b.local && bytes_eq a.remote b.remote

pub info_eq_iff : (a b : LinkInfo) → (info_eq a b ≡ true) ↔ (a ≡ b)
unfolding info_eq
info_eq_iff a b = ground (
  arith,
  bytes_eq_iff a.link_type b.link_type,
  bytes_eq_iff a.local b.local,
  bytes_eq_iff a.remote b.remote,
)

instance abbrev pub info_Eq : Eq LinkInfo
info_Eq = record { beq = info_eq; beq_iff = info_eq_iff }

-- linkInfoFor.
abbrev pub link_info_for : List ℕ → List ℕ → List ℕ → LinkInfo
link_info_for link_type sintf remote = record {
  link_type = link_type;
  local = sintf;
  remote = remote;
}

pub data Scheme : Type 0 where
  tcp socks tls unix sctp mpath : Scheme

abbrev pub tcp_name : List ℕ
tcp_name = b't' ∷ b'c' ∷ b'p' ∷ []

abbrev pub socks_name : List ℕ
socks_name = b's' ∷ b'o' ∷ b'c' ∷ b'k' ∷ b's' ∷ []

abbrev pub tls_name : List ℕ
tls_name = b't' ∷ b'l' ∷ b's' ∷ []

abbrev pub unix_name : List ℕ
unix_name = b'u' ∷ b'n' ∷ b'i' ∷ b'x' ∷ []

abbrev pub sctp_name : List ℕ
sctp_name = b's' ∷ b'c' ∷ b't' ∷ b'p' ∷ []

abbrev pub mpath_name : List ℕ
mpath_name = b'm' ∷ b'p' ∷ b'a' ∷ b't' ∷ b'h' ∷ []

-- The switch on the link's type.
unfoldable pub scheme_of : List ℕ → Option Scheme
scheme_of name =
    if bytes_eq name tcp_name
    then some tcp
    else if bytes_eq name socks_name
    then some socks
    else if bytes_eq name tls_name
    then some tls
    else if bytes_eq name unix_name
    then some unix
    else if bytes_eq name sctp_name
    then some sctp
    else if bytes_eq name mpath_name
    then some mpath
    else none

-- net.ParseIP's success, and the host that net.SplitHostPort finds.
pub record Names : Type 0 where
  pub is_ip : List ℕ → Bool
  pub split_host : List ℕ → Option (List ℕ)

-- The server name of a TLS link; `is_ip` is net.ParseIP, which refuses an address with a zone.
unfoldable pub tls_sni : Names → Url → List ℕ
tls_sni names u =
    let from_host = elim (names.split_host u.host) as (λ _. List ℕ) [
      | none ↦ []
      | some host ↦ if names.is_ip host then [] else host
    ] in
    if length u.sni == 0 || names.is_ip u.sni then from_host else u.sni

abbrev pub cons_key : List ℕ → Option (List (List ℕ)) → Option (List (List ℕ))
cons_key key none = none
cons_key key (some keys) = some (copy_into (replicate key_size 0) key ∷ keys)

-- The loop over the pinned keys; `none` is the error of a key that is no hexadecimal text.
unfoldable pub pinned : List (List ℕ) → Option (List (List ℕ))
pinned [] = some []
pinned (text ∷ texts) = elim (hex_decode text) [
  | none ↦ none
  | some key ↦ cons_key key (pinned texts)
]

-- The priority of the query, 0 where there is none.
unfoldable pub priority_of : Url → Option ℕ
priority_of u = if length u.priority == 0 then some 0 else parse_uint8 u.priority

-- linkOptionsForListener, which passes over an invalid priority.
unfoldable pub link_options_for_listener : Url → LinkOptions
link_options_for_listener u = record {
  pinned_keys = [];
  priority = elim (priority_of u) as (λ _. ℕ) [ none ↦ 0 | some p ↦ p ];
}

pub record Dial : Type 0 where
  pub kind : Scheme
  pub url : Url
  pub options : LinkOptions
  pub sintf : List ℕ
  pub sni : List ℕ

-- What call ends with, besides the link information. Where it does not start to dial, it closes
-- the error channel itself; else the dialling does.
pub data Called : Type 0 where
  connected : Called
  invalid_key invalid_priority unknown_scheme : Called
  dialling : Dial → Called

abbrev pub sni_for : Scheme → Names → Url → List ℕ
sni_for tcp names u = []
sni_for socks names u = []
sni_for tls names u = tls_sni names u
sni_for unix names u = []
sni_for sctp names u = []
sni_for mpath names u = []

-- The switch of call on the link's type.
unfoldable pub call_scheme : Names → Url → List ℕ → LinkOptions → Called
call_scheme names u sintf options = elim (scheme_of u.scheme) [
  | none ↦ unknown_scheme
  | some kind ↦ dialling (record {
    kind = kind;
    url = u;
    options = options;
    sintf = sintf;
    sni = sni_for kind names u;
  })
]

-- The options of the query and the switch, over the keys and the priority that the query gives.
unfoldable pub call_with : Names → Url → List ℕ → Option (List (List ℕ)) → Option ℕ → Called
call_with names u sintf none priority = invalid_key
call_with names u sintf (some keys) none = invalid_priority
call_with names u sintf (some keys) (some priority) =
    call_scheme names u sintf (record { pinned_keys = keys; priority = priority })

-- links.call, over the table of links.
unfoldable pub call : Names → List (LinkInfo × Option ℕ) → Url → List ℕ → LinkInfo × Called
call names links u sintf =
    let info = link_info_for u.scheme sintf u.host in
    elim (lookup info links) [
      | some v ↦ (info, connected)
      | none ↦ (info, call_with names u sintf (pinned u.keys) (priority_of u))
    ]
