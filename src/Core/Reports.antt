-- ===== src/Core/Reports.antt =====
-- src/core/api.go, GetPeers, and the counters of linkConn in src/core/link.go. What the packet
-- connection tells of its peers, and net.SplitHostPort, are parameters; a connection is a number.
use v6space.Base.{
  ℕ, ◌+◌, ◌-◌, ◌%◌, ◌^◌, ◌≡◌, refl, sym, ap, ◌∙◌, inl, inr, Bool, false, ◌||◌, Option, none, some,
  List, [], ◌∷◌, ◌==◌, nat_Eq, lookup, insert, lookup-insert, arith, Bool-cases, beq_refl,
}
use v6space.Core.Dial.{LinkInfo, info_Eq, info_eq, info_eq_iff}

-- The link of a running connection, as far as GetPeers reads it.
pub record Running : Type 0 where
  pub conn : ℕ
  pub lname : List ℕ

-- linkConn: the bytes of both directions and the time of its start.
pub record LinkConn : Type 0 where
  pub rx : ℕ
  pub tx : ℕ
  pub up : ℕ

-- linkConn.Read and linkConn.Write, over the number of bytes, in 64 bits.
unfoldable pub count_read : ℕ → LinkConn → LinkConn
count_read n c = record c { rx = (c.rx + n) % 2 ^ 64 }

unfoldable pub count_write : ℕ → LinkConn → LinkConn
count_write n c = record c { tx = (c.tx + n) % 2 ^ 64 }

abbrev pub Table : Type 0
Table = List (LinkInfo × Option Running)

-- The loop over the links that fills one of the two maps.
unfoldable pub by_conn :
    (LinkInfo → Running → List ℕ) → Table → List (ℕ × List ℕ) → List (ℕ × List ℕ)
by_conn text [] m = m
by_conn text ((i, none) ∷ t) m = by_conn text t m
by_conn text ((i, some r) ∷ t) m = by_conn text t (insert r.conn (text i r) m)

abbrev pub names : Table → List (ℕ × List ℕ)
names t = by_conn (λ i r. r.lname) t []

abbrev pub ips : Table → List (ℕ × List ℕ)
ips t = by_conn (λ i r. i.remote) t []

-- A peer as the packet connection tells it, with its connection's address and, where it is a
-- linkConn, the counters.
pub record DebugPeer : Type 0 where
  pub key : List ℕ
  pub root : List ℕ
  pub coords : List ℕ
  pub port : ℕ
  pub priority : ℕ
  pub conn : ℕ
  pub remote_addr : List ℕ
  pub counters : Option LinkConn

-- PeerInfo.
pub record PeerInfo : Type 0 where
  pub key : List ℕ
  pub root : List ℕ
  pub coords : List ℕ
  pub port : ℕ
  pub priority : ℕ
  pub remote : List ℕ
  pub rx_bytes : ℕ
  pub tx_bytes : ℕ
  pub uptime : ℕ
  pub remote_ip : List ℕ

abbrev pub text_or_empty : Option (List ℕ) → List ℕ
text_or_empty none = []
text_or_empty (some t) = t

abbrev pub text_at : ℕ → List (ℕ × List ℕ) → List ℕ
text_at conn m = text_or_empty (lookup conn m)

abbrev pub name_or : List ℕ → List ℕ → List ℕ
name_or address [] = address
name_or address (c ∷ cs) = c ∷ cs

abbrev pub without_port : (List ℕ → Option (List ℕ)) → List ℕ → List ℕ
without_port split_host [] = []
without_port split_host (c ∷ cs) = elim (split_host (c ∷ cs)) as (λ _. List ℕ) [
  | none ↦ c ∷ cs
  | some host ↦ host
]

abbrev pub rx_of : Option LinkConn → ℕ
rx_of none = 0
rx_of (some c) = c.rx

abbrev pub tx_of : Option LinkConn → ℕ
tx_of none = 0
tx_of (some c) = c.tx

abbrev pub uptime_of : ℕ → Option LinkConn → ℕ
uptime_of now none = 0
uptime_of now (some c) = now - c.up

-- The body of the loop over the peers.
unfoldable pub peer_info : ℕ → (List ℕ → Option (List ℕ)) → Table → DebugPeer → PeerInfo
peer_info now split_host links p = record {
  key = p.key;
  root = p.root;
  coords = p.coords;
  port = p.port;
  priority = p.priority;
  remote = name_or p.remote_addr (text_at p.conn (names links));
  rx_bytes = rx_of p.counters;
  tx_bytes = tx_of p.counters;
  uptime = uptime_of now p.counters;
  remote_ip = without_port split_host (text_at p.conn (ips links));
}

-- GetPeers.
unfoldable pub get_peers : ℕ → (List ℕ → Option (List ℕ)) → Table → List DebugPeer → List PeerInfo
get_peers now split_host links [] = []
get_peers now split_host links (p ∷ ps) =
    peer_info now split_host links p ∷ get_peers now split_host links ps

-- Whether some link has the connection.
unfoldable pub has_conn : ℕ → Table → Bool
has_conn conn [] = false
has_conn conn ((i, none) ∷ t) = has_conn conn t
has_conn conn ((i, some r) ∷ t) = r.conn == conn || has_conn conn t

-- Every connection has one link.
abbrev pub AreDistinct : Table → Type 0
AreDistinct [] = Unit
AreDistinct ((i, none) ∷ t) = AreDistinct t
AreDistinct ((i, some r) ∷ t) = (has_conn r.conn t ≡ false) × AreDistinct t

by_conn-other :
    (text : LinkInfo → Running → List ℕ) (conn : ℕ) (t : Table) (m : List (ℕ × List ℕ))
    → has_conn conn t ≡ false
    → lookup conn (by_conn text t m) ≡ lookup conn m
unfolding by_conn has_conn
by_conn-other text conn [] m h = refl
by_conn-other text conn ((i, none) ∷ t) m h = by_conn-other text conn t m h
by_conn-other text conn ((i, some r) ∷ t) m h =
    let differs : (r.conn == conn) ≡ false = ground (arith, h) in
    by_conn-other text conn t (insert r.conn (text i r) m) (ground (arith, h))
    ∙ lookup-insert r.conn conn (text i r) m
    ∙ rw differs refl

by_conn-link :
    (text : LinkInfo → Running → List ℕ) (i : LinkInfo) (r : Running) (t : Table)
    (m : List (ℕ × List ℕ))
    → AreDistinct t
    → lookup i t ≡ some (some r)
    → lookup r.conn (by_conn text t m) ≡ some (text i r)
unfolding by_conn lookup
by_conn-link text i r [] m d h = absurd (cc h)
by_conn-link text i r ((j, none) ∷ t) m d h = elim (Bool-cases (info_eq j i)) [
  | inl e ↦ absurd (cc (rw (lookup, e) at h))
  | inr e ↦ by_conn-link text i r t m d (rw (lookup, e) at h)
]
by_conn-link text i r ((j, some s) ∷ t) m d h = elim (Bool-cases (info_eq j i)) [
  | inr e ↦ by_conn-link text i r t (insert s.conn (text j s) m) d.1 (rw (lookup, e) at h)
  | inl e ↦
      let same : s ≡ r = cc (rw (lookup, e) at h) in
      let key : j ≡ i = (info_eq_iff j i).0 e in
      ap (λ x. lookup x.conn (by_conn text t (insert s.conn (text j s) m))) (sym same)
      ∙ by_conn-other text s.conn t (insert s.conn (text j s) m) d.0
      ∙ lookup-insert s.conn s.conn (text j s) m
      ∙ rw (beq_refl s.conn) (ap (λ x. some (text x s)) key ∙ ap (λ x. some (text i x)) same)
]

-- Every connection having one link at most: a peer whose connection belongs to a link is reported
-- under the link's name, or under its address if the name is empty, and with the host of the
-- link's remote end; a peer whose connection belongs to no link is reported under its address, and
-- without a remote host.
pub peer_info-link :
    (now : ℕ) (split_host : List ℕ → Option (List ℕ)) (links : Table) (p q : DebugPeer)
    (i : LinkInfo) (r : Running)
    → AreDistinct links
    → lookup i links ≡ some (some r)
    → p.conn ≡ r.conn
    → has_conn q.conn links ≡ false
    → ((peer_info now split_host links p).remote ≡ name_or p.remote_addr r.lname)
      × ((peer_info now split_host links p).remote_ip ≡ without_port split_host i.remote)
      × ((peer_info now split_host links q).remote ≡ q.remote_addr)
      × ((peer_info now split_host links q).remote_ip ≡ [])
unfolding peer_info lookup
peer_info-link now split_host links p q i r d h same none_there =
    let name : text_at p.conn (names links) ≡ r.lname =
      ap (λ c. text_at c (names links)) same
      ∙ ap text_or_empty (by_conn-link (λ i r. r.lname) i r links [] d h) in
    let ip : text_at p.conn (ips links) ≡ i.remote =
      ap (λ c. text_at c (ips links)) same
      ∙ ap text_or_empty (by_conn-link (λ i r. i.remote) i r links [] d h) in
    let no_name : text_at q.conn (names links) ≡ [] =
      ap text_or_empty (by_conn-other (λ i r. r.lname) q.conn links [] none_there) in
    let no_ip : text_at q.conn (ips links) ≡ [] =
      ap text_or_empty (by_conn-other (λ i r. i.remote) q.conn links [] none_there) in
    (
      ap (name_or p.remote_addr) name,
      ap (without_port split_host) ip,
      ap (name_or q.remote_addr) no_name,
      ap (without_port split_host) no_ip,
    )
