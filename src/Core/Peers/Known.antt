-- ===== src/Core/Peers/Known.antt =====
-- Adding and removing configured peers, against a set of peers.
use v6space.Base.{
  ℕ, ◌≡◌, ◌≢◌, refl, sym, ap, ◌∙◌, inl, inr, Bool, true, false, not, ◌&&◌, ◌||◌, Option, none, some,
  List, [], ◌∷◌, ◌++◌, lookup, insert, erase, lookup-insert, lookup-erase, beq_refl, Option-cases,
  Bool-cases, if◌then◌else◌, append-nil,
}
use v6space.Core.Net.{is_some}
use v6space.Core.Dial.{
  Url, LinkInfo, info_Eq, info_eq, info_eq_iff, Names, Called, connected, invalid_key,
  invalid_priority, unknown_scheme, dialling, Dial, call, link_info_for,
}
use v6space.Core.Dial.Transport.{Text, Interface, TcpAddr, created, dial_tcp}
use v6space.Core.Link.{LinkOptions}
use v6space.Core.Peers.{
  Peer, peer_Eq, peer_eq, peer_eq_iff, Node, Parse, PeerError, remember, add_peer_in, add_peer,
  close_link, remove_peer, remove_peers, link_of, close_links, without_peers,
}
use v6space.Core.Peers.Removal.{own_links, remove_peers-own}

-- The abstract view of the configured peers: a set.
abbrev pub is_known : Node → Peer → Bool
is_known node p = is_some (lookup p node.config.peers)

abbrev pub succeeds : Option PeerError → Bool
succeeds none = true
succeeds (some e) = false

pub is_known-insert :
    (p q : Peer) (v : Option LinkInfo) (m : List (Peer × Option LinkInfo))
    → is_some (lookup q (insert p v m)) ≡ (peer_eq p q || is_some (lookup q m))
is_known-insert p q v m = ap is_some (lookup-insert p q v m) ∙ go (peer_eq p q)
  where
    go : (b : Bool) → is_some (if b then some v else lookup q m) ≡ (b || is_some (lookup q m))
    go true = refl
    go false = refl

is_known-erase :
    (p q : Peer) (m : List (Peer × Option LinkInfo))
    → is_some (lookup q (erase p m)) ≡ (not (peer_eq p q) && is_some (lookup q m))
is_known-erase p q m = ap is_some (lookup-erase p q m) ∙ go (peer_eq p q)
  where
    go : (b : Bool) → is_some (if b then none else lookup q m) ≡ (not b && is_some (lookup q m))
    go true = refl
    go false = refl

remember-is_known :
    (p q : Peer) (r : LinkInfo × Called) (node : Node)
    → is_known (remember p r node).node q ≡ (
        if succeeds (remember p r node).error
        then peer_eq p q || is_known node q
        else is_known node q)
unfolding remember
remember-is_known p q (info, dialling d) node = is_known-insert p q (some info) node.config.peers
remember-is_known p q (info, connected) node = is_known-insert p q (some info) node.config.peers
remember-is_known p q (info, invalid_key) node = refl
remember-is_known p q (info, invalid_priority) node = refl
remember-is_known p q (info, unknown_scheme) node = refl

pub add_peer_in-is_known :
    (names : Names) (parse : Parse) (p q : Peer) (asked calling node : Node)
    → is_known (add_peer_in names parse p asked calling node).node q ≡ (
        if succeeds (add_peer_in names parse p asked calling node).error
        then peer_eq p q || is_known node q
        else is_known node q)
unfolding add_peer_in
add_peer_in-is_known names parse p q asked calling node =
    elim (Option-cases (lookup p asked.config.peers)) [
      | inr (v, e) ↦ rw (add_peer_in, e) refl
      | inl e ↦ elim (Option-cases (parse p.uri)) [
        | inl f ↦ rw (add_peer_in, e, f) refl
        | inr (u, f) ↦
            rw (add_peer_in, e, f)
              (remember-is_known p q (call names calling.links u p.source_interface) node)
      ]
    ]

pub add_peer-is_known :
    (names : Names) (parse : Parse) (p q : Peer) (node : Node)
    → is_known (add_peer names parse p node).node q ≡ (
        if succeeds (add_peer names parse p node).error
        then peer_eq p q || is_known node q
        else is_known node q)
unfolding add_peer
add_peer-is_known names parse p q node = add_peer_in-is_known names parse p q node node node

same_peer : (p q : Peer) (node : Node) → peer_eq p q ≡ true → is_known node p ≡ is_known node q
same_peer p q node e = ap (is_known node) ((peer_eq_iff p q).0 e)

remove_peer-is_known :
    (p q : Peer) (node : Node)
    → (is_known (remove_peer p node).0 q ≡ (not (peer_eq p q) && is_known node q))
      × (succeeds (remove_peer p node).1 ≡ is_known node p)
unfolding remove_peer
remove_peer-is_known p q node = elim (Option-cases (lookup p node.config.peers)) [
  | inl e ↦
      let unknown : is_known node p ≡ false = ap is_some e in
      (
        rw (remove_peer, e)
            (elim (Bool-cases (peer_eq p q)) [
              | inl s ↦ rw s (sym (same_peer p q node s) ∙ unknown)
              | inr s ↦ rw s refl
            ]),
        rw (remove_peer, e) refl,
      )
  | inr (v, e) ↦
      (rw (remove_peer, e) (is_known-erase p q node.config.peers), rw (remove_peer, e) refl)
]

abbrev pub is_known_after : Option Node → Peer → Bool
is_known_after none q = false
is_known_after (some node) q = is_known node q

without_peers-is_known :
    (node : Node) (ids : Option (List ℕ)) (q : Peer)
    → is_known_after (without_peers node ids) q ≡ false
unfolding lookup
without_peers-is_known node none q = refl
without_peers-is_known node (some ids) q = refl

-- The configured peers implement a set of peers: AddPeer adds the peer to the set that there is at
-- its end, whatever came between its turns, where it reports no error, and else leaves that set
-- alone; RemovePeer takes the peer out of the set, and reports no error exactly where the peer was in it; RemovePeers, whenever its
-- closures run, leaves the empty set or no program; and where each of its closures runs before the
-- next round of its loop, it closes exactly the peers' own links and the program goes on.
pub peers_refine :
    (names : Names) (parse : Parse) (p q : Peer) (delay : Peer → ℕ) (asked calling node : Node)
    → (is_known (add_peer_in names parse p asked calling node).node q ≡ (
        if succeeds (add_peer_in names parse p asked calling node).error
        then peer_eq p q || is_known node q
        else is_known node q))
      × (is_known (remove_peer p node).0 q ≡ (not (peer_eq p q) && is_known node q))
      × (succeeds (remove_peer p node).1 ≡ is_known node p)
      × (is_known_after (remove_peers delay node) q ≡ false)
      × (remove_peers (λ r. 0) node
          ≡ some (record node {
            config = record node.config { peers = [] };
            closed = node.closed ++ own_links node.config.peers node.links;
          }))
unfolding remove_peers
peers_refine names parse p q delay asked calling node =
    let (gone, known) = remove_peer-is_known p q node in
    (
      add_peer_in-is_known names parse p q asked calling node,
      gone,
      known,
      without_peers-is_known node (close_links delay node.config.peers node.links) q,
      remove_peers-own node,
    )

remember-lookup :
    (p : Peer) (r : LinkInfo × Called) (node : Node)
    → succeeds (remember p r node).error ≡ true
    → lookup p (remember p r node).node.config.peers ≡ some (some r.0)
unfolding remember
remember-lookup p (info, dialling d) node h =
    lookup-insert p p (some info) node.config.peers ∙ rw (beq_refl p) refl
remember-lookup p (info, connected) node h =
    lookup-insert p p (some info) node.config.peers ∙ rw (beq_refl p) refl
remember-lookup p (info, invalid_key) node h = absurd (cc h)
remember-lookup p (info, invalid_priority) node h = absurd (cc h)
remember-lookup p (info, unknown_scheme) node h = absurd (cc h)

call-info :
    (names : Names) (links : List (LinkInfo × Option ℕ)) (u : Url) (sintf : List ℕ)
    → (call names links u sintf).0 ≡ link_info_for u.scheme sintf u.host
unfolding call
call-info names links u sintf =
    elim (Option-cases (lookup (link_info_for u.scheme sintf u.host) links)) [
      | inl e ↦ rw (call, e) refl
      | inr (v, e) ↦ rw (call, e) refl
    ]

-- What AddPeer remembers of a peer is what its URL says, not what the link is filed under.
add_peer-lookup :
    (names : Names) (parse : Parse) (p : Peer) (node : Node) (u : Url)
    → parse p.uri ≡ some u
    → succeeds (add_peer names parse p node).error ≡ true
    → lookup p (add_peer names parse p node).node.config.peers
      ≡ some (some (link_info_for u.scheme p.source_interface u.host))
unfolding add_peer v6space.Core.Peers.add_peer_in
add_peer-lookup names parse p node u f h = elim (Option-cases (lookup p node.config.peers)) [
  | inr (v, e) ↦ absurd (cc (rw (add_peer, add_peer_in, e) at h))
  | inl e ↦
      let made : add_peer names parse p node
          ≡ remember p (call names node.links u p.source_interface) node =
        rw (add_peer, add_peer_in, e, f) refl in
      ap (λ r. lookup p r.node.config.peers) made
      ∙ remember-lookup p (call names node.links u p.source_interface) node
          (sym (ap (λ r. succeeds r.error) made) ∙ h)
      ∙ ap (λ i. some (some i)) (call-info names node.links u p.source_interface)
]

remove_peer-closed :
    (p : Peer) (node : Node) (info : Option LinkInfo)
    → lookup p node.config.peers ≡ some info
    → (remove_peer p node).0.closed ≡ node.closed ++ close_link info node.links
unfolding remove_peer
remove_peer-closed p node info e = rw (remove_peer, e) refl

-- A peer that AddPeer has added, when RemovePeer takes it out, whatever the table of links has
-- become: the connection that is closed is the one filed under the scheme, the interface and the
-- host text of the peer's URL, if any is.
pub remove_peer-add_peer :
    (names : Names) (parse : Parse) (p : Peer) (node : Node) (u : Url)
    (links : List (LinkInfo × Option ℕ))
    → parse p.uri ≡ some u
    → succeeds (add_peer names parse p node).error ≡ true
    → (remove_peer p (record (add_peer names parse p node).node { links = links })).0.closed
      ≡ (add_peer names parse p node).node.closed
        ++ link_of (lookup (link_info_for u.scheme p.source_interface u.host) links)
unfolding close_link
remove_peer-add_peer names parse p node u links f h =
    remove_peer-closed p (record (add_peer names parse p node).node { links = links }) _
      (add_peer-lookup names parse p node u f h)

other_info :
    (t s r t' s' r' : List ℕ) (i : ℕ)
    → r ≢ r'
    → lookup (link_info_for t s r) ((link_info_for t' s' r', some i) ∷ []) ≡ none
unfolding lookup
other_info t s r t' s' r' i ne =
    elim (Bool-cases (info_eq (link_info_for t' s' r') (link_info_for t s r))) [
      | inl e ↦ absurd (
          ne (
            sym (
              ap (λ x. x.remote)
                ((info_eq_iff (link_info_for t' s' r') (link_info_for t s r)).0 e))))
      | inr e ↦ rw e refl
    ]

-- A peer whose URL names its host in another way than the text of the address that is dialled, as
-- every host name does: when its link runs, RemovePeer does not close the connection.
pub remove_peer-leaves_link :
    (names : Names) (parse : Parse) (text : Text) (interfaces : Option (List Interface)) (p : Peer)
    (node : Node) (u : Url) (d : Dial) (resolved : Option TcpAddr) (info : LinkInfo)
    (options : LinkOptions) (incoming forced : Bool) (i : ℕ)
    → parse p.uri ≡ some u
    → succeeds (add_peer names parse p node).error ≡ true
    → dial_tcp text [] interfaces resolved true u.scheme d ≡ created info options incoming forced
    → info.remote ≢ u.host
    → (remove_peer p
        (record (add_peer names parse p node).node { links = (info, some i) ∷ [] })).0.closed
      ≡ (add_peer names parse p node).node.closed
remove_peer-leaves_link names parse text interfaces p node u d resolved info options incoming forced
      i f h made ne =
    remove_peer-add_peer names parse p node u ((info, some i) ∷ []) f h
    ∙ rw
        (other_info u.scheme p.source_interface u.host info.link_type info.local info.remote i
          (λ e. ne (sym e)))
        (append-nil (add_peer names parse p node).node.closed)
