-- ===== src/Core/Peers/Removal.antt =====
-- RemovePeers and the closures that share the variable of its loop: when each runs at once, and when
-- all of them run after the loop.
use v6space.Base.{
  ℕ, zero, suc, ◌+◌, ◌≤◌, ◌≡◌, refl, ap, ◌∙◌, ◌⊎◌, inl, inr, Option, none, some, List, [], ◌∷◌,
  ◌++◌, length, lookup, arith,
}
use v6space.Core.Dial.{LinkInfo, info_Eq}
use v6space.Core.Peers.{
  Peer, Node, link_of, close_link, seen_after, close_seen, close_links, emptied, without_peers,
  remove_peers,
}

-- The connections of the peers' own links, each one as RemovePeer closes it.
abbrev pub own_links : List (Peer × Option LinkInfo) → List (LinkInfo × Option ℕ) → List ℕ
own_links [] links = []
own_links ((p, info) ∷ peers) links = close_link info links ++ own_links peers links

close_links-own :
    (peers : List (Peer × Option LinkInfo)) (links : List (LinkInfo × Option ℕ))
    → close_links (λ p. 0) peers links ≡ some (own_links peers links)
unfolding close_links close_link seen_after
close_links-own [] links = refl
close_links-own ((p, none) ∷ peers) links = close_links-own peers links
close_links-own ((p, some info) ∷ peers) links =
    ap (close_seen (some info) links) (close_links-own peers links)

-- Where each closure runs before the next round, each peer's own link is closed.
pub remove_peers-own :
    (node : Node)
    → remove_peers (λ p. 0) node ≡ some (emptied node (own_links node.config.peers node.links))
unfolding remove_peers
remove_peers-own node = ap (without_peers node) (close_links-own node.config.peers node.links)

-- How many of the peers have link information.
abbrev pub called_peers : List (Peer × Option LinkInfo) → ℕ
called_peers [] = 0
called_peers ((p, none) ∷ peers) = called_peers peers
called_peers ((p, some info) ∷ peers) = suc (called_peers peers)

abbrev pub repeated : ℕ → List ℕ → List ℕ
repeated zero ids = []
repeated (suc n) ids = ids ++ repeated n ids

seen_after-last :
    (n : ℕ) (info : Option LinkInfo) (peers : List (Peer × Option LinkInfo)) (p : Peer)
    (last : Option LinkInfo)
    → length peers + 1 ≤ n
    → seen_after n info (peers ++ (p, last) ∷ []) ≡ last
unfolding seen_after
seen_after-last zero info peers p last h = absurd (omega (arith, h))
seen_after-last (suc zero) info [] p last h = refl
seen_after-last (suc (suc n)) info [] p last h = refl
seen_after-last (suc n) info ((q, next) ∷ peers) p last h =
    seen_after-last n next peers p last (omega (arith, h))

seen_after-end : (n : ℕ) (info : Option LinkInfo) → seen_after n info [] ≡ info
unfolding seen_after
seen_after-end zero info = refl
seen_after-end (suc n) info = refl

module _ (delay : Peer → ℕ) (links : List (LinkInfo × Option ℕ)) (p : Peer) where
  close_links-some :
      (peers : List (Peer × Option LinkInfo)) (info : LinkInfo)
      → ((q : Peer) → length peers + 1 ≤ delay q)
      → close_links delay (peers ++ (p, some info) ∷ []) links
        ≡ some (repeated (suc (called_peers peers)) (link_of (lookup info links)))
  unfolding close_links
  close_links-some [] info late =
      ap (λ o. close_seen o links (some [])) (seen_after-end (delay p) (some info))
  close_links-some ((q, none) ∷ peers) info late =
      close_links-some peers info (λ r. omega (arith, late r))
  close_links-some ((q, some i) ∷ peers) info late =
      ap (λ o. close_seen o links (close_links delay (peers ++ (p, some info) ∷ []) links))
        (seen_after-last (delay q) (some i) peers p (some info) (omega (arith, late q)))
      ∙ ap (close_seen (some info) links) (close_links-some peers info (λ r. omega (arith, late r)))

  close_links-none :
      (peers : List (Peer × Option LinkInfo))
      → ((q : Peer) → length peers + 1 ≤ delay q)
      → ((called_peers peers ≡ 0) × (close_links delay (peers ++ (p, none) ∷ []) links ≡ some []))
        ⊎ ((1 ≤ called_peers peers) × (close_links delay (peers ++ (p, none) ∷ []) links ≡ none))
  unfolding close_links
  close_links-none [] late = inl (refl, refl)
  close_links-none ((q, none) ∷ peers) late = close_links-none peers (λ r. omega (arith, late r))
  close_links-none ((q, some i) ∷ peers) late = inr (
    omega arith,
    ap (λ o. close_seen o links (close_links delay (peers ++ (p, none) ∷ []) links))
        (seen_after-last (delay q) (some i) peers p none (omega (arith, late q))),
  )

-- RemovePeers where all of its closures run after the loop: if the last peer of the loop's order has
-- link information, the link under that information alone is closed, if there is one, as many times
-- as there are peers with link information, and the links of the others are left; if the last peer
-- has none, the program panics exactly if another one has some.
pub remove_peers_late :
    (delay : Peer → ℕ) (node : Node) (peers : List (Peer × Option LinkInfo)) (p : Peer)
    (last : Option LinkInfo)
    → node.config.peers ≡ peers ++ (p, last) ∷ []
    → ((q : Peer) → length peers + 1 ≤ delay q)
    → ((info : LinkInfo) × (last ≡ some info)
        × (remove_peers delay node
            ≡ some (
                emptied node
                  (repeated (suc (called_peers peers)) (link_of (lookup info node.links))))))
      ⊎ ((last ≡ none)
          × (called_peers peers ≡ 0)
          × (remove_peers delay node ≡ some (emptied node [])))
      ⊎ ((last ≡ none) × (1 ≤ called_peers peers) × (remove_peers delay node ≡ none))
unfolding remove_peers
remove_peers_late delay node peers p (some info) e late = inl (
  info,
  refl,
  ap (λ l. without_peers node (close_links delay l node.links)) e
      ∙ ap (without_peers node) (close_links-some delay node.links p peers info late),
)
remove_peers_late delay node peers p none e late =
    let listed = ap (λ l. without_peers node (close_links delay l node.links)) e in
    elim (close_links-none delay node.links p peers late) [
      | inl (alone, c) ↦ inr (inl (refl, alone, listed ∙ ap (without_peers node) c))
      | inr (others, c) ↦ inr (inr (refl, others, listed ∙ ap (without_peers node) c))
    ]
