-- ===== src/Core/Peers/Loop.antt =====
-- The loop that calls the configured peers.
use v6space.Base.{
  ◌≡◌, ◌↔◌, refl, ◌⊎◌, inl, inr, true, false, Option, none, List, [], ◌∷◌, Option-cases, Bool-cases,
  arith,
}
use v6space.Core.Dial.{LinkInfo, Names}
use v6space.Core.Peers.{Peer, Node, Parse, LoopStep, crashes, call_peer, call_peers, add_peer_loop}

-- Some goroutine of the loop crashes.
abbrev pub HasCrash : List LoopStep → Type 0
HasCrash [] = ⊥
HasCrash (s ∷ steps) = (s ≡ crashes) ⊎ HasCrash steps

-- Some peer's text is no URL.
abbrev pub HasUnparsable : Parse → List (Peer × Option LinkInfo) → Type 0
HasUnparsable parse [] = ⊥
HasUnparsable parse ((p, info) ∷ peers) = (parse p.uri ≡ none) ⊎ HasUnparsable parse peers

call_peer_iff :
    (names : Names) (parse : Parse) (node : Node) (p : Peer)
    → (call_peer names parse node p ≡ crashes) ↔ (parse p.uri ≡ none)
unfolding call_peer
call_peer_iff names parse node p = elim (Option-cases (parse p.uri)) [
  | inl e ↦ (λ h. e, λ h. rw (call_peer, e) refl)
  | inr (u, e) ↦ (λ h. absurd (cc (rw (call_peer, e) at h)), λ h. absurd (cc (e, h)))
]

call_peers_iff :
    (names : Names) (parse : Parse) (node : Node) (peers : List (Peer × Option LinkInfo))
    → HasCrash (call_peers names parse node peers) ↔ HasUnparsable parse peers
unfolding call_peers
call_peers_iff names parse node [] = (λ h. h, λ h. h)
call_peers_iff names parse node ((p, info) ∷ peers) =
    ground (arith, call_peer_iff names parse node p, call_peers_iff names parse node peers)

-- On a node that has not been stopped, the loop crashes exactly where some configured peer is no
-- URL, whatever the other peers are; on a stopped node it does nothing.
pub add_peer_loop_cases :
    (names : Names) (parse : Parse) (node : Node)
    → ((node.stopped ≡ true) × (add_peer_loop names parse node ≡ (node, [])))
      ⊎ ((node.stopped ≡ false)
          × ((add_peer_loop names parse node).0.timer ≡ true)
          × (HasCrash (add_peer_loop names parse node).1 ↔ HasUnparsable parse node.config.peers))
unfolding add_peer_loop
add_peer_loop_cases names parse node = elim (Bool-cases node.stopped) [
  | inl e ↦ inl (e, rw (add_peer_loop, e) refl)
  | inr e ↦ inr (
    e,
    rw (add_peer_loop, e) refl,
    rw (add_peer_loop, e)
        (call_peers_iff names parse (record node { stopped = false }) node.config.peers),
  )
]
