-- ===== src/Cmd/Mesh/Lookups.antt =====
-- The listeners and peers that the options of the program make.
use v6space.Base.{
  ℕ, ◌≡◌, refl, sym, ap, ◌∙◌, inl, inr, Bool, true, false, ◌&&◌, ◌||◌, some, List, [], ◌∷◌, ◌++◌,
  Option-cases, bytes_eq, bytes_Eq, lookup, insert, lookup-insert, if◌then◌else◌,
}
use v6space.Core.Net.{is_some}
use v6space.Core.Address.{hex_decode}
use v6space.Core.Peers.{
  Peer, peer_eq, SetupOption, peer_option, listen_address, node_info, node_info_privacy,
  network_domain, allowed_public_key, Config, apply_option, apply_options, no_config,
}
use v6space.Rest.Peers.{interface_options, map_options}
use v6space.Rest.Peers.Options.{is_option, is_option-append, or_assoc, or_swap, or_false}
use v6space.Rest.Peers.Restart.{is_configured, apply_options-peers}
use v6space.Config.{NodeConfig}
use v6space.Cmd.Mesh.{listen_options, allowed_options, first_options, peer_options, core_options}

-- Whether the address is listened on.
abbrev pub listens_at : List ℕ → Config → Bool
listens_at a c = is_some (lookup a c.listeners)

abbrev pub is_member : List ℕ → List (List ℕ) → Bool
is_member a [] = false
is_member a (b ∷ bs) = bytes_eq b a || is_member a bs

abbrev pub listens_in : List ℕ → List SetupOption → Bool
listens_in a [] = false
listens_in a (listen_address b ∷ os) = bytes_eq b a || listens_in a os
listens_in a (peer_option p ∷ os) = listens_in a os
listens_in a (node_info n ∷ os) = listens_in a os
listens_in a (node_info_privacy b ∷ os) = listens_in a os
listens_in a (network_domain d ∷ os) = listens_in a os
listens_in a (allowed_public_key k ∷ os) = listens_in a os

listens_at-insert :
    (a b : List ℕ) (m : List (List ℕ × Bool))
    → is_some (lookup a (insert b true m)) ≡ (bytes_eq b a || is_some (lookup a m))
listens_at-insert a b m = ap is_some (lookup-insert b a true m) ∙ go (bytes_eq b a)
  where
    go : (t : Bool) → is_some (if t then some true else lookup a m) ≡ (t || is_some (lookup a m))
    go true = refl
    go false = refl

-- The listeners are those of the options and those that were there.
apply_options-listeners :
    (a : List ℕ) (os : List SetupOption) (c : Config)
    → listens_at a (apply_options os c) ≡ (listens_in a os || listens_at a c)
unfolding apply_options apply_option
apply_options-listeners a [] c = refl
apply_options-listeners a (listen_address b ∷ os) c =
    apply_options-listeners a os (apply_option (listen_address b) c)
    ∙ ap (λ t. listens_in a os || t) (listens_at-insert a b c.listeners)
    ∙ or_swap (listens_in a os) (bytes_eq b a) (listens_at a c)
    ∙ sym (or_assoc (bytes_eq b a) (listens_in a os) (listens_at a c))
apply_options-listeners a (peer_option p ∷ os) c =
    apply_options-listeners a os (apply_option (peer_option p) c)
apply_options-listeners a (node_info n ∷ os) c =
    apply_options-listeners a os (apply_option (node_info n) c)
apply_options-listeners a (node_info_privacy b ∷ os) c =
    apply_options-listeners a os (apply_option (node_info_privacy b) c)
apply_options-listeners a (network_domain d ∷ os) c =
    apply_options-listeners a os (apply_option (network_domain d) c)
apply_options-listeners a (allowed_public_key k ∷ os) c =
    apply_options-listeners a os (apply_option (allowed_public_key k) c)

listens_in-append :
    (a : List ℕ) (os ps : List SetupOption)
    → listens_in a (os ++ ps) ≡ (listens_in a os || listens_in a ps)
listens_in-append a [] ps = refl
listens_in-append a (listen_address b ∷ os) ps =
    rw (listens_in-append a os ps)
      (sym (or_assoc (bytes_eq b a) (listens_in a os) (listens_in a ps)))
listens_in-append a (peer_option p ∷ os) ps = listens_in-append a os ps
listens_in-append a (node_info n ∷ os) ps = listens_in-append a os ps
listens_in-append a (node_info_privacy b ∷ os) ps = listens_in-append a os ps
listens_in-append a (network_domain d ∷ os) ps = listens_in-append a os ps
listens_in-append a (allowed_public_key k ∷ os) ps = listens_in-append a os ps

listens_in-listen_options :
    (a : List ℕ) (addrs : List (List ℕ)) → listens_in a (listen_options addrs) ≡ is_member a addrs
unfolding listen_options
listens_in-listen_options a [] = refl
listens_in-listen_options a (b ∷ addrs) =
    ap (λ t. bytes_eq b a || t) (listens_in-listen_options a addrs)

is_option-listen_options :
    (q : Peer) (addrs : List (List ℕ)) → is_option q (listen_options addrs) ≡ false
unfolding listen_options
is_option-listen_options q [] = refl
is_option-listen_options q (b ∷ addrs) = is_option-listen_options q addrs

interface_options-quiet :
    (a intf : List ℕ) (us : List (List ℕ)) → listens_in a (interface_options intf us) ≡ false
unfolding interface_options
interface_options-quiet a intf [] = refl
interface_options-quiet a intf (u ∷ us) = interface_options-quiet a intf us

map_options-quiet :
    (a : List ℕ) (m : List (List ℕ × List (List ℕ))) → listens_in a (map_options m) ≡ false
unfolding map_options
map_options-quiet a [] = refl
map_options-quiet a ((intf, us) ∷ m) =
    listens_in-append a (interface_options intf us) (map_options m)
    ∙ rw (interface_options-quiet a intf us, map_options-quiet a m) refl

-- The options of the allowed keys concern nothing else.
abbrev pub AllowedOnly : List SetupOption → Type 0
AllowedOnly os = ((a : List ℕ) → listens_in a os ≡ false) × ((q : Peer) → is_option q os ≡ false)

pub allowed_options-AllowedOnly :
    (texts : List (List ℕ)) (os : List SetupOption)
    → allowed_options texts ≡ some os
    → AllowedOnly os
unfolding allowed_options
allowed_options-AllowedOnly [] os h =
    let found : [] ≡ os = cc h in
    (λ a. ap (listens_in a) (sym found), λ q. ap (is_option q) (sym found))
allowed_options-AllowedOnly (text ∷ texts) os h = elim (Option-cases (hex_decode text)) [
  | inl e ↦ absurd (cc (rw (allowed_options, e) at h))
  | inr (k, e) ↦ elim (Option-cases (allowed_options texts)) [
    | inl f ↦ absurd (cc (rw (allowed_options, e, f) at h))
    | inr (ps, f) ↦
        let found : allowed_public_key k ∷ ps ≡ os = cc (rw (allowed_options, e, f) at h) in
        let rest = allowed_options-AllowedOnly texts ps f in
        (
          λ a. ap (listens_in a) (sym found) ∙ rest.0 a,
          λ q. ap (is_option q) (sym found) ∙ rest.1 q,
        )
  ]
]

-- Whether the configuration names the peer, with its source interface.
abbrev pub is_given_in : Peer → List (List ℕ × List (List ℕ)) → Bool
is_given_in q [] = false
is_given_in q ((intf, us) ∷ m) =
    (bytes_eq intf q.source_interface && is_member q.uri us) || is_given_in q m

abbrev pub is_given : Peer → NodeConfig → Bool
is_given q cfg = is_given_in q (([], cfg.peers) ∷ cfg.interface_peers)

and_false : (b : Bool) → false ≡ (b && false)
and_false true = refl
and_false false = refl

both_in : (a b c : Bool) → ((a && b) || (b && c)) ≡ (b && (a || c))
both_in true true c = refl
both_in true false c = refl
both_in false b c = refl

is_option-interface_options :
    (q : Peer) (intf : List ℕ) (us : List (List ℕ))
    → is_option q (interface_options intf us)
      ≡ (bytes_eq intf q.source_interface && is_member q.uri us)
unfolding interface_options peer_eq
is_option-interface_options q intf [] = and_false (bytes_eq intf q.source_interface)
is_option-interface_options q intf (u ∷ us) =
    ap (λ t. (bytes_eq u q.uri && bytes_eq intf q.source_interface) || t)
      (is_option-interface_options q intf us)
    ∙ both_in (bytes_eq u q.uri) (bytes_eq intf q.source_interface) (is_member q.uri us)

is_option-map_options :
    (q : Peer) (m : List (List ℕ × List (List ℕ))) → is_option q (map_options m) ≡ is_given_in q m
unfolding map_options
is_option-map_options q [] = refl
is_option-map_options q ((intf, us) ∷ m) =
    is_option-append q (interface_options intf us) (map_options m)
    ∙ rw (is_option-interface_options q intf us, is_option-map_options q m) refl

is_option-peer_options :
    (q : Peer) (cfg : NodeConfig) → is_option q (peer_options cfg) ≡ is_given q cfg
is_option-peer_options q cfg =
    is_option-append q (interface_options [] cfg.peers) (map_options cfg.interface_peers)
    ∙ rw (is_option-interface_options q [] cfg.peers, is_option-map_options q cfg.interface_peers)
        refl

-- The core's configuration has exactly the listeners and the peers of the program's
-- configuration.
pub core_options-lookups :
    (cfg : NodeConfig) (os : List SetupOption) (a : List ℕ) (q : Peer)
    → core_options cfg ≡ some os
    → (listens_at a (apply_options os no_config) ≡ is_member a cfg.listen)
      × (is_configured (apply_options os no_config) q ≡ is_given q cfg)
unfolding core_options listen_options apply_options lookup apply_option
core_options-lookups cfg os a q h = elim (Option-cases (allowed_options cfg.allowed_public_keys)) [
  | inl e ↦ absurd (cc (rw (core_options, e) at h))
  | inr (ps, e) ↦
      let heard = listen_options cfg.listen in
      let found : first_options cfg ++ heard ++ peer_options cfg ++ ps ≡ os =
        cc (rw (core_options, e) at h) in
      let only = allowed_options-AllowedOnly cfg.allowed_public_keys ps e in
      (
        ap (λ t. listens_at a (apply_options t no_config)) (sym found)
            ∙ apply_options-listeners a (heard ++ peer_options cfg ++ ps)
                (apply_options (first_options cfg) no_config)
            ∙ or_false (listens_in a (heard ++ peer_options cfg ++ ps))
            ∙ listens_in-append a (heard ++ peer_options cfg) ps
            ∙ rw
                (
                  only.0 a,
                  listens_in-append a heard (peer_options cfg),
                  listens_in-append a (interface_options [] cfg.peers)
                      (map_options cfg.interface_peers),
                  interface_options-quiet a [] cfg.peers,
                  map_options-quiet a cfg.interface_peers,
                )
                (or_false (listens_in a heard || false)
                  ∙ or_false (listens_in a heard)
                  ∙ listens_in-listen_options a cfg.listen),
        ap (λ t. is_configured (apply_options t no_config) q) (sym found)
            ∙ apply_options-peers q (first_options cfg ++ heard ++ peer_options cfg ++ ps) no_config
            ∙ or_false (is_option q (heard ++ peer_options cfg ++ ps))
            ∙ is_option-append q (heard ++ peer_options cfg) ps
            ∙ rw
                (
                  only.1 q,
                  is_option-append q heard (peer_options cfg),
                  is_option-listen_options q cfg.listen,
                )
                (or_false (is_option q (peer_options cfg)) ∙ is_option-peer_options q cfg),
      )
]
