-- ===== src/Mobile/Same.antt =====
-- The core that a phone starts against the one that the program starts.
use v6space.Base.{
  ℕ, ◌≡◌, ◌⊎◌, inl, inr, refl, sym, ap, ◌∙◌, Bool, true, false, Option, none, some, List, [], ◌∷◌,
  ◌++◌, if◌then◌else◌, Option-cases, length, drop, ◌==◌,
}
use v6space.Core.Dial.{LinkInfo}
use v6space.Core.NodeInfo.{Nodeinfo, SetError, set_node_info, init}
use v6space.Core.Peers.{
  Peer, SetupOption, Config, apply_option, apply_options, no_config, Node, call_peer, call_peers,
  add_peer_loop,
}
use v6space.Core.Start.{
  World, NewCore, refused, made, bad_length, no_encryption, no_links, new_core, listening_core,
  start_listeners,
}
use v6space.Config.{NodeConfig}
use v6space.Cmd.Mesh.{first_options, listen_options, peer_options, allowed_options, core_options}
use v6space.Cmd.Mesh.Options.{unheard, unheard-skip}
use v6space.Cmd.Mesh.Keeps.{Keeps, Keeps-append, peer_options-Keeps, allowed_options-Keeps}
use v6space.Mobile.{mobile_options}

first_options-Keeps : (cfg : NodeConfig) → Keeps (λ c. c.listeners) (first_options cfg)
unfolding apply_options apply_option
first_options-Keeps cfg c = refl

mobile_options-quiet :
    (cfg : NodeConfig) (ks : List SetupOption)
    → allowed_options cfg.allowed_public_keys ≡ some ks
    → Keeps (λ c. c.listeners) (first_options cfg ++ peer_options cfg ++ ks)
unfolding apply_option
mobile_options-quiet cfg ks e =
    let part : Config → List (List ℕ × Bool) = λ c. c.listeners in
    Keeps-append part (first_options cfg ++ peer_options cfg) ks
      (Keeps-append part (first_options cfg) (peer_options cfg) (first_options-Keeps cfg)
        (peer_options-Keeps part cfg.peers cfg.interface_peers (λ q c. refl)))
      (allowed_options-Keeps part cfg.allowed_public_keys ks e (λ k c. refl))

-- The same start without listeners.
abbrev pub unlistened : NewCore → NewCore
unlistened (refused e) = refused e
unlistened (made c) =
    made (record c { node = record c.node { config = unheard c.node.config }; listening = [] })

abbrev node_of : Config → Node
node_of c = record { config = c; links = []; stopped = false; timer = false; closed = [] }

call_peers-unheard :
    (w : World) (c : Config) (peers : List (Peer × Option LinkInfo))
    → call_peers w.names w.parse (node_of c) peers
      ≡ call_peers w.names w.parse (node_of (unheard c)) peers
unfolding call_peers call_peer
call_peers-unheard w c [] = refl
call_peers-unheard w c ((p, info) ∷ peers) =
    ap (λ t. call_peer w.names w.parse (node_of c) p ∷ t) (call_peers-unheard w c peers)

listening_core-unheard :
    (w : World) (secret : List ℕ) (c : Config) (r : Nodeinfo × Option SetError)
    → unlistened (listening_core w secret c r) ≡ listening_core w secret (unheard c) r
unfolding add_peer_loop start_listeners
listening_core-unheard w secret c (info, some e) = refl
listening_core-unheard w secret c (info, none) =
    ap
      (λ t. made (record {
        secret = secret;
        public = drop 32 secret;
        node = record (node_of (unheard c)) { timer = true };
        nodeinfo = info;
        listening = [];
        calls = t;
      }))
      (call_peers-unheard w c c.peers)

-- New from the configuration on.
abbrev new_with : World → List ℕ → Config → NewCore
new_with w secret config =
    if length secret == 64
    then (if w.conn_made
        then (if w.links_made
            then listening_core w secret config
                (set_node_info (w.describe config.nodeinfo config.nodeinfo_privacy) init)
            else refused no_links)
        else refused no_encryption)
    else refused bad_length

new_with-unheard :
    (w : World) (secret : List ℕ) (c : Config)
    → unlistened (new_with w secret c) ≡ new_with w secret (unheard c)
new_with-unheard w secret c = go (length secret == 64) w.conn_made w.links_made
  where
    r : Nodeinfo × Option SetError
    r = set_node_info (w.describe c.nodeinfo c.nodeinfo_privacy) init

    go :
        (a b d : Bool)
        → unlistened (
            if a
            then (if b
                then (if d then listening_core w secret c r else refused no_links)
                else refused no_encryption)
            else refused bad_length)
          ≡ (if a
              then (if b
                  then (if d then listening_core w secret (unheard c) r else refused no_links)
                  else refused no_encryption)
              else refused bad_length)
    go true true true = listening_core-unheard w secret c r
    go true true false = refl
    go true false d = refl
    go false b d = refl

-- On the same configuration a phone and the program panic at the same keys, and else, from the same
-- private key and on the same system, either both are refused a core, with the same error, or they
-- have the same core, but for the listeners of the configuration, which a phone does not open.
pub new_core-mobile :
    (w : World) (secret : List ℕ) (cfg : NodeConfig)
    → ((core_options cfg ≡ none) × (mobile_options cfg ≡ none))
      ⊎ ((os : List SetupOption) × (ps : List SetupOption) × (core_options cfg ≡ some os)
          × (mobile_options cfg ≡ some ps)
          × (unlistened (new_core w secret os) ≡ new_core w secret ps))
unfolding core_options mobile_options new_core
new_core-mobile w secret cfg = elim (Option-cases (allowed_options cfg.allowed_public_keys)) [
  | inl e ↦ inl (rw (core_options, e) refl, rw (mobile_options, e) refl)
  | inr (ks, e) ↦
      let os = first_options cfg ++ listen_options cfg.listen ++ peer_options cfg ++ ks in
      let ps = first_options cfg ++ peer_options cfg ++ ks in
      let D = apply_options ps no_config in
      let quiet : D.listeners ≡ [] = mobile_options-quiet cfg ks e no_config in
      let same : unheard (apply_options os no_config) ≡ D =
        unheard-skip (first_options cfg) (peer_options cfg) ks cfg.listen no_config
        ∙ ap (λ l. record D { listeners = l }) (sym quiet) in
      inr (
        os,
        ps,
        rw (core_options, e) refl,
        rw (mobile_options, e) refl,
        new_with-unheard w secret (apply_options os no_config) ∙ ap (new_with w secret) same,
      )
]
