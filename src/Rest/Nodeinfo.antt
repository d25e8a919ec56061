-- ===== src/Rest/Nodeinfo.antt =====
-- putApiNodeinfoHandler of src/restapi/rest_server.go with SetThisNodeInfo of src/core/core.go, and
-- what the next start of the program makes of the configuration that it saves.
use v6space.Base.{
  ℕ, ◌≡◌, ◌<◌, inl, inr, refl, sym, ap, ◌∙◌, Bool, true, false, ◌&&◌, Option, none, some, List,
  ◌++◌, length, ltb, if◌then◌else◌, Option-cases, arith, ◌==◌,
}
use v6space.Core.Address.{hex_decode}
use v6space.Core.NodeInfo.{Nodeinfo, init, too_long, set_node_info}
use v6space.Core.Peers.{SetupOption, Config, apply_option, apply_options, no_config}
use v6space.Core.Start.{
  World, NewError, refused, bad_node_info, bad_length, no_encryption, no_links, new_core,
  listening_core,
}
use v6space.Config.{NodeConfig}
use v6space.Cmd.Mesh.{
  RivArgs, first_options, listen_options, peer_options, allowed_options, core_options,
}
use v6space.Cmd.Mesh.Options.{apply_options-append}
use v6space.Cmd.Mesh.Keeps.{
  Keeps-append, listen_options-Keeps, peer_options-Keeps, allowed_options-Keeps,
}
use v6space.Cmd.Mesh.Run.{Machine, panics, with_core, with_options, set_up}
use v6space.Rest.Peers.{Saver, says_true, save_config}

-- The node's description, the status that is written and the configuration file after the request.
pub record Answered : Type 0 where
  pub nodeinfo : Nodeinfo
  pub status : ℕ
  pub file : Option NodeConfig

abbrev pub set_info : ℕ → NodeConfig → NodeConfig
set_info info cfg = record cfg { node_info = info }

-- The handler, over what the decoder makes of the body; the error of SetThisNodeInfo is not looked
-- at.
unfoldable pub put_nodeinfo :
    (ℕ → Option (List ℕ)) → Saver → Option ℕ → Nodeinfo → Option NodeConfig → Answered
put_nodeinfo describe s none m file = record { nodeinfo = m; status = 400; file = file }
put_nodeinfo describe s (some info) m file = record {
  nodeinfo = (set_node_info (describe info) m).0;
  status = 204;
  file = save_config s (set_info info) file;
}

-- What New makes of the two options of the description.
abbrev pub described : Config → Option ℕ × Bool
described c = (c.nodeinfo, c.nodeinfo_privacy)

first-described :
    (cfg : NodeConfig)
    → described (apply_options (first_options cfg) no_config)
      ≡ (some cfg.node_info, cfg.node_info_privacy)
unfolding apply_options apply_option
first-described cfg = refl

core_options-described :
    (cfg : NodeConfig) (os : List SetupOption)
    → core_options cfg ≡ some os
    → described (apply_options os no_config) ≡ (some cfg.node_info, cfg.node_info_privacy)
unfolding core_options apply_option
core_options-described cfg os h = elim (Option-cases (allowed_options cfg.allowed_public_keys)) [
  | inl e ↦ absurd (cc (rw (core_options, e) at h))
  | inr (ks, e) ↦
      let first = first_options cfg in
      let heard = listen_options cfg.listen in
      let found : first ++ heard ++ peer_options cfg ++ ks ≡ os = cc (rw (core_options, e) at h) in
      let kept : described (apply_options (first ++ heard ++ peer_options cfg ++ ks) no_config)
          ≡ described (apply_options first no_config) =
        ap described (apply_options-append first (heard ++ peer_options cfg ++ ks) no_config)
        ∙ Keeps-append described (heard ++ peer_options cfg) ks
            (Keeps-append described heard (peer_options cfg)
              (listen_options-Keeps described cfg.listen (λ a c. refl))
              (peer_options-Keeps described cfg.peers cfg.interface_peers (λ q c. refl)))
            (allowed_options-Keeps described cfg.allowed_public_keys ks e (λ k c. refl))
            (apply_options first no_config) in
      ap (λ t. described (apply_options t no_config)) (sym found) ∙ kept ∙ first-described cfg
]

set_node_info-too_long :
    (json : List ℕ) (m : Nodeinfo)
    → 16384 < length json
    → set_node_info (some json) m ≡ (m, some too_long)
unfolding set_node_info
set_node_info-too_long json m h =
    let big : ltb 16384 (length json) ≡ true = ground (arith, h) in rw (set_node_info, big) refl

-- A core whose description is too long is not made.
new_core-too_long :
    (w : World) (secret : List ℕ) (os : List SetupOption) (info : ℕ) (privacy : Bool)
    (json : List ℕ)
    → described (apply_options os no_config) ≡ (some info, privacy)
    → w.describe (some info) privacy ≡ some json
    → 16384 < length json
    → (e : NewError) × (new_core w secret os ≡ refused e)
unfolding new_core
new_core-too_long w secret os info privacy json d j h =
    go (length secret == 64) w.conn_made w.links_made
  where
    config : Config
    config = apply_options os no_config

    told :
        set_node_info (w.describe config.nodeinfo config.nodeinfo_privacy) init
        ≡ (init, some too_long)
    told =
        ap (λ p. set_node_info (w.describe p.0 p.1) init) d
        ∙ ap (λ o. set_node_info o init) j
        ∙ set_node_info-too_long json init h

    refuses :
        listening_core w secret config
          (set_node_info (w.describe config.nodeinfo config.nodeinfo_privacy) init)
        ≡ refused (bad_node_info too_long)
    refuses = ap (listening_core w secret config) told

    go :
        (a b c : Bool)
        → (e : NewError) × ((if a
              then (if b
                  then (if c
                      then listening_core w secret config
                          (set_node_info (w.describe config.nodeinfo config.nodeinfo_privacy) init)
                      else refused no_links)
                  else refused no_encryption)
              else refused bad_length)
            ≡ refused e)
    go true true true = (bad_node_info too_long, refuses)
    go true true false = (no_links, refl)
    go true false c = (no_encryption, refl)
    go false b c = (bad_length, refl)

set_up-too_long :
    (m : Machine) (args : RivArgs) (cfg : NodeConfig) (json : List ℕ)
    → m.world.describe (some cfg.node_info) cfg.node_info_privacy ≡ some json
    → 16384 < length json
    → set_up m args cfg ≡ panics
unfolding set_up
set_up-too_long m args cfg json j h = go (hex_decode cfg.private_key) (core_options cfg) refl
  where
    go :
        (sk : Option (List ℕ)) (o : Option (List SetupOption))
        → core_options cfg ≡ o
        → with_options m args cfg sk o ≡ panics
    go none o e = refl
    go (some sk) none e = refl
    go (some sk) (some os) e =
        let (err, r) =
          new_core-too_long m.world sk os cfg.node_info cfg.node_info_privacy json
            (core_options-described cfg os e) j h in
        ap (with_core m args cfg) r

-- A request to set a description that is too long, sent with the header that asks for saving, is
-- answered with 204 as if it had succeeded: the node's description stays as it was, the new one is
-- saved all the same, and the next start of the node on the saved configuration panics.
pub put_nodeinfo-too_long :
    (m : Machine) (args : RivArgs) (s : Saver) (info : ℕ) (old : Nodeinfo) (cfg : NodeConfig)
    (json : List ℕ)
    → (s.has_file && says_true s.headers && s.writable) ≡ true
    → m.world.describe (some info) cfg.node_info_privacy ≡ some json
    → 16384 < length json
    → let r =
        put_nodeinfo
          (λ i. m.world.describe (some i) cfg.node_info_privacy)
          s
          (some info)
          old
          (some cfg) in
      (r.status ≡ 204)
      × (r.nodeinfo ≡ old)
      × (saved : NodeConfig) × (r.file ≡ some saved)
      × (set_up m args saved ≡ panics)
unfolding put_nodeinfo save_config
put_nodeinfo-too_long m args s info old cfg json on j h = (
  refl,
  ap (λ o. (set_node_info o old).0) j ∙ ap (λ p. p.0) (set_node_info-too_long json old h),
  set_info info cfg,
  ap (λ b. if b then some (set_info info cfg) else some cfg) on,
  set_up-too_long m args (set_info info cfg) json j h,
)
