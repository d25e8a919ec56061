-- ===== src/Core/Start.antt =====
-- New of src/core/core.go, links.listen of link_linux.go, and Address and Subnet of api.go. The
-- encryption's connection, the opening of listeners and the marshalling of the node's description
-- are parameters.
use v6space.Base.{
  ℕ, Bool, false, Option, none, some, List, [], ◌∷◌, ◌++◌, length, drop, replicate, ◌==◌,
  if◌then◌else◌,
}
use v6space.Core.Address.{get_prefix, addr_for_key, subnet_for_key}
use v6space.Core.Dial.{Scheme, tcp, socks, tls, unix, sctp, mpath, scheme_of, Names, Url}
use v6space.Core.Peers.{
  SetupOption, Config, apply_options, no_config, Node, Parse, LoopStep, add_peer_loop,
}
use v6space.Core.NodeInfo.{Nodeinfo, init, SetError, set_node_info}

pub record World : Type 0 where
  pub names : Names
  pub parse : Parse
  -- iwe.NewPacketConn and links.init report no error.
  pub conn_made : Bool
  pub links_made : Bool
  -- The completed description as JSON.
  pub describe : Option ℕ → Bool → Option (List ℕ)
  -- The number of the listener that opens.
  pub opens : Scheme → Url → Option ℕ

abbrev pub listener_on : World → Url → Option Scheme → Option (Scheme × ℕ)
listener_on w u none = none
listener_on w u (some kind) = elim (w.opens kind u) as (λ _. Option (Scheme × ℕ)) [
  | none ↦ none
  | some l ↦ some (kind, l)
]

abbrev pub listens : Scheme → Option Scheme
listens tcp = some tcp
listens tls = some tls
listens unix = some unix
listens sctp = some sctp
listens mpath = some mpath
listens socks = none

-- links.listen; `none` is an error, of an unknown scheme too.
unfoldable pub listen : World → Url → Option (Scheme × ℕ)
listen w u = elim (scheme_of u.scheme) [ none ↦ none | some kind ↦ listener_on w u (listens kind) ]

abbrev pub listen_url : World → Option Url → Option (Scheme × ℕ)
listen_url w none = none
listen_url w (some u) = listen w u

abbrev pub add_listener : Option (Scheme × ℕ) → List (Scheme × ℕ) → List (Scheme × ℕ)
add_listener none ls = ls
add_listener (some l) ls = l ∷ ls

-- The loop over the listeners: errors are logged.
unfoldable pub start_listeners : World → List (List ℕ × Bool) → List (Scheme × ℕ)
start_listeners w [] = []
start_listeners w ((addr, v) ∷ addrs) =
    add_listener (listen_url w (w.parse addr)) (start_listeners w addrs)

-- Core, with the node's state and what the first round of the peer loop does.
pub record Core : Type 0 where
  pub secret : List ℕ
  pub public : List ℕ
  pub node : Node
  pub nodeinfo : Nodeinfo
  pub listening : List (Scheme × ℕ)
  pub calls : List LoopStep

pub data NewError : Type 0 where
  bad_length no_encryption no_links : NewError
  bad_node_info : SetError → NewError

pub data NewCore : Type 0 where
  refused : NewError → NewCore
  made : Core → NewCore

-- The end of New, after the description is set.
abbrev pub listening_core : World → List ℕ → Config → Nodeinfo × Option SetError → NewCore
listening_core w secret config (info, some e) = refused (bad_node_info e)
listening_core w secret config (info, none) =
    let started =
      add_peer_loop w.names w.parse
        (record { config = config; links = []; stopped = false; timer = false; closed = [] }) in
    made (record {
      secret = secret;
      public = drop 32 secret;
      node = started.0;
      nodeinfo = info;
      listening = start_listeners w config.listeners;
      calls = started.1;
    })

-- New.
unfoldable pub new_core : World → List ℕ → List SetupOption → NewCore
new_core w secret options =
    let config = apply_options options no_config in
    if length secret == 64
    then (if w.conn_made
        then (if w.links_made
            then listening_core w secret config
                (set_node_info (w.describe config.nodeinfo config.nodeinfo_privacy) init)
            else refused no_links)
        else refused no_encryption)
    else refused bad_length

-- Address and Subnet; `none` is a panic, over GetPrefix.
abbrev pub with_prefix : (ℕ → List ℕ → Option (List ℕ)) → List ℕ → Option ℕ → Option (List ℕ)
with_prefix f key none = none
with_prefix f key (some p) = f p key

unfoldable pub address : Core → Option (List ℕ)
address c = with_prefix addr_for_key c.public (get_prefix c.node.config.prefix)

abbrev pub padded : Option (List ℕ) → Option (List ℕ)
padded none = none
padded (some s) = some (s ++ replicate 8 0)

unfoldable pub subnet : Core → Option (List ℕ)
subnet c = padded (with_prefix subnet_for_key c.public (get_prefix c.node.config.prefix))
