-- ===== src/Mobile/Examples.antt =====
-- Tests of the mobile bindings.
use v6space.Base.{
  Option, ℕ, ◌≡◌, ◌⊎◌, refl, Bool, true, false, none, some, List, [], ◌∷◌, codes, replicate,
}
use v6space.Core.Dial.{Names}
use v6space.Core.Peers.{SetupOption}
use v6space.Core.Start.{World, new_core}
use v6space.Config.{NodeConfig}
use v6space.Config.Defaults.{linux, system_defaults, Keys, generate_config}
use v6space.Cmd.Mesh.{core_options}
use v6space.Mobile.{Phone, Mesh, mobile_options, Started, panics, json_error, started, start_json}
use v6space.Mobile.Same.{unlistened, new_core-mobile}
use v6space.Mobile.Stopping.{fresh, Stops, start_json-Stops}

abbrev names : Names
names = record { is_ip = λ t. false; split_host = λ t. none }

abbrev world : World
world = record {
  names = names;
  parse = λ t. none;
  conn_made = true;
  links_made = true;
  describe = λ info privacy. some [];
  opens = λ kind u. none;
}

abbrev keys : Keys
keys = (replicate 32 7, replicate 64 7)

abbrev generated : NodeConfig
generated = generate_config (system_defaults linux) keys

abbrev cfg : NodeConfig
cfg = record generated {
  listen = codes "l" ∷ [];
  peers = codes "p" ∷ [];
  multicast_interfaces = [];
}

abbrev secret : List ℕ
secret = replicate 64 7

new_core-mobile_example :
    ((core_options cfg ≡ none) × (mobile_options cfg ≡ none))
    ⊎ ((os : List SetupOption) × (ps : List SetupOption) × (core_options cfg ≡ some os)
        × (mobile_options cfg ≡ some ps)
        × (unlistened (new_core world secret os) ≡ new_core world secret ps))
new_core-mobile_example = new_core-mobile world secret cfg

abbrev phone : Phone
phone = record {
  world = world;
  compile = λ t place. some 0;
  group = [];
  opens_group = true;
  conn_mtu = 65535;
  parses = λ t. true;
}

abbrev overlay : NodeConfig → Option NodeConfig × Bool
overlay c = (some (record c { multicast_interfaces = [] }), true)

abbrev mesh_of : Started → Mesh
mesh_of panics = fresh
mesh_of (json_error m) = m
mesh_of (started m) = m

abbrev quiet_cfg : NodeConfig
quiet_cfg = record generated { multicast_interfaces = [] }

abbrev mesh : Mesh
mesh = mesh_of (start_json phone (system_defaults linux) keys overlay fresh)

starts : start_json phone (system_defaults linux) keys overlay fresh ≡ started mesh
unfolding start_json v6space.Core.Address.hex_decode generate_config
    v6space.Config.Defaults.new_keys v6space.Core.Address.Prefix.hex_encode mobile_options
    v6space.Cmd.Mesh.allowed_options new_core v6space.Core.NodeInfo.set_node_info
    v6space.Cmd.Mesh.multicast_options v6space.Core.Start.address v6space.Core.Address.get_prefix
    v6space.Core.Peers.add_peer_loop v6space.Core.Peers.apply_options
    v6space.Rest.Peers.interface_options v6space.Rest.Peers.map_options
    v6space.Core.Peers.apply_option v6space.Core.Address.addr_for_key
starts = refl

laid : overlay (generate_config (system_defaults linux) keys) ≡ (some quiet_cfg, true)
laid = refl

start_json-Stops_example : Stops quiet_cfg mesh
start_json-Stops_example =
    start_json-Stops phone (system_defaults linux) keys overlay quiet_cfg mesh laid starts
