-- ===== src/Cmd/Mesh/Examples.antt =====
-- Tests of the program's start.
use v6space.Base.{
  ℕ, ◌≡◌, ◌↔◌, ◌⊎◌, inl, inr, refl, Bool, true, false, Option, none, some, List, [], ◌∷◌, ◌++◌,
  codes, replicate, length, if◌then◌else◌,
}
use v6space.Core.Address.{hex_decode}
use v6space.Core.Dial.Transport.{is_empty_text}
use v6space.Core.Dial.{Names}
use v6space.Core.Peers.{Peer}
use v6space.Core.Start.{World, address}
use v6space.Tun.{Device}
use v6space.Rest.Peers.Restart.{is_configured}
use v6space.Config.{NodeConfig, empty_config}
use v6space.Config.Defaults.{linux, system_defaults, Keys, generate_config}
use v6space.Config.Reading.{Formats}
use v6space.Cmd.Mesh.{RivArgs, replace_first}
use v6space.Cmd.Mesh.Lookups.{listens_at, is_member, is_given}
use v6space.Cmd.Mesh.Run.{
  Machine, Node, Outcome, panics, quiet, prints_version, prints_usage, prints_text, prints_config,
  runs, run, run_config, stop_node, StopStep, stops_multicast, stops_tun, stops_core, crashes,
}
use v6space.Base.{◌&&◌, ◌<◌, length-replicate, arith}
use v6space.Rest.Peers.{Saver, says_true}
use v6space.Rest.Nodeinfo.{put_nodeinfo, put_nodeinfo-too_long}
use v6space.Cmd.Mesh.Running.{IsSource, Serves, stop_node-none, run-core}

abbrev names : Names
names = record { is_ip = λ t. false; split_host = λ t. none }

abbrev machine : Machine
machine = record {
  world = record {
    names = names;
    parse = λ t. none;
    conn_made = true;
    links_made = true;
    describe = λ info privacy. some [];
    opens = λ kind u. none;
  };
  compile = λ t place. some 0;
  group = [];
  opens_group = true;
  maximum_mtu = 65535;
  conn_mtu = 65535;
  create = λ mtu. record { created = true; reported_mtu = some mtu; address_set = true };
  ip_text = λ a. codes "a";
  parses = λ t. true;
}

abbrev formats : Formats ℕ
formats = record {
  from_utf16 = λ t. some t;
  unmarshal = λ t. some 0;
  overlay_json = λ d c. some c;
  overlay_map = λ d c. some c;
  marshal = λ c. none;
}

abbrev json : NodeConfig → Option (List ℕ)
json c = none

abbrev autoconf : RivArgs
autoconf = record {
  genconf = false;
  useconf = false;
  normaliseconf = false;
  confjson = false;
  autoconf = true;
  ver = false;
  getaddr = false;
  getsnet = false;
  useconffile = [];
  logto = codes "stdout";
  loglevel = codes "info";
  httpaddress = codes "x";
  wwwroot = [];
}

abbrev keys : Keys
keys = (replicate 32 7, replicate 64 7)

abbrev generated : NodeConfig
generated = generate_config (system_defaults linux) keys

abbrev other : Node
other = record {
  core = record {
    secret = [];
    public = [];
    node = record {
      config = v6space.Core.Peers.no_config;
      links = [];
      stopped = false;
      timer = false;
      closed = [];
    };
    nodeinfo = v6space.Core.NodeInfo.init;
    listening = [];
    calls = [];
  };
  multicast = none;
  tun = v6space.Cmd.Mesh.Run.adapter empty_config;
  http = [];
  rest_server = false;
}

abbrev node_of : Outcome → Node
node_of (runs n) = n
node_of panics = other
node_of quiet = other
node_of prints_version = other
node_of prints_usage = other
node_of (prints_text t) = other
node_of (prints_config t) = other

abbrev silent_cfg : NodeConfig
silent_cfg = record generated {
  http_address = codes "none";
  if_name = codes "none";
  multicast_interfaces = [];
}

abbrev silent_node : Node
silent_node = node_of (run_config machine autoconf silent_cfg)

silent : run_config machine autoconf silent_cfg ≡ runs silent_node
unfolding run run_config v6space.Cmd.Mesh.Run.set_up v6space.Cmd.Mesh.Run.with_rest
    v6space.Cmd.Mesh.core_options v6space.Cmd.Mesh.listen_options hex_decode generate_config
    v6space.Config.Defaults.new_keys v6space.Core.Address.Prefix.hex_encode
    v6space.Cmd.Mesh.allowed_options v6space.Core.Start.new_core v6space.Core.NodeInfo.set_node_info
    v6space.Cmd.Mesh.multicast_options address v6space.Core.Address.get_prefix
    v6space.Core.Peers.add_peer_loop v6space.Core.Peers.apply_options
    v6space.Rest.Peers.interface_options v6space.Rest.Peers.map_options
    v6space.Core.Peers.apply_option v6space.Core.Address.addr_for_key v6space.Tun.start
    v6space.Base.bytes_eq v6space.Tun.setup
silent = refl

stop_node-none_example :
    stop_node silent_node ≡ stops_multicast ∷ stops_tun ∷ stops_core ∷ crashes ∷ []
stop_node-none_example = stop_node-none machine autoconf silent_cfg silent_node silent refl

abbrev node : Node
node = node_of (run formats json machine (system_defaults linux) keys none autoconf)

works : run formats json machine (system_defaults linux) keys none autoconf ≡ runs node
unfolding run run_config v6space.Cmd.Mesh.Run.set_up v6space.Cmd.Mesh.Run.with_rest
    v6space.Cmd.Mesh.core_options v6space.Cmd.Mesh.listen_options hex_decode generate_config
    v6space.Config.Defaults.new_keys v6space.Core.Address.Prefix.hex_encode
    v6space.Cmd.Mesh.allowed_options v6space.Core.Start.new_core v6space.Core.NodeInfo.set_node_info
    v6space.Cmd.Mesh.multicast_options address v6space.Core.Address.get_prefix
    v6space.Core.Peers.add_peer_loop v6space.Core.Peers.apply_options
    v6space.Rest.Peers.interface_options v6space.Rest.Peers.map_options
    v6space.Core.Peers.apply_option v6space.Core.Address.addr_for_key v6space.Tun.start
    v6space.Base.bytes_eq v6space.Tun.setup system_defaults
works = refl

abbrev peer : Peer
peer = record { uri = codes "p"; source_interface = [] }

run-core_example :
    (cfg : NodeConfig) × (addr : List ℕ) × IsSource formats
      (system_defaults linux)
      keys
      none
      autoconf
      cfg
    × (hex_decode cfg.private_key ≡ some node.core.secret)
    × (length node.core.secret ≡ 64)
    × (listens_at (codes "l") node.core.node.config ≡ is_member (codes "l") cfg.listen)
    × (is_configured node.core.node.config peer ≡ is_given peer cfg)
    × (address node.core ≡ some addr)
    × (((is_empty_text cfg.http_address ≡ true)
          × (node.http
              ≡ replace_first (codes "<tun>") (b'[' ∷ codes "a" ++ b']' ∷ []) autoconf.httpaddress))
        ⊎ ((is_empty_text cfg.http_address ≡ false)
            × (node.http
                ≡ replace_first (codes "<tun>") (b'[' ∷ codes "a" ++ b']' ∷ []) cfg.http_address)))
    × ((node.rest_server ≡ true) ↔ Serves machine.parses node.http)
run-core_example =
    run-core formats json machine (system_defaults linux) keys none autoconf node (codes "l") peer
      works

abbrev size : ℕ
size = 16385

abbrev long_json : List ℕ
long_json = replicate size 0

abbrev telling : Machine
telling = record machine {
  world = record machine.world { describe = λ info privacy. some long_json };
}

abbrev saver : Saver
saver = record { has_file = true; headers = codes "true" ∷ []; writable = true }

long : 16384 < length long_json
long = ap-size (length-replicate {A = ℕ} size 0)
  where
    ap-size : length long_json ≡ size → 16384 < length long_json
    ap-size e = omega (arith, e)

saves : (saver.has_file && says_true saver.headers && saver.writable) ≡ true
unfolding says_true v6space.Base.bytes_eq
saves = refl

put_nodeinfo-too_long_example :
    let r =
      put_nodeinfo
        (λ i. some long_json)
        saver
        (some 7)
        v6space.Core.NodeInfo.init
        (some generated) in
    (r.status ≡ 204)
    × (r.nodeinfo ≡ v6space.Core.NodeInfo.init)
    × (saved : NodeConfig) × (r.file ≡ some saved)
    × (v6space.Cmd.Mesh.Run.set_up telling autoconf saved ≡ panics)
put_nodeinfo-too_long_example =
    put_nodeinfo-too_long telling autoconf saver 7 v6space.Core.NodeInfo.init generated long_json
      saves refl long
