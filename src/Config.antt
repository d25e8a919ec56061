-- ===== src/Config.antt =====
-- src/config/config.go and src/defaults: the configuration of a node, the defaults of each system,
-- and reading and writing the file. Keys come from ed25519; HJSON, JSON, the decoding of UTF-16 and
-- the files are parameters.
pub mod Defaults
pub mod Reading
use v6space.Base.{ℕ, Bool, Option, none, some, List, [], ◌∷◌}

pub record MulticastInterfaceConfig : Type 0 where
  pub regex : List ℕ
  pub beacon : Bool
  pub listen : Bool
  pub port : ℕ
  pub priority : ℕ

-- NodeConfig; NodeInfo and FeaturesConfig, which are any JSON, are numbers, and NetworkDomain is
-- its one field.
pub record NodeConfig : Type 0 where
  pub peers : List (List ℕ)
  pub interface_peers : List (List ℕ × List (List ℕ))
  pub listen : List (List ℕ)
  pub admin_listen : List ℕ
  pub http_address : List ℕ
  pub www_root : List ℕ
  pub multicast_interfaces : List MulticastInterfaceConfig
  pub allowed_public_keys : List (List ℕ)
  pub public_key : List ℕ
  pub private_key : List ℕ
  pub if_name : List ℕ
  pub if_mtu : ℕ
  pub node_info_privacy : Bool
  pub node_info : ℕ
  pub network_domain : List ℕ
  pub public_peers_url : List ℕ
  pub features_config : ℕ

-- new(NodeConfig); 0 stands for the nil map.
abbrev pub empty_config : NodeConfig
empty_config = record {
  peers = [];
  interface_peers = [];
  listen = [];
  admin_listen = [];
  http_address = [];
  www_root = [];
  multicast_interfaces = [];
  allowed_public_keys = [];
  public_key = [];
  private_key = [];
  if_name = [];
  if_mtu = 0;
  node_info_privacy = Bool.false;
  node_info = 0;
  network_domain = [];
  public_peers_url = [];
  features_config = 0;
}
