-- ===== src/Config/Defaults.antt =====
-- src/defaults/defaults.go and the files of the systems beside it: the defaults and GenerateConfig.
use v6space.Base.{ℕ, true, false, List, [], ◌∷◌, codes, if◌then◌else◌}
use v6space.Core.Address.Prefix.{hex_encode}
use v6space.Core.Dial.Transport.{is_empty_text}
use v6space.Config.{MulticastInterfaceConfig, NodeConfig, empty_config}

-- defaultParameters.
pub record DefaultParameters : Type 0 where
  pub default_http_address : List ℕ
  pub default_public_peers_url : List ℕ
  pub default_network_domain : List ℕ

-- Define.
abbrev pub define : DefaultParameters
define = record {
  default_http_address = codes "http://localhost:19019";
  default_public_peers_url = codes "https://map.rivchain.org/rest/peers.json";
  default_network_domain = codes "fc";
}

-- platformDefaultParameters.
pub record PlatformDefaultParameters : Type 0 where
  pub default_config_file : List ℕ
  pub default_multicast_interfaces : List MulticastInterfaceConfig
  pub maximum_if_mtu : ℕ
  pub default_if_mtu : ℕ
  pub default_if_name : List ℕ

pub data System : Type 0 where
  linux darwin freebsd openbsd windows other : System

-- A configured multicast interface that beacons and listens.
abbrev pub both : List ℕ → MulticastInterfaceConfig
both regex = record { regex = regex; beacon = true; listen = true; port = 0; priority = 0 }

abbrev pub platform :
    List ℕ → List MulticastInterfaceConfig → ℕ → List ℕ → PlatformDefaultParameters
platform file interfaces mtu name = record {
  default_config_file = file;
  default_multicast_interfaces = interfaces;
  maximum_if_mtu = mtu;
  default_if_mtu = mtu;
  default_if_name = name;
}

-- The getDefaults of each system.
abbrev pub linux_defaults : PlatformDefaultParameters
linux_defaults = platform (codes "/etc/mesh.conf") (both (codes ".*") ∷ []) 65535 (codes "auto")

abbrev pub darwin_defaults : PlatformDefaultParameters
darwin_defaults =
    platform (codes "/etc/mesh.conf") (both (codes "en.*") ∷ both (codes "bridge.*") ∷ []) 65535
      (codes "auto")

abbrev pub freebsd_defaults : PlatformDefaultParameters
freebsd_defaults =
    platform (codes "/usr/local/etc/mesh.conf") (both (codes ".*") ∷ []) 32767 (codes "/dev/tun0")

abbrev pub openbsd_defaults : PlatformDefaultParameters
openbsd_defaults = platform (codes "/etc/mesh.conf") (both (codes ".*") ∷ []) 16384 (codes "tun0")

abbrev pub windows_defaults : PlatformDefaultParameters
windows_defaults =
    platform (codes "C:\\ProgramData\\v6Space\\mesh.conf") (both (codes ".*") ∷ []) 65535
      (codes "v6Space")

abbrev pub other_defaults : PlatformDefaultParameters
other_defaults = platform (codes "/etc/mesh.conf") (both (codes ".*") ∷ []) 65535 (codes "none")

unfoldable pub system_defaults : System → PlatformDefaultParameters
system_defaults linux = linux_defaults
system_defaults darwin = darwin_defaults
system_defaults freebsd = freebsd_defaults
system_defaults openbsd = openbsd_defaults
system_defaults windows = windows_defaults
system_defaults other = other_defaults

-- GetDefaults, over the file that the build names.
unfoldable pub get_defaults : List ℕ → System → PlatformDefaultParameters
get_defaults default_config system =
    if is_empty_text default_config
    then system_defaults system
    else record (system_defaults system) { default_config_file = default_config }

-- A pair of keys that ed25519 generates, the public one first.
abbrev pub Keys : Type 0
Keys = List ℕ × List ℕ

-- NewKeys.
unfoldable pub new_keys : Keys → NodeConfig → NodeConfig
new_keys keys cfg = record cfg { public_key = hex_encode keys.0; private_key = hex_encode keys.1 }

-- GenerateConfig.
unfoldable pub generate_config : PlatformDefaultParameters → Keys → NodeConfig
generate_config defaults keys = record (new_keys keys empty_config) {
  listen = [];
  peers = [];
  interface_peers = [];
  allowed_public_keys = [];
  multicast_interfaces = defaults.default_multicast_interfaces;
  if_name = defaults.default_if_name;
  if_mtu = defaults.default_if_mtu;
  node_info_privacy = false;
  http_address = define.default_http_address;
  network_domain = define.default_network_domain;
  public_peers_url = define.default_public_peers_url;
}
