-- ===== src/Cmd/Mesh.antt =====
-- cmd/mesh/main.go: what the program makes of its arguments and of the configuration. The system,
-- ed25519, regular expressions and the libraries around the configuration are parameters.
pub mod Options
pub mod Lookups
pub mod Keeps
pub mod Run
pub mod Ran
pub mod Running
pub mod Examples
use v6space.Base.{
  ℕ, ◌+◌, ◌%◌, Bool, true, false, not, ◌&&◌, ◌||◌, Option, none, some, List, [], ◌∷◌, ◌++◌, map,
  drop, length, ◌==◌, leb, if◌then◌else◌, codes, bytes_eq,
}
use v6space.Core.Address.{hex_decode}
use v6space.Core.Dial.Transport.{is_empty_text}
use v6space.Core.Peers.{
  Peer, SetupOption, peer_option, listen_address, node_info, node_info_privacy, network_domain,
  allowed_public_key,
}
use v6space.Core.Start.{World, Core, NewError, NewCore, refused, made, new_core, address}
use v6space.Multicast.{MulticastInterface}
use v6space.Multicast.Options.{multicast_interface}
use v6space.Rest.{starts_with}
use v6space.Rest.Peers.{interface_options, map_options}
use v6space.Config.{MulticastInterfaceConfig, NodeConfig}
use v6space.Config.Defaults.{Keys, PlatformDefaultParameters, generate_config}
use v6space.Config.Reading.{Formats, read_config}

-- rivArgs.
pub record RivArgs : Type 0 where
  pub genconf : Bool
  pub useconf : Bool
  pub normaliseconf : Bool
  pub confjson : Bool
  pub autoconf : Bool
  pub ver : Bool
  pub getaddr : Bool
  pub getsnet : Bool
  pub useconffile : List ℕ
  pub logto : List ℕ
  pub loglevel : List ℕ
  pub httpaddress : List ℕ
  pub wwwroot : List ℕ

-- strings.ToLower on ASCII.
abbrev pub lower : ℕ → ℕ
lower c = if leb b'A' c && leb c b'Z' then c + 32 else c

abbrev pub levels : List (List ℕ)
levels = codes "error" ∷ codes "warn" ∷ codes "info" ∷ codes "debug" ∷ codes "trace" ∷ []

unfoldable pub contains : List ℕ → List (List ℕ) → Bool
contains level [] = false
contains level (l ∷ ls) = bytes_eq l level || contains level ls

-- The loop that enables levels, up to the one that is asked for.
unfoldable pub enable_up_to : List ℕ → List (List ℕ) → List (List ℕ)
enable_up_to level [] = []
enable_up_to level (l ∷ ls) =
    let rest = enable_up_to level ls in if bytes_eq l level then l ∷ [] else l ∷ rest

-- setLogLevel: the levels that are enabled.
unfoldable pub set_log_level : List ℕ → List (List ℕ)
set_log_level loglevel =
    let level = map lower loglevel in
    enable_up_to (if contains level levels then level else codes "info") levels

-- The options for core.New; `none` is the panic on a key that is no hexadecimal text.
unfoldable pub listen_options : List (List ℕ) → List SetupOption
listen_options [] = []
listen_options (a ∷ more) = listen_address a ∷ listen_options more

abbrev pub cons_allowed : List ℕ → Option (List SetupOption) → Option (List SetupOption)
cons_allowed k none = none
cons_allowed k (some os) = some (allowed_public_key k ∷ os)

unfoldable pub allowed_options : List (List ℕ) → Option (List SetupOption)
allowed_options [] = some []
allowed_options (text ∷ texts) = elim (hex_decode text) [
  | none ↦ none
  | some k ↦ cons_allowed k (allowed_options texts)
]

-- The options before the listeners.
abbrev pub first_options : NodeConfig → List SetupOption
first_options cfg =
    node_info cfg.node_info
    ∷ node_info_privacy cfg.node_info_privacy
    ∷ network_domain cfg.network_domain
    ∷ []

abbrev pub peer_options : NodeConfig → List SetupOption
peer_options cfg = interface_options [] cfg.peers ++ map_options cfg.interface_peers

abbrev pub after : List SetupOption → Option (List SetupOption) → Option (List SetupOption)
after os none = none
after os (some ps) = some (os ++ ps)

unfoldable pub core_options : NodeConfig → Option (List SetupOption)
core_options cfg =
    after (first_options cfg ++ listen_options cfg.listen ++ peer_options cfg)
      (allowed_options cfg.allowed_public_keys)

-- The configured interfaces of the multicast module, over the regular expression that is made for
-- the text at a place; `none` is the panic on a text that is none.
abbrev pub cons_interface :
    MulticastInterfaceConfig
    → Option ℕ
    → Option (List MulticastInterface)
    → Option (List MulticastInterface)
cons_interface c none is = none
cons_interface c (some r) none = none
cons_interface c (some r) (some is) = some (
    record {
      regex = r;
      beacon = c.beacon;
      listen = c.listen;
      port = c.port;
      priority = c.priority % 256;
    }
    ∷ is)

unfoldable pub multicast_options :
    (List ℕ → ℕ → Option ℕ) → List MulticastInterfaceConfig → Option (List MulticastInterface)
multicast_options compile [] = some []
multicast_options compile (c ∷ cs) =
    cons_interface c (compile c.regex (length cs)) (multicast_options compile cs)

-- strings.Replace of the first place, of a text that is not empty.
unfoldable pub replace_first : List ℕ → List ℕ → List ℕ → List ℕ
replace_first old new [] = []
replace_first old new (c ∷ cs) =
    let rest = replace_first old new cs in
    if starts_with old (c ∷ cs) then new ++ drop (length old) (c ∷ cs) else c ∷ rest

abbrev pub or_else : List ℕ → List ℕ → List ℕ
or_else t default = if is_empty_text t then default else t

-- What the control server listens on, over the text of the node's address.
unfoldable pub http_address : RivArgs → NodeConfig → List ℕ → List ℕ
http_address args cfg addr =
    replace_first (codes "<tun>") (b'[' ∷ addr ++ b']' ∷ [])
      (or_else cfg.http_address args.httpaddress)

-- The first checks of NewRestServer; false is an error and no server.
unfoldable pub new_rest_server : (List ℕ → Bool) → List ℕ → Bool
new_rest_server parses addr =
    if bytes_eq addr (codes "none") || is_empty_text addr then false else parses addr
