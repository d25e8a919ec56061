-- ===== src/Cmd/Mesh/Run.antt =====
-- run of cmd/mesh/main.go: the flags, the set-up of a node and what a signal does.
use v6space.Base.{
  ℕ, Bool, true, false, not, ◌&&◌, ◌||◌, Option, none, some, List, [], ◌∷◌, drop, length, ◌==◌,
  if◌then◌else◌, codes,
}
use v6space.Core.Address.{hex_decode, get_prefix, addr_for_key, subnet_for_key}
use v6space.Core.Dial.Transport.{is_empty_text}
use v6space.Core.Start.{World, Core, NewCore, refused, made, new_core, address, with_prefix}
use v6space.Multicast.{Multicast, Effect, MulticastInterface}
use v6space.Multicast.Options.{multicast_interface, new_multicast}
use v6space.Tun.{
  Device, TunAdapter, Started, already_started, disabled, running, setup_failed, start,
}
use v6space.Config.{NodeConfig}
use v6space.Config.Defaults.{Keys, PlatformDefaultParameters, generate_config}
use v6space.Config.Reading.{Formats, read_config}
use v6space.Cmd.Mesh.{RivArgs, core_options, multicast_options, http_address, new_rest_server}

-- What the set-up has of the system.
pub record Machine : Type 0 where
  pub world : World
  pub compile : List ℕ → ℕ → Option ℕ
  pub group : List ℕ
  pub opens_group : Bool
  pub maximum_mtu : ℕ
  pub conn_mtu : ℕ
  pub create : ℕ → Device
  pub ip_text : List ℕ → List ℕ
  pub parses : List ℕ → Bool

-- node; no control server is the nil pointer.
pub record Node : Type 0 where
  pub core : Core
  pub multicast : Option (Multicast × List Effect)
  pub tun : TunAdapter
  pub http : List ℕ
  pub rest_server : Bool

pub data Outcome : Type 0 where
  prints_version prints_usage panics quiet : Outcome
  prints_text : List ℕ → Outcome
  prints_config : Option (List ℕ) → Outcome
  runs : Node → Outcome

-- The TUN adapter before it starts.
abbrev pub adapter : NodeConfig → TunAdapter
adapter cfg = record {
  name = cfg.if_name;
  config_mtu = cfg.if_mtu;
  mtu = 0;
  rwc_mtu = 0;
  is_open = false;
  is_enabled = false;
}

-- The set-up of the control server, the last of the four.
unfoldable pub with_rest :
    Machine
    → RivArgs
    → NodeConfig
    → Core
    → Option (Multicast × List Effect)
    → List ℕ
    → TunAdapter
    → Outcome
with_rest m args cfg c mc addr tun =
    let http = http_address args cfg (m.ip_text addr) in
    runs (record {
      core = c;
      multicast = mc;
      tun = tun;
      http = http;
      rest_server = new_rest_server m.parses http;
    })

abbrev pub with_tun :
    Machine
    → RivArgs
    → NodeConfig
    → Core
    → Option (Multicast × List Effect)
    → List ℕ
    → TunAdapter × Started
    → Outcome
with_tun m args cfg c mc addr (tun, already_started) = panics
with_tun m args cfg c mc addr (tun, setup_failed e) = panics
with_tun m args cfg c mc addr (tun, disabled) = with_rest m args cfg c mc addr tun
with_tun m args cfg c mc addr (tun, running) = with_rest m args cfg c mc addr tun

-- Without an address the key store, which the TUN adapter makes, panics.
abbrev pub with_address :
    Machine
    → RivArgs
    → NodeConfig
    → Core
    → Option (Multicast × List Effect)
    → Option (List ℕ)
    → Outcome
with_address m args cfg c mc none = panics
with_address m args cfg c mc (some addr) =
    with_tun m args cfg c mc addr (start m.maximum_mtu m.conn_mtu m.create (adapter cfg))

abbrev pub with_multicast :
    Machine → RivArgs → NodeConfig → Core → Option (List MulticastInterface) → Outcome
with_multicast m args cfg c none = panics
with_multicast m args cfg c (some is) =
    with_address m args cfg c
      (new_multicast m.group m.opens_group (v6space.Base.map multicast_interface is)).1 (address c)

abbrev pub with_core : Machine → RivArgs → NodeConfig → NewCore → Outcome
with_core m args cfg (refused e) = panics
with_core m args cfg (made c) =
    with_multicast m args cfg c (multicast_options m.compile cfg.multicast_interfaces)

abbrev pub with_options :
    Machine
    → RivArgs
    → NodeConfig
    → Option (List ℕ)
    → Option (List v6space.Core.Peers.SetupOption)
    → Outcome
with_options m args cfg none os = panics
with_options m args cfg (some sk) none = panics
with_options m args cfg (some sk) (some os) = with_core m args cfg (new_core m.world sk os)

-- The set-up of a node.
unfoldable pub set_up : Machine → RivArgs → NodeConfig → Outcome
set_up m args cfg = with_options m args cfg (hex_decode cfg.private_key) (core_options cfg)

-- `c.config.networkdomain.Prefix` of GetPrefix, over the pointer `c`: `none` is the panic of nil.
abbrev pub prefix_of : Option Core → Option (List ℕ)
prefix_of none = none
prefix_of (some c) = some c.node.config.prefix

abbrev pub read_for_key :
    (ℕ → List ℕ → Option (List ℕ)) → List ℕ → Option (List ℕ) → Option (List ℕ)
read_for_key f key none = none
read_for_key f key (some p) = with_prefix f key (get_prefix p)

-- `n.core.AddrForKey(key)` and `n.core.SubnetForKey(key)` over the pointer `n.core`: the length of
-- the key is looked at first, and a wrong one gives nil, which the caller slices; then GetPrefix is
-- called. `none` is a panic.
abbrev pub node_for_key : (ℕ → List ℕ → Option (List ℕ)) → Option Core → List ℕ → Option (List ℕ)
node_for_key f core key = if length key == 32 then read_for_key f key (prefix_of core) else none

abbrev pub printed : Option (List ℕ) → Outcome
printed none = panics
printed (some a) = prints_text a

-- The flags for the address and the subnet: the second half of the private key is the public key.
abbrev pub print_for_key : (ℕ → List ℕ → Option (List ℕ)) → Option Core → Option (List ℕ) → Outcome
print_for_key f core none = quiet
print_for_key f core (some sk) = printed (node_for_key f core (drop 32 sk))

-- run from the configuration on.
unfoldable pub run_config : Machine → RivArgs → NodeConfig → Outcome
run_config m args cfg =
    let core : Option Core = none in
    if args.getaddr
    then print_for_key addr_for_key core (hex_decode cfg.private_key)
    else if args.getsnet
    then print_for_key subnet_for_key core (hex_decode cfg.private_key)
    else set_up m args cfg

module _ {Dat : Type 0} (f : Formats Dat) (json : NodeConfig → Option (List ℕ)) where
  -- The text of a configuration.
  abbrev pub text_of : RivArgs → NodeConfig → Option (List ℕ)
  text_of args cfg = if args.confjson then json cfg else f.marshal cfg

  abbrev pub normalised : Option (List ℕ) → Outcome
  normalised none = panics
  normalised (some bs) = prints_config (some bs)

  abbrev pub run_read : Machine → RivArgs → Option NodeConfig → Outcome
  run_read m args none = panics
  run_read m args (some cfg) =
      if args.normaliseconf then normalised (text_of args cfg) else run_config m args cfg

  -- run up to the wait for a signal, over the keys that are generated and what the file or the
  -- standard input gives. A panic is caught if a log file is open, with the same end.
  unfoldable pub run :
      Machine → PlatformDefaultParameters → Keys → Option (List ℕ) → RivArgs → Outcome
  run m defaults keys input args =
      if args.ver
      then prints_version
      else if args.autoconf
      then run_config m args (generate_config defaults keys)
      else if not (is_empty_text args.useconffile) || args.useconf
      then run_read m args (read_config f defaults keys input)
      else if args.genconf
      then prints_config (text_of args (generate_config defaults keys))
      else prints_usage

pub data StopStep : Type 0 where
  stops_multicast stops_tun stops_core stops_rest crashes : StopStep

-- The end of run, after the signal: Shutdown reads a server that is not there.
unfoldable pub stop_node : Node → List StopStep
stop_node n =
    stops_multicast
    ∷ stops_tun
    ∷ stops_core
    ∷ (if n.rest_server then stops_rest ∷ [] else crashes ∷ [])
