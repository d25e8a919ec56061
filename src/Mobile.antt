-- ===== src/Mobile.antt =====
-- contrib/mobile/mobile.go: the node as a phone's application drives it. JSON, the system and the
-- core are parameters as for the program.
pub mod Same
pub mod Stopping
pub mod Examples
use v6space.Base.{
  ℕ, Bool, true, false, Option, none, some, List, [], ◌∷◌, ◌++◌, map, length, take, ltb,
  if◌then◌else◌, codes,
}
use v6space.Core.Address.{hex_decode}
use v6space.Core.Peers.{SetupOption}
use v6space.Core.Start.{World, Core, NewCore, refused, made, new_core, address}
use v6space.Multicast.{Multicast, Effect, MulticastInterface}
use v6space.Multicast.Options.{multicast_interface, new_multicast}
use v6space.Ipv6rwc.Store.{Env, Store}
use v6space.Ipv6rwc.Packet.{
  Written, write_pc, Outcome, Marshal, Incoming, Returned, waiting, read_error, delivered, read_pc,
  max_mtu, set_mtu,
}
use v6space.Config.{NodeConfig, MulticastInterfaceConfig}
use v6space.Config.Defaults.{Keys, PlatformDefaultParameters, generate_config}
use v6space.Cmd.Mesh.{
  first_options, peer_options, after, allowed_options, multicast_options, new_rest_server,
}

-- What StartJSON has of the system: the core's world, regular expressions, the multicast group, the
-- MTU of the packet connection, and the parsing of a URL.
pub record Phone : Type 0 where
  pub world : World
  pub compile : List ℕ → ℕ → Option ℕ
  pub group : List ℕ
  pub opens_group : Bool
  pub conn_mtu : ℕ
  pub parses : List ℕ → Bool

-- Mesh, with the MTU of its key store; nothing is the nil pointer.
pub record Mesh : Type 0 where
  pub core : Option Core
  pub iprwc : Option ℕ
  pub config : Option NodeConfig
  pub multicast : Option (Option (Multicast × List Effect))
  pub rest_server : Bool

pub data Started : Type 0 where
  panics : Started
  json_error started : Mesh → Started

unfoldable pub mobile_options : NodeConfig → Option (List SetupOption)
mobile_options cfg =
    after (first_options cfg ++ peer_options cfg) (allowed_options cfg.allowed_public_keys)

-- The multicast module, which is set up if interfaces are configured.
abbrev pub multicast_of :
    Phone → List MulticastInterface → Option (Option (Multicast × List Effect))
multicast_of ph [] = none
multicast_of ph (i ∷ is) =
    some (new_multicast ph.group ph.opens_group (map multicast_interface (i ∷ is))).1

-- The end of StartJSON.
abbrev pub finished :
    Phone → NodeConfig → Core → Option (Option (Multicast × List Effect)) → Started
finished ph cfg c mc =
    let mtu = if ltb (max_mtu ph.conn_mtu) cfg.if_mtu then max_mtu ph.conn_mtu else cfg.if_mtu in
    started (record {
      core = some c;
      iprwc = some (set_mtu (max_mtu ph.conn_mtu) mtu);
      config = some cfg;
      multicast = mc;
      rest_server = new_rest_server ph.parses cfg.http_address;
    })

-- Without an address the key store panics.
abbrev pub with_address :
    Phone
    → NodeConfig
    → Core
    → Option (Option (Multicast × List Effect))
    → Option (List ℕ)
    → Started
with_address ph cfg c mc none = panics
with_address ph cfg c mc (some addr) = finished ph cfg c mc

-- The module stays what it was where no interface is configured.
abbrev pub or_old :
    Option (Option (Multicast × List Effect))
    → Option (Option (Multicast × List Effect))
    → Option (Option (Multicast × List Effect))
or_old none old = old
or_old (some mc) old = some mc

abbrev pub with_multicast :
    Phone → NodeConfig → Mesh → Core → Option (List MulticastInterface) → Started
with_multicast ph cfg m c none = panics
with_multicast ph cfg m c (some is) =
    with_address ph cfg c (or_old (multicast_of ph is) m.multicast) (address c)

abbrev pub with_core : Phone → NodeConfig → Mesh → NewCore → Started
with_core ph cfg m (refused e) = panics
with_core ph cfg m (made c) =
    with_multicast ph cfg m c (multicast_options ph.compile cfg.multicast_interfaces)

abbrev pub with_options :
    Phone → NodeConfig → Mesh → Option (List ℕ) → Option (List SetupOption) → Started
with_options ph cfg m none os = panics
with_options ph cfg m (some sk) none = panics
with_options ph cfg m (some sk) (some os) = with_core ph cfg m (new_core ph.world sk os)

-- A configuration that the decoder made nil is read all the same.
abbrev pub with_config : Phone → Mesh → Option NodeConfig → Started
with_config ph m none = panics
with_config ph m (some cfg) =
    with_options ph cfg m (hex_decode cfg.private_key) (mobile_options cfg)

-- StartJSON, over what the decoder lays over the generated configuration, `none` for nil, and
-- whether it reports no error.
unfoldable pub start_json :
    Phone
    → PlatformDefaultParameters
    → Keys
    → (NodeConfig → Option NodeConfig × Bool)
    → Mesh
    → Started
start_json ph defaults keys overlay m =
    let (cfg, ok) = overlay (generate_config defaults keys) in
    if ok then with_config ph m cfg else json_error (record m { config = cfg })

-- A length that may be negative.
pub data ℤ : Type 0 where
  pos negsuc : ℕ → ℤ

-- What Send and SendBuffer do: nothing, the panic of a slice, or Write.
pub data Sent : Type 0 where
  nothing crashes : Sent
  writes : Outcome Written → Sent

-- Send.
unfoldable pub send : Env → Mesh → List ℕ → Store → Sent
send env m p st = elim m.iprwc as (λ _. Sent) [
  | none ↦ nothing
  | some mtu ↦ writes (write_pc env p st)
]

-- SendBuffer.
abbrev pub send_slice : Env → List ℕ → ℤ → Store → Sent
send_slice env p (negsuc n) st = crashes
send_slice env p (pos n) st =
    if ltb (length p) n then nothing else writes (write_pc env (take n p) st)

unfoldable pub send_buffer : Env → Mesh → List ℕ → ℤ → Store → Sent
send_buffer env m p n st = elim m.iprwc as (λ _. Sent) [
  | none ↦ nothing
  | some mtu ↦ send_slice env p n st
]

-- RecvBuffer into a buffer of the given length; nothing without a key store.
unfoldable pub recv_buffer :
    Env → Marshal → Mesh → ℕ → List Incoming → Store → Option (Outcome Returned)
recv_buffer env marshal m room events st = elim m.iprwc as (λ _. Option (Outcome Returned)) [
  | none ↦ none
  | some mtu ↦ some (read_pc env marshal mtu room events st)
]

-- Recv.
unfoldable pub recv : Env → Marshal → Mesh → List Incoming → Store → Option (Outcome Returned)
recv env marshal m events st = recv_buffer env marshal m 65535 events st

pub data StopStep : Type 0 where
  stops_multicast stops_core stops_rest crash : StopStep

-- Stop: Multicast.Stop reports no error; a part that is not there crashes.
abbrev pub stop_rest : Mesh → Bool → List StopStep × Mesh
stop_rest m true =
    (stops_multicast ∷ stops_core ∷ stops_rest ∷ [], record m { rest_server = false })
stop_rest m false = (stops_multicast ∷ stops_core ∷ crash ∷ [], m)

abbrev pub stop_core : Mesh → Option Core → List StopStep × Mesh
stop_core m none = (stops_multicast ∷ crash ∷ [], m)
stop_core m (some c) = stop_rest m m.rest_server

abbrev pub stop_multicast : Mesh → Option (Option (Multicast × List Effect)) → List StopStep × Mesh
stop_multicast m none = (crash ∷ [], m)
stop_multicast m (some mc) = stop_core m m.core

unfoldable pub stop : Mesh → List StopStep × Mesh
stop m = stop_multicast m m.multicast

-- What GenerateConfigJSON marshals.
unfoldable pub generate_mobile_config : PlatformDefaultParameters → Keys → NodeConfig
generate_mobile_config defaults keys = record (generate_config defaults keys) {
  if_name = codes "none";
}
