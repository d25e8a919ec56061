-- ===== src/Multicast.antt =====
-- src/multicast/multicast.go: the discovery of peers on the same network by beacons.
-- The system's interfaces, the regular expressions, the opening of listeners and the resolution of
-- addresses are parameters; maps are lists in the order in which they are gone through. Times are
-- seconds.
pub mod Receive
pub mod Options
pub mod Beacon
pub mod Interfaces
pub mod Listeners
pub mod Announce
pub mod Examples
use v6space.Base.{
  ℕ, zero, suc, ◌+◌, ◌-◌, ◌*◌, ◌/◌, ◌%◌, Bool, true, false, not, ◌&&◌, ◌||◌, Option, none, some,
  List, [], ◌∷◌, ◌++◌, length, get_or, take, drop, ◌==◌, ltb, leb, if◌then◌else◌, bytes_eq, Eq,
  nat_Eq, lookup, insert, erase,
}
use v6space.Core.Address.{key_size}
use v6space.Core.Address.Prefix.{hex_encode}
use v6space.Core.Net.{to4, is_some, is_link_local, is_link_local_multicast, ip_equal}
use v6space.Core.Net.Decimal.{print_uint8}
use v6space.Core.Dial.{Url, tls_name}
use v6space.Core.Dial.Transport.{TcpAddr, Text}

-- MulticastInterface, with the number of its regular expression.
pub record MulticastInterface : Type 0 where
  pub regex : ℕ
  pub beacon : Bool
  pub listen : Bool
  pub port : ℕ
  pub priority : ℕ

-- net.Interface, with its flags and what asking for its addresses gives; an address is `none`
-- where it does not parse.
pub record Interface : Type 0 where
  pub index : ℕ
  pub name : List ℕ
  pub up : Bool
  pub multicast : Bool
  pub point_to_point : Bool
  pub system_addrs : Option (List (Option (List ℕ)))

-- interfaceInfo.
pub record InterfaceInfo : Type 0 where
  pub iface : Interface
  pub addrs : List (Option (List ℕ))
  pub beacon : Bool
  pub listen : Bool
  pub port : ℕ
  pub priority : ℕ

-- listenerInfo, with the number of the listener and the address that it resolves to.
pub record ListenerInfo : Type 0 where
  pub listener : ℕ
  pub addr : Option TcpAddr
  pub time : ℕ
  pub interval : ℕ

abbrev pub Matches : Type 0
Matches = ℕ → List ℕ → Bool

-- The configuration that an interface takes: the first that is enabled and matches its name.
unfoldable pub config_for : Matches → List ℕ → List MulticastInterface → Option MulticastInterface
config_for matches name [] = none
config_for matches name (c ∷ cs) =
    if (c.beacon || c.listen) && matches c.regex name then some c else config_for matches name cs

abbrev pub usable : Interface → Bool
usable i = i.up && i.multicast && not i.point_to_point

abbrev pub info_of : Interface → MulticastInterface → InterfaceInfo
info_of i c = record {
  iface = i;
  addrs = [];
  beacon = c.beacon;
  listen = c.listen;
  port = c.port;
  priority = 0;
}

abbrev pub add_allowed :
    Interface → Option MulticastInterface → List (ℕ × InterfaceInfo) → List (ℕ × InterfaceInfo)
add_allowed i none m = m
add_allowed i (some c) m = insert i.index (info_of i c) m

-- _getAllowedInterfaces, the loop.
unfoldable pub allowed_interfaces :
    Matches
    → List MulticastInterface
    → List Interface
    → List (ℕ × InterfaceInfo)
    → List (ℕ × InterfaceInfo)
allowed_interfaces matches configs [] m = m
allowed_interfaces matches configs (i ∷ is) m =
    let next = if usable i then add_allowed i (config_for matches i.name configs) m else m in
    allowed_interfaces matches configs is next

-- _updateInterfaces, the loop: interfaces without addresses go.
unfoldable pub with_addrs : List (ℕ × InterfaceInfo) → List (ℕ × InterfaceInfo)
with_addrs [] = []
with_addrs ((k, info) ∷ m) = elim info.iface.system_addrs [
  | none ↦ with_addrs m
  | some addrs ↦ (k, record info { addrs = addrs }) ∷ with_addrs m
]

-- _updateInterfaces, over what asking the system for its interfaces gives.
unfoldable pub update_interfaces :
    Matches → List MulticastInterface → Option (List Interface) → List (ℕ × InterfaceInfo)
update_interfaces matches configs none = []
update_interfaces matches configs (some is) = with_addrs (allowed_interfaces matches configs is [])

pub data Effect : Type 0 where
  closes : ℕ → Effect
  joins : List ℕ → Effect
  sends : List ℕ → List ℕ → Effect
  -- The goroutine of listen, the first round of _announce, the timer for the next round, and the
  -- closing of the group's socket.
  starts_listen starts_announce sets_timer closes_socket : Effect

-- Whether the interface has the listener's address.
unfoldable pub has_addr : List ℕ → List (Option (List ℕ)) → Bool
has_addr ip [] = false
has_addr ip (none ∷ addrs) = has_addr ip addrs
has_addr ip (some a ∷ addrs) = ip_equal a ip || has_addr ip addrs

-- Whether _announce keeps a listener.
abbrev pub keeps_addr : Option TcpAddr → List (Option (List ℕ)) → Bool
keeps_addr none addrs = false
keeps_addr (some a) addrs = has_addr a.ip addrs

unfoldable pub keeps : List (ℕ × InterfaceInfo) → ℕ → ListenerInfo → Bool
keeps interfaces k l = elim (lookup k interfaces) [
  | none ↦ false
  | some info ↦ keeps_addr l.addr info.addrs
]

-- The first loop of _announce, over the listeners.
unfoldable pub stop_stale :
    List (ℕ × InterfaceInfo) → List (ℕ × ListenerInfo) → List (ℕ × ListenerInfo) × List Effect
stop_stale interfaces [] = ([], [])
stop_stale interfaces ((k, l) ∷ m) =
    let rest = stop_stale interfaces m in
    if keeps interfaces k l then ((k, l) ∷ rest.0, rest.1) else (rest.0, closes l.listener ∷ rest.1)

-- binary.BigEndian.PutUint16.
abbrev pub put_uint16 : ℕ → List ℕ
put_uint16 n = n / 256 % 256 ∷ n % 256 ∷ []

-- The beacon: the key, the listener's address and its port.
unfoldable pub make_beacon : List ℕ → TcpAddr → List ℕ
make_beacon key a = key ++ (a.ip ++ put_uint16 (a.port % 65536))

-- What _announce has of the node and of the system: the node's key, the time, and what listening on
-- an address, an interface and a port gives.
pub record Env : Type 0 where
  pub self_key : List ℕ
  pub now : ℕ
  pub opens : List ℕ → List ℕ → ℕ → Option (ℕ × Option TcpAddr)

abbrev pub Announced : Type 0
Announced = List (ℕ × ListenerInfo) × List Effect

-- The beacon of a listener whose address resolves.
abbrev pub beacon_of : Env → List ℕ → Option TcpAddr → List Effect
beacon_of env name none = []
beacon_of env name (some a) = sends (make_beacon env.self_key a) name ∷ []

abbrev pub longer : ListenerInfo → ListenerInfo
longer l = record l { interval = if ltb l.interval 15 then l.interval + 1 else l.interval }

-- The end of the body for one address: `again` is what the loop does with the next address.
unfoldable pub announce_listener :
    Env → InterfaceInfo → ListenerInfo → List (ℕ × ListenerInfo) → Announced → Announced
announce_listener env info l m again =
    if ltb (env.now - l.time) l.interval
    then again
    else (insert info.iface.index (longer l) m, beacon_of env info.iface.name l.addr)

abbrev pub prepend : List Effect → Announced → Announced
prepend es r = (r.0, es ++ r.1)

abbrev pub new_listener : Env → Option (ℕ × Option TcpAddr) → Option ListenerInfo
new_listener env none = none
new_listener env (some (id, a)) =
    some (record { listener = id; addr = a; time = env.now; interval = 0 })

-- The listener that was opened for an address, and the end of the body for it.
unfoldable pub announce_opened :
    Env
    → InterfaceInfo
    → (List (ℕ × ListenerInfo) → Announced)
    → Option ListenerInfo
    → List (ℕ × ListenerInfo)
    → Announced
announce_opened env info again none m = again m
announce_opened env info again (some l) m =
    let opened = insert info.iface.index l m in announce_listener env info l opened (again opened)

-- The body for an address from the search for the interface's listener on.
unfoldable pub announce_at :
    Env
    → InterfaceInfo
    → List ℕ
    → (List (ℕ × ListenerInfo) → Announced)
    → Option ListenerInfo
    → List (ℕ × ListenerInfo)
    → Announced
announce_at env info ip again (some l) m = announce_listener env info l m (again m)
announce_at env info ip again none m =
    announce_opened env info again (new_listener env (env.opens ip info.iface.name info.port)) m

abbrev pub is_passed_over : List ℕ → Bool
is_passed_over ip = is_some (to4 ip) || not (is_link_local ip)

abbrev pub joined : InterfaceInfo → List Effect
joined info = if info.listen then joins info.iface.name ∷ [] else []

-- The second loop of _announce for one interface, over its addresses.
unfoldable pub announce_on :
    Env → InterfaceInfo → List (Option (List ℕ)) → List (ℕ × ListenerInfo) → Announced
announce_on env info [] m = (m, [])
announce_on env info (none ∷ addrs) m = announce_on env info addrs m
announce_on env info (some ip ∷ addrs) m =
    let again = λ (t : List (ℕ × ListenerInfo)). announce_on env info addrs t in
    if is_passed_over ip
    then again m
    else if not info.beacon
    then (m, joined info)
    else prepend (joined info) (announce_at env info ip again (lookup info.iface.index m) m)

unfoldable pub announce_all : Env → List (ℕ × InterfaceInfo) → List (ℕ × ListenerInfo) → Announced
announce_all env [] m = (m, [])
announce_all env ((k, info) ∷ is) m =
    let one = announce_on env info info.addrs m in
    let rest = announce_all env is one.0 in (rest.0, one.1 ++ rest.1)

pub record Multicast : Type 0 where
  pub is_open : Bool
  pub sock : Bool
  pub interfaces : List (ℕ × InterfaceInfo)
  pub listeners : List (ℕ × ListenerInfo)

-- _announce; the group's address is taken to resolve.
unfoldable pub announce :
    Matches
    → List MulticastInterface
    → Option (List Interface)
    → Env
    → Multicast
    → Multicast × List Effect
announce matches configs system env m =
    if not m.is_open
    then (m, [])
    else (let interfaces = update_interfaces matches configs system in
        let stopped = stop_stale interfaces m.listeners in
        let sent = announce_all env interfaces stopped.0 in
        (
          record m { interfaces = interfaces; listeners = sent.0 },
          stopped.1 ++ (sent.1 ++ sets_timer ∷ []),
        ))

-- _start, over whether the group's socket opens; `none` is an error.
unfoldable pub any_enabled : List MulticastInterface → Bool
any_enabled [] = false
any_enabled (c ∷ cs) = c.beacon || c.listen || any_enabled cs

unfoldable pub start : Bool → List MulticastInterface → Multicast → Option (Multicast × List Effect)
start opens configs m =
    if m.is_open
    then none
    else if not (any_enabled configs)
    then some (m, [])
    else if opens
    then some (record m { is_open = true; sock = true }, starts_listen ∷ starts_announce ∷ [])
    else none

-- _stop.
unfoldable pub stop : Multicast → Multicast × List Effect
stop m = (record m { is_open = false }, if m.sock then closes_socket ∷ [] else [])
