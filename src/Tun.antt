-- ===== src/Tun.antt =====
-- src/tun: the adapter between the TUN device and the key store (tun.go, iface.go, and setup of
-- tun_linux.go). The device is a parameter.
pub mod Start
pub mod Loops
pub mod Darwin
pub mod Bsd
pub mod Windows
pub mod Examples
use v6space.Base.{
  ℕ, ◌<◌, Bool, true, false, ◌||◌, Option, none, some, List, [], ◌∷◌, ◌++◌, length, ltb, leb,
  if◌then◌else◌, bytes_eq,
}
use v6space.Ipv6rwc.Store.{Env, Store, Effect}
use v6space.Ipv6rwc.Packet.{
  Written, write_pc, Outcome, Marshal, Incoming, Returned, waiting, read_error, delivered, read_pc,
  max_mtu, set_mtu,
}

-- What creating a device with an MTU gives: whether it exists, the MTU that it reports, and
-- whether its address could be set.
pub record Device : Type 0 where
  pub created : Bool
  pub reported_mtu : Option ℕ
  pub address_set : Bool

-- TunAdapter, with the MTU of its key store.
pub record TunAdapter : Type 0 where
  pub name : List ℕ
  pub config_mtu : ℕ
  pub mtu : ℕ
  pub rwc_mtu : ℕ
  pub is_open : Bool
  pub is_enabled : Bool

pub data SetupFault : Type 0 where
  panics fails : SetupFault

pub data Started : Type 0 where
  already_started disabled running : Started
  setup_failed : SetupFault → Started

-- getSupportedMTU, over MaximumMTU.
unfoldable pub get_supported_mtu : ℕ → ℕ → ℕ
get_supported_mtu maximum mtu =
    if ltb mtu 1280 then 1280 else if ltb maximum mtu then maximum else mtu

-- The MTU of the adapter, from what the device reports.
abbrev pub device_mtu : ℕ → Option ℕ → ℕ
device_mtu maximum none = 0
device_mtu maximum (some m) = get_supported_mtu maximum m

-- setup of tun_linux.go: the adapter after it, and whether it panics or fails.
unfoldable pub setup : ℕ → (ℕ → Device) → ℕ → TunAdapter → TunAdapter × Option SetupFault
setup maximum create mtu tun =
    let device = create mtu in
    let made = record tun { mtu = device_mtu maximum device.reported_mtu } in
    if device.created
    then (if device.address_set then (made, none) else (made, some fails))
    else (tun, some panics)

abbrev pub none_name : List ℕ
none_name = b'n' ∷ b'o' ∷ b'n' ∷ b'e' ∷ []

abbrev pub dummy_name : List ℕ
dummy_name = b'd' ∷ b'u' ∷ b'm' ∷ b'm' ∷ b'y' ∷ []

-- The last part of _start, after setup.
abbrev pub opened : ℕ → ℕ → TunAdapter × Option SetupFault → TunAdapter × Started
opened maximum conn_mtu (tun, some e) = (tun, setup_failed e)
opened maximum conn_mtu (tun, none) = (
  record tun {
    rwc_mtu = set_mtu (max_mtu conn_mtu) (get_supported_mtu maximum tun.mtu);
    is_open = true;
    is_enabled = true;
  },
  running,
)

-- _start.
unfoldable pub start : ℕ → ℕ → (ℕ → Device) → TunAdapter → TunAdapter × Started
start maximum conn_mtu create tun =
    let mtu = if ltb (max_mtu conn_mtu) tun.config_mtu then max_mtu conn_mtu else tun.config_mtu in
    if tun.is_open
    then (tun, already_started)
    else if bytes_eq tun.name none_name || bytes_eq tun.name dummy_name
    then (record tun { is_enabled = false }, disabled)
    else opened maximum conn_mtu (setup maximum create mtu tun)

-- _stop.
abbrev pub stop : TunAdapter → TunAdapter
stop tun = record tun { is_open = false }

-- TUN_OFFSET_BYTES.
abbrev pub tun_offset_bytes : ℕ
tun_offset_bytes = 4

pub record Reading : Type 0 where
  pub store : Store
  pub effects : List Effect
  pub results : List Written

-- The loop of read over what the device gives, `none` for an error, with the result of each Write.
unfoldable pub read : Env → List (Option (List ℕ)) → Store → Reading
read env [] st = record { store = st; effects = []; results = [] }
read env (none ∷ events) st = record { store = st; effects = []; results = [] }
read env (some bs ∷ events) st =
    let w = write_pc env bs st in
    let more = read env events w.store in
    if leb (length bs) tun_offset_bytes
    then record { store = st; effects = []; results = [] }
    else record {
      store = more.store;
      effects = w.effects ++ more.effects;
      results = w.result ∷ more.results;
    }

-- One round of write: the bytes that go to the device.
unfoldable pub write_round : Bool → Returned → Option (List ℕ)
write_round is_enabled waiting = none
write_round is_enabled (read_error n) = none
write_round is_enabled (delivered out) = if is_enabled then some out else none
