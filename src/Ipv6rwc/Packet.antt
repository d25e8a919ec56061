-- ===== src/Ipv6rwc/Packet.antt =====
-- The packet paths of src/ipv6rwc/ipv6rwc.go: readPC, writePC and the MTU. The packets that the
-- core hands up are a list of events; the marshalling of ICMPv6 messages is a parameter.
pub mod Guards
pub mod Admission
pub mod Mtu
use v6space.Base.{
  ℕ, zero, suc, ◌-◌, min, bit_and, Bool, true, false, not, ◌&&◌, Option, none, some, List, [], ◌∷◌,
  ◌++◌, length, get_or, take, drop, replicate, ◌==◌, ltb, if◌then◌else◌, bytes_eq,
}
use v6space.Core.Address.{copy_into, is_valid_address, is_valid_subnet}
use v6space.Core.Proto.{mtu}
use v6space.Ipv6rwc.Icmpv6.{Message, create_icmpv6}
use v6space.Ipv6rwc.Store.{
  Env, Store, Effect, address_of, subnet_of, send_to_address, send_to_subnet, KeyInfo, Updated,
  update,
}

pub data Error : Type 0 where
  not_ipv6 : Error
  undersized : ℕ → Error
  bad_source : List ℕ → Error
  bad_destination : Error

-- `crash` is the index out of range of `bs[0]` on no bytes.
pub data Written : Type 0 where
  wrote : ℕ → Written
  failed : Error → Written
  crash : Written

pub record Outcome (R : Type 0) : Type 0 where
  pub store : Store
  pub effects : List Effect
  pub result : R

-- `bs[0]&0xf0 == 0x60`.
unfoldable pub is_ipv6 : List ℕ → Bool
is_ipv6 bs = bit_and (get_or bs 0 0) 0xf0 == 0x60

-- `copy(addr[:], bs[off:])` for an address and for a subnet.
abbrev pub address_at : ℕ → List ℕ → List ℕ
address_at off bs = copy_into (replicate 16 0) (drop off bs)

abbrev pub subnet_at : ℕ → List ℕ → List ℕ
subnet_at off bs = copy_into (replicate 8 0) (drop off bs)

-- `addr != k.address && subnet != k.subnet`, negated: the field at `off` names the owner of `key`.
unfoldable pub names : Env → List ℕ → ℕ → List ℕ → Bool
names env key off bs = not (
    not (bytes_eq (address_at off bs) (address_of env key))
    && not (bytes_eq (subnet_at off bs) (subnet_of env key)))

abbrev pub sent : ℕ → Store × List Effect → Outcome Written
sent n r = record { store = r.0; effects = r.1; result = wrote n }

abbrev pub refuse : Error → Store → Outcome Written
refuse e st = record { store = st; effects = []; result = failed e }

-- writePC.
unfoldable pub write_pc : Env → List ℕ → Store → Outcome Written
write_pc env [] st = record { store = st; effects = []; result = crash }
write_pc env (b ∷ rest) st =
    let bs = b ∷ rest in
    if not (is_ipv6 bs)
    then refuse not_ipv6 st
    else if ltb (length bs) 40
    then refuse (undersized (length bs)) st
    else if not (names env env.public 8 bs)
    then refuse (bad_source (address_at 8 bs)) st
    else if is_valid_address env.prefix (address_at 24 bs)
    then sent (length bs) (send_to_address env (address_at 24 bs) bs st)
    else if is_valid_subnet env.prefix (subnet_at 24 bs)
    then sent (length bs) (send_to_subnet env (subnet_at 24 bs) bs st)
    else refuse bad_destination st

-- The marshalling of an ICMPv6 message from a source to a destination.
abbrev pub Marshal : Type 0
Marshal = List ℕ → List ℕ → Message → Option (List ℕ)

abbrev pub ignore : Store → Outcome (Option (List ℕ))
ignore st = record { store = st; effects = []; result = none }

-- The answer to a packet above the MTU: the first 512 bytes of it, in a Packet Too Big message.
pub too_big_answer : Marshal → ℕ → List ℕ → Option (List ℕ)
too_big_answer marshal mtu bs =
    let buf = copy_into (replicate 512 0) bs in
    let body = take (min 512 (length bs)) buf in
    create_icmpv6 marshal (take 16 (drop 8 buf)) (take 16 (drop 24 buf))
      (record { mtype = 2; code = 0; mtu = mtu; body = body })

unfoldable pub too_big : Env → Marshal → ℕ → List ℕ → Store → Outcome (Option (List ℕ))
too_big env marshal mtu bs st = elim (too_big_answer marshal mtu bs) [
  | none ↦ ignore st
  | some answer ↦
      let w = write_pc env answer st in
      record { store = w.store; effects = w.effects; result = none }
]

-- The sender's entry is brought up to date before its address is compared.
unfoldable pub accept : Env → ℕ → List ℕ → List ℕ → Store → Outcome (Option (List ℕ))
accept env room bs from st =
    let u = update env from st in
    if not (bytes_eq (address_at 8 bs) u.info.address)
      && not (bytes_eq (subnet_at 8 bs) u.info.subnet)
    then record { store = u.store; effects = u.effects; result = none }
    else record { store = u.store; effects = u.effects; result = some (take room bs) }

-- One round of readPC on a packet from the node `from`; `none` continues the loop. `room` is the
-- length of the caller's buffer.
unfoldable pub read_step :
    Env → Marshal → ℕ → ℕ → List ℕ → List ℕ → Store → Outcome (Option (List ℕ))
read_step env marshal mtu room bs from st =
    if length bs == 0
    then ignore st
    else if not (is_ipv6 bs)
    then ignore st
    else if ltb (length bs) 40
    then ignore st
    else if ltb mtu (length bs)
    then too_big env marshal mtu bs st
    else if not (names env env.public 24 bs)
    then ignore st
    else accept env room bs from st

-- What core.ReadFrom returns: an error with a length, or a packet and its sender.
pub data Incoming : Type 0 where
  broken : ℕ → Incoming
  packet : List ℕ → List ℕ → Incoming

-- `waiting` where the events are used up: the call is still blocked.
pub data Returned : Type 0 where
  waiting : Returned
  read_error : ℕ → Returned
  delivered : List ℕ → Returned

-- readPC.
unfoldable pub read_pc : Env → Marshal → ℕ → ℕ → List Incoming → Store → Outcome Returned
read_pc env marshal mtu room [] st = record { store = st; effects = []; result = waiting }
read_pc env marshal mtu room (broken n ∷ events) st = record {
  store = st;
  effects = [];
  result = read_error n;
}
read_pc env marshal mtu room (packet bs from ∷ events) st =
    let one = read_step env marshal mtu room bs from st in
    elim one.result [
      | some out ↦ record { store = one.store; effects = one.effects; result = delivered out }
      | none ↦
          let more = read_pc env marshal mtu room events one.store in
          record { store = more.store; effects = one.effects ++ more.effects; result = more.result }
    ]

-- MaxMTU, over the MTU of the packet connection.
unfoldable pub max_mtu : ℕ → ℕ
max_mtu conn_mtu = mtu conn_mtu

-- SetMTU: the new value of `mtu`.
unfoldable pub set_mtu : ℕ → ℕ → ℕ
set_mtu max mtu =
    let capped = if ltb max mtu then max else mtu in if ltb capped 1280 then 1280 else capped
