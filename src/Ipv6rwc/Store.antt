-- ===== src/Ipv6rwc/Store.antt =====
-- The key store of src/ipv6rwc/ipv6rwc.go: which nodes are known by key, address and subnet, the
-- packets that wait for a lookup, and the timers that clean both up.
pub mod Invariant
pub mod Delivery
pub mod Steps
pub mod Reach
pub mod Exchange
use v6space.Base.{
  ℕ, ◌+◌, Bool, true, false, ◌&&◌, Option, none, some, List, [], ◌∷◌, ◌++◌, length, get_or, drop,
  replicate, ◌==◌, if◌then◌else◌, bytes_eq, Eq, bytes_Eq, nat_Eq, lookup, insert, erase,
}
use v6space.Core.Address.{
  key_size, copy_into, addr_for_key, subnet_for_key, get_address_key, get_subnet_key,
}

-- What the store takes from the core and from ed25519: the prefix, the node's own public key,
-- signing with the node's private key, and the verification of signatures.
pub record Env : Type 0 where
  pub prefix : ℕ
  pub public : List ℕ
  pub sign : List ℕ → List ℕ
  pub verify : List ℕ → List ℕ → List ℕ → Bool

-- A `*keyInfo`; `id` is the pointer.
pub record KeyInfo : Type 0 where
  pub id : ℕ
  pub key : List ℕ
  pub address : List ℕ
  pub subnet : List ℕ

-- A `*buffer`.
pub record Buffer : Type 0 where
  pub id : ℕ
  pub packet : List ℕ

-- The function of a `time.AfterFunc`.
pub data Timer : Type 0 where
  info_timer : KeyInfo → Timer
  addr_timer subnet_timer : List ℕ → ℕ → Timer

pub record Store : Type 0 where
  pub key_to_info : List (List ℕ × KeyInfo)
  pub addr_to_info : List (List ℕ × KeyInfo)
  pub subnet_to_info : List (List ℕ × KeyInfo)
  pub addr_buffer : List (List ℕ × Buffer)
  pub subnet_buffer : List (List ℕ × Buffer)
  -- The timers that run, each under the pointer of the object whose field `timeout` holds it.
  pub timers : List (ℕ × Timer)
  pub next_id : ℕ

-- What the store does to the network.
pub data Effect : Type 0 where
  write_to send_out_of_band : List ℕ → List ℕ → Effect

abbrev pub init : Store
init = record {
  key_to_info = [];
  addr_to_info = [];
  subnet_to_info = [];
  addr_buffer = [];
  subnet_buffer = [];
  timers = [];
  next_id = 0;
}

-- Out-of-band packet types.
abbrev pub type_key_lookup : ℕ
type_key_lookup = 1

abbrev pub type_key_response : ℕ
type_key_response = 2

-- ed25519.SignatureSize.
abbrev pub signature_size : ℕ
signature_size = 64

-- `*p`; the keys here have 32 bytes, so the pointer is never nil.
abbrev pub deref : Option (List ℕ) → List ℕ
deref none = []
deref (some a) = a

abbrev pub address_of : Env → List ℕ → List ℕ
address_of env key = deref (addr_for_key env.prefix key)

abbrev pub subnet_of : Env → List ℕ → List ℕ
subnet_of env key = deref (subnet_for_key env.prefix key)

-- The timer that ran is stopped, and a new one is started.
unfoldable pub reset_timeout : KeyInfo → Store → Store
reset_timeout info st = record st { timers = insert info.id (info_timer info) st.timers }

unfoldable pub send_key_lookup : Env → List ℕ → Effect
send_key_lookup env partial_key =
    send_out_of_band partial_key (type_key_lookup ∷ env.sign partial_key)

unfoldable pub send_key_response : Env → List ℕ → Effect
send_key_response env dest = send_out_of_band dest (type_key_response ∷ env.sign dest)

-- The buffer for an address: the old one takes the new packet, or a new one is made.
pub buffer_id : Option Buffer → Store → ℕ
buffer_id (some buf) st = buf.id
buffer_id none st = st.next_id

pub buffer_next : Option Buffer → Store → ℕ
buffer_next (some buf) st = st.next_id
buffer_next none st = st.next_id + 1

unfoldable pub buffer_for_address : List ℕ → List ℕ → Store → Store
unfolding buffer_id buffer_next
buffer_for_address addr bs st =
    let old = lookup addr st.addr_buffer in
    let id = buffer_id old st in
    record st {
      addr_buffer = insert addr (record { id = id; packet = bs }) st.addr_buffer;
      timers = insert id (addr_timer addr id) st.timers;
      next_id = buffer_next old st;
    }

unfoldable pub buffer_for_subnet : List ℕ → List ℕ → Store → Store
unfolding buffer_id buffer_next
buffer_for_subnet subnet bs st =
    let old = lookup subnet st.subnet_buffer in
    let id = buffer_id old st in
    record st {
      subnet_buffer = insert subnet (record { id = id; packet = bs }) st.subnet_buffer;
      timers = insert id (subnet_timer subnet id) st.timers;
      next_id = buffer_next old st;
    }

unfoldable pub send_to_address : Env → List ℕ → List ℕ → Store → Store × List Effect
send_to_address env addr bs st = elim (lookup addr st.addr_to_info) [
  | some info ↦ (reset_timeout info st, write_to bs info.key ∷ [])
  | none ↦ (buffer_for_address addr bs st, send_key_lookup env (get_address_key addr) ∷ [])
]

unfoldable pub send_to_subnet : Env → List ℕ → List ℕ → Store → Store × List Effect
send_to_subnet env subnet bs st = elim (lookup subnet st.subnet_to_info) [
  | some info ↦ (reset_timeout info st, write_to bs info.key ∷ [])
  | none ↦ (buffer_for_subnet subnet bs st, send_key_lookup env (get_subnet_key subnet) ∷ [])
]

-- The packet of a buffer, written out to the node that was found.
abbrev pub flush : Option Buffer → List ℕ → List Effect
flush none key = []
flush (some buf) key = write_to buf.packet key ∷ []

abbrev pub new_info : Env → List ℕ → Store → KeyInfo
new_info env key st = record {
  id = st.next_id;
  key = key;
  address = address_of env key;
  subnet = subnet_of env key;
}

-- `delete` of the buffers; deleting a missing entry changes nothing.
unfoldable pub add_info : KeyInfo → Store → Store × List Effect
add_info info st = (
  record st {
    key_to_info = insert info.key info st.key_to_info;
    addr_to_info = insert info.address info st.addr_to_info;
    subnet_to_info = insert info.subnet info st.subnet_to_info;
    addr_buffer = erase info.address st.addr_buffer;
    subnet_buffer = erase info.subnet st.subnet_buffer;
    next_id = st.next_id + 1;
  },
  flush (lookup info.address st.addr_buffer) info.key
      ++ flush (lookup info.subnet st.subnet_buffer) info.key,
)

-- update: the new state, the entry of the key, and the packets that are sent at last.
pub record Updated : Type 0 where
  pub store : Store
  pub info : KeyInfo
  pub effects : List Effect

unfoldable pub update : Env → List ℕ → Store → Updated
update env key st =
    let k_array = copy_into (replicate key_size 0) key in
    elim (lookup k_array st.key_to_info) [
      | some info ↦ record { store = reset_timeout info st; info = info; effects = [] }
      | none ↦
          let info = new_info env k_array st in
          let added = add_info info st in
          record { store = reset_timeout info added.0; info = info; effects = added.1 }
    ]

-- `if x := m[k]; x == p { delete(m, k) }`.
abbrev pub erase_info : List ℕ → ℕ → List (List ℕ × KeyInfo) → List (List ℕ × KeyInfo)
erase_info k id m = elim (lookup k m) [
  | none ↦ m
  | some found ↦ if found.id == id then erase k m else m
]

abbrev pub erase_buffer : List ℕ → ℕ → List (List ℕ × Buffer) → List (List ℕ × Buffer)
erase_buffer k id m = elim (lookup k m) [
  | none ↦ m
  | some found ↦ if found.id == id then erase k m else m
]

-- A timer's function. It takes the lock by itself, so it may run later than it was due, also
-- after its timer has been stopped.
unfoldable pub expire : Timer → Store → Store
expire (info_timer info) st = record st {
  key_to_info = erase_info info.key info.id st.key_to_info;
  addr_to_info = erase_info info.address info.id st.addr_to_info;
  subnet_to_info = erase_info info.subnet info.id st.subnet_to_info;
}
expire (addr_timer addr id) st = record st { addr_buffer = erase_buffer addr id st.addr_buffer }
expire (subnet_timer subnet id) st = record st {
  subnet_buffer = erase_buffer subnet id st.subnet_buffer;
}

-- oobHandler.
unfoldable pub oob_handler : Env → List ℕ → List ℕ → List ℕ → Store → Store × List Effect
oob_handler env from_key to_key msg st =
    if length msg == 1 + signature_size
    then (let sig = drop 1 msg in
        if get_or msg 0 0 == type_key_lookup
        then (if bytes_eq (subnet_of env to_key) (subnet_of env env.public)
              && env.verify from_key to_key sig
            then (st, send_key_response env from_key ∷ [])
            else (st, []))
        else if get_or msg 0 0 == type_key_response
        then (if env.verify from_key to_key sig
            then (let u = update env from_key st in (u.store, u.effects))
            else (st, []))
        else (st, []))
    else (st, [])
