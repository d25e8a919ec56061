-- ===== src/Ipv6rwc/Examples.antt =====
-- Tests of the key store and the packet paths between two nodes.
use v6space.Base.{
  ℕ, ◌<◌, ◌≡◌, refl, true, none, some, List, [], ◌∷◌, ◌++◌, replicate, lookup, insert, bytes_eq,
  bytes_Eq, arith,
}
use v6space.Core.Address.{
  addr_for_key, subnet_for_key, get_address_key, scan_loop, scan_bit, bit_at,
}
use v6space.Core.Address.Scan.{leading, key_bits}
use v6space.Core.Examples.Addresses.{key, addr}
use v6space.Ipv6rwc.Icmpv6.{Message}
use v6space.Ipv6rwc.Store.{
  Env, Store, write_to, send_out_of_band, init, subnet_of, send_to_address, buffer_for_address,
  add_info, oob_handler, update, flush, type_key_lookup, type_key_response,
}
use v6space.Ipv6rwc.Store.Invariant.{Inv}
use v6space.Ipv6rwc.Store.Reach.{Reach, start, next, sends_addr, Reach-Inv}
use v6space.Ipv6rwc.Store.Exchange.{Signs, lookup_exchange}
use v6space.Ipv6rwc.Packet.{
  Marshal, Incoming, packet, delivered, read_pc, read_step, is_ipv6, names, accept, write_pc,
}
use v6space.Ipv6rwc.Packet.Guards.{Writes, write_pc_cases}
use v6space.Ipv6rwc.Packet.Admission.{Among, IsAdmitted, read_pc-IsAdmitted}

-- Two nodes whose signatures are 64 zeros, which both accept.
abbrev here_key : List ℕ
here_key = replicate 32 77

abbrev pub here : Env
here = record {
  prefix = 252;
  public = here_key;
  sign = λ msg. replicate 64 0;
  verify = λ from msg sig. true;
}

abbrev there : Env
there = record here { public = key }

abbrev pub pkt : List ℕ
pkt = 0x60 ∷ replicate 39 0

abbrev waiting : Store
waiting = (send_to_address here addr pkt init).0

waiting-Reach : Reach here waiting
waiting-Reach = next start (sends_addr addr pkt)

waiting-Inv : Inv here waiting
waiting-Inv = Reach-Inv waiting-Reach

Reach-Inv_example : Inv here waiting
Reach-Inv_example = Reach-Inv {env = here} {st = waiting} waiting-Reach

key-addr : addr_for_key 252 key ≡ some addr
unfolding addr_for_key scan_loop scan_bit bit_at
key-addr = refl

key-leading : leading (key_bits key) < 256
key-leading = omega arith

here-Signs : Signs here there
here-Signs msg = (refl, refl)

there-Signs : Signs there here
there-Signs msg = (refl, refl)

unknown : lookup key init.key_to_info ≡ none
unfolding lookup
unknown = refl

no_info : lookup addr init.addr_to_info ≡ none
unfolding lookup
no_info = refl

still_unknown : lookup key waiting.key_to_info ≡ none
unfolding lookup send_to_address buffer_for_address
still_unknown = refl

lookup_exchange_example :
    let sent = send_to_address here addr pkt init in
    let partial_key = get_address_key addr in
    let ask = type_key_lookup ∷ here.sign partial_key in
    let reply = type_key_response ∷ there.sign here.public in
    (sent.1 ≡ send_out_of_band partial_key ask ∷ [])
    × (oob_handler there here.public partial_key ask init
        ≡ (init, send_out_of_band here.public reply ∷ []))
    × ((oob_handler here there.public here.public reply sent.0).1
        ≡ write_to pkt there.public
          ∷ flush (lookup (subnet_of here there.public) init.subnet_buffer) there.public)
lookup_exchange_example =
    lookup_exchange here there init init addr pkt refl (omega arith) key-leading refl key-addr
      here-Signs there-Signs no_info unknown

write_pc_cases_example : Writes here pkt init (write_pc here pkt init)
write_pc_cases_example = write_pc_cases here pkt init

abbrev pub marshal : Marshal
marshal = λ src dst m. some (1 ∷ 2 ∷ [])

-- A packet from the other node to this one.
abbrev pub inbound : List ℕ
inbound = 0x60 ∷ replicate 7 0 ++ addr ++ 252 ∷ 1 ∷ replicate 14 202

abbrev pub events : List Incoming
events = packet inbound key ∷ []

pub arrives : (read_pc here marshal 1280 100 events init).result ≡ delivered inbound
unfolding read_pc read_step is_ipv6 names accept addr_for_key subnet_for_key scan_loop scan_bit
    bit_at bytes_eq update add_info lookup insert
arrives = refl

read_pc-IsAdmitted_example :
    (bs : List ℕ) × (from : List ℕ) × Among (packet bs from) events
    × IsAdmitted here 1280 100 bs from inbound
read_pc-IsAdmitted_example =
    read_pc-IsAdmitted here marshal 1280 100 events init inbound (Reach-Inv start) (refl, tt)
      arrives

abbrev answer : Message
answer = record { mtype = 2; code = 0; mtu = 1280; body = [] }
