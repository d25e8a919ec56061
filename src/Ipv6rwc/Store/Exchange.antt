-- ===== src/Ipv6rwc/Store/Exchange.antt =====
-- A lookup and its answer, between two nodes, and what the out-of-band handler lets through.
use v6space.Base.{
  ℕ, ◌<◌, ◌≡◌, refl, ap, ◌⊎◌, true, none, some, List, [], ◌∷◌, arith, bytes_eq_iff, bytes_Eq,
  nat_Eq, lookup, lookup-insert, length, bytes_eq_refl,
}
use v6space.Core.Address.{key_size, addr_for_key, get_address_key}
use v6space.Core.Address.Lookup.{subnet_for_key-get_address_key}
use v6space.Core.Address.Scan.{leading, key_bits}
use v6space.Ipv6rwc.Store.{
  Env, Buffer, Store, write_to, send_out_of_band, address_of, subnet_of, buffer_id,
  buffer_for_address, send_to_address, send_key_lookup, send_key_response, update, flush, deref,
  oob_handler, type_key_lookup, type_key_response, signature_size,
}
use v6space.Ipv6rwc.Store.Delivery.{update_flushes}

-- An out-of-band message has an effect only in two cases: a lookup of 65 bytes, signed by the
-- sender, for a key of the node's own subnet, which is answered and changes nothing, and a response
-- of 65 bytes, signed by the sender, which updates the sender's entry.
pub oob_handler_cases :
    (env : Env) (st : Store) (from_key to_key sig : List ℕ) (kind : ℕ)
    → let r = oob_handler env from_key to_key (kind ∷ sig) st in
      (r ≡ (st, []))
      ⊎ ((kind ≡ type_key_lookup)
          × (length sig ≡ signature_size)
          × (env.verify from_key to_key sig ≡ true)
          × (subnet_of env to_key ≡ subnet_of env env.public)
          × (r ≡ (st, send_key_response env from_key ∷ [])))
      ⊎ ((kind ≡ type_key_response)
          × (length sig ≡ signature_size)
          × (env.verify from_key to_key sig ≡ true)
          × (r ≡ ((update env from_key st).store, (update env from_key st).effects)))
unfolding oob_handler
oob_handler_cases env st from_key to_key sig kind =
    ground (arith, bytes_eq_iff (subnet_of env to_key) (subnet_of env env.public))

-- A signature of `signer` is 64 bytes long and is accepted by `checker`.
abbrev pub Signs : Env → Env → Type 0
Signs signer checker =
    (msg : List ℕ)
    → (length (signer.sign msg) ≡ signature_size)
      × (checker.verify signer.public msg (signer.sign msg) ≡ true)

oob_lookup :
    (env : Env) (st : Store) (from_key to_key sig : List ℕ)
    → length sig ≡ signature_size
    → env.verify from_key to_key sig ≡ true
    → subnet_of env to_key ≡ subnet_of env env.public
    → oob_handler env from_key to_key (type_key_lookup ∷ sig) st
      ≡ (st, send_key_response env from_key ∷ [])
unfolding oob_handler
oob_lookup env st from_key to_key sig size ok same =
    ground (arith, bytes_eq_iff (subnet_of env to_key) (subnet_of env env.public))

oob_response :
    (env : Env) (st : Store) (from_key to_key sig : List ℕ)
    → length sig ≡ signature_size
    → env.verify from_key to_key sig ≡ true
    → oob_handler env from_key to_key (type_key_response ∷ sig) st
      ≡ ((update env from_key st).store, (update env from_key st).effects)
unfolding oob_handler
oob_response env st from_key to_key sig size ok = ground arith

buffered :
    (env : Env) (st : Store) (a bs : List ℕ)
    → lookup a st.addr_to_info ≡ none
    → let r = send_to_address env a bs st in
      (r.1 ≡ send_key_lookup env (get_address_key a) ∷ [])
      × (r.0.key_to_info ≡ st.key_to_info)
      × (r.0.subnet_buffer ≡ st.subnet_buffer)
      × ((buf : Buffer) × (lookup a r.0.addr_buffer ≡ some buf) × (buf.packet ≡ bs))
unfolding send_to_address buffer_for_address
buffered env st a bs unknown =
    let buf : Buffer = record { id = buffer_id (lookup a st.addr_buffer) st; packet = bs } in
    rw (unknown, send_to_address)
      (
        refl,
        refl,
        refl,
        (buf, rw (lookup-insert a a buf st.addr_buffer, bytes_eq_refl a) refl, refl),
      )

-- `here` sends a packet to the address `a` of the node `there`, which it does not know. The lookup
-- that `here` sends, handed to `there`, is answered, and the answer, handed to `here`, lets
-- the packet go out to the key of `there`, first of all. The nodes use one prefix, accept one
-- another's signatures, and the key of `there` is not all zeros.
pub lookup_exchange :
    (here there : Env) (st st' : Store) (a bs : List ℕ)
    → there.prefix ≡ here.prefix
    → here.prefix < 256
    → leading (key_bits there.public) < 256
    → length there.public ≡ key_size
    → addr_for_key here.prefix there.public ≡ some a
    → Signs here there
    → Signs there here
    → lookup a st.addr_to_info ≡ none
    → lookup there.public st.key_to_info ≡ none
    → let sent = send_to_address here a bs st in
      let partial_key = get_address_key a in
      let ask = type_key_lookup ∷ here.sign partial_key in
      let reply = type_key_response ∷ there.sign here.public in
      (sent.1 ≡ send_out_of_band partial_key ask ∷ [])
      × (oob_handler there here.public partial_key ask st'
          ≡ (st', send_out_of_band here.public reply ∷ []))
      × ((oob_handler here there.public here.public reply sent.0).1
          ≡ write_to bs there.public
            ∷ flush (lookup (subnet_of here there.public) st.subnet_buffer) there.public)
unfolding send_key_lookup send_key_response
lookup_exchange here there st st' a bs prefix hp hk size ea asks answers unknown new =
    let partial_key = get_address_key a in
    let sent = buffered here st a bs unknown in
    let home : subnet_of there partial_key ≡ subnet_of there there.public =
      rw prefix (ap deref (subnet_for_key-get_address_key here.prefix there.public a hp hk ea)) in
    let ask_ok = asks partial_key in
    let reply_ok = answers here.public in
    let waiting : address_of here there.public ≡ a = ap deref ea in
    let new' : lookup there.public (send_to_address here a bs st).0.key_to_info ≡ none =
      rw sent.1 new in
    let flushed = (update_flushes here (send_to_address here a bs st).0 there.public size new').0 in
    (
      sent.0,
      oob_lookup there st' here.public partial_key (here.sign partial_key) ask_ok.0 ask_ok.1 home,
      rw
          (
            oob_response here (send_to_address here a bs st).0 there.public here.public
                (there.sign here.public) reply_ok.0 reply_ok.1,
            flushed,
            waiting,
            sent.3.1,
            sent.3.2,
            sent.2,
          )
          refl,
    )
