-- ===== src/Ipv6rwc/Store/Delivery.antt =====
-- Where packets go: only to nodes that own the address, at once or after the lookup.
use v6space.Base.{
  ℕ, ◌≡◌, refl, sym, ap, ◌∙◌, ◌⊎◌, inl, inr, none, some, List, [], ◌∷◌, ◌++◌, arith, bytes_Eq,
  nat_Eq, lookup, lookup-insert, lookup-erase, Option-cases, length, replicate, bytes_eq_refl,
}
use v6space.Core.Address.{key_size, copy_into, get_address_key, get_subnet_key}
use v6space.Ipv6rwc.Store.{
  Env, KeyInfo, Buffer, Store, write_to, address_of, subnet_of, reset_timeout, buffer_id,
  buffer_for_address, buffer_for_subnet, send_to_address, send_to_subnet, send_key_lookup, new_info,
  add_info, update, flush,
}
use v6space.Ipv6rwc.Store.Invariant.{Inv}

-- In a valid state of the store, a packet for an address either goes at once to one node, whose key has that address, or is kept
-- in the address's buffer in place of an earlier one, while a lookup for the address is sent.
pub send_to_address_cases :
    (env : Env) (st : Store) (a bs : List ℕ)
    → Inv env st
    → let r = send_to_address env a bs st in
      ((info : KeyInfo) × (r.1 ≡ write_to bs info.key ∷ [])
        × (address_of env info.key ≡ a)
        × (lookup a r.0.addr_buffer ≡ none))
      ⊎ ((buf : Buffer) × (r.1 ≡ send_key_lookup env (get_address_key a) ∷ [])
          × (lookup a r.0.addr_buffer ≡ some buf)
          × (buf.packet ≡ bs))
unfolding send_to_address reset_timeout buffer_for_address
send_to_address_cases env st a bs v = elim (Option-cases (lookup a st.addr_to_info)) [
  | inl e ↦ inr (
    record { id = buffer_id (lookup a st.addr_buffer) st; packet = bs },
    rw (e, send_to_address) refl,
    rw (e, send_to_address) (rw (lookup-insert a a _ st.addr_buffer, bytes_eq_refl a) refl),
    refl,
  )
  | inr (info, e) ↦
      let old = v.by_addr a info e in
      inl (
        info,
        rw (e, send_to_address) refl,
        sym old.1.0 ∙ old.0,
        rw (e, send_to_address) (v.addr_apart a info e),
      )
]

-- In a valid state of the store, a packet for a subnet either goes at once to one node, whose key has
-- that subnet, or is kept in the subnet's buffer in place of an earlier one, while a lookup for the
-- subnet is sent.
pub send_to_subnet_cases :
    (env : Env) (st : Store) (s bs : List ℕ)
    → Inv env st
    → let r = send_to_subnet env s bs st in
      ((info : KeyInfo) × (r.1 ≡ write_to bs info.key ∷ [])
        × (subnet_of env info.key ≡ s)
        × (lookup s r.0.subnet_buffer ≡ none))
      ⊎ ((buf : Buffer) × (r.1 ≡ send_key_lookup env (get_subnet_key s) ∷ [])
          × (lookup s r.0.subnet_buffer ≡ some buf)
          × (buf.packet ≡ bs))
unfolding send_to_subnet reset_timeout buffer_for_subnet
send_to_subnet_cases env st s bs v = elim (Option-cases (lookup s st.subnet_to_info)) [
  | inl e ↦ inr (
    record { id = buffer_id (lookup s st.subnet_buffer) st; packet = bs },
    rw (e, send_to_subnet) refl,
    rw (e, send_to_subnet) (rw (lookup-insert s s _ st.subnet_buffer, bytes_eq_refl s) refl),
    refl,
  )
  | inr (info, e) ↦
      let old = v.by_subnet s info e in
      inl (
        info,
        rw (e, send_to_subnet) refl,
        sym old.1.1 ∙ old.0,
        rw (e, send_to_subnet) (v.subnet_apart s info e),
      )
]

pub copy_into_same :
    (key : List ℕ) → length key ≡ key_size → copy_into (replicate key_size 0) key ≡ key
copy_into_same key h = copy_over (replicate key_size 0) key (sym h)
  where
    copy_over : (dst src : List ℕ) → length dst ≡ length src → copy_into dst src ≡ src
    copy_over [] [] e = refl
    copy_over [] (x ∷ xs) e = absurd (omega arith)
    copy_over (d ∷ ds) [] e = absurd (omega arith)
    copy_over (d ∷ ds) (x ∷ xs) e = ap (◌∷◌ x) (copy_over ds xs (omega arith))

pub update_new :
    (env : Env) (st : Store) (key : List ℕ)
    → length key ≡ key_size
    → lookup key st.key_to_info ≡ none
    → update env key st ≡ record {
      store = reset_timeout (new_info env key st) (add_info (new_info env key st) st).0;
      info = new_info env key st;
      effects = (add_info (new_info env key st) st).1;
    }
unfolding update
update_new env st key size unknown =
    rw (update, copy_into_same key size, unknown) (rw (copy_into_same key size) refl)

-- A first update for a key of 32 bytes sends the packets that wait for its address and for its
-- subnet to that key, in this order, empties both buffers, and files the key under both.
pub update_flushes :
    (env : Env) (st : Store) (key : List ℕ)
    → length key ≡ key_size
    → lookup key st.key_to_info ≡ none
    → let u = update env key st in
      (u.effects
        ≡ flush (lookup (address_of env key) st.addr_buffer) key
          ++ flush (lookup (subnet_of env key) st.subnet_buffer) key)
      × (lookup (address_of env key) u.store.addr_buffer ≡ none)
      × (lookup (subnet_of env key) u.store.subnet_buffer ≡ none)
      × (lookup key u.store.key_to_info ≡ some u.info)
      × (lookup (address_of env key) u.store.addr_to_info ≡ some u.info)
      × (lookup (subnet_of env key) u.store.subnet_to_info ≡ some u.info)
      × (u.info.key ≡ key)
unfolding add_info reset_timeout
update_flushes env st key size unknown =
    let info = new_info env key st in
    let a = address_of env key in
    let s = subnet_of env key in
    rw (update_new env st key size unknown) (
      refl,
      rw (lookup-erase a a st.addr_buffer, bytes_eq_refl a) refl,
      rw (lookup-erase s s st.subnet_buffer, bytes_eq_refl s) refl,
      rw (lookup-insert key key info st.key_to_info, bytes_eq_refl key) refl,
      rw (lookup-insert a a info st.addr_to_info, bytes_eq_refl a) refl,
      rw (lookup-insert s s info st.subnet_to_info, bytes_eq_refl s) refl,
      refl,
    )
