-- ===== src/Ipv6rwc/Store/Steps.antt =====
-- Each operation of the key store keeps its invariant, and so does any sequence of operations and
-- timers, a timer's function that runs late included.
use v6space.Base.{
  ℕ, suc, ◌+◌, ◌≡◌, refl, ap, inl, inr, none, some, List, [], ◌∷◌, arith, ==_iff, bytes_eq_iff,
  bytes_Eq, nat_Eq, lookup, insert, lookup-insert, lookup-erase, Option-cases, length, replicate,
}
use v6space.Core.Address.{key_size, copy_into}
use v6space.Ipv6rwc.Store.{
  Env, KeyInfo, Buffer, Timer, info_timer, addr_timer, subnet_timer, Store, reset_timeout,
  buffer_id, buffer_next, buffer_for_address, buffer_for_subnet, send_to_address, send_to_subnet,
  new_info, add_info, update, erase_info, erase_buffer, expire,
}
use v6space.Ipv6rwc.Store.Invariant.{
  Runs, Genuine, Inv, kept, retimed_insert, Runs-lt, reset_timeout-Inv, with_addr_buffer,
  with_subnet_buffer,
}

length-copy_into : (dst src : List ℕ) → length (copy_into dst src) ≡ length dst
length-copy_into [] src = refl
length-copy_into (d ∷ dst) [] = refl
length-copy_into (d ∷ dst) (s ∷ src) = ap suc (length-copy_into dst src)

-- A conditional deletion leaves no entry that was not there, and none of the object deleted.
pub erase_info-sub :
    (j k : List ℕ) (id : ℕ) (m : List (List ℕ × KeyInfo)) (x : KeyInfo)
    → lookup j (erase_info k id m) ≡ some x
    → lookup j m ≡ some x
erase_info-sub j k id m x h = ground (arith, lookup-erase k j m)

pub erase_info-gone :
    (j : List ℕ) (m : List (List ℕ × KeyInfo)) (x : KeyInfo)
    → lookup j m ≡ some x
    → lookup j (erase_info j x.id m) ≡ none
erase_info-gone j m x h = ground (arith, lookup-erase j j m, bytes_eq_iff j j, ==_iff x.id x.id)

pub erase_buffer-sub :
    (j k : List ℕ) (id : ℕ) (m : List (List ℕ × Buffer)) (x : Buffer)
    → lookup j (erase_buffer k id m) ≡ some x
    → lookup j m ≡ some x
erase_buffer-sub j k id m x h = ground (arith, lookup-erase k j m)

pub erase_buffer-none :
    (j k : List ℕ) (id : ℕ) (m : List (List ℕ × Buffer))
    → lookup j m ≡ none
    → lookup j (erase_buffer k id m) ≡ none
erase_buffer-none j k id m h = ground (arith, lookup-erase k j m)

pub erase_buffer-gone :
    (j : List ℕ) (m : List (List ℕ × Buffer)) (x : Buffer)
    → lookup j m ≡ some x
    → lookup j (erase_buffer j x.id m) ≡ none
erase_buffer-gone j m x h = ground (arith, lookup-erase j j m, bytes_eq_iff j j, ==_iff x.id x.id)

module _ {env : Env} {st : Store} (v : Inv env st) where
  buffer_for_address-Inv :
      (a bs : List ℕ) → lookup a st.addr_to_info ≡ none → Inv env (buffer_for_address a bs st)
  unfolding buffer_for_address
  buffer_for_address-Inv a bs unknown = elim (Option-cases (lookup a st.addr_buffer)) [
    | inl e ↦
        rw (e, buffer_id, buffer_next)
          (with_addr_buffer
            (retimed_insert v st.next_id (st.next_id + 1) (addr_timer a st.next_id)
              (inr (v.fresh st.next_id (omega arith))) (omega arith) (omega arith))
            a (record { id = st.next_id; packet = bs })
            (ground (
              arith,
              lookup-insert st.next_id st.next_id (addr_timer a st.next_id) st.timers,
              ==_iff st.next_id st.next_id,
            ))
            unknown)
    | inr (buf, e) ↦
        let runs = v.addr_waits a buf e in
        rw (e, buffer_id, buffer_next)
          (with_addr_buffer
            (retimed_insert v buf.id st.next_id (addr_timer a buf.id) (inl runs)
              (Runs-lt v buf.id (addr_timer a buf.id) runs) (omega arith))
            a (record { id = buf.id; packet = bs })
            (ground (
              arith,
              lookup-insert buf.id buf.id (addr_timer a buf.id) st.timers,
              ==_iff buf.id buf.id,
            ))
            unknown)
  ]

  buffer_for_subnet-Inv :
      (s bs : List ℕ) → lookup s st.subnet_to_info ≡ none → Inv env (buffer_for_subnet s bs st)
  unfolding buffer_for_subnet
  buffer_for_subnet-Inv s bs unknown = elim (Option-cases (lookup s st.subnet_buffer)) [
    | inl e ↦
        rw (e, buffer_id, buffer_next)
          (with_subnet_buffer
            (retimed_insert v st.next_id (st.next_id + 1) (subnet_timer s st.next_id)
              (inr (v.fresh st.next_id (omega arith))) (omega arith) (omega arith))
            s (record { id = st.next_id; packet = bs })
            (ground (
              arith,
              lookup-insert st.next_id st.next_id (subnet_timer s st.next_id) st.timers,
              ==_iff st.next_id st.next_id,
            ))
            unknown)
    | inr (buf, e) ↦
        let runs = v.subnet_waits s buf e in
        rw (e, buffer_id, buffer_next)
          (with_subnet_buffer
            (retimed_insert v buf.id st.next_id (subnet_timer s buf.id) (inl runs)
              (Runs-lt v buf.id (subnet_timer s buf.id) runs) (omega arith))
            s (record { id = buf.id; packet = bs })
            (ground (
              arith,
              lookup-insert buf.id buf.id (subnet_timer s buf.id) st.timers,
              ==_iff buf.id buf.id,
            ))
            unknown)
  ]

  pub send_to_address-Inv : (a bs : List ℕ) → Inv env (send_to_address env a bs st).0
  unfolding send_to_address
  send_to_address-Inv a bs = elim (Option-cases (lookup a st.addr_to_info)) [
    | inl e ↦ rw (e, send_to_address) (buffer_for_address-Inv a bs e)
    | inr (info, e) ↦ rw (e, send_to_address) (reset_timeout-Inv v info (v.by_addr a info e).2)
  ]

  pub send_to_subnet-Inv : (s bs : List ℕ) → Inv env (send_to_subnet env s bs st).0
  unfolding send_to_subnet
  send_to_subnet-Inv s bs = elim (Option-cases (lookup s st.subnet_to_info)) [
    | inl e ↦ rw (e, send_to_subnet) (buffer_for_subnet-Inv s bs e)
    | inr (info, e) ↦ rw (e, send_to_subnet) (reset_timeout-Inv v info (v.by_subnet s info e).2)
  ]

  -- A new entry, its timer running.
  add_info-Inv :
      (info : KeyInfo)
      → info.id ≡ st.next_id
      → Genuine env info
      → Inv env (reset_timeout info (add_info info st).0)
  unfolding add_info reset_timeout
  add_info-Inv info new genuine = record {
    by_key = λ k other h. ground (
      arith,
      lookup-insert info.key k info st.key_to_info,
      bytes_eq_iff info.key k,
      v.by_key k other,
      runs other.id (info_timer other),
      started,
    );
    by_addr = λ a other h. ground (
      arith,
      lookup-insert info.address a info st.addr_to_info,
      bytes_eq_iff info.address a,
      v.by_addr a other,
      runs other.id (info_timer other),
      started,
    );
    by_subnet = λ s other h. ground (
      arith,
      lookup-insert info.subnet s info st.subnet_to_info,
      bytes_eq_iff info.subnet s,
      v.by_subnet s other,
      runs other.id (info_timer other),
      started,
    );
    addr_waits = λ a buf h. ground (
      arith,
      lookup-erase info.address a st.addr_buffer,
      v.addr_waits a buf,
      runs buf.id (addr_timer a buf.id),
    );
    subnet_waits = λ s buf h. ground (
      arith,
      lookup-erase info.subnet s st.subnet_buffer,
      v.subnet_waits s buf,
      runs buf.id (subnet_timer s buf.id),
    );
    addr_apart = λ a other h. ground (
      arith,
      lookup-erase info.address a st.addr_buffer,
      lookup-insert info.address a info st.addr_to_info,
      v.addr_apart a other,
    );
    subnet_apart = λ s other h. ground (
      arith,
      lookup-erase info.subnet s st.subnet_buffer,
      lookup-insert info.subnet s info st.subnet_to_info,
      v.subnet_apart s other,
    );
    fresh = λ j le.
        ground
          (arith, lookup-insert info.id j (info_timer info) st.timers, ==_iff info.id j, v.fresh j);
  }
    where
      runs :
          (j : ℕ) (t : Timer)
          → Runs st j t
          → lookup j (insert info.id (info_timer info) st.timers) ≡ some t
      runs j t e =
          kept info.id j (info_timer info) t st.timers (inr (v.fresh info.id (omega (arith, new))))
            e

      started : lookup info.id (insert info.id (info_timer info) st.timers) ≡ some (info_timer info)
      started =
          ground (
            arith,
            lookup-insert info.id info.id (info_timer info) st.timers,
            ==_iff info.id info.id,
          )

  pub update-Inv : (key : List ℕ) → Inv env (update env key st).store
  unfolding update
  update-Inv key =
      let k = copy_into (replicate key_size 0) key in
      elim (Option-cases (lookup k st.key_to_info)) [
        | inl e ↦
            rw (e, update)
              (add_info-Inv (new_info env k st) refl
                (refl, refl, length-copy_into (replicate key_size 0) key))
        | inr (info, e) ↦ rw (e, update) (reset_timeout-Inv v info (v.by_key k info e).2)
      ]

  -- A timer's function, also one that is not running any more.
  pub expire-Inv : (t : Timer) → Inv env (expire t st)
  unfolding expire
  expire-Inv (info_timer info) = record {
    by_key =
        λ k other h. v.by_key k other (erase_info-sub k info.key info.id st.key_to_info other h);
    by_addr = λ a other h.
        v.by_addr a other (erase_info-sub a info.address info.id st.addr_to_info other h);
    by_subnet = λ s other h.
        v.by_subnet s other (erase_info-sub s info.subnet info.id st.subnet_to_info other h);
    addr_waits = v.addr_waits;
    subnet_waits = v.subnet_waits;
    addr_apart = λ a other h.
        v.addr_apart a other (erase_info-sub a info.address info.id st.addr_to_info other h);
    subnet_apart = λ s other h.
        v.subnet_apart s other (erase_info-sub s info.subnet info.id st.subnet_to_info other h);
    fresh = v.fresh;
  }
  expire-Inv (addr_timer addr id) = record {
    by_key = v.by_key;
    by_addr = v.by_addr;
    by_subnet = v.by_subnet;
    addr_waits = λ a buf h. v.addr_waits a buf (erase_buffer-sub a addr id st.addr_buffer buf h);
    subnet_waits = v.subnet_waits;
    addr_apart = λ a info h. erase_buffer-none a addr id st.addr_buffer (v.addr_apart a info h);
    subnet_apart = v.subnet_apart;
    fresh = v.fresh;
  }
  expire-Inv (subnet_timer subnet id) = record {
    by_key = v.by_key;
    by_addr = v.by_addr;
    by_subnet = v.by_subnet;
    addr_waits = v.addr_waits;
    subnet_waits =
        λ s buf h. v.subnet_waits s buf (erase_buffer-sub s subnet id st.subnet_buffer buf h);
    addr_apart = v.addr_apart;
    subnet_apart =
        λ s info h. erase_buffer-none s subnet id st.subnet_buffer (v.subnet_apart s info h);
    fresh = v.fresh;
  }
