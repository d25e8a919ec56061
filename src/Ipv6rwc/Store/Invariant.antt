-- ===== src/Ipv6rwc/Store/Invariant.antt =====
-- The invariant of the key store, kept by every operation and every timer, in any order.
use v6space.Base.{
  ℕ, ◌≤◌, ◌<◌, ◌≡◌, ◌⊎◌, inl, none, some, List, arith, ==_iff, bytes_eq_iff, bytes_Eq, nat_Eq,
  lookup, insert, lookup-insert, length,
}
use v6space.Core.Address.{key_size}
use v6space.Ipv6rwc.Store.{
  Env, KeyInfo, Buffer, Timer, info_timer, addr_timer, subnet_timer, Store, address_of, subnet_of,
  reset_timeout,
}

abbrev pub Runs : Store → ℕ → Timer → Type 0
Runs st id t = lookup id st.timers ≡ some t

-- An entry holds the address and the subnet of its key.
abbrev pub Genuine : Env → KeyInfo → Type 0
Genuine env info =
    (info.address ≡ address_of env info.key)
    × (info.subnet ≡ subnet_of env info.key)
    × (length info.key ≡ key_size)

-- Entries are filed under their own key, address and subnet, and are genuine; each entry and each
-- waiting packet has its own timer running; no packet waits for a node that is known.
pub record Inv (env : Env) (st : Store) : Type 0 where
  pub by_key :
      (k : List ℕ) (info : KeyInfo)
      → lookup k st.key_to_info ≡ some info
      → (info.key ≡ k) × Genuine env info × Runs st info.id (info_timer info)
  pub by_addr :
      (a : List ℕ) (info : KeyInfo)
      → lookup a st.addr_to_info ≡ some info
      → (info.address ≡ a) × Genuine env info × Runs st info.id (info_timer info)
  pub by_subnet :
      (s : List ℕ) (info : KeyInfo)
      → lookup s st.subnet_to_info ≡ some info
      → (info.subnet ≡ s) × Genuine env info × Runs st info.id (info_timer info)
  pub addr_waits :
      (a : List ℕ) (buf : Buffer)
      → lookup a st.addr_buffer ≡ some buf
      → Runs st buf.id (addr_timer a buf.id)
  pub subnet_waits :
      (s : List ℕ) (buf : Buffer)
      → lookup s st.subnet_buffer ≡ some buf
      → Runs st buf.id (subnet_timer s buf.id)
  pub addr_apart :
      (a : List ℕ) (info : KeyInfo)
      → lookup a st.addr_to_info ≡ some info
      → lookup a st.addr_buffer ≡ none
  pub subnet_apart :
      (s : List ℕ) (info : KeyInfo)
      → lookup s st.subnet_to_info ≡ some info
      → lookup s st.subnet_buffer ≡ none
  pub fresh : (j : ℕ) → st.next_id ≤ j → lookup j st.timers ≡ none

-- Starting a timer again, or one for a new object, keeps the others.
pub kept :
    (id j : ℕ) (t t' : Timer) (m : List (ℕ × Timer))
    → (lookup id m ≡ some t) ⊎ (lookup id m ≡ none)
    → lookup j m ≡ some t'
    → lookup j (insert id t m) ≡ some t'
kept id j t t' m h e = ground (arith, lookup-insert id j t m, ==_iff id j)

module _ {env : Env} {st : Store} (v : Inv env st) where
  -- More timers, and the rest as it was.
  pub retimed :
      (timers : List (ℕ × Timer)) (next : ℕ)
      → ((j : ℕ) (t : Timer) → Runs st j t → lookup j timers ≡ some t)
      → ((j : ℕ) → next ≤ j → lookup j timers ≡ none)
      → Inv env (record st { timers = timers; next_id = next })
  retimed timers next keep fresh = record {
    by_key = λ k info h.
        let old = v.by_key k info h in (old.0, old.1, keep info.id (info_timer info) old.2);
    by_addr = λ a info h.
        let old = v.by_addr a info h in (old.0, old.1, keep info.id (info_timer info) old.2);
    by_subnet = λ s info h.
        let old = v.by_subnet s info h in (old.0, old.1, keep info.id (info_timer info) old.2);
    addr_waits = λ a buf h. keep buf.id (addr_timer a buf.id) (v.addr_waits a buf h);
    subnet_waits = λ s buf h. keep buf.id (subnet_timer s buf.id) (v.subnet_waits s buf h);
    addr_apart = v.addr_apart;
    subnet_apart = v.subnet_apart;
    fresh = fresh;
  }

  pub retimed_insert :
      (id next : ℕ) (t : Timer)
      → (Runs st id t) ⊎ (lookup id st.timers ≡ none)
      → id < next
      → st.next_id ≤ next
      → Inv env (record st { timers = insert id t st.timers; next_id = next })
  retimed_insert id next t h below grows =
      retimed (insert id t st.timers) next (λ j t' e. kept id j t t' st.timers h e)
        (λ j le. ground (arith, lookup-insert id j t st.timers, ==_iff id j, v.fresh j))

  pub Runs-lt : (id : ℕ) (t : Timer) → Runs st id t → id < st.next_id
  Runs-lt id t h = ground (arith, v.fresh id)

  -- An entry that is found has its timer running, so restarting it changes nothing for the others.
  pub reset_timeout-Inv :
      (info : KeyInfo) → Runs st info.id (info_timer info) → Inv env (reset_timeout info st)
  unfolding reset_timeout
  reset_timeout-Inv info h =
      retimed_insert info.id st.next_id (info_timer info) (inl h)
        (Runs-lt info.id (info_timer info) h) (omega arith)

  pub with_addr_buffer :
      (a : List ℕ) (buf : Buffer)
      → Runs st buf.id (addr_timer a buf.id)
      → lookup a st.addr_to_info ≡ none
      → Inv env (record st { addr_buffer = insert a buf st.addr_buffer })
  with_addr_buffer a buf runs unknown = record {
    by_key = v.by_key;
    by_addr = v.by_addr;
    by_subnet = v.by_subnet;
    addr_waits = λ b other h.
        ground
          (arith, lookup-insert a b buf st.addr_buffer, bytes_eq_iff a b, v.addr_waits b other);
    subnet_waits = v.subnet_waits;
    addr_apart = λ b info h.
        ground (arith, lookup-insert a b buf st.addr_buffer, bytes_eq_iff a b, v.addr_apart b info);
    subnet_apart = v.subnet_apart;
    fresh = v.fresh;
  }

  pub with_subnet_buffer :
      (s : List ℕ) (buf : Buffer)
      → Runs st buf.id (subnet_timer s buf.id)
      → lookup s st.subnet_to_info ≡ none
      → Inv env (record st { subnet_buffer = insert s buf st.subnet_buffer })
  with_subnet_buffer s buf runs unknown = record {
    by_key = v.by_key;
    by_addr = v.by_addr;
    by_subnet = v.by_subnet;
    addr_waits = v.addr_waits;
    subnet_waits = λ b other h.
        ground
          (arith, lookup-insert s b buf st.subnet_buffer, bytes_eq_iff s b, v.subnet_waits b other);
    addr_apart = v.addr_apart;
    subnet_apart = λ b info h.
        ground
          (arith, lookup-insert s b buf st.subnet_buffer, bytes_eq_iff s b, v.subnet_apart b info);
    fresh = v.fresh;
  }
