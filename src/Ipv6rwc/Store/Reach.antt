-- ===== src/Ipv6rwc/Store/Reach.antt =====
-- The states of the key store that any interleaving of calls and timers leads to.
use v6space.Base.{
  ℕ, ◌≡◌, refl, false, some, List, arith, ◌==◌, ==_iff, bytes_Eq, nat_Eq, lookup, erase,
  lookup-erase,
}
use v6space.Ipv6rwc.Store.{
  Env, KeyInfo, Buffer, Timer, info_timer, addr_timer, subnet_timer, Store, init, send_to_address,
  send_to_subnet, update, expire, oob_handler,
}
use v6space.Ipv6rwc.Store.Invariant.{Runs, Inv}
use v6space.Ipv6rwc.Store.Steps.{
  send_to_address-Inv, send_to_subnet-Inv, update-Inv, expire-Inv, erase_info-sub, erase_info-gone,
  erase_buffer-sub, erase_buffer-gone,
}

-- One step: a call, the out-of-band handler, a running timer that fires, or a timer's function
-- that had been started before its timer was stopped and gets the lock now.
pub data Step (env : Env) (st : Store) : Store → Type 0 where
  sends_addr : (a bs : List ℕ) → Step env st (send_to_address env a bs st).0
  sends_subnet : (s bs : List ℕ) → Step env st (send_to_subnet env s bs st).0
  updates : (key : List ℕ) → Step env st (update env key st).store
  handles : (from_key to_key msg : List ℕ) → Step env st (oob_handler env from_key to_key msg st).0
  fires :
      (id : ℕ) (t : Timer)
      → Runs st id t
      → Step env st (record (expire t st) { timers = erase id (expire t st).timers })
  late : (t : Timer) → Step env st (expire t st)

pub data Reach (env : Env) : Store → Type 0 where
  start : Reach env init
  next : {st st' : Store} → Reach env st → Step env st st' → Reach env st'

init-Inv : (env : Env) → Inv env init
unfolding lookup
init-Inv env = record {
  by_key = λ k info h. absurd (cc h);
  by_addr = λ k info h. absurd (cc h);
  by_subnet = λ k info h. absurd (cc h);
  addr_waits = λ k info h. absurd (cc h);
  subnet_waits = λ k info h. absurd (cc h);
  addr_apart = λ k info h. refl;
  subnet_apart = λ k info h. refl;
  fresh = λ j h. refl;
}

module _ {env : Env} {st : Store} (v : Inv env st) where
  -- A timer can be forgotten when nothing refers to it.
  without_timer :
      (id : ℕ)
      → ((k : List ℕ) (x : KeyInfo) → lookup k st.key_to_info ≡ some x → (x.id == id) ≡ false)
      → ((k : List ℕ) (x : KeyInfo) → lookup k st.addr_to_info ≡ some x → (x.id == id) ≡ false)
      → ((k : List ℕ) (x : KeyInfo) → lookup k st.subnet_to_info ≡ some x → (x.id == id) ≡ false)
      → ((k : List ℕ) (x : Buffer) → lookup k st.addr_buffer ≡ some x → (x.id == id) ≡ false)
      → ((k : List ℕ) (x : Buffer) → lookup k st.subnet_buffer ≡ some x → (x.id == id) ≡ false)
      → Inv env (record st { timers = erase id st.timers })
  without_timer id hk ha hs hab hsb = record {
    by_key = λ k x h.
        ground (arith, v.by_key k x, lookup-erase id x.id st.timers, hk k x, ==_iff id x.id);
    by_addr = λ k x h.
        ground (arith, v.by_addr k x, lookup-erase id x.id st.timers, ha k x, ==_iff id x.id);
    by_subnet = λ k x h.
        ground (arith, v.by_subnet k x, lookup-erase id x.id st.timers, hs k x, ==_iff id x.id);
    addr_waits = λ k x h.
        ground (arith, v.addr_waits k x, lookup-erase id x.id st.timers, hab k x, ==_iff id x.id);
    subnet_waits = λ k x h.
        ground (arith, v.subnet_waits k x, lookup-erase id x.id st.timers, hsb k x, ==_iff id x.id);
    addr_apart = v.addr_apart;
    subnet_apart = v.subnet_apart;
    fresh = λ j le. ground (arith, v.fresh j, lookup-erase id j st.timers);
  }

module _ {env : Env} {st : Store} (v : Inv env st) where
  expire-timers : (t : Timer) → (expire t st).timers ≡ st.timers
  unfolding expire
  expire-timers (info_timer info) = refl
  expire-timers (addr_timer a i) = refl
  expire-timers (subnet_timer a i) = refl

  -- After its timer's function has run, an entry or a buffer is gone.
  fired-key :
      (id : ℕ) (t : Timer)
      → Runs st id t
      → (k : List ℕ) (x : KeyInfo) → lookup k (expire t st).key_to_info ≡ some x
      → (x.id == id) ≡ false
  unfolding expire
  fired-key id (info_timer info) run k x h =
      let there = erase_info-sub k info.key info.id st.key_to_info x h in
      ground (arith, ==_iff x.id id, v.by_key k x there, erase_info-gone k st.key_to_info x there)
  fired-key id (addr_timer a i) run k x h = ground (arith, ==_iff x.id id, v.by_key k x h)
  fired-key id (subnet_timer a i) run k x h = ground (arith, ==_iff x.id id, v.by_key k x h)

  fired-addr :
      (id : ℕ) (t : Timer)
      → Runs st id t
      → (k : List ℕ) (x : KeyInfo) → lookup k (expire t st).addr_to_info ≡ some x
      → (x.id == id) ≡ false
  unfolding expire
  fired-addr id (info_timer info) run k x h =
      let there = erase_info-sub k info.address info.id st.addr_to_info x h in
      ground (arith, ==_iff x.id id, v.by_addr k x there, erase_info-gone k st.addr_to_info x there)
  fired-addr id (addr_timer a i) run k x h = ground (arith, ==_iff x.id id, v.by_addr k x h)
  fired-addr id (subnet_timer a i) run k x h = ground (arith, ==_iff x.id id, v.by_addr k x h)

  fired-subnet :
      (id : ℕ) (t : Timer)
      → Runs st id t
      → (k : List ℕ) (x : KeyInfo) → lookup k (expire t st).subnet_to_info ≡ some x
      → (x.id == id) ≡ false
  unfolding expire
  fired-subnet id (info_timer info) run k x h =
      let there = erase_info-sub k info.subnet info.id st.subnet_to_info x h in
      ground
        (arith, ==_iff x.id id, v.by_subnet k x there, erase_info-gone k st.subnet_to_info x there)
  fired-subnet id (addr_timer a i) run k x h = ground (arith, ==_iff x.id id, v.by_subnet k x h)
  fired-subnet id (subnet_timer a i) run k x h = ground (arith, ==_iff x.id id, v.by_subnet k x h)

  fired-addr_buffer :
      (id : ℕ) (t : Timer)
      → Runs st id t
      → (k : List ℕ) (x : Buffer) → lookup k (expire t st).addr_buffer ≡ some x
      → (x.id == id) ≡ false
  unfolding expire
  fired-addr_buffer id (info_timer info) run k x h =
      ground (arith, ==_iff x.id id, v.addr_waits k x h)
  fired-addr_buffer id (addr_timer a i) run k x h =
      let there = erase_buffer-sub k a i st.addr_buffer x h in
      ground
        (arith, ==_iff x.id id, v.addr_waits k x there, erase_buffer-gone k st.addr_buffer x there)
  fired-addr_buffer id (subnet_timer a i) run k x h =
      ground (arith, ==_iff x.id id, v.addr_waits k x h)

  fired-subnet_buffer :
      (id : ℕ) (t : Timer)
      → Runs st id t
      → (k : List ℕ) (x : Buffer) → lookup k (expire t st).subnet_buffer ≡ some x
      → (x.id == id) ≡ false
  unfolding expire
  fired-subnet_buffer id (info_timer info) run k x h =
      ground (arith, ==_iff x.id id, v.subnet_waits k x h)
  fired-subnet_buffer id (addr_timer a i) run k x h =
      ground (arith, ==_iff x.id id, v.subnet_waits k x h)
  fired-subnet_buffer id (subnet_timer a i) run k x h =
      let there = erase_buffer-sub k a i st.subnet_buffer x h in
      ground (
        arith,
        ==_iff x.id id,
        v.subnet_waits k x there,
        erase_buffer-gone k st.subnet_buffer x there,
      )

  fires-Inv :
      (id : ℕ) (t : Timer)
      → Runs st id t
      → Inv env (record (expire t st) { timers = erase id (expire t st).timers })
  fires-Inv id t run =
      without_timer (expire-Inv v t) id (fired-key id t run) (fired-addr id t run)
        (fired-subnet id t run) (fired-addr_buffer id t run) (fired-subnet_buffer id t run)

  pub oob_handler-Inv :
      (from_key to_key msg : List ℕ) → Inv env (oob_handler env from_key to_key msg st).0
  unfolding oob_handler
  oob_handler-Inv from_key to_key msg = ground (arith, v, update-Inv v from_key)

Step-Inv : {env : Env} {st st' : Store} → Inv env st → Step env st st' → Inv env st'
Step-Inv v (sends_addr a bs) = send_to_address-Inv v a bs
Step-Inv v (sends_subnet s bs) = send_to_subnet-Inv v s bs
Step-Inv v (updates key) = update-Inv v key
Step-Inv v (handles from_key to_key msg) = oob_handler-Inv v from_key to_key msg
Step-Inv v (fires id t run) = fires-Inv v id t run
Step-Inv v (late t) = expire-Inv v t

-- In every state of the key store that calls, handlers and timers lead to from the empty store,
-- in any order and with timer functions that run late: entries are filed under their own key,
-- address and subnet, which are those of their key; each entry and each waiting packet has its own
-- timer running; and no packet waits for an address or a subnet that is known.
pub Reach-Inv : {env : Env} {st : Store} → Reach env st → Inv env st
Reach-Inv {env} start = init-Inv env
Reach-Inv (next r s) = Step-Inv (Reach-Inv r) s
