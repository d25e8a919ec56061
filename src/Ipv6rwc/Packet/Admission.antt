-- ===== src/Ipv6rwc/Packet/Admission.antt =====
-- What readPC hands up to the host, and that both packet paths keep the key store's invariant.
use v6space.Base.{
  ℕ, ◌≤◌, ◌≡◌, refl, ap, ◌∙◌, ◌⊎◌, inl, inr, true, not, ◌&&◌, Option, none, some, List, [], ◌∷◌,
  length, take, ◌==◌, ltb, bytes_eq, bytes_eq_iff, arith, Bool-cases, Option-cases, lookup,
  bytes_Eq, All,
}
use v6space.Core.Address.{key_size}
use v6space.Ipv6rwc.Store.{Env, Store, address_of, subnet_of, update}
use v6space.Ipv6rwc.Store.Invariant.{Inv}
use v6space.Ipv6rwc.Store.Delivery.{copy_into_same}
use v6space.Ipv6rwc.Store.Steps.{update-Inv, send_to_address-Inv, send_to_subnet-Inv}
use v6space.Ipv6rwc.Packet.{
  Outcome, is_ipv6, address_at, subnet_at, names, write_pc, Marshal, too_big_answer, ignore,
  too_big, accept, read_step, Incoming, broken, packet, delivered, read_pc,
}
use v6space.Ipv6rwc.Packet.Guards.{Names, names-Names, write_pc_cases}

-- The entry that `update` returns is that of the key.
update-info :
    (env : Env) (st : Store) (key : List ℕ)
    → Inv env st
    → length key ≡ key_size
    → ((update env key st).info.address ≡ address_of env key)
      × ((update env key st).info.subnet ≡ subnet_of env key)
unfolding update
update-info env st key v size = elim (Option-cases (lookup key st.key_to_info)) [
  | inl e ↦ rw (copy_into_same key size, update, e) (rw (copy_into_same key size) (refl, refl))
  | inr (info, e) ↦
      let old = v.by_key key info e in
      rw (copy_into_same key size, update, e)
        (old.1.0 ∙ ap (address_of env) old.0, old.1.1 ∙ ap (subnet_of env) old.0)
]

write_pc-Inv :
    (env : Env) (bs : List ℕ) (st : Store) → Inv env st → Inv env (write_pc env bs st).store
write_pc-Inv env bs st v = elim (write_pc_cases env bs st) [
  | inl crashed ↦ rw crashed.2 v
  | inr (_, inl (_, refused)) ↦ rw refused.1 v
  | inr (_, inr (inl (_, _, refused))) ↦ rw refused.1 v
  | inr (_, inr (inr (inl (_, _, _, refused)))) ↦ rw refused.1 v
  | inr (_, inr (inr (inr (inl c)))) ↦ rw c.3.1 v
  | inr (_, inr (inr (inr (inr (inl c))))) ↦ rw c.3 (send_to_address-Inv v (address_at 24 bs) bs)
  | inr (_, inr (inr (inr (inr (inr c))))) ↦ rw c.4 (send_to_subnet-Inv v (subnet_at 24 bs) bs)
]

too_big-Inv :
    (env : Env) (marshal : Marshal) (mtu : ℕ) (bs : List ℕ) (st : Store)
    → Inv env st
    → Inv env (too_big env marshal mtu bs st).store
unfolding too_big
too_big-Inv env marshal mtu bs st v = elim (Option-cases (too_big_answer marshal mtu bs)) [
  | inl e ↦ rw (too_big, e) v
  | inr (p, e) ↦ rw (too_big, e) (write_pc-Inv env p st v)
]

-- What readPC hands up: an IPv6 packet of at least 40 bytes and at most the MTU, for this node's
-- address or subnet, from the address or the subnet of the node that sent it, cut to the buffer.
pub record IsAdmitted (env : Env) (mtu room : ℕ) (bs from out : List ℕ) : Type 0 where
  pub ipv6 : is_ipv6 bs ≡ true
  pub long : 40 ≤ length bs
  pub fits : length bs ≤ mtu
  pub to_us : Names env env.public 24 bs
  pub from_them : Names env from 8 bs
  pub cut : out ≡ take room bs

too_big-none :
    (env : Env) (marshal : Marshal) (mtu : ℕ) (bs : List ℕ) (st : Store)
    → (too_big env marshal mtu bs st).result ≡ none
unfolding too_big
too_big-none env marshal mtu bs st = ground arith

accept-IsAdmitted :
    (env : Env) (mtu room : ℕ) (bs from out : List ℕ) (st : Store)
    → Inv env st
    → length from ≡ key_size
    → is_ipv6 bs ≡ true
    → 40 ≤ length bs
    → length bs ≤ mtu
    → Names env env.public 24 bs
    → (accept env room bs from st).result ≡ some out
    → IsAdmitted env mtu room bs from out
unfolding accept
accept-IsAdmitted env mtu room bs from out st v size v6 long fits ours h =
    let info = (update env from st).info in
    let genuine = update-info env st from v size in
    record {
      ipv6 = v6;
      long = long;
      fits = fits;
      to_us = ours;
      from_them = ground (
        arith,
        bytes_eq_iff (address_at 8 bs) info.address,
        bytes_eq_iff (subnet_at 8 bs) info.subnet,
      );
      cut = ground arith;
    }

-- The three ways out of a round.
read_step_cases {ℓ} :
    (P : Outcome (Option (List ℕ)) → Type ℓ) (env : Env) (marshal : Marshal) (mtu room : ℕ)
    (bs from : List ℕ) (st : Store)
    → P (ignore st)
    → P (too_big env marshal mtu bs st)
    → (is_ipv6 bs ≡ true
        → 40 ≤ length bs
        → length bs ≤ mtu
        → Names env env.public 24 bs
        → P (accept env room bs from st))
    → P (read_step env marshal mtu room bs from st)
unfolding read_step
read_step_cases P env marshal mtu room bs from st none' big got =
    elim (Bool-cases (length bs == 0)) [
      | inl e ↦ rw e none'
      | inr some' ↦ elim (Bool-cases (is_ipv6 bs)) [
        | inr e ↦ rw (some', e) none'
        | inl v6 ↦ elim (Bool-cases (ltb (length bs) 40)) [
          | inl e ↦ rw (some', v6, e) none'
          | inr long ↦ elim (Bool-cases (ltb mtu (length bs))) [
            | inl e ↦ rw (some', v6, long, e) big
            | inr fits ↦ elim (Bool-cases (names env env.public 24 bs)) [
              | inr e ↦ rw (some', v6, long, fits, e) none'
              | inl ours ↦
                  rw (some', v6, long, fits, ours)
                    (got v6 (ground arith) (ground arith) (names-Names env env.public 24 bs ours))
            ]
          ]
        ]
      ]
    ]

read_step-IsAdmitted :
    (env : Env) (marshal : Marshal) (mtu room : ℕ) (bs from out : List ℕ) (st : Store)
    → Inv env st
    → length from ≡ key_size
    → (read_step env marshal mtu room bs from st).result ≡ some out
    → IsAdmitted env mtu room bs from out
read_step-IsAdmitted env marshal mtu room bs from out st v size =
    read_step_cases (λ r. r.result ≡ some out → IsAdmitted env mtu room bs from out) env marshal mtu
      room bs from st (λ h. absurd (cc h))
      (λ h. absurd (cc (h, too_big-none env marshal mtu bs st)))
      (λ v6 long fits ours h.
        accept-IsAdmitted env mtu room bs from out st v size v6 long fits ours h)

accept-Inv :
    (env : Env) (room : ℕ) (bs from : List ℕ) (st : Store)
    → Inv env st
    → Inv env (accept env room bs from st).store
unfolding accept
accept-Inv env room bs from st v =
    let info = (update env from st).info in
    elim (Bool-cases (
      not (bytes_eq (address_at 8 bs) info.address)
      && not (bytes_eq (subnet_at 8 bs) info.subnet))) [
        | inl e ↦ rw e (update-Inv v from)
        | inr e ↦ rw e (update-Inv v from)
      ]

read_step-Inv :
    (env : Env) (marshal : Marshal) (mtu room : ℕ) (bs from : List ℕ) (st : Store)
    → Inv env st
    → Inv env (read_step env marshal mtu room bs from st).store
read_step-Inv env marshal mtu room bs from st v =
    read_step_cases (λ r. Inv env r.store) env marshal mtu room bs from st v
      (too_big-Inv env marshal mtu bs st v) (λ v6 long fits ours. accept-Inv env room bs from st v)

-- An event of the list.
abbrev pub Among : Incoming → List Incoming → Type 0
Among x [] = ⊥
Among x (y ∷ ys) = (x ≡ y) ⊎ Among x ys

-- Senders have keys of 32 bytes.
abbrev pub HasKey : Incoming → Type 0
HasKey (broken n) = Unit
HasKey (packet bs from) = length from ≡ key_size

-- From a key store in a valid state, whatever readPC returns to its caller is a packet that one
-- of the events brought and that is admitted, cut to the caller's buffer.
pub read_pc-IsAdmitted :
    (env : Env) (marshal : Marshal) (mtu room : ℕ) (events : List Incoming) (st : Store)
    (out : List ℕ)
    → Inv env st
    → All HasKey events
    → (read_pc env marshal mtu room events st).result ≡ delivered out
    → (bs : List ℕ) × (from : List ℕ) × Among (packet bs from) events
      × IsAdmitted env mtu room bs from out
unfolding read_pc
read_pc-IsAdmitted env marshal mtu room [] st out v keys h = absurd (cc h)
read_pc-IsAdmitted env marshal mtu room (broken n ∷ events) st out v keys h = absurd (cc h)
read_pc-IsAdmitted env marshal mtu room (packet bs from ∷ events) st out v keys h =
    let one = read_step env marshal mtu room bs from st in
    let later =
      read_pc-IsAdmitted env marshal mtu room events one.store out
        (read_step-Inv env marshal mtu room bs from st v) keys.1 in
    elim (Option-cases one.result) [
      | inl e ↦
          let (bs', from', among, good) = later (rw (read_pc, e) at h) in
          (bs', from', inr among, good)
      | inr (o, e) ↦
          let same : o ≡ out = cc (rw (read_pc, e) at h) in
          (
            bs,
            from,
            inl refl,
            read_step-IsAdmitted env marshal mtu room bs from out st v keys.0 (e ∙ ap some same),
          )
    ]

read_pc-Inv :
    (env : Env) (marshal : Marshal) (mtu room : ℕ) (events : List Incoming) (st : Store)
    → Inv env st
    → Inv env (read_pc env marshal mtu room events st).store
unfolding read_pc
read_pc-Inv env marshal mtu room [] st v = v
read_pc-Inv env marshal mtu room (broken n ∷ events) st v = v
read_pc-Inv env marshal mtu room (packet bs from ∷ events) st v =
    let one = read_step env marshal mtu room bs from st in
    let kept = read_step-Inv env marshal mtu room bs from st v in
    let later = read_pc-Inv env marshal mtu room events one.store kept in
    elim (Option-cases one.result) [
      | inl e ↦ rw (read_pc, e) later
      | inr (o, e) ↦ rw (read_pc, e) kept
    ]

-- Both packet paths keep the invariant of the key store, whatever they return.
pub packet_paths-Inv :
    (env : Env) (marshal : Marshal) (mtu room : ℕ) (events : List Incoming) (bs : List ℕ)
    (st : Store)
    → Inv env st
    → Inv env (read_pc env marshal mtu room events st).store × Inv env (write_pc env bs st).store
packet_paths-Inv env marshal mtu room events bs st v =
    (read_pc-Inv env marshal mtu room events st v, write_pc-Inv env bs st v)
