-- ===== src/Ipv6rwc/Packet/Guards.antt =====
-- What readPC lets up to the host and what writePC lets out, on every branch.
use v6space.Base.{
  ℕ, ◌≤◌, ◌<◌, ◌≡◌, ◌≢◌, refl, ap, ◌⊎◌, inl, inr, true, false, List, [], ◌∷◌, length, ltb,
  if◌then◌else◌, bytes_eq_iff, arith, Bool-cases, bytes_Eq,
}
use v6space.Core.Address.{is_valid_address, is_valid_subnet}
use v6space.Ipv6rwc.Store.{Env, Store, address_of, subnet_of, send_to_address, send_to_subnet}
use v6space.Ipv6rwc.Packet.{
  Error, not_ipv6, undersized, bad_source, bad_destination, refuse, sent, Written, wrote, failed,
  crash, Outcome, is_ipv6, address_at, subnet_at, names, write_pc,
}

-- The field at `off` holds the address or the subnet of `key`.
abbrev pub Names : Env → List ℕ → ℕ → List ℕ → Type 0
Names env key off bs =
    (address_at off bs ≡ address_of env key) ⊎ (subnet_at off bs ≡ subnet_of env key)

pub names-Names :
    (env : Env) (key : List ℕ) (off : ℕ) (bs : List ℕ)
    → names env key off bs ≡ true
    → Names env key off bs
unfolding names
names-Names env key off bs h = ground (
  arith,
  bytes_eq_iff (address_at off bs) (address_of env key),
  bytes_eq_iff (subnet_at off bs) (subnet_of env key),
)

-- The outcome changes nothing, sends nothing and reports the error.
abbrev pub Refuses : Store → Error → Outcome Written → Type 0
Refuses st e r = (r.result ≡ failed e) × (r.store ≡ st) × (r.effects ≡ [])

refuses : (r : Outcome Written) (st : Store) (e : Error) → r ≡ refuse e st → Refuses st e r
refuses r st e h = (ap (λ o. o.result) h, ap (λ o. o.store) h, ap (λ o. o.effects) h)

-- The node's own IPv6 packets.
abbrev pub IsOwn : Env → List ℕ → Type 0
IsOwn env bs = (is_ipv6 bs ≡ true) × (40 ≤ length bs) × Names env env.public 8 bs

-- What writePC does with a packet of at least one byte: each case goes with what the packet is.
abbrev pub Handles : Env → List ℕ → Store → Outcome Written → Type 0
Handles env bs st r =
    ((is_ipv6 bs ≡ false) × Refuses st not_ipv6 r)
    ⊎ ((is_ipv6 bs ≡ true) × (length bs < 40) × Refuses st (undersized (length bs)) r)
    ⊎ ((is_ipv6 bs ≡ true)
        × (40 ≤ length bs)
        × (¬ Names env env.public 8 bs)
        × Refuses st (bad_source (address_at 8 bs)) r)
    ⊎ (IsOwn env bs
        × (is_valid_address env.prefix (address_at 24 bs) ≡ false)
        × (is_valid_subnet env.prefix (subnet_at 24 bs) ≡ false)
        × Refuses st bad_destination r)
    ⊎ (IsOwn env bs
        × (is_valid_address env.prefix (address_at 24 bs) ≡ true)
        × (r.result ≡ wrote (length bs))
        × (r.store ≡ (send_to_address env (address_at 24 bs) bs st).0)
        × (r.effects ≡ (send_to_address env (address_at 24 bs) bs st).1))
    ⊎ (IsOwn env bs
        × (is_valid_address env.prefix (address_at 24 bs) ≡ false)
        × (is_valid_subnet env.prefix (subnet_at 24 bs) ≡ true)
        × (r.result ≡ wrote (length bs))
        × (r.store ≡ (send_to_subnet env (subnet_at 24 bs) bs st).0)
        × (r.effects ≡ (send_to_subnet env (subnet_at 24 bs) bs st).1))

-- What writePC does with any bytes.
abbrev pub Writes : Env → List ℕ → Store → Outcome Written → Type 0
Writes env bs st r =
    ((bs ≡ []) × (r.result ≡ crash) × (r.store ≡ st) × (r.effects ≡ []))
    ⊎ ((bs ≢ []) × Handles env bs st r)

abbrev dispatch : Env → List ℕ → Store → Outcome Written
dispatch env bs st =
    if is_valid_address env.prefix (address_at 24 bs)
    then sent (length bs) (send_to_address env (address_at 24 bs) bs st)
    else if is_valid_subnet env.prefix (subnet_at 24 bs)
    then sent (length bs) (send_to_subnet env (subnet_at 24 bs) bs st)
    else refuse bad_destination st

addressed :
    (env : Env) (bs : List ℕ) (st : Store) {r : Outcome Written}
    → IsOwn env bs
    → r ≡ dispatch env bs st
    → Handles env bs st r
addressed env bs st own h =
    rw h (elim (Bool-cases (is_valid_address env.prefix (address_at 24 bs))) [
      | inl a ↦ rw a (inr (inr (inr (inr (inl (own, refl, refl, refl, refl))))))
      | inr na ↦ elim (Bool-cases (is_valid_subnet env.prefix (subnet_at 24 bs))) [
        | inl s ↦ rw (na, s) (inr (inr (inr (inr (inr (own, refl, refl, refl, refl, refl))))))
        | inr e ↦
            rw (na, e) (inr (inr (inr (inl (own, refl, refl, refuses _ st bad_destination refl)))))
      ]
    ])

other-Names :
    (env : Env) (key : List ℕ) (off : ℕ) (bs : List ℕ)
    → names env key off bs ≡ false
    → ¬ Names env key off bs
unfolding names
other-Names env key off bs h (inl e) =
    absurd (ground (arith, h, (bytes_eq_iff (address_at off bs) (address_of env key)).1 e))
other-Names env key off bs h (inr e) =
    absurd (ground (arith, h, (bytes_eq_iff (subnet_at off bs) (subnet_of env key)).1 e))

not_empty : (b : ℕ) (bs : List ℕ) → (b ∷ bs) ≢ []
not_empty b bs e = absurd (cc e)

write_pc-Handles :
    (env : Env) (b : ℕ) (rest : List ℕ) (st : Store)
    → Handles env (b ∷ rest) st (write_pc env (b ∷ rest) st)
unfolding write_pc
write_pc-Handles env b rest st =
    let bs = b ∷ rest in
    elim (Bool-cases (is_ipv6 bs)) [
      | inr e ↦ inl (e, refuses _ st not_ipv6 (rw e))
      | inl v6 ↦ elim (Bool-cases (ltb (length bs) 40)) [
        | inl e ↦
            inr (inl (v6, ground (arith, e), refuses _ st (undersized (length bs)) (rw (v6, e))))
        | inr long ↦ elim (Bool-cases (names env env.public 8 bs)) [
          | inr e ↦ inr (
              inr (
                inl (
                  v6,
                  ground (arith, long),
                  other-Names env env.public 8 bs e,
                  refuses _ st (bad_source (address_at 8 bs)) (rw (v6, long, e)),
                )))
          | inl ours ↦
              addressed env bs st (v6, ground (arith, long), names-Names env env.public 8 bs ours)
                (rw (v6, long, ours))
        ]
      ]
    ]

-- writePC crashes on no bytes, having changed and sent nothing. Any other bytes are handled:
-- it refuses what is not IPv6, what is below 40 bytes, what does not come from this node's address
-- or subnet, and what goes to no valid address or subnet, each with its own error, changing nothing
-- and sending nothing; and it sends all else, to the address where that is valid, and else to the
-- subnet.
pub write_pc_cases : (env : Env) (bs : List ℕ) (st : Store) → Writes env bs st (write_pc env bs st)
unfolding write_pc
write_pc_cases env [] st = inl (refl, refl, refl, refl)
write_pc_cases env (b ∷ rest) st = inr (not_empty b rest, write_pc-Handles env b rest st)
