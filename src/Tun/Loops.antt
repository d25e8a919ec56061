-- ===== src/Tun/Loops.antt =====
-- The adapter's two loops over the key store.
use v6space.Base.{
  ℕ, ◌<◌, ◌≡◌, ◌≢◌, refl, sym, ap, ◌∙◌, inl, inr, Bool, true, Option, none, some, List, [], ◌∷◌,
  length, All, leb, if◌then◌else◌, arith, Bool-cases,
}
use v6space.Ipv6rwc.Store.{Env, Store}
use v6space.Ipv6rwc.Store.Invariant.{Inv}
use v6space.Ipv6rwc.Packet.{
  crash, write_pc, Marshal, Incoming, packet, Returned, waiting, read_error, delivered, read_pc,
}
use v6space.Ipv6rwc.Packet.Guards.{write_pc_cases}
use v6space.Ipv6rwc.Packet.Admission.{Among, IsAdmitted, HasKey, read_pc-IsAdmitted}
use v6space.Tun.{read, write_round}

write_pc-safe :
    (env : Env) (bs : List ℕ) (st : Store) → 4 < length bs → (write_pc env bs st).result ≢ crash
write_pc-safe env bs st h e = elim (write_pc_cases env bs st) [
  | inl c ↦ absurd (omega (arith, h, ap length c.0))
  | inr (_, inl (_, refused)) ↦ absurd (cc (e, refused.0))
  | inr (_, inr (inl (_, _, refused))) ↦ absurd (cc (e, refused.0))
  | inr (_, inr (inr (inl (_, _, _, refused)))) ↦ absurd (cc (e, refused.0))
  | inr (_, inr (inr (inr (inl c)))) ↦ absurd (cc (e, c.3.0))
  | inr (_, inr (inr (inr (inr (inl c))))) ↦ absurd (cc (e, c.2))
  | inr (_, inr (inr (inr (inr (inr c))))) ↦ absurd (cc (e, c.3))
]

-- Whatever the device gives, no Write of the reading loop crashes: what is too short never reaches
-- the key store.
pub read-safe :
    (env : Env) (events : List (Option (List ℕ))) (st : Store)
    → All (λ r. r ≢ crash) (read env events st).results
unfolding read
read-safe env [] st = tt
read-safe env (none ∷ events) st = tt
read-safe env (some bs ∷ events) st = elim (Bool-cases (leb (length bs) 4)) [
  | inl short ↦ rw short tt
  | inr long ↦ rw long (
    write_pc-safe env bs st (ground (arith, long)),
    read-safe env events (write_pc env bs st).store,
  )
]

-- What the writing loop puts on the device, from a key store in a valid state, is the start of a
-- packet that readPC admits, and the adapter is enabled.
pub write_round-IsAdmitted :
    (enabled : Bool) (env : Env) (marshal : Marshal) (mtu room : ℕ) (events : List Incoming)
    (st : Store) (out : List ℕ)
    → Inv env st
    → All HasKey events
    → write_round enabled (read_pc env marshal mtu room events st).result ≡ some out
    → (enabled ≡ true)
      × ((bs : List ℕ) × (from : List ℕ) × Among (packet bs from) events
          × IsAdmitted env mtu room bs from out)
unfolding write_round
write_round-IsAdmitted enabled env marshal mtu room events st out inv keys h =
    go (read_pc env marshal mtu room events st).result refl h
  where
    go :
        (r : Returned)
        → (read_pc env marshal mtu room events st).result ≡ r
        → write_round enabled r ≡ some out
        → (enabled ≡ true)
          × ((bs : List ℕ) × (from : List ℕ) × Among (packet bs from) events
              × IsAdmitted env mtu room bs from out)
    go waiting e w = absurd (cc w)
    go (read_error n) e w = absurd (cc w)
    go (delivered got) e w = elim (Bool-cases enabled) [
      | inl on ↦
          let same : got ≡ out = cc (ap (λ b. if b then some got else none) (sym on) ∙ w) in
          (
            on,
            read_pc-IsAdmitted env marshal mtu room events st out inv keys (e ∙ ap delivered same),
          )
      | inr off ↦ absurd (cc (ap (λ b. if b then some got else none) (sym off) ∙ w))
    ]
