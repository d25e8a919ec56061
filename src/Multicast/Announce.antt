-- ===== src/Multicast/Announce.antt =====
-- Rounds of announcements on one interface.
use v6space.Base.{
  ℕ, zero, suc, ◌+◌, ◌-◌, ◌≤◌, ◌≡◌, refl, ap, ◌∙◌, inl, inr, true, false, Option, none, some, List,
  [], ◌∷◌, ◌++◌, lookup, insert, lookup-insert, nat_Eq, ==_iff, ltb, arith, Bool-cases,
  if◌then◌else◌, replicate,
}
use v6space.Core.Dial.Transport.{TcpAddr}
use v6space.Multicast.{
  InterfaceInfo, ListenerInfo, Env, announce_listener, announce_at, announce_on, make_beacon,
  beacon_of, longer, joined, is_passed_over, Effect, sends,
}

-- The first address of an interface that the loop does not pass over.
abbrev pub first_address : List (Option (List ℕ)) → Option (List ℕ)
first_address [] = none
first_address (none ∷ addrs) = first_address addrs
first_address (some ip ∷ addrs) = if is_passed_over ip then first_address addrs else some ip

-- An existing listener whose interval is over.
announce_on-due :
    (env : Env) (info : InterfaceInfo) (addrs : List (Option (List ℕ))) (ip : List ℕ)
    (m : List (ℕ × ListenerInfo)) (l : ListenerInfo)
    → first_address addrs ≡ some ip
    → info.beacon ≡ true
    → lookup info.iface.index m ≡ some l
    → l.time + l.interval ≤ env.now
    → announce_on env info addrs m
      ≡ (insert info.iface.index (longer l) m, joined info ++ beacon_of env info.iface.name l.addr)
unfolding announce_on announce_at announce_listener
announce_on-due env info [] ip m l first loud found due = absurd (cc first)
announce_on-due env info (none ∷ addrs) ip m l first loud found due =
    announce_on-due env info addrs ip m l first loud found due
announce_on-due env info (some x ∷ addrs) ip m l first loud found due =
    elim (Bool-cases (is_passed_over x)) [
      | inl e ↦
          rw (announce_on, e) (announce_on-due env info addrs ip m l (rw e at first) loud found due)
      | inr e ↦
          let late : ltb (env.now - l.time) l.interval ≡ false = ground (arith, due) in
          rw (announce_on, e, loud, found, announce_at, announce_listener, late) refl
    ]

abbrev pub at_time : Env → ℕ → Env
at_time env t = record env { now = t }

-- The effects of rounds one second apart.
abbrev pub rounds : Env → InterfaceInfo → ℕ → ℕ → List (ℕ × ListenerInfo) → List (List Effect)
rounds env info t zero m = []
rounds env info t (suc n) m =
    let r = announce_on (at_time env t) info info.addrs m in r.1 ∷ rounds env info (t + 1) n r.0

-- On an interface with beacons on and a usable address, and a listener on it whose address resolves
-- and whose interval was over at the first of `n` rounds that are one second apart, every one of the
-- rounds sends the beacon, however many there are.
pub rounds-sends :
    (env : Env) (info : InterfaceInfo) (ip : List ℕ) (a : TcpAddr) (n t : ℕ)
    (m : List (ℕ × ListenerInfo)) (l : ListenerInfo)
    → first_address info.addrs ≡ some ip
    → info.beacon ≡ true
    → lookup info.iface.index m ≡ some l
    → l.addr ≡ some a
    → l.time + l.interval ≤ t
    → rounds env info t n m
      ≡ replicate n (joined info ++ sends (make_beacon env.self_key a) info.iface.name ∷ [])
rounds-sends env info ip a zero t m l first loud found resolved due = refl
rounds-sends env info ip a (suc n) t m l first loud found resolved due =
    let step = announce_on-due (at_time env t) info info.addrs ip m l first loud found due in
    let next : lookup info.iface.index (insert info.iface.index (longer l) m) ≡ some (longer l) =
      lookup-insert info.iface.index info.iface.index (longer l) m
      ∙ ap (λ b. if b then some (longer l) else lookup info.iface.index m)
          ((==_iff info.iface.index info.iface.index).1 refl) in
    let more : (longer l).time + (longer l).interval ≤ t + 1 = ground (arith, due) in
    let rest =
      rounds-sends env info ip a n (t + 1) (insert info.iface.index (longer l) m) (longer l) first
        loud next resolved more in
    ap (λ r. r.1 ∷ rounds env info (t + 1) n r.0) step
    ∙ ap
        (λ o.
          (joined info ++ beacon_of (at_time env t) info.iface.name o)
          ∷ rounds env info (t + 1) n (insert info.iface.index (longer l) m))
        resolved
    ∙ ap (λ es. (joined info ++ sends (make_beacon env.self_key a) info.iface.name ∷ []) ∷ es) rest
