-- ===== src/Multicast/Listeners.antt =====
-- The listeners after a round of announcements stand on the interfaces in use.
use v6space.Base.{
  ℕ, ◌≡◌, refl, ap, ◌∙◌, inl, inr, true, Option, none, some, List, [], ◌∷◌, lookup, insert, nat_Eq,
  ==_iff, ◌==◌, ltb, ◌-◌, Option-cases, Bool-cases,
}
use v6space.Multicast.{
  MulticastInterface, Interface, InterfaceInfo, ListenerInfo, Matches, update_interfaces, keeps,
  stop_stale, Env, announce_listener, longer, new_listener, announce_on, announce_all, Multicast,
  announce, Effect, announce_opened, announce_at, is_passed_over, Announced,
}
use v6space.Core.Net.{is_some}
use v6space.Multicast.Interfaces.{
  Entries, Entries-insert, Entries-lookup, update_interfaces-Entries, IsInUse,
}

-- The listeners stand on interfaces that are in use.
abbrev pub OnInterface : List (ℕ × InterfaceInfo) → ℕ → ListenerInfo → Type 0
OnInterface interfaces k l = is_some (lookup k interfaces) ≡ true

keeps-OnInterface :
    (interfaces : List (ℕ × InterfaceInfo)) (k : ℕ) (l : ListenerInfo)
    → keeps interfaces k l ≡ true
    → OnInterface interfaces k l
unfolding keeps
keeps-OnInterface interfaces k l h = elim (Option-cases (lookup k interfaces)) [
  | inl e ↦ absurd (cc (rw (keeps, e) at h))
  | inr (info, e) ↦ rw e refl
]

stop_stale-OnInterface :
    (interfaces : List (ℕ × InterfaceInfo)) (m : List (ℕ × ListenerInfo))
    → Entries (OnInterface interfaces) (stop_stale interfaces m).0
unfolding stop_stale
stop_stale-OnInterface interfaces [] = tt
stop_stale-OnInterface interfaces ((k, l) ∷ m) = elim (Bool-cases (keeps interfaces k l)) [
  | inl e ↦
      rw (stop_stale, e) (keeps-OnInterface interfaces k l e, stop_stale-OnInterface interfaces m)
  | inr e ↦ rw (stop_stale, e) (stop_stale-OnInterface interfaces m)
]

module _ (interfaces : List (ℕ × InterfaceInfo)) where
  announce_listener-OnInterface :
      (env : Env) (info : InterfaceInfo) (l : ListenerInfo) (m : List (ℕ × ListenerInfo))
      (again : List (ℕ × ListenerInfo) × List Effect)
      → is_some (lookup info.iface.index interfaces) ≡ true
      → Entries (OnInterface interfaces) m
      → Entries (OnInterface interfaces) again.0
      → Entries (OnInterface interfaces) (announce_listener env info l m again).0
  unfolding announce_listener
  announce_listener-OnInterface env info l m again here h r =
      elim (Bool-cases (ltb (env.now - l.time) l.interval)) [
        | inl e ↦ rw (announce_listener, e) r
        | inr e ↦
            rw (announce_listener, e)
              (Entries-insert (OnInterface interfaces) info.iface.index (longer l) m here h)
      ]

  announce_opened-OnInterface :
      (env : Env) (info : InterfaceInfo) (again : List (ℕ × ListenerInfo) → Announced)
      (o : Option ListenerInfo) (m : List (ℕ × ListenerInfo))
      → is_some (lookup info.iface.index interfaces) ≡ true
      → ((t : List (ℕ × ListenerInfo))
          → Entries (OnInterface interfaces) t
          → Entries (OnInterface interfaces) (again t).0)
      → Entries (OnInterface interfaces) m
      → Entries (OnInterface interfaces) (announce_opened env info again o m).0
  unfolding announce_opened
  announce_opened-OnInterface env info again none m here r h = r m h
  announce_opened-OnInterface env info again (some l) m here r h =
      let opened = insert info.iface.index l m in
      let good = Entries-insert (OnInterface interfaces) info.iface.index l m here h in
      announce_listener-OnInterface env info l opened (again opened) here good (r opened good)

  announce_at-OnInterface :
      (env : Env) (info : InterfaceInfo) (ip : List ℕ) (again : List (ℕ × ListenerInfo) → Announced)
      (o : Option ListenerInfo) (m : List (ℕ × ListenerInfo))
      → is_some (lookup info.iface.index interfaces) ≡ true
      → ((t : List (ℕ × ListenerInfo))
          → Entries (OnInterface interfaces) t
          → Entries (OnInterface interfaces) (again t).0)
      → Entries (OnInterface interfaces) m
      → Entries (OnInterface interfaces) (announce_at env info ip again o m).0
  unfolding announce_at
  announce_at-OnInterface env info ip again (some l) m here r h =
      announce_listener-OnInterface env info l m (again m) here h (r m h)
  announce_at-OnInterface env info ip again none m here r h =
      announce_opened-OnInterface env info again
        (new_listener env (env.opens ip info.iface.name info.port)) m here r h

  announce_on-OnInterface :
      (env : Env) (info : InterfaceInfo) (addrs : List (Option (List ℕ)))
      (m : List (ℕ × ListenerInfo))
      → is_some (lookup info.iface.index interfaces) ≡ true
      → Entries (OnInterface interfaces) m
      → Entries (OnInterface interfaces) (announce_on env info addrs m).0
  unfolding announce_on announce_at announce_opened announce_listener
  announce_on-OnInterface env info [] m here h = h
  announce_on-OnInterface env info (none ∷ addrs) m here h =
      announce_on-OnInterface env info addrs m here h
  announce_on-OnInterface env info (some ip ∷ addrs) m here h =
      elim (Bool-cases (is_passed_over ip)) [
        | inl e ↦ rw (announce_on, e) (announce_on-OnInterface env info addrs m here h)
        | inr e ↦ elim (Bool-cases info.beacon) [
          | inr quiet ↦ rw (announce_on, e, quiet) h
          | inl loud ↦
              rw (announce_on, e, loud)
                (announce_at-OnInterface env info ip (announce_on env info addrs)
                  (lookup info.iface.index m) m here
                  (λ t good. announce_on-OnInterface env info addrs t here good) h)
        ]
      ]

  announce_all-OnInterface :
      (env : Env) (is : List (ℕ × InterfaceInfo)) (m : List (ℕ × ListenerInfo))
      → Entries (λ k info. is_some (lookup info.iface.index interfaces) ≡ true) is
      → Entries (OnInterface interfaces) m
      → Entries (OnInterface interfaces) (announce_all env is m).0
  unfolding announce_all
  announce_all-OnInterface env [] m all h = h
  announce_all-OnInterface env ((k, info) ∷ is) m all h =
      announce_all-OnInterface env is (announce_on env info info.addrs m).0 all.1
        (announce_on-OnInterface env info info.addrs m all.0 h)

-- Every key of `m` stands in `n`, so every entry of `m` has its key in `n`.
Entries-within :
    (n m : List (ℕ × InterfaceInfo))
    → ((k : ℕ) → is_some (lookup k m) ≡ true → is_some (lookup k n) ≡ true)
    → Entries (λ k info. is_some (lookup k n) ≡ true) m
unfolding lookup
Entries-within n [] f = tt
Entries-within n ((j, info) ∷ m) f = (f j (there), Entries-within n m (λ k h. f k (later k h)))
  where
    there : is_some (lookup j ((j, info) ∷ m)) ≡ true
    there = rw (lookup, (==_iff j j).1 refl) refl

    later : (k : ℕ) → is_some (lookup k m) ≡ true → is_some (lookup k ((j, info) ∷ m)) ≡ true
    later k h = elim (Bool-cases (j == k)) [
      | inl e ↦ rw (lookup, e) refl
      | inr e ↦ rw (lookup, e) h
    ]

own_index :
    (matches : Matches) (configs : List MulticastInterface) (n m : List (ℕ × InterfaceInfo))
    → Entries (IsInUse matches configs) m
    → Entries (λ k info. is_some (lookup k n) ≡ true) m
    → Entries (λ k info. is_some (lookup info.iface.index n) ≡ true) m
own_index matches configs n [] a b = tt
own_index matches configs n ((k, info) ∷ m) a b =
    (ap (λ i. is_some (lookup i n)) a.0.0.0 ∙ b.0, own_index matches configs n m a.1 b.1)

-- After a round of announcements on an open node, every listener stands under the index of an
-- interface in use: one that is up, can do multicast, matches an enabled configuration and has its
-- addresses from the system in this round. The listeners of other interfaces are gone.
pub announce-IsInUse :
    (matches : Matches) (configs : List MulticastInterface) (system : Option (List Interface))
    (env : Env) (m : Multicast) (k : ℕ) (l : ListenerInfo)
    → m.is_open ≡ true
    → lookup k (announce matches configs system env m).0.listeners ≡ some l
    → (info : InterfaceInfo) × (lookup k (announce matches configs system env m).0.interfaces
        ≡ some info)
      × IsInUse matches configs k info
unfolding announce
announce-IsInUse matches configs system env m k l running h =
    let is = update_interfaces matches configs system in
    let good = update_interfaces-Entries matches configs system in
    let here : is_some (lookup k is) ≡ true =
      Entries-lookup (OnInterface is) k l (announce_all env is (stop_stale is m.listeners).0).0
        (announce_all-OnInterface is env is (stop_stale is m.listeners).0
          (own_index matches configs is is good (Entries-within is is (λ j e. e)))
          (stop_stale-OnInterface is m.listeners))
        (rw (announce, running) at h) in
    elim (Option-cases (lookup k is)) [
      | inl e ↦ absurd (cc (rw e at here))
      | inr (info, e) ↦ (
        info,
        rw (announce, running) e,
        Entries-lookup (IsInUse matches configs) k info is good e,
      )
    ]
