-- ===== src/Multicast/Interfaces.antt =====
-- Which interfaces are used for multicast, and which listeners are kept on them.
use v6space.Base.{
  ℕ, ◌≡◌, refl, sym, ap, ◌⊎◌, inl, inr, Bool, true, false, ◌&&◌, ◌||◌, Option, none, some, List, [],
  ◌∷◌, All, lookup, insert, nat_Eq, ==_iff, ◌==◌, Option-cases, Bool-cases,
}
use mathlib.Core.Path.{subst}
use v6space.Multicast.{
  MulticastInterface, Interface, InterfaceInfo, Matches, config_for, usable, info_of, add_allowed,
  allowed_interfaces, with_addrs, update_interfaces,
}

abbrev pub takes : Matches → MulticastInterface → List ℕ → Bool
takes matches c name = (c.beacon || c.listen) && matches c.regex name

-- The information has the settings of the first configuration that is enabled and matches.
abbrev pub IsConfigured : Matches → InterfaceInfo → List MulticastInterface → Type 0
IsConfigured matches info [] = ⊥
IsConfigured matches info (c ∷ cs) =
    ((takes matches c info.iface.name ≡ true)
      × (info.beacon ≡ c.beacon)
      × (info.listen ≡ c.listen)
      × (info.port ≡ c.port))
    ⊎ ((takes matches c info.iface.name ≡ false) × IsConfigured matches info cs)

abbrev pub IsAllowed : Matches → List MulticastInterface → ℕ → InterfaceInfo → Type 0
IsAllowed matches configs k info =
    (info.iface.index ≡ k)
    × (usable info.iface ≡ true)
    × IsConfigured matches info configs
    × (info.priority ≡ 0)

module _ {ℓ κ} {V : Type ℓ} (P : ℕ → V → Type κ) where
  -- Every entry of a map has the property.
  abbrev pub Entries : List (ℕ × V) → Type κ
  Entries m = All (λ e. P e.0 e.1) m

  pub Entries-insert :
      (k : ℕ) (v : V) (m : List (ℕ × V)) → P k v → Entries m → Entries (insert k v m)
  unfolding insert
  Entries-insert k v [] p h = (p, tt)
  Entries-insert k v ((j, w) ∷ m) p h = elim (Bool-cases (j == k)) [
    | inl e ↦ rw (insert, e) (p, h.1)
    | inr e ↦ rw (insert, e) (h.0, Entries-insert k v m p h.1)
  ]

  pub Entries-lookup : (k : ℕ) (v : V) (m : List (ℕ × V)) → Entries m → lookup k m ≡ some v → P k v
  unfolding lookup
  Entries-lookup k v [] h e = absurd (cc e)
  Entries-lookup k v ((j, w) ∷ m) h e = elim (Bool-cases (j == k)) [
    | inl same ↦
        let found : w ≡ v = cc (rw (lookup, same) at e) in
        let key : j ≡ k = (==_iff j k).0 same in subst (λ n. P n v) key (subst (P j) found h.0)
    | inr other ↦ Entries-lookup k v m h.1 (rw (lookup, other) at e)
  ]

config_for-IsConfigured :
    (matches : Matches) (i : Interface) (configs : List MulticastInterface) (c : MulticastInterface)
    → config_for matches i.name configs ≡ some c
    → IsConfigured matches (info_of i c) configs
unfolding config_for
config_for-IsConfigured matches i [] c h = absurd (cc h)
config_for-IsConfigured matches i (x ∷ xs) c h = elim (Bool-cases (takes matches x i.name)) [
  | inl e ↦
      let same : x ≡ c = cc (rw (config_for, e) at h) in
      inl (
        e,
        ap (λ y. y.beacon) (sym same),
        ap (λ y. y.listen) (sym same),
        ap (λ y. y.port) (sym same),
      )
  | inr e ↦ inr (e, config_for-IsConfigured matches i xs c (rw (config_for, e) at h))
]

add_allowed-IsAllowed :
    (matches : Matches) (configs : List MulticastInterface) (i : Interface)
    (o : Option MulticastInterface) (m : List (ℕ × InterfaceInfo))
    → config_for matches i.name configs ≡ o
    → usable i ≡ true
    → Entries (IsAllowed matches configs) m
    → Entries (IsAllowed matches configs) (add_allowed i o m)
add_allowed-IsAllowed matches configs i none m e u h = h
add_allowed-IsAllowed matches configs i (some c) m e u h =
    Entries-insert (IsAllowed matches configs) i.index (info_of i c) m
      (refl, u, config_for-IsConfigured matches i configs c e, refl) h

allowed_interfaces-IsAllowed :
    (matches : Matches) (configs : List MulticastInterface) (is : List Interface)
    (m : List (ℕ × InterfaceInfo))
    → Entries (IsAllowed matches configs) m
    → Entries (IsAllowed matches configs) (allowed_interfaces matches configs is m)
unfolding allowed_interfaces
allowed_interfaces-IsAllowed matches configs [] m h = h
allowed_interfaces-IsAllowed matches configs (i ∷ is) m h = elim (Bool-cases (usable i)) [
  | inl e ↦
      rw (allowed_interfaces, e)
        (allowed_interfaces-IsAllowed matches configs is
          (add_allowed i (config_for matches i.name configs) m)
          (add_allowed-IsAllowed matches configs i (config_for matches i.name configs) m refl e h))
  | inr e ↦ rw (allowed_interfaces, e) (allowed_interfaces-IsAllowed matches configs is m h)
]

with_addrs-IsAllowed :
    (matches : Matches) (configs : List MulticastInterface) (m : List (ℕ × InterfaceInfo))
    → Entries (IsAllowed matches configs) m
    → Entries
        (λ k info. IsAllowed matches configs k info × (info.iface.system_addrs ≡ some info.addrs))
        (with_addrs m)
unfolding with_addrs
with_addrs-IsAllowed matches configs [] h = tt
with_addrs-IsAllowed matches configs ((k, info) ∷ m) h =
    elim (Option-cases info.iface.system_addrs) [
      | inl e ↦ rw (with_addrs, e) (with_addrs-IsAllowed matches configs m h.1)
      | inr (addrs, e) ↦ rw (with_addrs, e) ((h.0, e), with_addrs-IsAllowed matches configs m h.1)
    ]

-- What holds of the interfaces in use.
abbrev pub IsInUse : Matches → List MulticastInterface → ℕ → InterfaceInfo → Type 0
IsInUse matches configs k info =
    IsAllowed matches configs k info × (info.iface.system_addrs ≡ some info.addrs)

pub update_interfaces-Entries :
    (matches : Matches) (configs : List MulticastInterface) (system : Option (List Interface))
    → Entries (IsInUse matches configs) (update_interfaces matches configs system)
unfolding update_interfaces
update_interfaces-Entries matches configs none = tt
update_interfaces-Entries matches configs (some is) =
    with_addrs-IsAllowed matches configs (allowed_interfaces matches configs is [])
      (allowed_interfaces-IsAllowed matches configs is [] tt)

-- An interface that multicast uses stands under its own index; it is up, can do multicast and is
-- not point to point; it has the settings of the first configuration that is enabled and matches
-- its name, and the addresses that the system gives for it. Its priority is 0, whatever the
-- configuration says.
pub update_interfaces-IsInUse :
    (matches : Matches) (configs : List MulticastInterface) (system : Option (List Interface))
    (k : ℕ) (info : InterfaceInfo)
    → lookup k (update_interfaces matches configs system) ≡ some info
    → IsInUse matches configs k info
update_interfaces-IsInUse matches configs system k info h =
    Entries-lookup (IsInUse matches configs) k info (update_interfaces matches configs system)
      (update_interfaces-Entries matches configs system) h
