-- ===== src/Tun/Bsd.antt =====
-- src/tun/tun_bsd.go: the set-up of the device and of its address. The controls that fail are only
-- logged and tried with a command.
use v6space.Base.{
  ℕ, ◌≡◌, ◌↔◌, inl, inr, refl, Bool, true, false, not, Option, none, some, List, if◌then◌else◌,
}
use v6space.Tun.{Device, TunAdapter, SetupFault, panics, fails, device_mtu}
use v6space.Tun.Darwin.{Controls, groups, address_parts, controlled, setup_address}

abbrev pub group_fault : Option (List ℕ) → Option SetupFault
group_fault none = some panics
group_fault (some gs) = none

-- setupAddress.
unfoldable pub bsd_setup_address : Controls → List ℕ → Option SetupFault
bsd_setup_address c addr =
    if c.socket then group_fault (groups c 8 (address_parts addr)) else some fails

-- setup.
unfoldable pub setup_bsd :
    ℕ → (List ℕ → ℕ → Device) → Controls → List ℕ → ℕ → TunAdapter → TunAdapter × Option SetupFault
setup_bsd maximum create c addr mtu tun =
    let device = create tun.name mtu in
    let made = record tun { mtu = device_mtu maximum device.reported_mtu } in
    if device.created then (made, bsd_setup_address c addr) else (tun, some panics)

controlled-panics :
    (c : Controls) (o : Option (List ℕ))
    → (group_fault o ≡ some panics) ↔ (controlled c o ≡ inr panics)
controlled-panics c none = (λ h. refl, λ h. refl)
controlled-panics c (some gs) = (λ h. absurd (cc h), λ h. absurd (go c.sets_address c.sets_mtu h))
  where
    go :
        (a b : Bool)
        → (if not a then inr fails else if not b then inr fails else inl gs) ≡ inr panics
        → ⊥
    go true true h = cc h
    go true false h = cc h
    go false b h = cc h

-- The set-up of the address panics on exactly the addresses that it panics on under Darwin.
pub bsd_setup_address-setup_address :
    (c : Controls) (addr : List ℕ)
    → (bsd_setup_address c addr ≡ some panics) ↔ (setup_address c addr ≡ inr panics)
unfolding bsd_setup_address setup_address
bsd_setup_address-setup_address c addr = go c.socket
  where
    gs : Option (List ℕ)
    gs = groups c 8 (address_parts addr)

    go :
        (b : Bool)
        → ((if b then group_fault gs else some fails) ≡ some panics)
          ↔ ((if b then controlled c gs else inr fails) ≡ inr panics)
    go true = controlled-panics c gs
    go false = (λ h. absurd (cc h), λ h. absurd (cc h))
