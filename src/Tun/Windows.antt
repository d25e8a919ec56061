-- ===== src/Tun/Windows.antt =====
-- setup of src/tun/tun_windows.go. elevate.DoAsSystem, the device, the setting of its address and of
-- its MTU are parameters; the setting of the address is a function of the number of the try.
use v6space.Base.{
  ℕ, zero, suc, ◌+◌, ◌*◌, ◌≤◌, ◌≡◌, inl, inr, refl, ap, ◌∙◌, Bool, true, false, ◌&&◌, ◌||◌, ltb,
  Option, none, some, List, if◌then◌else◌, bytes_eq, codes, arith, Bool-cases,
}
use v6space.Tun.{TunAdapter, SetupFault, fails}

-- What creating the device gives at the first and at the second time, the tries to set the address,
-- whether the MTU can be set, and the MTU that the device then reports.
pub record WindowsDevice : Type 0 where
  pub creates : Bool
  pub creates_again : Bool
  pub address_tries : ℕ → Bool
  pub mtu_set : Bool
  pub reported_mtu : Option ℕ

-- What elevate.DoAsSystem does by itself: whether it runs the function it is given, and whether it
-- adds no error of its own once the function has returned.
pub record Elevation : Type 0 where
  pub runs : Bool
  pub ends : Bool

-- Whether the address is set in the end, the tries that were made, and the seconds slept.
pub record Tried : Type 0 where
  pub set : Bool
  pub tries : ℕ
  pub slept : ℕ

abbrev pub after_sleep : ℕ → Tried → Tried
after_sleep i t = record t { tries = t.tries + 1; slept = 2 * i + t.slept }

-- The loop over `i` below 10, with the rounds that are left as fuel.
unfoldable pub try_address : (ℕ → Bool) → ℕ → ℕ → Tried
try_address works zero i = record { set = true; tries = 0; slept = 0 }
try_address works (suc left) i =
    let more = try_address works left (i + 1) in
    if works i
    then record { set = true; tries = 1; slept = 0 }
    else if ltb 8 i
    then record { set = false; tries = 1; slept = 0 }
    else after_sleep i more

abbrev pub windows_name : List ℕ → List ℕ → List ℕ
windows_name default ifname = if bytes_eq ifname (codes "auto") then default else ifname

abbrev pub reported : Option ℕ → TunAdapter → TunAdapter
reported none tun = tun
reported (some m) tun = record tun { mtu = m }

-- The end of setup, over whether the device is created, its address and its MTU are set.
abbrev pub ended : Bool → Bool → Bool → TunAdapter → TunAdapter → TunAdapter × Option SetupFault
ended created set mtu_set new old =
    if created
    then (if set then (if mtu_set then (new, none) else (old, some fails)) else (old, some fails))
    else (old, some fails)

-- The function that setup gives DoAsSystem.
unfoldable pub set_up_device : WindowsDevice → TunAdapter → TunAdapter × Option SetupFault
set_up_device device tun =
    let tried = try_address device.address_tries 9 1 in
    ended (device.creates || device.creates_again) tried.set device.mtu_set
      (reported device.reported_mtu tun) tun

-- DoAsSystem around a function.
abbrev pub as_system :
    Elevation → TunAdapter → TunAdapter × Option SetupFault → TunAdapter × Option SetupFault
as_system e old made =
    if e.runs then (if e.ends then made else (made.0, some fails)) else (old, some fails)

-- setup, over the default name of a device.
unfoldable pub setup_windows :
    List ℕ
    → Elevation
    → (List ℕ → ℕ → WindowsDevice)
    → ℕ
    → TunAdapter
    → TunAdapter × Option SetupFault
setup_windows default e create mtu tun =
    as_system e tun (set_up_device (create (windows_name default tun.name) mtu) tun)

-- Whether a try works among the first ones.
abbrev pub works_among : (ℕ → Bool) → ℕ → ℕ → Bool
works_among works zero i = false
works_among works (suc left) i = works i || works_among works left (i + 1)

try_address-from :
    (works : ℕ → Bool) (left i : ℕ)
    → i + left ≡ 9
    → ((try_address works (suc left) i).set ≡ works_among works (suc left) i)
      × ((try_address works (suc left) i).tries ≤ left + 1)
unfolding try_address
try_address-from works zero i e =
    let last : ltb 8 i ≡ true = ground (arith, e) in
    elim (Bool-cases (works i)) [
      | inl w ↦ rw (try_address, w) (refl, omega arith)
      | inr w ↦ rw (try_address, w, last) (refl, omega arith)
    ]
try_address-from works (suc left) i e =
    let early : ltb 8 i ≡ false = ground (arith, e) in
    let rest = try_address-from works left (i + 1) (omega (arith, e)) in
    elim (Bool-cases (works i)) [
      | inl w ↦ rw (try_address, w) (refl, omega arith)
      | inr w ↦ rw (try_address, w, early) (rest.0, omega (arith, rest.1))
    ]

abbrev pub is_fine : Option SetupFault → Bool
is_fine none = true
is_fine (some e) = false

fine : (a b c : Bool) (new old : TunAdapter) → is_fine (ended a b c new old).1 ≡ (a && b && c)
fine true true true new old = refl
fine true true false new old = refl
fine true false c new old = refl
fine false b c new old = refl

set_up_device-fine :
    (device : WindowsDevice) (tun : TunAdapter)
    → is_fine (set_up_device device tun).1 ≡ (
        (device.creates || device.creates_again)
        && works_among device.address_tries 9 1
        && device.mtu_set)
unfolding set_up_device
set_up_device-fine device tun =
    ap
      (λ b.
        is_fine
          (ended (device.creates || device.creates_again) b device.mtu_set
            (reported device.reported_mtu tun) tun).1)
      (try_address-from device.address_tries 8 1 refl).0
    ∙ fine (device.creates || device.creates_again) (works_among device.address_tries 9 1)
        device.mtu_set (reported device.reported_mtu tun) tun

as_system-fine :
    (e : Elevation) (old : TunAdapter) (made : TunAdapter × Option SetupFault)
    → is_fine (as_system e old made).1 ≡ (e.runs && e.ends && is_fine made.1)
as_system-fine e old made = go e.runs e.ends
  where
    go :
        (a b : Bool)
        → is_fine (if a then (if b then made else (made.0, some fails)) else (old, some fails)).1
          ≡ (a && b && is_fine made.1)
    go true true = refl
    go true false = refl
    go false b = refl

-- On Windows the set-up of the device tries to set the address at most nine times; it sets it
-- exactly if one of nine tries would work; and the set-up ends without a fault exactly if
-- DoAsSystem runs it and adds no error of its own, the device is created, at the first or the
-- second time, one of the tries works, and the MTU can be set.
pub setup_windows_cases :
    (default : List ℕ) (e : Elevation) (create : List ℕ → ℕ → WindowsDevice) (mtu : ℕ)
    (tun : TunAdapter)
    → let device = create (windows_name default tun.name) mtu in
      ((try_address device.address_tries 9 1).tries ≤ 9)
      × ((try_address device.address_tries 9 1).set ≡ works_among device.address_tries 9 1)
      × (is_fine (setup_windows default e create mtu tun).1 ≡ (
          e.runs
          && e.ends
          && ((device.creates || device.creates_again)
              && works_among device.address_tries 9 1
              && device.mtu_set)))
unfolding setup_windows
setup_windows_cases default e create mtu tun =
    let device = create (windows_name default tun.name) mtu in
    let (set, tries) = try_address-from device.address_tries 8 1 refl in
    (
      tries,
      set,
      as_system-fine e tun (set_up_device device tun)
          ∙ ap (λ b. e.runs && e.ends && b) (set_up_device-fine device tun),
    )
