-- ===== src/Tun/Darwin.antt =====
-- src/tun/tun_darwin.go: the set-up of the device and of its address. The device, the socket and
-- its controls are parameters.
use v6space.Base.{
  ℕ, zero, suc, ◌+◌, ◌*◌, ◌/◌, ◌%◌, ltb, ◌≡◌, ◌<◌, ◌≤◌, ◌⊎◌, inl, inr, refl, ap, ◌∙◌, Bool, true,
  not, Option, none, some, List, [], ◌∷◌, length, if◌then◌else◌, bytes_eq, split_by, codes,
  Bool-cases, arith,
}
use v6space.Tun.{Device, TunAdapter, SetupFault, panics, fails, device_mtu}

-- The socket and the two controls, and strconv.ParseUint to base 16, with what it gives besides an
-- error.
pub record Controls : Type 0 where
  pub socket : Bool
  pub sets_address : Bool
  pub sets_mtu : Bool
  pub parse_group : List ℕ → ℕ

-- `binary.BigEndian` on what `binary.LittleEndian` put there: the two bytes swapped.
abbrev pub swap_bytes : ℕ → ℕ
swap_bytes x = x % 256 * 256 + x / 256 % 256

-- The loop over the groups; `none` is the index out of range.
abbrev pub cons_group : ℕ → Option (List ℕ) → Option (List ℕ)
cons_group g none = none
cons_group g (some gs) = some (g ∷ gs)

unfoldable pub groups : Controls → ℕ → List (List ℕ) → Option (List ℕ)
groups c zero parts = some []
groups c (suc left) [] = none
groups c (suc left) (p ∷ parts) = cons_group (swap_bytes (c.parse_group p)) (groups c left parts)

-- The parts of the address in front of the prefix length.
abbrev pub address_parts : List ℕ → List (List ℕ)
address_parts addr =
    let front = (split_by b'/' addr).0 in let parts = split_by b':' front in parts.0 ∷ parts.1

-- The address of the request, or what goes wrong.
abbrev pub controlled : Controls → Option (List ℕ) → List ℕ ⊎ SetupFault
controlled c none = inr panics
controlled c (some gs) =
    if not c.sets_address then inr fails else if not c.sets_mtu then inr fails else inl gs

-- setupAddress.
unfoldable pub setup_address : Controls → List ℕ → List ℕ ⊎ SetupFault
setup_address c addr =
    if c.socket then controlled c (groups c 8 (address_parts addr)) else inr fails

abbrev pub fault_of : List ℕ ⊎ SetupFault → Option SetupFault
fault_of (inl gs) = none
fault_of (inr e) = some e

-- The name of the device.
abbrev pub device_name : List ℕ → List ℕ
device_name ifname = if bytes_eq ifname (codes "auto") then codes "utun" else ifname

-- setup.
unfoldable pub setup_darwin :
    ℕ → (List ℕ → ℕ → Device) → Controls → List ℕ → ℕ → TunAdapter → TunAdapter × Option SetupFault
setup_darwin maximum create c addr mtu tun =
    let device = create (device_name tun.name) mtu in
    let made = record tun { mtu = device_mtu maximum device.reported_mtu } in
    if device.created then (made, fault_of (setup_address c addr)) else (tun, some panics)

groups-short :
    (c : Controls) (left : ℕ) (parts : List (List ℕ))
    → length parts < left
    → groups c left parts ≡ none
unfolding groups
groups-short c zero parts h = absurd (omega (arith, h))
groups-short c (suc left) [] h = refl
groups-short c (suc left) (p ∷ parts) h =
    ap (cons_group (swap_bytes (c.parse_group p))) (groups-short c left parts (omega (arith, h)))

groups-long :
    (c : Controls) (left : ℕ) (parts : List (List ℕ))
    → left ≤ length parts
    → (gs : List ℕ) × (groups c left parts ≡ some gs) × (length gs ≡ left)
unfolding groups
groups-long c zero parts h = ([], refl, refl)
groups-long c (suc left) [] h = absurd (omega (arith, h))
groups-long c (suc left) (p ∷ parts) h =
    let (gs, e, n) = groups-long c left parts (omega (arith, h)) in
    (swap_bytes (c.parse_group p) ∷ gs, ap (cons_group (swap_bytes (c.parse_group p))) e, ap suc n)

-- The set-up of the device's address panics if the address in front of its prefix length has fewer
-- than eight parts between colons, as a shortened IPv6 address has; and else it gives eight groups
-- if both controls work.
pub setup_address_cases :
    (c : Controls) (addr : List ℕ)
    → c.socket ≡ true
    → ((length (address_parts addr) < 8) × (setup_address c addr ≡ inr panics))
      ⊎ ((8 ≤ length (address_parts addr))
          × (gs : List ℕ) × (length gs ≡ 8)
          × (setup_address c addr ≡ (
              if not c.sets_address
              then inr fails
              else if not c.sets_mtu
              then inr fails
              else inl gs)))
unfolding setup_address
setup_address_cases c addr s =
    let on = ap (λ b. if b then controlled c (groups c 8 (address_parts addr)) else inr fails) s in
    elim (Bool-cases (ltb (length (address_parts addr)) 8)) [
      | inl e ↦
          let short : length (address_parts addr) < 8 = ground (arith, e) in
          inl (short, on ∙ ap (controlled c) (groups-short c 8 (address_parts addr) short))
      | inr e ↦
          let long : 8 ≤ length (address_parts addr) = ground (arith, e) in
          let (gs, g, n) = groups-long c 8 (address_parts addr) long in
          inr (long, gs, n, on ∙ ap (controlled c) g)
    ]
