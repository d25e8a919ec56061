-- ===== src/Tun/Start.antt =====
-- The MTU that a started adapter works with.
use v6space.Base.{
  ℕ, ◌≤◌, ◌<◌, ◌≡◌, refl, sym, ap, ◌∙◌, ◌⊎◌, inl, inr, true, false, ◌||◌, Option, none, some, ltb,
  if◌then◌else◌, bytes_eq, arith, Bool-cases,
}
use mathlib.Core.Path.{subst}
use v6space.Ipv6rwc.Packet.{max_mtu, set_mtu}
use v6space.Tun.{
  Device, TunAdapter, SetupFault, running, get_supported_mtu, setup, opened, start, none_name,
  dummy_name,
}

-- Where the platform's maximum is at least 1280, the supported MTU is between 1280 and the maximum,
-- and is the MTU asked for where that is in this range.
pub get_supported_mtu_bounds :
    (maximum mtu : ℕ)
    → 1280 ≤ maximum
    → (1280 ≤ get_supported_mtu maximum mtu)
      × (get_supported_mtu maximum mtu ≤ maximum)
      × ((get_supported_mtu maximum mtu ≡ mtu) ⊎ (mtu < 1280) ⊎ (maximum < mtu))
unfolding get_supported_mtu
get_supported_mtu_bounds maximum mtu h = ground arith

opened-running :
    (maximum conn_mtu : ℕ) (r : TunAdapter × Option SetupFault)
    → 1280 ≤ maximum
    → (opened maximum conn_mtu r).1 ≡ running
    → let t = (opened maximum conn_mtu r).0 in
      (t.is_open ≡ true)
      × (t.is_enabled ≡ true)
      × (1280 ≤ t.rwc_mtu)
      × (t.rwc_mtu ≤ maximum)
      × ((t.rwc_mtu ≤ max_mtu conn_mtu) ⊎ (max_mtu conn_mtu < 1280))
unfolding get_supported_mtu set_mtu
opened-running maximum conn_mtu (t, some e) low h = absurd (cc h)
opened-running maximum conn_mtu (t, none) low h =
    (refl, refl, ground arith, ground arith, ground arith)

-- An adapter that starts to run was not open and is open and enabled then; and its key store's MTU
-- is at least 1280, at most the platform's maximum, where that is at least 1280, and at most
-- what the packet connection leaves room for, where that is at least 1280.
pub start-running :
    (maximum conn_mtu : ℕ) (create : ℕ → Device) (tun : TunAdapter)
    → 1280 ≤ maximum
    → (start maximum conn_mtu create tun).1 ≡ running
    → let t = (start maximum conn_mtu create tun).0 in
      (tun.is_open ≡ false)
      × (t.is_open ≡ true)
      × (t.is_enabled ≡ true)
      × (1280 ≤ t.rwc_mtu)
      × (t.rwc_mtu ≤ maximum)
      × ((t.rwc_mtu ≤ max_mtu conn_mtu) ⊎ (max_mtu conn_mtu < 1280))
unfolding start
start-running maximum conn_mtu create tun low h = elim (Bool-cases tun.is_open) [
  | inl o ↦ absurd (cc (rw (start, o) at h))
  | inr o ↦ elim (Bool-cases (bytes_eq tun.name none_name || bytes_eq tun.name dummy_name)) [
    | inl d ↦ absurd (cc (rw (start, o, d) at h))
    | inr d ↦
        let r =
          setup maximum create
            (if ltb (max_mtu conn_mtu) tun.config_mtu then max_mtu conn_mtu else tun.config_mtu)
            tun in
        let same : start maximum conn_mtu create tun ≡ opened maximum conn_mtu r =
          rw (start, o, d) refl in
        let (open_now, enabled, least, most, room) =
          opened-running maximum conn_mtu r low (sym (ap (λ x. x.1) same) ∙ h) in
        let given = ap (λ x. x.0.rwc_mtu) (sym same) in
        (
          o,
          ap (λ x. x.0.is_open) same ∙ open_now,
          ap (λ x. x.0.is_enabled) same ∙ enabled,
          subst (λ m. 1280 ≤ m) given least,
          subst (λ m. m ≤ maximum) given most,
          subst (λ m. (m ≤ max_mtu conn_mtu) ⊎ (max_mtu conn_mtu < 1280)) given room,
        )
  ]
]
