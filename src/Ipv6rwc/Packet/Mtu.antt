-- ===== src/Ipv6rwc/Packet/Mtu.antt =====
-- SetMTU.
use v6space.Base.{ℕ, ◌≤◌, ◌<◌, ◌≡◌, ◌⊎◌, arith}
use v6space.Ipv6rwc.Packet.{set_mtu}

-- The MTU that is set is at least 1280, it is above the maximum only where that is below 1280, and
-- a request between 1280 and the maximum is taken as it is.
pub set_mtu_bounds :
    (max mtu : ℕ)
    → (1280 ≤ set_mtu max mtu)
      × ((set_mtu max mtu ≤ max) ⊎ (max < 1280))
      × ((set_mtu max mtu ≡ mtu) ⊎ (mtu < 1280) ⊎ (max < mtu))
unfolding set_mtu
set_mtu_bounds max mtu = ground arith
