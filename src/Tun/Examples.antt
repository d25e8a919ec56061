-- ===== src/Tun/Examples.antt =====
-- Tests of the TUN adapter.
use v6space.Base.{ℕ, ◌≡◌, refl, true, false, some, List, [], ◌∷◌, bytes_eq}
use v6space.Ipv6rwc.Store.{init}
use v6space.Ipv6rwc.Store.Reach
use v6space.Ipv6rwc.Store.Reach.{Reach-Inv}
use v6space.Ipv6rwc.Packet.{packet, read_pc}
use v6space.Ipv6rwc.Packet.Admission.{Among, IsAdmitted}
use v6space.Ipv6rwc.Examples.{here, marshal, events, inbound, arrives}
use v6space.Tun.{Device, TunAdapter, running, start, setup, write_round}
use v6space.Base.{◌≤◌, ◌==◌, ◌&&◌, ◌||◌, false}
use v6space.Tun.Windows.{
  WindowsDevice, Elevation, try_address, works_among, is_fine, setup_windows, setup_windows_cases,
}
use v6space.Tun.Loops.{write_round-IsAdmitted}

abbrev device : ℕ → Device
device mtu = record { created = true; reported_mtu = some mtu; address_set = true }

abbrev adapter : TunAdapter
adapter = record {
  name = b't' ∷ [];
  config_mtu = 65535;
  mtu = 0;
  rwc_mtu = 1280;
  is_open = false;
  is_enabled = false;
}

starts : (start 65535 9000 device adapter).1 ≡ running
unfolding start setup bytes_eq
starts = refl

written : write_round true (read_pc here marshal 1280 100 events init).result ≡ some inbound
unfolding write_round
written = rw arrives refl

write_round-IsAdmitted_example :
    (true ≡ true)
    × ((bs : List ℕ) × (from : List ℕ) × Among (packet bs from) events
        × IsAdmitted here 1280 100 bs from inbound)
write_round-IsAdmitted_example =
    write_round-IsAdmitted true here marshal 1280 100 events init inbound (Reach-Inv Reach.start)
      (refl, tt) written

abbrev windows_device : List ℕ → ℕ → WindowsDevice
windows_device name mtu = record {
  creates = false;
  creates_again = true;
  address_tries = λ i. i == 3;
  mtu_set = true;
  reported_mtu = some mtu;
}

abbrev elevation : Elevation
elevation = record { runs = true; ends = true }

setup_windows_cases_example :
    ((try_address (λ i. i == 3) 9 1).tries ≤ 9)
    × ((try_address (λ i. i == 3) 9 1).set ≡ works_among (λ i. i == 3) 9 1)
    × (is_fine (setup_windows [] elevation windows_device 1500 adapter).1
        ≡ (true && true && ((false || true) && works_among (λ i. i == 3) 9 1 && true)))
setup_windows_cases_example = setup_windows_cases [] elevation windows_device 1500 adapter
