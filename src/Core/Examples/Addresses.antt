-- ===== src/Core/Examples/Addresses.antt =====
-- Tests of src/core/address.go at concrete keys.
use v6space.Base.{
  ℕ, ◌<◌, ◌≡◌, refl, some, List, [], ◌∷◌, ◌++◌, replicate, All, All-append, All-replicate, arith,
}
use v6space.Core.Address.{
  addr_for_key, subnet_for_key, get_address_key, hex_decode, scan_loop, scan_bit, bit_at,
}
use v6space.Core.Address.Bits.{IsByte}
use v6space.Core.Address.Scan.{leading, key_bits}
use v6space.Core.Address.RoundTrip.{addr_for_key-get_address_key}
use v6space.Core.Address.Prefix.{hex_encode, hex_decode-hex_encode}

-- A key with eleven leading zero digits, its address and its subnet.
abbrev pub key : List ℕ
key = 0 ∷ 31 ∷ replicate 30 165

abbrev pub addr : List ℕ
addr = 252 ∷ 11 ∷ 5 ∷ replicate 13 165

abbrev subnet : List ℕ
subnet = 253 ∷ 11 ∷ 5 ∷ replicate 5 165

key-addr : addr_for_key 252 key ≡ some addr
unfolding addr_for_key scan_loop scan_bit bit_at
key-addr = refl

key-subnet : subnet_for_key 252 key ≡ some subnet
unfolding subnet_for_key addr_for_key scan_loop scan_bit bit_at
key-subnet = refl

key-leading : leading (key_bits key) < 256
key-leading = omega arith

key-bytes : All IsByte key
key-bytes = (omega arith, (omega arith, All-replicate IsByte 30 165 (omega arith)))

-- Another key of the same address: only digits that the address does not hold differ.
abbrev other : List ℕ
other = 0 ∷ 31 ∷ replicate 29 165 ++ 0 ∷ []

other-addr : addr_for_key 252 other ≡ some addr
unfolding addr_for_key scan_loop scan_bit bit_at
other-addr = refl

addr_for_key-get_address_key_example : addr_for_key 252 (get_address_key addr) ≡ some addr
addr_for_key-get_address_key_example =
    addr_for_key-get_address_key 252 key addr (omega arith) key-leading key-addr

hex_decode-hex_encode_example : hex_decode (hex_encode key) ≡ some key
hex_decode-hex_encode_example = hex_decode-hex_encode key key-bytes

other-bytes : All IsByte other
other-bytes = (
  omega arith,
  (
    omega arith,
    All-append IsByte (replicate 29 165) (0 ∷ []) (All-replicate IsByte 29 165 (omega arith))
        (omega arith, tt),
  ),
)

other-leading : leading (key_bits other) < 256
other-leading = omega arith
