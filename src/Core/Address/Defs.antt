-- ===== src/Core/Address/Defs.antt =====
-- The functions of src/core/address.go.
use v6space.Base.{
  ℕ, zero, suc, ◌+◌, ◌-◌, ◌*◌, ◌/◌, ◌%◌, ◌^◌, bit_and, bit_or, Bool, true, false, not, ◌&&◌, Option,
  none, some, List, [], ◌∷◌, ◌++◌, map, length, get_or, modify, replicate, ◌==◌, leb, if◌then◌else◌,
}

-- ed25519.PublicKeySize.
abbrev pub key_size : ℕ
key_size = 32

-- `copy(dst, src)`.
abbrev pub copy_into : List ℕ → List ℕ → List ℕ
copy_into [] src = []
copy_into (d ∷ dst) [] = d ∷ dst
copy_into (d ∷ dst) (s ∷ src) = s ∷ copy_into dst src

-- `copy(dst[off:], src)`.
abbrev pub copy_at : ℕ → List ℕ → List ℕ → List ℕ
copy_at zero dst src = copy_into dst src
copy_at (suc off) [] src = []
copy_at (suc off) (d ∷ dst) src = d ∷ copy_at off dst src

-- `^x` on a byte.
abbrev pub complement : ℕ → ℕ
complement x = 255 - x

-- The value of a hexadecimal digit.
unfoldable pub hex_digit : ℕ → Option ℕ
hex_digit c =
    if leb b'0' c && leb c b'9'
    then some (c - b'0')
    else if leb b'a' c && leb c b'f'
    then some (c - b'a' + 10)
    else if leb b'A' c && leb c b'F'
    then some (c - b'A' + 10)
    else none

hex_byte : Option ℕ → Option ℕ → Option (List ℕ) → Option (List ℕ)
hex_byte (some hi) (some lo) (some rest) = some ((hi * 16 + lo) ∷ rest)
hex_byte _ _ _ = none

-- hex.DecodeString: `none` for a digit that is none and for an odd length.
unfoldable pub hex_decode : List ℕ → Option (List ℕ)
unfolding hex_digit hex_byte
hex_decode [] = some []
hex_decode (h ∷ []) = none
hex_decode (h ∷ l ∷ text) = hex_byte (hex_digit h) (hex_digit l) (hex_decode text)

first_byte : Option (List ℕ) → Option ℕ
first_byte (some (x ∷ xs)) = some x
first_byte _ = none

-- GetPrefix on the text of networkdomain.Prefix; `none` is a panic, of the decoder's error or of
-- the slice `p[:1]` of no bytes.
unfoldable pub get_prefix : List ℕ → Option ℕ
unfolding hex_decode first_byte
get_prefix text = first_byte (hex_decode text)

-- The loop over the one-byte prefix.
unfoldable pub is_valid_address : ℕ → List ℕ → Bool
is_valid_address p a = get_or a 0 0 == p

unfoldable pub is_valid_subnet : ℕ → List ℕ → Bool
is_valid_subnet p s = get_or s 0 0 == bit_or p 1

-- The variables of the loop of AddrForKey.
pub record Scan : Type 0 where
  pub done : Bool
  pub ones : ℕ
  pub bits : ℕ
  pub n_bits : ℕ
  pub temp : List ℕ

unfoldable pub bit_at : List ℕ → ℕ → ℕ
bit_at buf idx = bit_and (get_or buf (idx / 8) 0) (0x80 / 2 ^ (idx % 8)) / 2 ^ (7 - idx % 8)

unfoldable pub scan_bit : Scan → ℕ → Scan
scan_bit s bit =
    if not s.done && not (bit == 0)
    then record s { ones = (s.ones + 1) % 256 }
    else if not s.done && bit == 0
    then record s { done = true }
    else (let bits = bit_or (s.bits * 2 % 256) bit in
        if s.n_bits + 1 == 8
        then record s { bits = bits; n_bits = 0; temp = s.temp ++ bits ∷ [] }
        else record s { bits = bits; n_bits = s.n_bits + 1 })

-- The loop at index `idx`, with `left` rounds to go.
unfoldable pub scan_loop : ℕ → ℕ → List ℕ → Scan → Scan
scan_loop zero idx buf s = s
scan_loop (suc left) idx buf s = scan_loop left (idx + 1) buf (scan_bit s (bit_at buf idx))

abbrev pub scan_init : Scan
scan_init = record { done = false; ones = 0; bits = 0; n_bits = 0; temp = [] }

-- AddrForKey; `none` is nil.
unfoldable pub addr_for_key : ℕ → List ℕ → Option (List ℕ)
addr_for_key p public_key =
    if length public_key == key_size
    then (let buf = map complement (copy_into (replicate key_size 0) public_key) in
        let s = scan_loop (8 * length buf) 0 buf scan_init in
        let addr = copy_into (replicate 16 0) (p ∷ []) in
        some (copy_at 2 (modify 1 (λ _. s.ones) addr) s.temp))
    else none

subnet_of : Option (List ℕ) → Option (List ℕ)
subnet_of none = none
subnet_of (some addr) = some (modify 0 (λ x. bit_or x 0x01) (copy_into (replicate 8 0) addr))

-- SubnetForKey.
unfoldable pub subnet_for_key : ℕ → List ℕ → Option (List ℕ)
unfolding subnet_of
subnet_for_key p public_key = subnet_of (addr_for_key p public_key)

-- The first loop of GetAddressKey: `key[idx/8] |= 0x80 >> (idx%8)`.
unfoldable pub set_ones : ℕ → ℕ → List ℕ → List ℕ
set_ones zero idx key = key
set_ones (suc left) idx key =
    set_ones left (idx + 1) (modify (idx / 8) (λ x. bit_or x (0x80 / 2 ^ (idx % 8))) key)

-- The second loop, which leaves when the key is full.
unfoldable pub set_rest : ℕ → ℕ → ℕ → List ℕ → List ℕ → List ℕ
set_rest zero idx key_offset a key = key
set_rest (suc left) idx key_offset a key =
    let bits = bit_and (get_or a (idx / 8) 0) (0x80 / 2 ^ (idx % 8)) in
    let shifted = bits * 2 ^ (idx % 8) % 256 in
    let key_idx = key_offset + (idx - 16) in
    let placed = shifted / 2 ^ (key_idx % 8) in
    let rest =
      set_rest left (idx + 1) key_offset a (modify (key_idx / 8) (λ x. bit_or x placed) key) in
    if leb (length key) (key_idx / 8) then key else rest

-- GetAddressKey.
unfoldable pub get_address_key : List ℕ → List ℕ
get_address_key a =
    let ones = get_or a 1 0 in
    let key = set_ones ones 0 (replicate key_size 0) in
    map complement (set_rest (8 * length a - 16) 16 (ones + 1) a key)

-- GetSubnetKey.
unfoldable pub get_subnet_key : List ℕ → List ℕ
get_subnet_key s = get_address_key (copy_into (replicate 16 0) s)
