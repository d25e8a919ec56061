-- ===== src/Core/Address/Prefix.antt =====
-- GetPrefix, IsValidAddress and IsValidSubnet.
use v6space.Base.{
  ℕ, ◌+◌, ◌-◌, ◌*◌, ◌/◌, ◌%◌, ◌<◌, bit_or, ◌≡◌, refl, ap, sym, true, false, not, ◌&&◌, ◌||◌, some,
  none, List, [], ◌∷◌, ◌++◌, All, arith, ◌==◌, ==_iff, ltb, if◌then◌else◌, table_holds, table_entry,
  get_or, replicate,
}
use v6space.Core.Address.Defs.{
  hex_digit, hex_decode, get_prefix, is_valid_address, is_valid_subnet, addr_for_key,
  subnet_for_key, copy_into,
}
use v6space.Core.Address.Bits.{IsByte, pack}
use v6space.Core.Address.Scan.{addr_for_key_lem, leading, after, key_bits}
use v6space.Core.Address.RoundTrip.{addr_for_key_size}

-- hex.EncodeToString.
abbrev pub hex_char : ℕ → ℕ
hex_char d = if ltb d 10 then b'0' + d else b'a' + d - 10

unfoldable pub hex_encode : List ℕ → List ℕ
hex_encode [] = []
hex_encode (x ∷ xs) = hex_char (x / 16) ∷ hex_char (x % 16) ∷ hex_encode xs

hex_digit-hex_char : (d : ℕ) → d < 16 → hex_digit (hex_char d) ≡ some d
unfolding hex_digit
hex_digit-hex_char d h = ground arith

-- Decoding undoes encoding, for every byte string.
pub hex_decode-hex_encode : (xs : List ℕ) → All IsByte xs → hex_decode (hex_encode xs) ≡ some xs
unfolding hex_decode hex_encode
hex_decode-hex_encode [] v = refl
hex_decode-hex_encode (x ∷ xs) v =
    let e : x / 16 * 16 + x % 16 ≡ x = omega arith in
    rw
      (
        hex_digit-hex_char (x / 16) (omega (arith, v.0)),
        hex_digit-hex_char (x % 16) (omega arith),
        hex_decode-hex_encode xs v.1,
        e,
      )
      refl

hex_decode_odd : (xs : List ℕ) (c : ℕ) → All IsByte xs → hex_decode (hex_encode xs ++ c ∷ []) ≡ none
unfolding hex_decode hex_encode
hex_decode_odd [] c v = refl
hex_decode_odd (x ∷ xs) c v =
    rw
      (
        hex_digit-hex_char (x / 16) (omega (arith, v.0)),
        hex_digit-hex_char (x % 16) (omega arith),
        hex_decode_odd xs c v.1,
      )
      refl

-- GetPrefix on a configured text: the hexadecimal text of at least one byte gives its first byte;
-- it panics on the empty text, and where one more character is appended to such a text.
pub get_prefix_cases :
    (x : ℕ) (xs : List ℕ) (c : ℕ)
    → All IsByte (x ∷ xs)
    → (get_prefix (hex_encode (x ∷ xs)) ≡ some x)
      × (get_prefix [] ≡ none)
      × (get_prefix (hex_encode (x ∷ xs) ++ c ∷ []) ≡ none)
unfolding get_prefix
get_prefix_cases x xs c v =
    (rw (hex_decode-hex_encode (x ∷ xs) v) refl, refl, rw (hex_decode_odd (x ∷ xs) c v) refl)

odd_table :
    table_holds 256 (λ p. (p % 2 == 1) || (not (p == bit_or p 1) && not (bit_or p 1 == p))) ≡ true
unfolding table_holds
odd_table = refl

even_prefix :
    (p : ℕ) → p < 256 → p % 2 ≡ 0 → ((p == bit_or p 1) ≡ false) × ((bit_or p 1 == p) ≡ false)
even_prefix p h e =
    let row =
      table_entry 256 (λ p. (p % 2 == 1) || (not (p == bit_or p 1) && not (bit_or p 1 == p))) p
        odd_table h in
    ground arith

-- With an even prefix, the address and the subnet of a key are valid for the prefix that they
-- were made with, the address is no valid subnet, and the subnet's first byte is no valid address.
pub addr_and_subnet_valid :
    (p : ℕ) (key a s : List ℕ)
    → p < 256
    → p % 2 ≡ 0
    → addr_for_key p key ≡ some a
    → subnet_for_key p key ≡ some s
    → (is_valid_address p a ≡ true)
      × (is_valid_subnet p s ≡ true)
      × (is_valid_subnet p a ≡ false)
      × (is_valid_address p s ≡ false)
unfolding is_valid_address is_valid_subnet subnet_for_key
addr_and_subnet_valid p key a s hp even ea es =
    let shape = addr_for_key_lem p key (addr_for_key_size p key a ea) in
    let apart = even_prefix p hp even in
    let a_shape : p
          ∷ leading (key_bits key) % 256
          ∷ copy_into (replicate 14 0) (pack (after (key_bits key)))
        ≡ a =
      cc shape in
    let a_head : get_or a 0 0 ≡ p = ap (λ l. get_or l 0 0) (sym a_shape) in
    let s_shape : bit_or p 1
          ∷ leading (key_bits key) % 256
          ∷ copy_into (replicate 6 0) (copy_into (replicate 14 0) (pack (after (key_bits key))))
        ≡ s =
      cc (rw shape at es) in
    let s_head : get_or s 0 0 ≡ bit_or p 1 = ap (λ l. get_or l 0 0) (sym s_shape) in
    rw (a_head, s_head)
      ((==_iff p p).1 refl, (==_iff (bit_or p 1) (bit_or p 1)).1 refl, apart.0, apart.1)
