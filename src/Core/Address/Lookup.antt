-- ===== src/Core/Address/Lookup.antt =====
-- A lookup by a partial key reaches the subnet that it is for, and a recovered key is the key as
-- far as the address goes.
use v6space.Base.{
  ℕ, zero, suc, ◌+◌, ◌-◌, ◌*◌, ◌/◌, ◌≤◌, ◌<◌, bit_or, min, ◌≡◌, refl, sym, ap, ap₂, ◌∙◌, some, List,
  [], ◌∷◌, ◌++◌, map, append_assoc, length, take, replicate, All, All-take, Bool-cases, inl, inr,
  length-take, take_all, take-append, arith, ◌==◌, ==_iff, table_holds, table_entry, ltb, ltb→lt,
  true,
}
use v6space.Core.Address.Defs.{
  key_size, copy_into, complement, addr_for_key, subnet_for_key, get_address_key, get_subnet_key,
}
use v6space.Core.Address.Bits.{
  IsBit, IsByte, bits_of, pack, bits_of-IsBit, length-bits_of, bits_of-complement,
  complement-complement, complement-IsByte,
}
use v6space.Core.Address.Scan.{leading, after, key_bits}
use v6space.Core.Address.Recover.{recovered_lem}
use v6space.Core.Address.Pad.{
  zeros, padded, bits_of-take-pack, copy_into-padded, copy_front, split_leading, length-after,
  after-IsBit, digits-padded,
}
use v6space.Core.Address.RoundTrip.{
  addr_for_key-get_address_key, reach, packed_of, packed_fits, addr_shape, addr_for_key_size,
  length-key_bits, length-padded, padded-IsByte,
}

-- SubnetForKey, for a key that is not all zeros.
subnet_shape :
    (p : ℕ) (key : List ℕ)
    → length key ≡ key_size
    → leading (key_bits key) < 256
    → subnet_for_key p key
      ≡ some (bit_or p 1 ∷ leading (key_bits key) ∷ copy_into (zeros 6) (padded (packed_of key)))
unfolding subnet_for_key
subnet_shape p key size h = rw (addr_shape p key size h)

subnet_for_key_size :
    (p : ℕ) (key s : List ℕ) → subnet_for_key p key ≡ some s → length key ≡ key_size
unfolding subnet_for_key addr_for_key
subnet_for_key_size p key s e = elim (Bool-cases (length key == key_size)) [
  | inl ok ↦ (==_iff _ _).0 ok
  | inr bad ↦ absurd (cc (rw bad at e))
]

prefix_table : table_holds 256 (λ p. ltb (bit_or p 1) 256) ≡ true
unfolding table_holds
prefix_table = refl

prefix_byte : (p : ℕ) → p < 256 → bit_or p 1 < 256
prefix_byte p h = ltb→lt _ _ (table_entry 256 _ p prefix_table h)

-- The first six of the padded bytes, spread over an address and cut back.
front_padded :
    (ts : List ℕ)
    → length ts ≤ 14
    → (copy_into (zeros 14) (copy_into (zeros 6) (padded ts)) ≡ padded (take 6 ts))
      × (copy_into (zeros 6) (padded (take 6 ts)) ≡ copy_into (zeros 6) (padded ts))
front_padded ts h =
    let front = copy_front 6 (14 - length ts) ts (omega arith) in
    let short : length (take 6 ts) ≤ 6 = omega (arith, length-take 6 ts) in
    (
      ap (copy_into (zeros 14)) front
          ∙ copy_into-padded (take 6 ts) (6 - length (take 6 ts)) (omega arith),
      copy_front 6 (14 - length (take 6 ts)) (take 6 ts) (omega arith)
          ∙ rw (take_all 6 (take 6 ts) short) (sym front),
    )

-- Let `s` be the subnet of a key that is not all zeros. Then the partial key that GetSubnetKey
-- reads back from `s` has the subnet `s` too: a lookup by it is answered by the nodes of `s`.
pub subnet_for_key-get_subnet_key :
    (p : ℕ) (key s : List ℕ)
    → p < 256
    → leading (key_bits key) < 256
    → subnet_for_key p key ≡ some s
    → subnet_for_key p (get_subnet_key s) ≡ some s
unfolding get_subnet_key
subnet_for_key-get_subnet_key p key s hp h e =
    let size = subnet_for_key_size p key s e in
    let n = leading (key_bits key) in
    let ts = packed_of key in
    let fits = packed_fits key size h in
    let front = front_padded ts (omega (arith, fits.0)) in
    let short : length (take 6 ts) ≤ length ts = omega (arith, length-take 6 ts) in
    let shape : bit_or p 1 ∷ n ∷ copy_into (zeros 6) (padded ts) ≡ s =
      cc (subnet_shape p key size h) in
    let back =
      reach p (bit_or p 1) n (take 6 ts) (prefix_byte p hp) h (omega (arith, fits.0, short))
        (omega (arith, fits.0, short)) (All-take IsByte 6 ts fits.1) in
    rw (← shape, front.0) (unfold subnet_for_key in rw (back, front.1) refl)

-- Let `a` be the address of a key that is not all zeros. The partial key that GetAddressKey reads
-- back from `a` has the subnet of the key: a lookup for `a` is answered by the node of that key.
pub subnet_for_key-get_address_key :
    (p : ℕ) (key a : List ℕ)
    → p < 256
    → leading (key_bits key) < 256
    → addr_for_key p key ≡ some a
    → subnet_for_key p (get_address_key a) ≡ subnet_for_key p key
unfolding subnet_for_key
subnet_for_key-get_address_key p key a hp h e = rw (addr_for_key-get_address_key p key a hp h e, e)

-- The digits of a key that its address holds.
abbrev pub visible : List ℕ → ℕ
visible key = leading (key_bits key) + 1 + 8 * min 14 ((255 - leading (key_bits key)) / 8)

take_run :
    (n k : ℕ) (bs : List ℕ)
    → take (n + 1 + k) (replicate n 1 ++ (0 ∷ bs)) ≡ replicate n 1 ++ (0 ∷ take k bs)
take_run zero k bs = let e : 0 + 1 + k ≡ suc k = omega arith in rw e
take_run (suc n) k bs =
    let e : suc n + 1 + k ≡ suc (n + 1 + k) = omega arith in rw e (ap (◌∷◌ 1) (take_run n k bs))

take-length : (n : ℕ) (xs : List ℕ) → take n xs ≡ take (length (take n xs)) xs
take-length zero xs = refl
take-length (suc n) [] = refl
take-length (suc n) (x ∷ xs) = ap (◌∷◌ x) (take-length n xs)

bits_of-packed_of :
    (key : List ℕ)
    → length key ≡ key_size
    → leading (key_bits key) < 256
    → bits_of (packed_of key) ≡ take (8 * length (packed_of key)) (after (key_bits key))
bits_of-packed_of key size h =
    let fits = packed_fits key size h in
    let room = length-after (key_bits key) (omega (arith, length-key_bits key)) in
    ap bits_of (take-length 14 (pack (after (key_bits key))))
    ∙ bits_of-take-pack (length (packed_of key)) (after (key_bits key))
        (after-IsBit (key_bits key) (bits_of-IsBit (map complement key)))
        (omega (arith, fits.0, room, length-key_bits key))

digits_back :
    (p : ℕ) (key : List ℕ)
    → p < 256
    → length key ≡ key_size
    → leading (key_bits key) < 256
    → key_bits (get_address_key (p ∷ leading (key_bits key) ∷ padded (packed_of key)))
      ≡ take (visible key) (key_bits key) ++ zeros (256 - visible key)
digits_back p key hp size h =
    let n = leading (key_bits key) in
    let ts = packed_of key in
    let fits = packed_fits key size h in
    let short : length ts ≤ 14 = omega (arith, fits.0) in
    let seen : visible key ≡ n + 1 + 8 * length ts = omega (arith, fits.0) in
    let left : 256 - visible key ≡ 255 - n - 8 * length ts = omega (arith, fits.0) in
    let found =
      recovered_lem (p ∷ n ∷ padded ts) (omega (arith, length-padded ts short))
        (hp, (h, padded-IsByte ts fits.1)) in
    let whole =
      split_leading (key_bits key) (bits_of-IsBit (map complement key))
        (omega (arith, length-key_bits key)) in
    let k = 8 * length ts in
    let front : take (visible key) (key_bits key)
        ≡ replicate n 1 ++ (0 ∷ take k (after (key_bits key))) =
      ap₂ take seen whole ∙ take_run n k (after (key_bits key)) in
    rw
      (
        found.0,
        digits-padded ts (255 - n) short (omega (arith, fits.0)),
        bits_of-packed_of key size h,
        front,
        left,
      )
      (sym (append_assoc (replicate n 1) (0 ∷ take k (after (key_bits key))) (zeros (255 - n - k))))

flip_back :
    (v k : ℕ) (bs : List ℕ)
    → All IsBit bs
    → map (λ b. 1 - b) (take v (map (λ b. 1 - b) bs) ++ zeros k) ≡ take v bs ++ replicate k 1
flip_back zero zero bs h = refl
flip_back zero (suc k) bs h = ap (◌∷◌ 1) (flip_back zero k bs h)
flip_back (suc v) zero [] h = refl
flip_back (suc v) (suc k) [] h = ap (◌∷◌ 1) (flip_back (suc v) k [] h)
flip_back (suc v) k (b ∷ bs) h =
    let e : 1 - (1 - b) ≡ b = omega (arith, h.0) in rw e (ap (◌∷◌ b) (flip_back v k bs h.1))

-- Let `a` be the address of a key that is not all zeros. The partial key that GetAddressKey reads
-- back from `a` agrees with the key in its first `visible key` digits, and all its further digits
-- are ones.
pub get_address_key-addr_for_key :
    (p : ℕ) (key a : List ℕ)
    → p < 256
    → All IsByte key
    → leading (key_bits key) < 256
    → addr_for_key p key ≡ some a
    → bits_of (get_address_key a)
      ≡ take (visible key) (bits_of key) ++ replicate (256 - visible key) 1
get_address_key-addr_for_key p key a hp bytes h e =
    let size = addr_for_key_size p key a e in
    let n = leading (key_bits key) in
    let fits = packed_fits key size h in
    let short : length (packed_of key) ≤ 14 = omega (arith, fits.0) in
    let shape : p ∷ n ∷ padded (packed_of key) ≡ a = cc (addr_shape p key size h) in
    let back = get_address_key (p ∷ n ∷ padded (packed_of key)) in
    let found =
      recovered_lem (p ∷ n ∷ padded (packed_of key))
        (omega (arith, length-padded (packed_of key) short))
        (hp, (h, padded-IsByte (packed_of key) fits.1)) in
    rw (← shape) (
      ap bits_of (sym (complement-complement back found.2))
      ∙ bits_of-complement (map complement back) (complement-IsByte back)
      ∙ ap (map (λ b. 1 - b)) (digits_back p key hp size h)
      ∙ ap (λ l. map (λ b. 1 - b) (take (visible key) l ++ zeros (256 - visible key)))
          (bits_of-complement key bytes)
      ∙ flip_back (visible key) (256 - visible key) (bits_of key) (bits_of-IsBit key))

-- Two keys, neither all zeros, that have the same address have as many leading zero digits and
-- agree in all the digits that the address holds.
pub addr_for_key_collision :
    (p : ℕ) (key other a : List ℕ)
    → p < 256
    → All IsByte key
    → All IsByte other
    → leading (key_bits key) < 256
    → leading (key_bits other) < 256
    → addr_for_key p key ≡ some a
    → addr_for_key p other ≡ some a
    → (visible key ≡ visible other)
      × (take (visible key) (bits_of key) ≡ take (visible key) (bits_of other))
addr_for_key_collision p key other a hp vk vo hk ho ek eo =
    let sk = addr_for_key_size p key a ek in
    let so = addr_for_key_size p other a eo in
    let same : leading (key_bits key) ≡ leading (key_bits other) =
      cc (addr_shape p key sk hk, addr_shape p other so ho) in
    let seen : visible key ≡ visible other = ap (λ n. n + 1 + 8 * min 14 ((255 - n) / 8)) same in
    let room : visible key ≤ 256 = omega arith in
    let front = λ (k : List ℕ) (size : length k ≡ key_size).
      take-append (visible key) (take (visible key) (bits_of k)) (replicate (256 - visible key) 1)
        (omega (arith, length-take (visible key) (bits_of k), length-bits_of k)) in
    (
      seen,
      sym (front key sk)
          ∙ ap (take (visible key)) (
              sym (get_address_key-addr_for_key p key a hp vk hk ek)
              ∙ get_address_key-addr_for_key p other a hp vo ho eo
              ∙ ap (λ v. take v (bits_of other) ++ replicate (256 - v) 1) (sym seen))
          ∙ front other so,
    )
