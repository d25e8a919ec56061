-- ===== src/Core/Address/RoundTrip.antt =====
-- Addresses and partial keys are inverse as far as the address reaches.
use v6space.Base.{
  ℕ, zero, suc, ◌+◌, ◌-◌, ◌*◌, ◌/◌, ◌%◌, ◌≤◌, ◌<◌, min, ◌≡◌, refl, ap, ◌∙◌, some, List, ◌∷◌, ◌++◌,
  map, length, take, replicate, All, All-take, All-append, All-replicate, Bool-cases, inl, inr,
  length-append, length-replicate, length-take, length-map, arith, ◌==◌, ==_iff,
}
use v6space.Core.Address.Defs.{key_size, complement, addr_for_key, get_address_key}
use v6space.Core.Address.Bits.{IsByte, bits_of, pack, bits_of-IsBit, length-bits_of}
use v6space.Core.Address.Scan.{leading, after, key_bits, addr_for_key_lem}
use v6space.Core.Address.Recover.{recovered_lem}
use v6space.Core.Address.Pad.{
  zeros, padded, pack-padded, copy_into-padded, copy_into-take, pack-IsPacked, after-IsBit,
  length-after,
}

leading-run : (n : ℕ) (bs : List ℕ) → leading (replicate n 1 ++ (0 ∷ bs)) ≡ n
leading-run zero bs = refl
leading-run (suc n) bs = ap suc (leading-run n bs)

after-run : (n : ℕ) (bs : List ℕ) → after (replicate n 1 ++ (0 ∷ bs)) ≡ bs
after-run zero bs = refl
after-run (suc n) bs = after-run n bs

pub length-padded : (ts : List ℕ) → length ts ≤ 14 → length (padded ts) ≡ 14
length-padded ts h =
    omega (
      arith,
      length-append ts (zeros (14 - length ts)),
      length-replicate {A = ℕ} (14 - length ts) 0,
    )

pub padded-IsByte : (ts : List ℕ) → All IsByte ts → All IsByte (padded ts)
padded-IsByte ts v =
    All-append IsByte ts (zeros (14 - length ts)) v
      (All-replicate IsByte (14 - length ts) 0 (omega arith))

-- The address of a partial key: the first byte is the prefix whatever it was, and whole bytes
-- that fit the key come back.
pub reach :
    (p q n : ℕ) (ts : List ℕ)
    → q < 256
    → n < 256
    → length ts ≤ 14
    → 8 * length ts + n ≤ 255
    → All IsByte ts
    → addr_for_key p (get_address_key (q ∷ n ∷ padded ts)) ≡ some (p ∷ n ∷ padded ts)
reach p q n ts hq hn short fits v =
    let found =
      recovered_lem (q ∷ n ∷ padded ts) (omega (arith, length-padded ts short))
        (hq, (hn, padded-IsByte ts v)) in
    let tail : List ℕ =
      take (255 - n) (bits_of (padded ts)) ++ zeros (255 - n - length (bits_of (padded ts))) in
    let wrap : n % 256 ≡ n = omega arith in
    addr_for_key_lem p (get_address_key (q ∷ n ∷ padded ts)) found.1
    ∙ rw
        (
          found.0,
          leading-run n tail,
          after-run n tail,
          pack-padded ts (255 - n) short (omega arith) v,
          copy_into-padded ts ((255 - n - 8 * length ts) / 8) short,
          wrap,
        )
        refl

-- The bytes that AddrForKey packs and that fit.
abbrev pub packed_of : List ℕ → List ℕ
packed_of key = take 14 (pack (after (key_bits key)))

pub length-key_bits : (key : List ℕ) → length (key_bits key) ≡ 8 * length key
length-key_bits key = omega (arith, length-bits_of (map complement key), length-map key complement)

pub packed_fits :
    (key : List ℕ)
    → length key ≡ key_size
    → leading (key_bits key) < 256
    → (length (packed_of key) ≡ min 14 ((255 - leading (key_bits key)) / 8))
      × All IsByte (packed_of key)
packed_fits key size h =
    let digits = after (key_bits key) in
    let v =
      pack-IsPacked digits (after-IsBit (key_bits key) (bits_of-IsBit (map complement key))) in
    let l : length digits + leading (key_bits key) + 1 ≡ 256 = omega (
      arith,
      length-after (key_bits key) (omega (arith, length-key_bits key)),
      length-key_bits key,
    ) in
    (
      omega (arith, length-take 14 (pack digits), v.size, l),
      All-take IsByte 14 (pack digits) v.bytes,
    )

pub addr_shape :
    (p : ℕ) (key : List ℕ)
    → length key ≡ key_size
    → leading (key_bits key) < 256
    → addr_for_key p key ≡ some (p ∷ leading (key_bits key) ∷ padded (packed_of key))
addr_shape p key size h =
    let wrap : leading (key_bits key) % 256 ≡ leading (key_bits key) = omega arith in
    addr_for_key_lem p key size ∙ rw (wrap, copy_into-take (pack (after (key_bits key)))) refl

-- AddrForKey fails for a key of another length.
pub addr_for_key_size :
    (p : ℕ) (key a : List ℕ) → addr_for_key p key ≡ some a → length key ≡ key_size
unfolding addr_for_key
addr_for_key_size p key a h = elim (Bool-cases (length key == key_size)) [
  | inl e ↦ (==_iff _ _).0 e
  | inr e ↦ absurd (cc (rw e at h))
]

-- Let `a` be the address of a key that is not all zeros (its complement starts with fewer than
-- 256 ones). Then the partial key that GetAddressKey reads back from `a` has the address `a` too.
pub addr_for_key-get_address_key :
    (p : ℕ) (key a : List ℕ)
    → p < 256
    → leading (key_bits key) < 256
    → addr_for_key p key ≡ some a
    → addr_for_key p (get_address_key a) ≡ some a
addr_for_key-get_address_key p key a hp h e =
    let size = addr_for_key_size p key a e in
    let n = leading (key_bits key) in
    let fits = packed_fits key size h in
    let shape : p ∷ n ∷ padded (packed_of key) ≡ a = cc (addr_shape p key size h) in
    rw (← shape)
      (reach p p n (packed_of key) hp h (omega (arith, fits.0)) (omega (arith, fits.0)) fits.1)
