-- ===== src/Core/Address/Pad.antt =====
-- Packed digits, padded by zeros to the length of an address.
use v6space.Base.{
  ℕ, zero, suc, ◌+◌, ◌-◌, ◌*◌, ◌/◌, ◌%◌, ◌≤◌, ◌<◌, ◌≡◌, refl, ap, ap₂, ◌∙◌, List, [], ◌∷◌, ◌++◌,
  length, take, replicate, All, arith, length-append, length-replicate,
}
use v6space.Core.Address.Defs.{copy_into}
use v6space.Core.Address.Bits.{
  IsBit, IsByte, bits_of, byte_of, pack, pack-bits_of, length-bits_of, bits_of-append,
}
use v6space.Core.Address.Scan.{leading, after}

abbrev pub zeros : ℕ → List ℕ
zeros n = replicate n 0

pub bits_of-zeros : (n : ℕ) → bits_of (zeros n) ≡ zeros (8 * n)
bits_of-zeros zero = refl
bits_of-zeros (suc n) =
    let e : 8 * suc n ≡ suc (suc (suc (suc (suc (suc (suc (suc (8 * n)))))))) = omega arith in
    rw (e, bits_of-zeros n) refl

pack-zeros : (k n : ℕ) → n ≡ k / 8 → pack (zeros k) ≡ zeros n
pack-zeros zero n e = let f : n ≡ 0 = omega arith in rw f
pack-zeros (suc zero) n e = let f : n ≡ 0 = omega arith in rw f
pack-zeros (suc (suc zero)) n e = let f : n ≡ 0 = omega arith in rw f
pack-zeros (suc (suc (suc zero))) n e = let f : n ≡ 0 = omega arith in rw f
pack-zeros (suc (suc (suc (suc zero)))) n e = let f : n ≡ 0 = omega arith in rw f
pack-zeros (suc (suc (suc (suc (suc zero))))) n e = let f : n ≡ 0 = omega arith in rw f
pack-zeros (suc (suc (suc (suc (suc (suc zero)))))) n e = let f : n ≡ 0 = omega arith in rw f
pack-zeros (suc (suc (suc (suc (suc (suc (suc zero))))))) n e = let f : n ≡ 0 = omega arith in rw f
pack-zeros (suc (suc (suc (suc (suc (suc (suc (suc k)))))))) n e =
    let f : n ≡ suc (k / 8) = omega arith in rw f (ap (◌∷◌ 0) (pack-zeros k (k / 8) refl))

take-zeros_pad : (m k : ℕ) → take m (zeros k) ++ zeros (m - k) ≡ zeros m
take-zeros_pad zero k = let e : 0 - k ≡ 0 = omega arith in rw e
take-zeros_pad (suc m) zero = let e : suc m - 0 ≡ suc m = omega arith in rw e
take-zeros_pad (suc m) (suc k) =
    let e : suc m - suc k ≡ m - k = omega arith in rw e (ap (◌∷◌ 0) (take-zeros_pad m k))

-- Cutting off at `m` and filling up to `m` leaves `bs` and zeros, if `bs` is no longer than `m`.
take_pad :
    (bs : List ℕ) (m k : ℕ)
    → length bs ≤ m
    → take m (bs ++ zeros k) ++ zeros (m - (length bs + k)) ≡ bs ++ zeros (m - length bs)
take_pad [] m k h =
    let e : m - (0 + k) ≡ m - k = omega arith in
    let f : m - 0 ≡ m = omega arith in rw (e, f) (take-zeros_pad m k)
take_pad (b ∷ bs) zero k h = absurd (omega arith)
take_pad (b ∷ bs) (suc m) k h =
    let e : suc m - (suc (length bs) + k) ≡ m - (length bs + k) = omega arith in
    let f : suc m - suc (length bs) ≡ m - length bs = omega arith in
    rw (e, f) (ap (◌∷◌ b) (take_pad bs m k (omega arith)))

-- The fourteen bytes behind the prefix and the count: `ts`, and zeros.
abbrev pub padded : List ℕ → List ℕ
padded ts = ts ++ zeros (14 - length ts)

-- The digits of padded bytes, cut off and filled up at `m`.
pub digits-padded :
    (ts : List ℕ) (m : ℕ)
    → length ts ≤ 14
    → 8 * length ts ≤ m
    → take m (bits_of (padded ts)) ++ zeros (m - length (bits_of (padded ts)))
      ≡ bits_of ts ++ zeros (m - 8 * length ts)
digits-padded ts m short fits =
    let pad = 14 - length ts in
    let digits : bits_of (padded ts) ≡ bits_of ts ++ zeros (8 * pad) =
      bits_of-append ts (zeros pad) ∙ ap (λ l. bits_of ts ++ l) (bits_of-zeros pad) in
    let size : length (bits_of ts ++ zeros (8 * pad)) ≡ length (bits_of ts) + 8 * pad =
      omega (
        arith,
        length-append (bits_of ts) (zeros (8 * pad)),
        length-replicate {A = ℕ} (8 * pad) 0,
      ) in
    rw
      (
        digits,
        size,
        take_pad (bits_of ts) m (8 * pad) (omega (arith, length-bits_of ts)),
        length-bits_of ts,
      )
      refl

-- They pack to the same bytes and zeros.
pub pack-padded :
    (ts : List ℕ) (m : ℕ)
    → length ts ≤ 14
    → 8 * length ts ≤ m
    → All IsByte ts
    → pack (take m (bits_of (padded ts)) ++ zeros (m - length (bits_of (padded ts))))
      ≡ ts ++ zeros ((m - 8 * length ts) / 8)
pack-padded ts m short fits v =
    rw
      (
        digits-padded ts m short fits,
        pack-bits_of ts (zeros (m - 8 * length ts)) v,
        pack-zeros (m - 8 * length ts) ((m - 8 * length ts) / 8) refl,
      )
      refl

copy_into-zeros : (n k : ℕ) → copy_into (zeros n) (zeros k) ≡ zeros n
copy_into-zeros zero k = refl
copy_into-zeros (suc n) zero = refl
copy_into-zeros (suc n) (suc k) = ap (◌∷◌ 0) (copy_into-zeros n k)

-- A copy onto zeros does not see zeros at the end of its source.
pub copy_into_pad :
    (ts : List ℕ) (n k : ℕ)
    → length ts ≤ n
    → copy_into (zeros n) (ts ++ zeros k) ≡ ts ++ zeros (n - length ts)
copy_into_pad [] n k h = let e : n - 0 ≡ n = omega arith in rw e (copy_into-zeros n k)
copy_into_pad (t ∷ ts) zero k h = absurd (omega arith)
copy_into_pad (t ∷ ts) (suc n) k h =
    let e : suc n - suc (length ts) ≡ n - length ts = omega arith in
    rw e (ap (◌∷◌ t) (copy_into_pad ts n k (omega arith)))

pub copy_into-padded :
    (ts : List ℕ) (k : ℕ) → length ts ≤ 14 → copy_into (zeros 14) (ts ++ zeros k) ≡ padded ts
copy_into-padded ts k h = copy_into_pad ts 14 k h

-- What fits of any source.
copy_into_cut :
    (n : ℕ) (xs : List ℕ) → copy_into (zeros n) xs ≡ take n xs ++ zeros (n - length (take n xs))
copy_into_cut zero xs = refl
copy_into_cut (suc n) [] = let e : suc n - 0 ≡ suc n = omega arith in rw e
copy_into_cut (suc n) (x ∷ xs) =
    let e : suc n - suc (length (take n xs)) ≡ n - length (take n xs) = omega arith in
    rw e (ap (◌∷◌ x) (copy_into_cut n xs))

pub copy_into-take : (xs : List ℕ) → copy_into (zeros 14) xs ≡ padded (take 14 xs)
copy_into-take xs = copy_into_cut 14 xs

byte_of-IsByte :
    (a b c d e f g h : ℕ)
    → All IsBit (a ∷ b ∷ c ∷ d ∷ e ∷ f ∷ g ∷ h ∷ [])
    → IsByte (byte_of a b c d e f g h)
byte_of-IsByte a b c d e f g h v = omega arith

pub record IsPacked (bs : List ℕ) : Type 0 where
  pub bytes : All IsByte (pack bs)
  pub size : length (pack bs) ≡ length bs / 8

pub pack-IsPacked : (bs : List ℕ) → All IsBit bs → IsPacked bs
pack-IsPacked [] v = record { bytes = tt; size = omega arith }
pack-IsPacked (a ∷ []) v = record { bytes = tt; size = omega arith }
pack-IsPacked (a ∷ b ∷ []) v = record { bytes = tt; size = omega arith }
pack-IsPacked (a ∷ b ∷ c ∷ []) v = record { bytes = tt; size = omega arith }
pack-IsPacked (a ∷ b ∷ c ∷ d ∷ []) v = record { bytes = tt; size = omega arith }
pack-IsPacked (a ∷ b ∷ c ∷ d ∷ e ∷ []) v = record { bytes = tt; size = omega arith }
pack-IsPacked (a ∷ b ∷ c ∷ d ∷ e ∷ f ∷ []) v = record { bytes = tt; size = omega arith }
pack-IsPacked (a ∷ b ∷ c ∷ d ∷ e ∷ f ∷ g ∷ []) v = record { bytes = tt; size = omega arith }
pack-IsPacked (a ∷ b ∷ c ∷ d ∷ e ∷ f ∷ g ∷ h ∷ bs) v =
    let eight : All IsBit (a ∷ b ∷ c ∷ d ∷ e ∷ f ∷ g ∷ h ∷ []) = (
      v.0,
      (
        v.1.0,
        (
          v.1.1.0,
          (v.1.1.1.0, (v.1.1.1.1.0, (v.1.1.1.1.1.0, (v.1.1.1.1.1.1.0, (v.1.1.1.1.1.1.1.0, tt))))),
        ),
      ),
    ) in
    let rest = pack-IsPacked bs v.1.1.1.1.1.1.1.1 in
    record {
      bytes = (byte_of-IsByte a b c d e f g h eight, rest.bytes);
      size = omega (arith, rest.size);
    }

byte_bits-byte_of :
    (a b c d e f g h : ℕ) (bs : List ℕ)
    → All IsBit (a ∷ b ∷ c ∷ d ∷ e ∷ f ∷ g ∷ h ∷ [])
    → bits_of (byte_of a b c d e f g h ∷ []) ++ bs ≡ a ∷ b ∷ c ∷ d ∷ e ∷ f ∷ g ∷ h ∷ bs
byte_bits-byte_of a b c d e f g h bs v =
    let x = byte_of a b c d e f g h in
    let ea : x / 128 % 2 ≡ a = omega arith in
    let eb : x / 64 % 2 ≡ b = omega arith in
    let ec : x / 32 % 2 ≡ c = omega arith in
    let ed : x / 16 % 2 ≡ d = omega arith in
    let ee : x / 8 % 2 ≡ e = omega arith in
    let ef : x / 4 % 2 ≡ f = omega arith in
    let eg : x / 2 % 2 ≡ g = omega arith in
    let eh : x % 2 ≡ h = omega arith in
    λ i. ea i ∷ eb i ∷ ec i ∷ ed i ∷ ee i ∷ ef i ∷ eg i ∷ eh i ∷ bs

-- The digits of the first `j` packed bytes are the first `8 * j` digits.
pub bits_of-take-pack :
    (j : ℕ) (bs : List ℕ)
    → All IsBit bs
    → 8 * j ≤ length bs
    → bits_of (take j (pack bs)) ≡ take (8 * j) bs
bits_of-take-pack zero bs v h = refl
bits_of-take-pack (suc j) [] v k = absurd (omega arith)
bits_of-take-pack (suc j) (a ∷ []) v k = absurd (omega arith)
bits_of-take-pack (suc j) (a ∷ b ∷ []) v k = absurd (omega arith)
bits_of-take-pack (suc j) (a ∷ b ∷ c ∷ []) v k = absurd (omega arith)
bits_of-take-pack (suc j) (a ∷ b ∷ c ∷ d ∷ []) v k = absurd (omega arith)
bits_of-take-pack (suc j) (a ∷ b ∷ c ∷ d ∷ e ∷ []) v k = absurd (omega arith)
bits_of-take-pack (suc j) (a ∷ b ∷ c ∷ d ∷ e ∷ f ∷ []) v k = absurd (omega arith)
bits_of-take-pack (suc j) (a ∷ b ∷ c ∷ d ∷ e ∷ f ∷ g ∷ []) v k = absurd (omega arith)
bits_of-take-pack (suc j) (a ∷ b ∷ c ∷ d ∷ e ∷ f ∷ g ∷ h ∷ bs) v k =
    let eight : All IsBit (a ∷ b ∷ c ∷ d ∷ e ∷ f ∷ g ∷ h ∷ []) = (
      v.0,
      (
        v.1.0,
        (
          v.1.1.0,
          (v.1.1.1.0, (v.1.1.1.1.0, (v.1.1.1.1.1.0, (v.1.1.1.1.1.1.0, (v.1.1.1.1.1.1.1.0, tt))))),
        ),
      ),
    ) in
    let q : 8 * suc j ≡ suc (suc (suc (suc (suc (suc (suc (suc (8 * j)))))))) = omega arith in
    rw q (
      byte_bits-byte_of a b c d e f g h (bits_of (take j (pack bs))) eight
      ∙ ap (λ l. a ∷ b ∷ c ∷ d ∷ e ∷ f ∷ g ∷ h ∷ l)
          (bits_of-take-pack j bs v.1.1.1.1.1.1.1.1 (omega arith)))

-- A digit string with a zero in it: its leading ones, that zero, and what follows.
pub split_leading :
    (bs : List ℕ)
    → All IsBit bs
    → leading bs < length bs
    → bs ≡ replicate (leading bs) 1 ++ (0 ∷ after bs)
split_leading [] v h = absurd (omega arith)
split_leading (zero ∷ bs) v h = refl
split_leading (suc b ∷ bs) v h = ap₂ ◌∷◌ (omega (arith, v.0)) (split_leading bs v.1 (omega arith))

pub after-IsBit : (bs : List ℕ) → All IsBit bs → All IsBit (after bs)
after-IsBit [] v = tt
after-IsBit (zero ∷ bs) v = v.1
after-IsBit (suc b ∷ bs) v = after-IsBit bs v.1

pub length-after :
    (bs : List ℕ) → leading bs < length bs → length (after bs) + leading bs + 1 ≡ length bs
length-after [] h = absurd (omega arith)
length-after (zero ∷ bs) h = omega arith
length-after (suc b ∷ bs) h = omega (arith, length-after bs (omega arith))

pub copy_front :
    (n k : ℕ) (ts : List ℕ)
    → n ≤ length ts + k
    → copy_into (zeros n) (ts ++ zeros k) ≡ take n ts ++ zeros (n - length (take n ts))
copy_front zero k ts h = refl
copy_front (suc n) k [] h =
    let e : suc n - 0 ≡ suc n = omega arith in rw e (copy_into-zeros (suc n) k)
copy_front (suc n) k (t ∷ ts) h =
    let e : suc n - suc (length (take n ts)) ≡ n - length (take n ts) = omega arith in
    rw e (ap (◌∷◌ t) (copy_front n k ts (omega arith)))
