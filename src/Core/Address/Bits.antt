-- ===== src/Core/Address/Bits.antt =====
-- Byte strings as lists of binary digits, highest first.
use v6space.Base.{
  ℕ, zero, suc, ◌+◌, ◌-◌, ◌*◌, ◌/◌, ◌%◌, ◌^◌, ◌<◌, bit_and, bit_or, max, ◌≡◌, refl, ap, ap₂, ◌∙◌,
  Bool, true, ◌&&◌, List, [], ◌∷◌, ◌++◌, map, length, get_or, modify, All, arith, ◌==◌, ==_iff,
  bytes_eq, bytes_eq_sound, table_holds, table_entry, ltb, ltb→lt,
}
use v6space.Core.Address.Defs.{bit_at, complement}

abbrev pub IsBit : ℕ → Type 0
IsBit b = b < 2

abbrev pub IsByte : ℕ → Type 0
IsByte x = x < 256

abbrev pub byte_bits : ℕ → List ℕ
byte_bits x =
    x / 128 % 2
    ∷ x / 64 % 2
    ∷ x / 32 % 2
    ∷ x / 16 % 2
    ∷ x / 8 % 2
    ∷ x / 4 % 2
    ∷ x / 2 % 2
    ∷ x % 2
    ∷ []

abbrev pub bits_of : List ℕ → List ℕ
bits_of [] = []
bits_of (x ∷ xs) = byte_bits x ++ bits_of xs

abbrev pub byte_of : ℕ → ℕ → ℕ → ℕ → ℕ → ℕ → ℕ → ℕ → ℕ
byte_of a b c d e f g h = ((((((a * 2 + b) * 2 + c) * 2 + d) * 2 + e) * 2 + f) * 2 + g) * 2 + h

-- Whole bytes; a last group of fewer than eight digits is dropped.
abbrev pub pack : List ℕ → List ℕ
pack (a ∷ b ∷ c ∷ d ∷ e ∷ f ∷ g ∷ h ∷ bs) = byte_of a b c d e f g h ∷ pack bs
pack _ = []

pub bits_of-IsBit : (xs : List ℕ) → All IsBit (bits_of xs)
bits_of-IsBit [] = tt
bits_of-IsBit (x ∷ xs) = (
  omega arith,
  (
    omega arith,
    (
      omega arith,
      (omega arith, (omega arith, (omega arith, (omega arith, (omega arith, bits_of-IsBit xs))))),
    ),
  ),
)

pub length-bits_of : (xs : List ℕ) → length (bits_of xs) ≡ 8 * length xs
length-bits_of [] = refl
length-bits_of (x ∷ xs) = omega (arith, length-bits_of xs)

pub bits_of-append : (xs ys : List ℕ) → bits_of (xs ++ ys) ≡ bits_of xs ++ bits_of ys
bits_of-append [] ys = refl
bits_of-append (x ∷ xs) ys = ap (λ l. byte_bits x ++ l) (bits_of-append xs ys)

byte_of-byte_bits :
    (x : ℕ)
    → x < 256
    → byte_of
        (x / 128 % 2)
        (x / 64 % 2)
        (x / 32 % 2)
        (x / 16 % 2)
        (x / 8 % 2)
        (x / 4 % 2)
        (x / 2 % 2)
        (x % 2)
      ≡ x
byte_of-byte_bits x h = omega arith

pub pack-bits_of : (xs ys : List ℕ) → All IsByte xs → pack (bits_of xs ++ ys) ≡ xs ++ pack ys
pack-bits_of [] ys h = refl
pack-bits_of (x ∷ xs) ys h = λ i. byte_of-byte_bits x h.0 i ∷ pack-bits_of xs ys h.1 i

-- A digit of a byte, as the loops read it.
bit_table :
    table_holds 8
      (λ k. table_holds 256 λ x. bit_and x (0x80 / 2 ^ k) / 2 ^ (7 - k) == x / 2 ^ (7 - k) % 2)
    ≡ true
unfolding table_holds
bit_table = refl

pub byte_bit :
    (k x : ℕ) → k < 8 → x < 256 → bit_and x (0x80 / 2 ^ k) / 2 ^ (7 - k) ≡ x / 2 ^ (7 - k) % 2
byte_bit k x hk hx = (==_iff _ _).0 (
    table_entry 256 (λ y. bit_and y (0x80 / 2 ^ k) / 2 ^ (7 - k) == y / 2 ^ (7 - k) % 2) x
      (table_entry 8 _ k bit_table hk) hx)

abbrev suc8 : ℕ → ℕ
suc8 i = suc (suc (suc (suc (suc (suc (suc (suc i)))))))

suc8-div : (i : ℕ) → suc8 i / 8 ≡ suc (i / 8)
suc8-div i = omega arith

suc8-mod : (i : ℕ) → suc8 i % 8 ≡ i % 8
suc8-mod i = omega arith

and_both : (a b : Bool) → (a && b) ≡ true → (a ≡ true) × (b ≡ true)
and_both a b h = ground arith

complement_table :
    table_holds 256 (λ x. bytes_eq (byte_bits (complement x)) (map (λ b. 1 - b) (byte_bits x)))
    ≡ true
unfolding table_holds bytes_eq
complement_table = refl

complement_bits : (x : ℕ) → x < 256 → byte_bits (complement x) ≡ map (λ b. 1 - b) (byte_bits x)
complement_bits x h = bytes_eq_sound _ _ (table_entry 256 _ x complement_table h)

pub bit_at-get_or :
    (buf : List ℕ) (i : ℕ)
    → i < 8 * length buf
    → All IsByte buf
    → bit_at buf i ≡ get_or (bits_of buf) i 0
unfolding bit_at
bit_at-get_or [] i lt h = absurd (omega arith)
bit_at-get_or (x ∷ xs) zero lt h = byte_bit 0 x (omega arith) h.0
bit_at-get_or (x ∷ xs) (suc zero) lt h = byte_bit 1 x (omega arith) h.0
bit_at-get_or (x ∷ xs) (suc (suc zero)) lt h = byte_bit 2 x (omega arith) h.0
bit_at-get_or (x ∷ xs) (suc (suc (suc zero))) lt h = byte_bit 3 x (omega arith) h.0
bit_at-get_or (x ∷ xs) (suc (suc (suc (suc zero)))) lt h = byte_bit 4 x (omega arith) h.0
bit_at-get_or (x ∷ xs) (suc (suc (suc (suc (suc zero))))) lt h = byte_bit 5 x (omega arith) h.0
bit_at-get_or (x ∷ xs) (suc (suc (suc (suc (suc (suc zero)))))) lt h =
    byte_bit 6 x (omega arith) h.0
bit_at-get_or (x ∷ xs) (suc (suc (suc (suc (suc (suc (suc zero))))))) lt h =
    let e : x / 1 % 2 ≡ x % 2 = omega arith in byte_bit 7 x (omega arith) h.0 ∙ e
bit_at-get_or (x ∷ xs) (suc (suc (suc (suc (suc (suc (suc (suc i)))))))) lt h =
    rw (suc8-div i, suc8-mod i) (bit_at-get_or xs i (omega arith) h.1)

-- `key[i / 8] |= (b << 7) >> (i % 8)` puts the digit `b` at place `i`.
abbrev pub put_bit : ℕ → ℕ → List ℕ → List ℕ
put_bit i b = modify (i / 8) (λ x. bit_or x (128 * b / 2 ^ (i % 8)))

put_table :
    table_holds 8 (λ k. table_holds 2 λ b. table_holds 256 λ x.
      bytes_eq (byte_bits (bit_or x (128 * b / 2 ^ k))) (modify k (λ c. max c b) (byte_bits x))
      && ltb (bit_or x (128 * b / 2 ^ k)) 256)
    ≡ true
unfolding table_holds bytes_eq
put_table = refl

put-IsByte :
    (k b x : ℕ)
    → k < 8
    → IsBit b
    → IsByte x
    → (byte_bits (bit_or x (128 * b / 2 ^ k)) ≡ modify k (λ c. max c b) (byte_bits x))
      × IsByte (bit_or x (128 * b / 2 ^ k))
put-IsByte k b x hk hb hx =
    let both =
      table_entry 256
        (λ y.
          bytes_eq (byte_bits (bit_or y (128 * b / 2 ^ k))) (modify k (λ c. max c b) (byte_bits y))
          && ltb (bit_or y (128 * b / 2 ^ k)) 256)
        x (table_entry 2 _ b (table_entry 8 _ k put_table hk) hb) hx in
    (bytes_eq_sound _ _ (and_both _ _ both).0, ltb→lt _ _ (and_both _ _ both).1)

pub put_bit-IsByte :
    (i b : ℕ) (key : List ℕ) → IsBit b → All IsByte key → All IsByte (put_bit i b key)
put_bit-IsByte i b key hb h = go (i / 8) key h
  where
    go :
        (j : ℕ) (xs : List ℕ)
        → All IsByte xs
        → All IsByte (modify j (λ x. bit_or x (128 * b / 2 ^ (i % 8))) xs)
    go j [] hs = tt
    go zero (x ∷ xs) hs = ((put-IsByte (i % 8) b x (omega arith) hb hs.0).1, hs.1)
    go (suc j) (x ∷ xs) hs = (hs.0, go j xs hs.1)

pub length-modify : (i : ℕ) (f : ℕ → ℕ) (xs : List ℕ) → length (modify i f xs) ≡ length xs
length-modify zero f [] = refl
length-modify (suc i) f [] = refl
length-modify zero f (x ∷ xs) = refl
length-modify (suc i) f (x ∷ xs) = ap suc (length-modify i f xs)

pub bits_of-put_bit :
    (i b : ℕ) (key : List ℕ)
    → i < 8 * length key
    → IsBit b
    → All IsByte key
    → bits_of (put_bit i b key) ≡ modify i (λ c. max c b) (bits_of key)
bits_of-put_bit i b [] lt hb h = absurd (omega arith)
bits_of-put_bit zero b (x ∷ xs) lt hb h =
    ap (λ l. l ++ bits_of xs) (put-IsByte 0 b x (omega arith) hb h.0).0
bits_of-put_bit (suc zero) b (x ∷ xs) lt hb h =
    ap (λ l. l ++ bits_of xs) (put-IsByte 1 b x (omega arith) hb h.0).0
bits_of-put_bit (suc (suc zero)) b (x ∷ xs) lt hb h =
    ap (λ l. l ++ bits_of xs) (put-IsByte 2 b x (omega arith) hb h.0).0
bits_of-put_bit (suc (suc (suc zero))) b (x ∷ xs) lt hb h =
    ap (λ l. l ++ bits_of xs) (put-IsByte 3 b x (omega arith) hb h.0).0
bits_of-put_bit (suc (suc (suc (suc zero)))) b (x ∷ xs) lt hb h =
    ap (λ l. l ++ bits_of xs) (put-IsByte 4 b x (omega arith) hb h.0).0
bits_of-put_bit (suc (suc (suc (suc (suc zero))))) b (x ∷ xs) lt hb h =
    ap (λ l. l ++ bits_of xs) (put-IsByte 5 b x (omega arith) hb h.0).0
bits_of-put_bit (suc (suc (suc (suc (suc (suc zero)))))) b (x ∷ xs) lt hb h =
    ap (λ l. l ++ bits_of xs) (put-IsByte 6 b x (omega arith) hb h.0).0
bits_of-put_bit (suc (suc (suc (suc (suc (suc (suc zero))))))) b (x ∷ xs) lt hb h =
    ap (λ l. l ++ bits_of xs) (put-IsByte 7 b x (omega arith) hb h.0).0
bits_of-put_bit (suc (suc (suc (suc (suc (suc (suc (suc i)))))))) b (x ∷ xs) lt hb h =
    rw (suc8-div i, suc8-mod i)
      (ap (λ l. byte_bits x ++ l) (bits_of-put_bit i b xs (omega arith) hb h.1))

pub bits_of-complement :
    (xs : List ℕ) → All IsByte xs → bits_of (map complement xs) ≡ map (λ b. 1 - b) (bits_of xs)
bits_of-complement [] h = refl
bits_of-complement (x ∷ xs) h = λ i. complement_bits x h.0 i ++ bits_of-complement xs h.1 i

pub complement-complement : (xs : List ℕ) → All IsByte xs → map complement (map complement xs) ≡ xs
complement-complement [] h = refl
complement-complement (x ∷ xs) h = ap₂ ◌∷◌ (omega (arith, h.0)) (complement-complement xs h.1)

pub complement-IsByte : (xs : List ℕ) → All IsByte (map complement xs)
complement-IsByte [] = tt
complement-IsByte (x ∷ xs) = (omega arith, complement-IsByte xs)

pub get_or-IsByte : (xs : List ℕ) (i : ℕ) → All IsByte xs → IsByte (get_or xs i 0)
get_or-IsByte [] zero h = omega arith
get_or-IsByte [] (suc i) h = omega arith
get_or-IsByte (x ∷ xs) zero h = h.0
get_or-IsByte (x ∷ xs) (suc i) h = get_or-IsByte xs i h.1

pub get_or-IsBit : (xs : List ℕ) (i : ℕ) → All IsBit xs → IsBit (get_or xs i 0)
get_or-IsBit [] zero h = omega arith
get_or-IsBit [] (suc i) h = omega arith
get_or-IsBit (x ∷ xs) zero h = h.0
get_or-IsBit (x ∷ xs) (suc i) h = get_or-IsBit xs i h.1
