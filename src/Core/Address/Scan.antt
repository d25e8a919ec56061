-- ===== src/Core/Address/Scan.antt =====
-- The loop of AddrForKey against its description: the number of leading ones, then the packed rest.
use v6space.Base.{
  ℕ, zero, suc, ◌+◌, ◌*◌, ◌%◌, ◌<◌, bit_or, ◌≡◌, refl, sym, ap, ◌∙◌, true, false, some, List, [],
  ◌∷◌, ◌++◌, map, append-nil, append_assoc, length, drop, replicate, All, drop_all, drop-get_or,
  length-map, arith, ◌==◌, ==_iff, if◌then◌else◌, table_holds, table_entry,
}
use native.Mathlib.Nat.{zero-add}
use v6space.Core.Address.Defs.{
  key_size, copy_into, complement, Scan, scan_bit, scan_loop, scan_init, addr_for_key,
}
use v6space.Core.Address.Bits.{
  IsBit, IsByte, bits_of, byte_of, pack, bits_of-IsBit, length-bits_of, bit_at-get_or,
  complement-IsByte,
}

-- The number of ones before the first zero, and what follows that zero.
abbrev pub leading : List ℕ → ℕ
leading [] = 0
leading (zero ∷ bs) = 0
leading (suc b ∷ bs) = suc (leading bs)

abbrev pub after : List ℕ → List ℕ
after [] = []
after (zero ∷ bs) = bs
after (suc b ∷ bs) = after bs

abbrev scan_list : Scan → List ℕ → Scan
scan_list s [] = s
scan_list s (b ∷ bs) = scan_list (scan_bit s b) bs

scan_loop-scan_list :
    (left i : ℕ) (buf : List ℕ) (s : Scan)
    → i + left ≡ 8 * length buf
    → All IsByte buf
    → scan_loop left i buf s ≡ scan_list s (drop i (bits_of buf))
unfolding scan_loop
scan_loop-scan_list zero i buf s e h =
    rw (drop_all i (bits_of buf) (omega (arith, length-bits_of buf)))
scan_loop-scan_list (suc left) i buf s e h =
    rw
      (
        drop-get_or i (bits_of buf) 0 (omega (arith, length-bits_of buf)),
        ← bit_at-get_or buf i (omega arith) h,
      )
      (scan_loop-scan_list left (i + 1) buf _ (omega arith) h)

or_table : table_holds 128 (λ z. table_holds 2 λ b. bit_or (z * 2) b == z * 2 + b) ≡ true
unfolding table_holds
or_table = refl

push_bit : (n bit : ℕ) → IsBit bit → bit_or (n % 256 * 2 % 256) bit ≡ (n * 2 + bit) % 256
push_bit n bit h =
    let z = n % 128 in
    let e : n % 256 * 2 % 256 ≡ z * 2 = omega arith in
    let f = (==_iff _ _).0 (
      table_entry 2 (λ b. bit_or (z * 2) b == z * 2 + b) bit
        (table_entry 128 _ z or_table (omega arith)) h) in
    rw e (f ∙ omega arith)

-- The state after the first zero: `n` is what was shifted in, with nothing cut off.
abbrev running : ℕ → ℕ → ℕ → List ℕ → Scan
running ones n k temp = record { done = true; ones = ones; bits = n % 256; n_bits = k; temp = temp }

scan_bit-running :
    (ones n k : ℕ) (temp : List ℕ) (bit : ℕ)
    → IsBit bit
    → scan_bit (running ones n k temp) bit ≡ (
        if k + 1 == 8
        then running ones (n * 2 + bit) 0 (temp ++ (n * 2 + bit) % 256 ∷ [])
        else running ones (n * 2 + bit) (k + 1) temp)
unfolding scan_bit
scan_bit-running ones n k temp bit h = rw (push_bit n bit h)

scan_eight :
    (ones n : ℕ) (temp : List ℕ) (a b c d e f g h : ℕ) (bs : List ℕ)
    → All IsBit (a ∷ b ∷ c ∷ d ∷ e ∷ f ∷ g ∷ h ∷ [])
    → scan_list (running ones n 0 temp) (a ∷ b ∷ c ∷ d ∷ e ∷ f ∷ g ∷ h ∷ bs)
      ≡ scan_list
          (running ones
            (byte_of (n * 2 + a) b c d e f g h)
            0
            (temp ++ byte_of a b c d e f g h ∷ []))
          bs
scan_eight ones n temp a b c d e f g h bs v =
    let cut : ((((((((n * 2 + a) * 2 + b) * 2 + c) * 2 + d) * 2 + e) * 2 + f) * 2 + g) * 2 + h)
          % 256
        ≡ byte_of a b c d e f g h =
      omega arith in
    rw (
      scan_bit-running ones n 0 temp a v.0,
      scan_bit-running ones (n * 2 + a) 1 temp b v.1.0,
      scan_bit-running ones ((n * 2 + a) * 2 + b) 2 temp c v.1.1.0,
      scan_bit-running ones (((n * 2 + a) * 2 + b) * 2 + c) 3 temp d v.1.1.1.0,
      scan_bit-running ones ((((n * 2 + a) * 2 + b) * 2 + c) * 2 + d) 4 temp e v.1.1.1.1.0,
      scan_bit-running ones (((((n * 2 + a) * 2 + b) * 2 + c) * 2 + d) * 2 + e) 5 temp f
          v.1.1.1.1.1.0,
      scan_bit-running ones ((((((n * 2 + a) * 2 + b) * 2 + c) * 2 + d) * 2 + e) * 2 + f) 6 temp g
          v.1.1.1.1.1.1.0,
      scan_bit-running ones (((((((n * 2 + a) * 2 + b) * 2 + c) * 2 + d) * 2 + e) * 2 + f) * 2 + g)
          7 temp h v.1.1.1.1.1.1.1.0,
      cut,
    )

-- Fewer than eight further digits complete no byte.
scan_few :
    (ones n k : ℕ) (temp bs : List ℕ)
    → k + length bs < 8
    → All IsBit bs
    → ((scan_list (running ones n k temp) bs).temp ≡ temp)
      × ((scan_list (running ones n k temp) bs).ones ≡ ones)
scan_few ones n k temp [] h v = (refl, refl)
scan_few ones n k temp (b ∷ bs) h v =
    let more : (k + 1 == 8) ≡ false = ground arith in
    let e : scan_bit (running ones n k temp) b ≡ running ones (n * 2 + b) (k + 1) temp =
      rw (scan_bit-running ones n k temp b v.0, more) refl in
    let rest = scan_few ones (n * 2 + b) (k + 1) temp bs (omega arith) v.1 in
    (ap (λ s. (scan_list s bs).temp) e ∙ rest.0, ap (λ s. (scan_list s bs).ones) e ∙ rest.1)

abbrev Packed : ℕ → List ℕ → List ℕ → Scan → Type 0
Packed ones temp bs s = (s.temp ≡ temp ++ pack bs) × (s.ones ≡ ones)

scan_few-Packed :
    (ones n : ℕ) (temp bs : List ℕ)
    → length bs < 8
    → All IsBit bs
    → pack bs ≡ []
    → Packed ones temp bs (scan_list (running ones n 0 temp) bs)
scan_few-Packed ones n temp bs h v e =
    let few = scan_few ones n 0 temp bs (omega arith) v in
    (few.0 ∙ sym (append-nil temp) ∙ ap (λ l. temp ++ l) (sym e), few.1)

scan_running :
    (ones n : ℕ) (temp bs : List ℕ)
    → All IsBit bs
    → Packed ones temp bs (scan_list (running ones n 0 temp) bs)
scan_running ones n temp [] v = scan_few-Packed ones n temp [] (omega arith) v refl
scan_running ones n temp (a ∷ []) v = scan_few-Packed ones n temp (a ∷ []) (omega arith) v refl
scan_running ones n temp (a ∷ b ∷ []) v =
    scan_few-Packed ones n temp (a ∷ b ∷ []) (omega arith) v refl
scan_running ones n temp (a ∷ b ∷ c ∷ []) v =
    scan_few-Packed ones n temp (a ∷ b ∷ c ∷ []) (omega arith) v refl
scan_running ones n temp (a ∷ b ∷ c ∷ d ∷ []) v =
    scan_few-Packed ones n temp (a ∷ b ∷ c ∷ d ∷ []) (omega arith) v refl
scan_running ones n temp (a ∷ b ∷ c ∷ d ∷ e ∷ []) v =
    scan_few-Packed ones n temp (a ∷ b ∷ c ∷ d ∷ e ∷ []) (omega arith) v refl
scan_running ones n temp (a ∷ b ∷ c ∷ d ∷ e ∷ f ∷ []) v =
    scan_few-Packed ones n temp (a ∷ b ∷ c ∷ d ∷ e ∷ f ∷ []) (omega arith) v refl
scan_running ones n temp (a ∷ b ∷ c ∷ d ∷ e ∷ f ∷ g ∷ []) v =
    scan_few-Packed ones n temp (a ∷ b ∷ c ∷ d ∷ e ∷ f ∷ g ∷ []) (omega arith) v refl
scan_running ones n temp (a ∷ b ∷ c ∷ d ∷ e ∷ f ∷ g ∷ h ∷ bs) v =
    let eight : All IsBit (a ∷ b ∷ c ∷ d ∷ e ∷ f ∷ g ∷ h ∷ []) = (
      v.0,
      (
        v.1.0,
        (
          v.1.1.0,
          (v.1.1.1.0, (v.1.1.1.1.0, (v.1.1.1.1.1.0, (v.1.1.1.1.1.1.0, (v.1.1.1.1.1.1.1.0, tt))))),
        ),
      ),
    ) in
    let rest =
      scan_running ones (byte_of (n * 2 + a) b c d e f g h) (temp ++ byte_of a b c d e f g h ∷ [])
        bs v.1.1.1.1.1.1.1.1 in
    rw (scan_eight ones n temp a b c d e f g h bs eight)
      (rest.0 ∙ append_assoc temp _ (pack bs), rest.1)

-- The state before the first zero.
abbrev counting : ℕ → Scan
counting n = record { done = false; ones = n; bits = 0; n_bits = 0; temp = [] }

scan_counting :
    (n : ℕ) (bs : List ℕ)
    → All IsBit bs
    → ((scan_list (counting (n % 256)) bs).temp ≡ pack (after bs))
      × ((scan_list (counting (n % 256)) bs).ones ≡ (n + leading bs) % 256)
unfolding scan_bit
scan_counting n [] v = (refl, omega arith)
scan_counting n (zero ∷ bs) v =
    let rest = scan_running (n % 256) 0 [] bs v.1 in (rest.0, rest.1 ∙ omega arith)
scan_counting n (suc b ∷ bs) v =
    let e : scan_bit (counting (n % 256)) (suc b) ≡ counting (suc n % 256) =
      unfold scan_bit in ground arith in
    let rest = scan_counting (suc n) bs v.1 in
    (
      ap (λ s. (scan_list s bs).temp) e ∙ rest.0,
      ap (λ s. (scan_list s bs).ones) e ∙ rest.1 ∙ omega arith,
    )

-- AddrForKey of a key of the right length: prefix, number of leading ones of the complement,
-- and the digits after the first zero.
abbrev pub key_bits : List ℕ → List ℕ
key_bits key = bits_of (map complement key)

pub copy_into_all : (dst src : List ℕ) → length dst ≡ length src → copy_into dst src ≡ src
copy_into_all [] [] h = refl
copy_into_all [] (s ∷ src) h = absurd (omega arith)
copy_into_all (d ∷ dst) [] h = absurd (omega arith)
copy_into_all (d ∷ dst) (s ∷ src) h = ap (◌∷◌ s) (copy_into_all dst src (omega arith))

pub addr_for_key_lem :
    (p : ℕ) (key : List ℕ)
    → length key ≡ key_size
    → addr_for_key p key
      ≡ some (
          p
          ∷ leading (key_bits key) % 256
          ∷ copy_into (replicate 14 0) (pack (after (key_bits key))))
unfolding addr_for_key
addr_for_key_lem p key h =
    let size : length (map complement key) ≡ 32 = length-map key complement ∙ h in
    let loop =
      scan_loop-scan_list (8 * length (map complement key)) 0 (map complement key) scan_init
        (omega arith) (complement-IsByte key) in
    let found = scan_counting 0 (key_bits key) (bits_of-IsBit (map complement key)) in
    rw
      (
        (==_iff _ _).1 h,
        copy_into_all (replicate 32 0) key (sym h),
        loop,
        found.0,
        found.1,
        zero-add,
      )
      refl
