-- ===== src/Core/Address/Recover.antt =====
-- The loops of GetAddressKey against their description: a run of ones, a zero, the address's digits.
use v6space.Base.{
  ℕ, zero, suc, ◌+◌, ◌-◌, ◌*◌, ◌/◌, ◌%◌, ◌^◌, ◌≤◌, ◌<◌, bit_and, bit_or, max, ◌≡◌, refl, sym, ap,
  ap₂, ◌∙◌, true, List, [], ◌∷◌, ◌++◌, map, append-nil, append_assoc, length, get_or, modify, take,
  drop, replicate, All, All-replicate, drop_all, take_all, length-append, length-replicate,
  length-map, arith, ◌==◌, ==_iff, leb, table_holds, table_entry, Bool-cases, inl, inr, drop-get_or,
}
use v6space.Core.Address.Defs.{key_size, complement, bit_at, set_ones, set_rest, get_address_key}
use v6space.Core.Address.Bits.{
  IsBit, IsByte, bits_of, put_bit, put_bit-IsByte, length-modify, bits_of-put_bit, bits_of-IsBit,
  length-bits_of, bit_at-get_or, byte_bit, get_or-IsByte, get_or-IsBit, complement-complement,
  complement-IsByte,
}

-- Digits written one after the other from place `i`.
abbrev write_bits : List ℕ → ℕ → List ℕ → List ℕ
write_bits [] i cells = cells
write_bits (b ∷ bs) i cells = write_bits bs (i + 1) (modify i (λ c. max c b) cells)

modify_beyond : (i : ℕ) (f : ℕ → ℕ) (xs : List ℕ) → length xs ≤ i → modify i f xs ≡ xs
modify_beyond zero f [] h = refl
modify_beyond (suc i) f [] h = refl
modify_beyond zero f (x ∷ xs) h = absurd (omega arith)
modify_beyond (suc i) f (x ∷ xs) h = ap (◌∷◌ x) (modify_beyond i f xs (omega arith))

modify-append :
    (f : ℕ → ℕ) (xs : List ℕ) (y : ℕ) (ys : List ℕ)
    → modify (length xs) f (xs ++ y ∷ ys) ≡ xs ++ f y ∷ ys
modify-append f [] y ys = refl
modify-append f (x ∷ xs) y ys = ap (◌∷◌ x) (modify-append f xs y ys)

write_bits_beyond :
    (bs : List ℕ) (i : ℕ) (cells : List ℕ) → length cells ≤ i → write_bits bs i cells ≡ cells
write_bits_beyond [] i cells h = refl
write_bits_beyond (b ∷ bs) i cells h =
    rw (modify_beyond i (λ c. max c b) cells h) (write_bits_beyond bs (i + 1) cells (omega arith))

-- On blank cells: the digits that fit, and blanks behind them.
write_bits_blank :
    (bs pre : List ℕ) (m : ℕ)
    → write_bits bs (length pre) (pre ++ replicate m 0)
      ≡ pre ++ (take m bs ++ replicate (m - length bs) 0)
write_bits_blank [] pre zero = refl
write_bits_blank [] pre (suc m) = let e : suc m - 0 ≡ suc m = omega arith in rw e
write_bits_blank (b ∷ bs) pre zero =
    write_bits_beyond (b ∷ bs) (length pre) (pre ++ []) (omega (arith, ap length (append-nil pre)))
    ∙ (let e : 0 - suc (length bs) ≡ 0 = omega arith in rw e)
write_bits_blank (b ∷ bs) pre (suc m) =
    let next : length pre + 1 ≡ length (pre ++ b ∷ []) =
      omega (arith, length-append pre (b ∷ [])) in
    let fewer : suc m - suc (length bs) ≡ m - length bs = omega arith in
    let blank : max 0 b ≡ b = omega arith in
    rw
      (
        modify-append (λ c. max c b) pre 0 (replicate m 0),
        blank,
        next,
        fewer,
        ← append_assoc pre (b ∷ []) (replicate m 0),
      )
      (write_bits_blank bs (pre ++ b ∷ []) m
        ∙ append_assoc pre (b ∷ []) (take m bs ++ replicate (m - length bs) 0))

-- What a loop does to the digits of the key: writes `bs` from place `i`.
abbrev Writes : List ℕ → ℕ → List ℕ → List ℕ → Type 0
Writes bs i key out =
    (bits_of out ≡ write_bits bs i (bits_of key)) × (length out ≡ length key) × All IsByte out

set_ones-Writes :
    (left i : ℕ) (key : List ℕ)
    → i + left ≤ 8 * length key
    → All IsByte key
    → Writes (replicate left 1) i key (set_ones left i key)
unfolding set_ones
set_ones-Writes zero i key h v = (refl, refl, v)
set_ones-Writes (suc left) i key h v =
    let size = length-modify (i / 8) (λ x. bit_or x (128 * 1 / 2 ^ (i % 8))) key in
    let rest =
      set_ones-Writes left (i + 1) (put_bit i 1 key) (omega arith)
        (put_bit-IsByte i 1 key (omega arith) v) in
    (
      rest.0
          ∙ ap (write_bits (replicate left 1) (i + 1))
              (bits_of-put_bit i 1 key (omega arith) (omega arith) v),
      rest.1 ∙ size,
      rest.2,
    )

-- The digit that the second loop moves: cut out, shifted to the top, and shifted into place.
move_table :
    table_holds 8 (λ k.
      table_holds 256 λ x. bit_and x (0x80 / 2 ^ k) * 2 ^ k % 256 == 128 * (x / 2 ^ (7 - k) % 2))
    ≡ true
unfolding table_holds
move_table = refl

moved_bit :
    (a : List ℕ) (i : ℕ)
    → All IsByte a
    → i < 8 * length a
    → bit_and (get_or a (i / 8) 0) (0x80 / 2 ^ (i % 8)) * 2 ^ (i % 8) % 256
      ≡ 128 * get_or (bits_of a) i 0
moved_bit a i v h =
    let x = get_or a (i / 8) 0 in
    let small : x < 256 = get_or-IsByte a (i / 8) v in
    let e : bit_and x (0x80 / 2 ^ (i % 8)) * 2 ^ (i % 8) % 256 ≡ 128 * (x / 2 ^ (7 - i % 8) % 2) =
      (==_iff _ _).0 (
        table_entry 256
          (λ y.
            bit_and y (0x80 / 2 ^ (i % 8)) * 2 ^ (i % 8) % 256 == 128 * (y / 2 ^ (7 - i % 8) % 2))
          x (table_entry 8 _ (i % 8) move_table (omega arith)) small) in
    let f = byte_bit (i % 8) x (omega arith) small in
    e ∙ ap (λ b. 128 * b) (sym f ∙ (unfold bit_at in bit_at-get_or a i h v))

set_rest-Writes :
    (left i off : ℕ) (a key : List ℕ)
    → 16 ≤ i
    → i + left ≡ 8 * length a
    → All IsByte a
    → All IsByte key
    → Writes (drop i (bits_of a)) (off + (i - 16)) key (set_rest left i off a key)
unfolding set_rest
set_rest-Writes zero i off a key h e va v =
    rw (drop_all i (bits_of a) (omega (arith, length-bits_of a))) (refl, refl, v)
set_rest-Writes (suc left) i off a key h e va v =
    let place = off + (i - 16) in
    let bit = get_or (bits_of a) i 0 in
    let one : IsBit bit = get_or-IsBit (bits_of a) i (bits_of-IsBit a) in
    let inside : i < length (bits_of a) = omega (arith, length-bits_of a) in
    let next : off + (i + 1 - 16) ≡ place + 1 = omega arith in
    let rest =
      set_rest-Writes left (i + 1) off a (put_bit place bit key) (omega arith) (omega arith) va
        (put_bit-IsByte place bit key one v) in
    let size = length-modify (place / 8) (λ x. bit_or x (128 * bit / 2 ^ (place % 8))) key in
    elim (Bool-cases (leb (length key) (place / 8))) [
      | inl stop ↦ rw stop (
        sym (
            write_bits_beyond (drop i (bits_of a)) place (bits_of key)
              (ground (arith, length-bits_of key))),
        refl,
        v,
      )
      | inr more ↦
          rw (more, moved_bit a i va (omega arith), drop-get_or i (bits_of a) 0 inside)
            (
              rest.0
                  ∙ ap₂ (write_bits (drop (i + 1) (bits_of a))) next
                      (bits_of-put_bit place bit key (ground arith) one v),
              rest.1 ∙ size,
              rest.2,
            )
    ]

-- GetAddressKey, read through the complement that AddrForKey takes first: as many ones as the
-- second byte says, a zero, and the last fourteen bytes' digits as far as they fit.
abbrev pub recovered : ℕ → List ℕ → List ℕ
recovered n digits =
    replicate n 1 ++ (0 ∷ (take (255 - n) digits ++ replicate (255 - n - length digits) 0))

ones_cells :
    (n : ℕ)
    → n < 256
    → write_bits (replicate n 1) 0 (replicate 256 0) ≡ replicate n 1 ++ (0 ∷ replicate (255 - n) 0)
ones_cells n h =
    let fit : length (replicate {A = ℕ} n 1) ≤ 256 = omega (arith, length-replicate {A = ℕ} n 1) in
    let split : 256 - n ≡ suc (255 - n) = omega arith in
    write_bits_blank (replicate n 1) [] 256
    ∙ rw (take_all 256 (replicate {A = ℕ} n 1) fit, length-replicate {A = ℕ} n 1, split) refl

rest_cells :
    (n m : ℕ) (digits : List ℕ)
    → write_bits digits (n + 1) (replicate n 1 ++ (0 ∷ replicate m 0))
      ≡ replicate n 1 ++ (0 ∷ (take m digits ++ replicate (m - length digits) 0))
rest_cells n m digits =
    let pre : List ℕ = replicate n 1 ++ 0 ∷ [] in
    let size : length pre ≡ n + 1 =
      omega (arith, length-append (replicate {A = ℕ} n 1) (0 ∷ []), length-replicate {A = ℕ} n 1) in
    rw
      (
        ← append_assoc (replicate {A = ℕ} n 1) (0 ∷ []) (replicate m 0),
        ← append_assoc (replicate {A = ℕ} n 1) (0 ∷ [])
            (take m digits ++ replicate (m - length digits) 0),
        ← size,
      )
      (write_bits_blank digits pre m)

pub recovered_lem :
    (a : List ℕ)
    → length a ≡ 16
    → All IsByte a
    → (bits_of (map complement (get_address_key a))
        ≡ recovered (get_or a 1 0) (drop 16 (bits_of a)))
      × (length (get_address_key a) ≡ key_size)
      × All IsByte (get_address_key a)
unfolding get_address_key
recovered_lem a size va =
    let n = get_or a 1 0 in
    let small : n < 256 = get_or-IsByte a 1 va in
    let blank : List ℕ = replicate key_size 0 in
    let zeros : All IsByte blank = All-replicate IsByte 32 0 (omega arith) in
    let first = set_ones-Writes n 0 blank (omega arith) zeros in
    let second =
      set_rest-Writes (8 * length a - 16) 16 (n + 1) a (set_ones n 0 blank) (omega arith)
        (ground arith) va first.2 in
    let key = set_rest (8 * length a - 16) 16 (n + 1) a (set_ones n 0 blank) in
    let at_end : n + 1 + (16 - 16) ≡ n + 1 = omega arith in
    (
      rw (complement-complement key second.2, second.0, first.0, ones_cells n small, at_end)
          (rest_cells n (255 - n) (drop 16 (bits_of a))),
      length-map key complement ∙ second.1 ∙ first.1,
      complement-IsByte key,
    )
