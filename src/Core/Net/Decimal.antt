-- ===== src/Core/Net/Decimal.antt =====
-- strconv.ParseUint with base 10 and 8 bits, and the decimal text of such a number.
use v6space.Base.{
  ℕ, ◌+◌, ◌-◌, ◌*◌, ◌/◌, ◌%◌, ◌<◌, ◌≡◌, refl, Bool, true, false, ◌&&◌, Option, none, some, List, [],
  ◌∷◌, ltb, leb, if◌then◌else◌, bytes_Eq, arith, table_holds, table_entry, ◌==◌, ==_iff,
}

-- The value of a text of digits after the value of those before it.
unfoldable pub decimal : ℕ → List ℕ → Option ℕ
decimal n [] = some n
decimal n (c ∷ cs) = elim (leb b'0' c && leb c b'9') [
  | true ↦ decimal (n * 10 + (c - b'0')) cs
  | false ↦ none
]

abbrev pub at_most : ℕ → Option ℕ → Option ℕ
at_most m none = none
at_most m (some n) = if leb n m then some n else none

unfoldable pub parse_uint8 : List ℕ → Option ℕ
parse_uint8 [] = none
parse_uint8 (c ∷ cs) = at_most 255 (decimal 0 (c ∷ cs))

-- `%d` of a uint8.
unfoldable pub print_uint8 : ℕ → List ℕ
print_uint8 n =
    if ltb n 10
    then (b'0' + n) ∷ []
    else if ltb n 100
    then (b'0' + n / 10) ∷ (b'0' + n % 10) ∷ []
    else (b'0' + n / 100) ∷ (b'0' + n / 10 % 10) ∷ (b'0' + n % 10) ∷ []

abbrev reads_back : ℕ → Option ℕ → Bool
reads_back n none = false
reads_back n (some m) = m == n

print_table : table_holds 256 (λ n. reads_back n (parse_uint8 (print_uint8 n))) ≡ true
unfolding table_holds parse_uint8 print_uint8 decimal
print_table = refl

-- Reading undoes printing.
pub parse_uint8-print_uint8 : (n : ℕ) → n < 256 → parse_uint8 (print_uint8 n) ≡ some n
parse_uint8-print_uint8 n h =
    go (parse_uint8 (print_uint8 n))
      (table_entry 256 (λ n. reads_back n (parse_uint8 (print_uint8 n))) n print_table h)
  where
    go : (o : Option ℕ) → reads_back n o ≡ true → o ≡ some n
    go none e = absurd (cc e)
    go (some m) e = ground (arith, ==_iff m n, e)
