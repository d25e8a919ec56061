-- ===== src/Core/Proto/Chunks.antt =====
-- The lists of keys in the answers to getPeers and getDHT.
use v6space.Base.{
  ℕ, zero, suc, ◌+◌, ◌-◌, ◌*◌, ◌≤◌, ◌<◌, ◌≡◌, refl, sym, ap, ◌∙◌, ◌⊎◌, inl, inr, false, List, [],
  ◌∷◌, ◌++◌, map, length, take, ltb, All, arith, Bool-cases, length-append, length-take,
  take-append, drop-append, ◌^◌, append-nil, append_assoc, All-take,
}
use v6space.Core.Address.Prefix.{hex_encode}
use v6space.Core.Proto.{mtu, collect_keys, split_keys}

abbrev pub IsKey : List ℕ → Type 0
IsKey k = length k ≡ 32

-- The keys one after another.
unfoldable pub joined : List (List ℕ) → List ℕ
joined [] = []
joined (k ∷ ks) = k ++ joined ks

length-joined : (ks : List (List ℕ)) → All IsKey ks → length (joined ks) ≡ 32 * length ks
unfolding joined
length-joined [] v = refl
length-joined (k ∷ ks) v = omega (arith, length-append k (joined ks), v.0, length-joined ks v.1)

-- With one key at a time the bytes grow by 32 each; how many fit is decided at the first that does
-- not.
pub collect_keys_cases :
    (room : ℕ) (bs : List ℕ) (keys : List (List ℕ))
    → All IsKey keys
    → (n : ℕ) × (n ≤ length keys)
      × (collect_keys room bs keys ≡ bs ++ joined (take n keys))
      × ((n ≡ 0) ⊎ (length bs + 32 * n + 2 ≤ room))
      × ((n ≡ length keys) ⊎ (room < length bs + 32 * (n + 1) + 2))
unfolding collect_keys joined
collect_keys_cases room bs [] v = (0, omega arith, sym (append-nil bs), inl refl, inl refl)
collect_keys_cases room bs (k ∷ ks) v =
    let size : length (bs ++ k) ≡ length bs + 32 =
      length-append bs k ∙ ap (λ n. length bs + n) v.0 in
    elim (Bool-cases (ltb room (length (bs ++ k) + 2))) [
      | inl full ↦ (
        0,
        omega arith,
        rw (collect_keys, full) (sym (append-nil bs)),
        inl refl,
        inr (ground (arith, full, size)),
      )
      | inr fits ↦
          let (n, le, e, small, maximal) = collect_keys_cases room (bs ++ k) ks v.1 in
          (
            suc n,
            omega arith,
            rw (collect_keys, fits, e) (append_assoc bs k (joined (take n ks))),
            inr (ground (arith, fits, size, small)),
            ground (arith, size, maximal),
          )
    ]

-- Cutting undoes joining, whatever fuel is left.
pub split_keys-joined :
    (fuel : ℕ) (keys : List (List ℕ))
    → All IsKey keys
    → length (joined keys) ≤ fuel
    → split_keys fuel (joined keys) ≡ map hex_encode keys
unfolding split_keys joined
split_keys-joined zero [] v h = refl
split_keys-joined zero (k ∷ ks) v h = absurd (omega (arith, h, v.0, length-append k (joined ks)))
split_keys-joined (suc fuel) [] v h = refl
split_keys-joined (suc fuel) (k ∷ ks) v h =
    let size = length-append k (joined ks) in
    let long : ltb (length (k ++ joined ks)) 32 ≡ false = ground (arith, size, v.0) in
    rw
      (
        long,
        take-append 32 k (joined ks) (sym v.0),
        drop-append 32 k (joined ks) (sym v.0),
        split_keys-joined fuel ks v.1 (omega (arith, h, v.0, size)),
      )
      refl

-- The answer to getPeers and to getDHT, from keys of 32 bytes: the asker reads back, in hex and in
-- order, the first `n` of the keys; the answer's packet with its three bytes in front is within the
-- packet connection's MTU, where that is at least 3 and less than 2^64; and `n` is all of them, or
-- one more key would exceed the MTU.
pub collected_keys :
    (conn_mtu : ℕ) (keys : List (List ℕ))
    → All IsKey keys
    → 3 ≤ conn_mtu
    → conn_mtu < 2 ^ 64
    → let info = collect_keys (mtu conn_mtu) [] keys in
      (n : ℕ) × (split_keys (length info) info ≡ map hex_encode (take n keys))
      × (3 + length info ≤ conn_mtu)
      × ((n ≡ length keys) ⊎ (conn_mtu < 3 + 32 * (n + 1)))
unfolding mtu
collected_keys conn_mtu keys v low high =
    let room : mtu conn_mtu ≡ conn_mtu - 1 = omega (arith, low, high) in
    let (n, le, e, small, maximal) = collect_keys_cases (mtu conn_mtu) [] keys v in
    let vn = All-take IsKey n keys v in
    let size : length (collect_keys (mtu conn_mtu) [] keys) ≡ 32 * n =
      ap length e
      ∙ length-joined (take n keys) vn
      ∙ ap (λ m. 32 * m) (length-take n keys ∙ omega arith) in
    (
      n,
      rw e (split_keys-joined (length (joined (take n keys))) (take n keys) vn (omega arith)),
      ground (arith, size, small, room),
      ground (arith, room, maximal),
    )
