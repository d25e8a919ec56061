-- ===== src/Cmd/GenKeys/Best.antt =====
-- What the search keeps and what its workers send.
use v6space.Base.{
  ℕ, ◌<◌, ◌≡◌, ◌↔◌, refl, sym, ◌∙◌, ◌⊎◌, inl, inr, true, false, List, [], ◌∷◌, length, ◌==◌, ltb,
  arith, Bool-cases, All,
}
use v6space.Core.Address.{key_size}
use v6space.Cmd.GenKeys.{is_better, best_of, do_keys, worst_key}

abbrev pub Among : List ℕ → List (List ℕ) → Type 0
Among k [] = ⊥
Among k (x ∷ xs) = (k ≡ x) ⊎ Among k xs

-- `a` comes before `b` in the lexicographic order: as numbers, the smaller key.
pub data Before : List ℕ → List ℕ → Type 0 where
  head : {a b : ℕ} {xs ys : List ℕ} → a < b → Before (a ∷ xs) (b ∷ ys)
  tail : {a b : ℕ} {xs ys : List ℕ} → a ≡ b → Before xs ys → Before (a ∷ xs) (b ∷ ys)

is_better_sound : (old new : List ℕ) → is_better old new ≡ true → Before new old
unfolding is_better
is_better_sound [] new h = absurd (cc h)
is_better_sound (o ∷ old) [] h = absurd (cc h)
is_better_sound (o ∷ old) (n ∷ new) h = elim (Bool-cases (ltb n o)) [
  | inl lt ↦ head (ground arith)
  | inr ge ↦ elim (Bool-cases (ltb o n)) [
    | inl gt ↦ absurd (cc (rw (ge, gt) at h))
    | inr le ↦ tail (ground arith) (is_better_sound old new (rw (ge, le) at h))
  ]
]

is_better_complete : {old new : List ℕ} → Before new old → is_better old new ≡ true
unfolding is_better
is_better_complete (head lt) = ground arith
is_better_complete (tail e b) = let rest = is_better_complete b in ground arith

-- A key is better exactly where it comes before the old one in the lexicographic order of bytes.
pub is_better_iff : (old new : List ℕ) → (is_better old new ≡ true) ↔ Before new old
is_better_iff old new = (is_better_sound old new, is_better_complete)

-- `r` is not beaten by `c`: directly, or since it is not beaten by something that beats `c`.
keep_trans :
    (r c k : List ℕ)
    → length r ≡ length c
    → length c ≡ length k
    → is_better r c ≡ false
    → is_better c k ≡ false
    → is_better r k ≡ false
unfolding is_better
keep_trans [] c k e f h g = refl
keep_trans (x ∷ r) [] k e f h g = absurd (omega arith)
keep_trans (x ∷ r) (y ∷ c) [] e f h g = absurd (omega arith)
keep_trans (x ∷ r) (y ∷ c) (z ∷ k) e f h g = ground (arith, keep_trans r c k)

beat_trans :
    (r c k : List ℕ)
    → length r ≡ length c
    → length c ≡ length k
    → is_better r k ≡ false
    → is_better c k ≡ true
    → is_better r c ≡ false
unfolding is_better
beat_trans [] c k e f h g = refl
beat_trans (x ∷ r) [] k e f h g = absurd (omega arith)
beat_trans (x ∷ r) (y ∷ c) [] e f h g = absurd (omega arith)
beat_trans (x ∷ r) (y ∷ c) (z ∷ k) e f h g = ground (arith, beat_trans r c k)

irreflexive : (k : List ℕ) → is_better k k ≡ false
unfolding is_better
irreflexive [] = refl
irreflexive (x ∷ k) = ground (arith, irreflexive k)

abbrev pub IsKey : List ℕ → Type 0
IsKey k = length k ≡ key_size

-- `best` is one of the keys, and none of them is better.
pub record IsBest (best : List ℕ) (keys : List (List ℕ)) : Type 0 where
  pub found : Among best keys
  pub least : All (λ k. is_better best k ≡ false) keys

IsBest-from :
    (current : List ℕ) (keys : List (List ℕ))
    → IsKey current
    → All IsKey keys
    → IsBest (best_of current keys) (current ∷ keys) × IsKey (best_of current keys)
unfolding best_of
IsBest-from current [] h v = (record { found = inl refl; least = (irreflexive current, tt) }, h)
IsBest-from current (k ∷ keys) h v =
    let some' : (length current == 0) ≡ false = ground arith in
    elim (Bool-cases (is_better current k)) [
      | inl better ↦
          let (best, size) = IsBest-from k keys v.0 v.1 in
          rw (best_of, better)
            (
              record {
                found = inr best.found;
                least = (
                  beat_trans (best_of k keys) current k (size ∙ sym h) (h ∙ sym v.0) best.least.0
                      better,
                  best.least,
                );
              },
              size,
            )
      | inr worse ↦
          let (best, size) = IsBest-from current keys h v.1 in
          rw (best_of, worse, some')
            (
              record {
                found = elim best.found [ inl e ↦ inl e | inr a ↦ inr (inr a) ];
                least = (
                  best.least.0,
                  (
                    keep_trans (best_of current keys) current k (size ∙ sym h) (h ∙ sym v.0)
                        best.least.0 worse,
                    best.least.1,
                  ),
                );
              },
              size,
            )
    ]

-- Of keys of 32 bytes, at least one, the search ends with one that arrived, and none of them is
-- better.
pub best_of-IsBest :
    (key : List ℕ) (keys : List (List ℕ))
    → All IsKey (key ∷ keys)
    → IsBest (best_of [] (key ∷ keys)) (key ∷ keys)
unfolding best_of is_better
best_of-IsBest key keys v = (IsBest-from key keys v.0 v.1).0

abbrev pub last_or : List ℕ → List (List ℕ) → List ℕ
last_or k [] = k
last_or k (x ∷ xs) = last_or x xs

last_sent :
    (best : List ℕ) (generated : List (List ℕ))
    → IsKey best
    → All IsKey generated
    → last_or best (do_keys best generated) ≡ best_of best generated
unfolding do_keys best_of
last_sent best [] h v = refl
last_sent best (k ∷ generated) h v =
    let some' : (length best == 0) ≡ false = ground arith in
    elim (Bool-cases (is_better best k)) [
      | inl better ↦ rw (do_keys, best_of, better) (last_sent k generated v.0 v.1)
      | inr worse ↦ rw (do_keys, best_of, worse, some') (last_sent best generated h v.1)
    ]

-- A worker sends only improvements, yet loses nothing: none of the keys that it generates is better
-- than the last one that it sends, or than the worst key if it sends none.
pub do_keys-IsBest :
    (generated : List (List ℕ))
    → All IsKey generated
    → IsBest (last_or worst_key (do_keys worst_key generated)) (worst_key ∷ generated)
do_keys-IsBest generated v =
    rw (last_sent worst_key generated refl v) (IsBest-from worst_key generated refl v).0
