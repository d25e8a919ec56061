-- ===== src/Rest/Order.antt =====
-- The order in which the control server lists the peers.
use v6space.Base.{ℕ, ◌≡◌, refl, ap, ◌∙◌, inl, inr, true, false, List, [], ◌∷◌, arith, Bool-cases}
use v6space.Rest.{text_less}
use v6space.Rest.Answers.{Peer, peer_less}

text_less_irrefl : (a : List ℕ) → text_less a a ≡ false
unfolding text_less
text_less_irrefl [] = refl
text_less_irrefl (x ∷ xs) = ground (arith, text_less_irrefl xs)

text_less_trans :
    (a b c : List ℕ) → text_less a b ≡ true → text_less b c ≡ true → text_less a c ≡ true
unfolding text_less
text_less_trans [] [] c h k = absurd (cc h)
text_less_trans [] (y ∷ ys) [] h k = absurd (cc k)
text_less_trans [] (y ∷ ys) (z ∷ zs) h k = refl
text_less_trans (x ∷ xs) [] c h k = absurd (cc h)
text_less_trans (x ∷ xs) (y ∷ ys) [] h k = absurd (cc k)
text_less_trans (x ∷ xs) (y ∷ ys) (z ∷ zs) h k = ground (arith, h, k, text_less_trans xs ys zs)

text_less_total : (a b : List ℕ) → text_less a b ≡ false → text_less b a ≡ false → a ≡ b
unfolding text_less
text_less_total [] [] h k = refl
text_less_total [] (y ∷ ys) h k = absurd (cc h)
text_less_total (x ∷ xs) [] h k = absurd (cc k)
text_less_total (x ∷ xs) (y ∷ ys) h k =
    let head : x ≡ y = ground (arith, h, k) in
    let back : text_less xs ys ≡ false = ground (arith, h, head) in
    let forth : text_less ys xs ≡ false = ground (arith, k, head) in
    let tail = text_less_total xs ys back forth in ap (λ n. n ∷ xs) head ∙ ap (λ t. y ∷ t) tail

text_less_asym : (a b : List ℕ) → text_less a b ≡ true → text_less b a ≡ false
text_less_asym a b h = elim (Bool-cases (text_less b a)) [
  | inr e ↦ e
  | inl e ↦ absurd (cc (text_less_trans a b a h e, text_less_irrefl a))
]

-- The comparison that sorts the listed peers is a strict order: no peer comes before itself, and a
-- peer that comes before a second one, which comes before a third, comes before the third.
pub peer_less-IsStrict :
    (a b c : Peer)
    → peer_less a b ≡ true
    → peer_less b c ≡ true
    → (peer_less a a ≡ false) × (peer_less b a ≡ false) × (peer_less a c ≡ true)
unfolding peer_less
peer_less-IsStrict a b c h k = ground (
  arith,
  h,
  k,
  text_less_irrefl a.address,
  text_less_asym a.address b.address,
  text_less_asym b.address a.address,
  text_less_asym b.address c.address,
  text_less_asym c.address b.address,
  text_less_asym a.address c.address,
  text_less_asym c.address a.address,
  text_less_trans a.address b.address c.address,
  text_less_trans a.address c.address b.address,
  text_less_trans b.address a.address c.address,
  text_less_trans b.address c.address a.address,
  text_less_trans c.address a.address b.address,
  text_less_trans c.address b.address a.address,
  text_less_total a.address b.address,
  text_less_total b.address c.address,
  text_less_total a.address c.address,
)
