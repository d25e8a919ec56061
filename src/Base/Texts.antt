-- ===== src/Base/Texts.antt =====
-- Texts as bytes: ASCII literals, strings.Split and its inverse.
use Prim.Native.Char.{code}
use Prim.Native.String.{String}
use mathlib.Core.Path.{◌≡◌, refl, sym, ap, ◌∙◌}
use mathlib.Core.Logic.{inl, inr}
use mathlib.Core.Bool.{Bool, true, false, ◌||◌}
use mathlib.Core.List.{List, [], ◌∷◌, ◌++◌, append-nil}
use Prim.Native.Nat.{ℕ}
use v6space.Base.Tests.{◌==◌, ==_iff, if◌then◌else◌, Bool-cases}
use v6space.Base.Lists.{All}

-- The bytes of an ASCII text.
abbrev pub codes : String → List ℕ
codes String.[] = []
codes (String.◌∷◌ c s) = code c ∷ codes s

abbrev pub cut_by : ℕ → ℕ → List ℕ × List (List ℕ) → List ℕ × List (List ℕ)
cut_by sep c (first, others) = if c == sep then ([], first ∷ others) else (c ∷ first, others)

-- strings.Split at one character: the first part and the others.
unfoldable pub split_by : ℕ → List ℕ → List ℕ × List (List ℕ)
split_by sep [] = ([], [])
split_by sep (c ∷ cs) = cut_by sep c (split_by sep cs)

-- Whether the character stands in the text.
unfoldable pub has_char : ℕ → List ℕ → Bool
has_char c [] = false
has_char c (x ∷ xs) = x == c || has_char c xs

abbrev pub Lacks : ℕ → List ℕ → Type 0
Lacks sep t = All (λ c. (c == sep) ≡ false) t

-- The texts with the character between them.
abbrev pub join_by : ℕ → List ℕ → List (List ℕ) → List ℕ
join_by sep a [] = a
join_by sep a (b ∷ bs) = a ++ sep ∷ join_by sep b bs

split_by-part :
    (sep : ℕ) (a rest : List ℕ)
    → Lacks sep a
    → split_by sep (a ++ rest) ≡ (a ++ (split_by sep rest).0, (split_by sep rest).1)
unfolding split_by
split_by-part sep [] rest n = refl
split_by-part sep (c ∷ cs) rest n = ap (cut_by sep c) (split_by-part sep cs rest n.1) ∙ rw n.0 refl

pub split_by-join_by :
    (sep : ℕ) (a : List ℕ) (bs : List (List ℕ))
    → Lacks sep a
    → All (Lacks sep) bs
    → (sep == sep) ≡ true
    → split_by sep (join_by sep a bs) ≡ (a, bs)
unfolding split_by
split_by-join_by sep a [] n ns e =
    ap (split_by sep) (sym (append-nil a))
    ∙ split_by-part sep a [] n
    ∙ ap (λ t. (t, [])) (append-nil a)
split_by-join_by sep a (b ∷ bs) n ns e =
    split_by-part sep a (sep ∷ join_by sep b bs) n
    ∙ rw e (ap (λ r. (a ++ [], r.0 ∷ r.1)) (split_by-join_by sep b bs ns.0 ns.1 e))
    ∙ ap (λ t. (t, b ∷ bs)) (append-nil a)

join_by-cons :
    (sep c : ℕ) (a : List ℕ) (bs : List (List ℕ)) → join_by sep (c ∷ a) bs ≡ c ∷ join_by sep a bs
join_by-cons sep c a [] = refl
join_by-cons sep c a (b ∷ bs) = refl

cut_by-join_by :
    (sep c : ℕ) (r : List ℕ × List (List ℕ)) (t : List ℕ)
    → join_by sep r.0 r.1 ≡ t
    → Lacks sep r.0 × All (Lacks sep) r.1
    → (join_by sep (cut_by sep c r).0 (cut_by sep c r).1 ≡ c ∷ t)
      × (Lacks sep (cut_by sep c r).0 × All (Lacks sep) (cut_by sep c r).1)
cut_by-join_by sep c (first, others) t e n = elim (Bool-cases (c == sep)) [
  | inl is ↦ rw is (ap (◌∷◌ sep) e ∙ ap (λ x. x ∷ t) (sym ((==_iff c sep).0 is)), (tt, n))
  | inr other ↦ rw other (join_by-cons sep c first others ∙ ap (◌∷◌ c) e, ((other, n.0), n.1))
]

pub join_by-split_by :
    (sep : ℕ) (t : List ℕ)
    → (join_by sep (split_by sep t).0 (split_by sep t).1 ≡ t)
      × (Lacks sep (split_by sep t).0 × All (Lacks sep) (split_by sep t).1)
unfolding split_by
join_by-split_by sep [] = (refl, (tt, tt))
join_by-split_by sep (c ∷ cs) =
    cut_by-join_by sep c (split_by sep cs) cs (join_by-split_by sep cs).0
      (join_by-split_by sep cs).1
