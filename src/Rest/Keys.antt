-- ===== src/Rest/Keys.antt =====
-- The key in the path of a request about another node.
use v6space.Base.{
  ℕ, ◌≡◌, ◌≢◌, ◌↔◌, refl, sym, ap, ◌∙◌, List, [], ◌∷◌, All, Lacks, join_by, split_by,
  split_by-join_by, join_by-split_by,
}
use mathlib.Core.Path.{subst}
use v6space.Rest.Answers.{
  slash, Remote, called, remote_status, call_with_key, key_answer, apply_key_parameterized,
}

abbrev pub NoSlash : List ℕ → Type 0
NoSlash t = Lacks slash t

call_with_key-called :
    (k key : List ℕ) (r : Remote) (n : ℕ)
    → call_with_key k r ≡ called key n
    → (k ≡ key) × (key ≢ []) × (n ≡ remote_status r)
call_with_key-called [] r key n h = absurd (cc h)
call_with_key-called (c ∷ cs) key r n h =
    let same : c ∷ cs ≡ key = cc h in (same, (λ e. absurd (cc (same, e))), cc h)

-- Four parts in front of a key that is not empty, none with a slash.
abbrev pub IsKeyPath : List ℕ → List ℕ → Type 0
IsKeyPath path key =
    (a b c d : List ℕ) × (path ≡ join_by slash a (b ∷ c ∷ d ∷ key ∷ []))
    × (key ≢ [])
    × (NoSlash a × All NoSlash (b ∷ c ∷ d ∷ key ∷ []))

key_answer-called :
    (a : List ℕ) (bs : List (List ℕ)) (fn : List ℕ → Remote) (key : List ℕ) (n : ℕ)
    → NoSlash a
    → All NoSlash bs
    → key_answer bs fn ≡ called key n
    → IsKeyPath (join_by slash a bs) key × (n ≡ remote_status (fn key))
key_answer-called a (b ∷ c ∷ d ∷ k ∷ []) fn key n na nb h =
    let (same, some_key, number) = call_with_key-called k key (fn k) n h in
    (
      (
        a,
        b,
        c,
        d,
        ap (λ x. join_by slash a (b ∷ c ∷ d ∷ x ∷ [])) same,
        some_key,
        (na, subst (λ x. All NoSlash (b ∷ c ∷ d ∷ x ∷ [])) same nb),
      ),
      number ∙ ap (λ x. remote_status (fn x)) same,
    )
key_answer-called a (b ∷ c ∷ d ∷ k ∷ e ∷ more) fn key n na nb h = absurd (cc h)
key_answer-called a (b ∷ c ∷ d ∷ []) fn key n na nb h = absurd (cc h)
key_answer-called a (b ∷ c ∷ []) fn key n na nb h = absurd (cc h)
key_answer-called a (b ∷ []) fn key n na nb h = absurd (cc h)
key_answer-called a [] fn key n na nb h = absurd (cc h)

some_key-called :
    (key : List ℕ) (r : Remote) → key ≢ [] → call_with_key key r ≡ called key (remote_status r)
some_key-called [] r ne = absurd (ne refl)
some_key-called (c ∷ cs) r ne = refl

-- A request about another node is made with a key exactly where the path is four parts and that
-- key, with slashes between them, and the key is not empty; the status is then the one for what the
-- other node gave for that key. Every other path is a bad request.
pub apply_key_parameterized_iff :
    (path key : List ℕ) (fn : List ℕ → Remote) (n : ℕ)
    → (apply_key_parameterized path fn ≡ called key n)
      ↔ (IsKeyPath path key × (n ≡ remote_status (fn key)))
unfolding apply_key_parameterized
apply_key_parameterized_iff path key fn n =
    let (joined, good) = join_by-split_by slash path in
    (
      λ h.
          let (found, number) =
            key_answer-called (split_by slash path).0 (split_by slash path).1 fn key n good.0 good.1
              h in
          (subst (λ p. IsKeyPath p key) joined found, number),
      λ ((a, b, c, d, shape, some_key, (na, nb)), number).
          ap (λ p. key_answer (split_by slash p).1 fn) shape
          ∙ ap (λ r. key_answer r.1 fn) (split_by-join_by slash a (b ∷ c ∷ d ∷ key ∷ []) na nb refl)
          ∙ some_key-called key (fn key) some_key
          ∙ ap (called key) (sym number),
    )
