-- ===== src/Core/Net/HostPort.antt =====
-- net.SplitHostPort.
use v6space.Base.{
  ℕ, ◌≡◌, refl, inl, inr, true, false, ◌||◌, Option, none, some, List, [], ◌∷◌, ◌++◌, ◌==◌,
  if◌then◌else◌, has_char, Bool-cases, Option-cases,
}

-- The text in front of the last colon and the text behind it.
abbrev pub cut_more : ℕ → List ℕ → Option (List ℕ × List ℕ) → Option (List ℕ × List ℕ)
cut_more c cs none = if c == b':' then some ([], cs) else none
cut_more c cs (some (front, back)) = some (c ∷ front, back)

unfoldable pub cut_last_colon : List ℕ → Option (List ℕ × List ℕ)
cut_last_colon [] = none
cut_last_colon (c ∷ cs) = cut_more c cs (cut_last_colon cs)

-- The text in front of the first closing bracket and the text behind it.
abbrev pub grow : ℕ → Option (List ℕ × List ℕ) → Option (List ℕ × List ℕ)
grow c none = none
grow c (some (front, back)) = some (c ∷ front, back)

unfoldable pub cut_bracket : List ℕ → Option (List ℕ × List ℕ)
cut_bracket [] = none
cut_bracket (c ∷ cs) = let rest = cut_bracket cs in if c == b']' then some ([], cs) else grow c rest

-- The host in brackets: the first closing bracket stands just before the last colon.
abbrev pub bracketed : Option (List ℕ × List ℕ) → List ℕ → Option (List ℕ × List ℕ)
bracketed none port = none
bracketed (some (host, c ∷ cs)) port = none
bracketed (some (host, [])) port =
    if has_char b'[' host || has_char b'[' port || has_char b']' port
    then none
    else some (host, port)

abbrev pub plain : List ℕ → List ℕ → Option (List ℕ × List ℕ)
plain host port =
    if has_char b':' host
      || has_char b'[' host
      || has_char b'[' port
      || has_char b']' host
      || has_char b']' port
    then none
    else some (host, port)

unfoldable pub host_and_port : Option (List ℕ × List ℕ) → Option (List ℕ × List ℕ)
host_and_port none = none
host_and_port (some ([], port)) = plain [] port
host_and_port (some (c ∷ cs, port)) =
    if c == b'[' then bracketed (cut_bracket cs) port else plain (c ∷ cs) port

-- The host and the port; `none` is an error.
unfoldable pub split_host_port : List ℕ → Option (List ℕ × List ℕ)
split_host_port t = host_and_port (cut_last_colon t)

-- With a colon in the text, and another character before it, there is a last colon; the text in
-- front of it starts with the first character, and has a colon if there is a second one behind.
cut_last_colon-port :
    (host port : List ℕ)
    → (front back : List ℕ) × (cut_last_colon (host ++ b':' ∷ port) ≡ some (host ++ front, back))
unfolding cut_last_colon
cut_last_colon-port [] port = elim (Option-cases (cut_last_colon port)) [
  | inl e ↦ ([], port, rw e refl)
  | inr ((front, back), e) ↦ (b':' ∷ front, back, rw e refl)
]
cut_last_colon-port (c ∷ host) port =
    let (front, back, e) = cut_last_colon-port host port in (front, back, rw e refl)

has_char-append : (c : ℕ) (xs ys : List ℕ) → has_char c xs ≡ true → has_char c (xs ++ ys) ≡ true
unfolding has_char
has_char-append c [] ys h = absurd (cc h)
has_char-append c (x ∷ xs) ys h = elim (Bool-cases (x == c)) [
  | inl e ↦ rw e refl
  | inr e ↦ rw e (has_char-append c xs ys (rw (has_char, e) at h))
]

-- A host with a colon in it and without brackets around it, as every IPv6 address is, cannot be
-- given a port by a colon.
pub split_host_port-colon :
    (c : ℕ) (host port : List ℕ)
    → (c == b'[') ≡ false
    → has_char b':' (c ∷ host) ≡ true
    → split_host_port ((c ∷ host) ++ b':' ∷ port) ≡ none
unfolding split_host_port host_and_port
split_host_port-colon c host port bare colon =
    let (front, back, e) = cut_last_colon-port (c ∷ host) port in
    rw (e, bare, has_char-append b':' (c ∷ host) front colon) refl
