-- ===== src/Core/Link/Handshake.antt =====
-- The handshake's verdict.
use v6space.Base.{
  ℕ, ◌≡◌, ◌↔◌, refl, ap, ◌⊎◌, inl, inr, Bool, true, false, Option, none, some, List, [], ◌∷◌,
  length, ◌==◌, ==_iff, bytes_eq_iff, arith, Bool-cases, Option-cases,
}
use mathlib.Core.Path.{subst}
use v6space.Core.Version.{Metadata, base_metadata, decode, check, meta_length, encode}
use v6space.Core.Version.Wire.{check_iff, encode-decode, decode-encode, encode-none_iff}
use v6space.Core.Link.{Link, Wire, accepted, member, is_empty, admit, read_meta, handshake}

-- The key stands in the list.
abbrev pub HasMember : List ℕ → List (List ℕ) → Type 0
HasMember key [] = ⊥
HasMember key (k ∷ keys) = (k ≡ key) ⊎ HasMember key keys

member_iff : (key : List ℕ) (keys : List (List ℕ)) → (member key keys ≡ true) ↔ HasMember key keys
unfolding member
member_iff key [] = (λ e. absurd (cc e), λ e. absurd e)
member_iff key (k ∷ keys) = ground (arith, bytes_eq_iff k key, member_iff key keys)

is_empty_iff {ℓ} : {A : Type ℓ} (xs : List A) → (is_empty xs ≡ true) ↔ (xs ≡ [])
is_empty_iff [] = (λ e. refl, λ e. refl)
is_empty_iff (x ∷ xs) = (λ e. absurd (cc e), λ e. absurd (cc e))

-- The conditions on the key of a node that is let in.
abbrev pub IsAllowed : List (List ℕ) → Link → List ℕ → Type 0
IsAllowed allowed l key =
    ((l.options.pinned_keys ≡ []) ⊎ HasMember key l.options.pinned_keys)
    × ((l.incoming ≡ false) ⊎ (l.force ≡ true) ⊎ (allowed ≡ []) ⊎ HasMember key allowed)

admit_iff :
    (allowed : List (List ℕ)) (l : Link) (m : Metadata) (key : List ℕ)
    → (admit allowed l m ≡ accepted key)
      ↔ ((check m ≡ true) × (m.key ≡ key) × IsAllowed allowed l m.key)
unfolding admit
admit_iff allowed l m key = ground (
  arith,
  member_iff m.key l.options.pinned_keys,
  member_iff m.key allowed,
  is_empty_iff l.options.pinned_keys,
  is_empty_iff allowed,
)

-- The local metadata under another key is what passes the check and is read from its encoding.
decode_base :
    (bs key : List ℕ) (m : Metadata)
    → decode bs ≡ some m
    → check m ≡ true
    → m.key ≡ key
    → encode (record base_metadata { key = key }) ≡ some bs
decode_base bs key m d c k =
    let (magic, ver, minor) = (check_iff m).0 c in
    let same : m ≡ record base_metadata { key = key } = cc (magic, ver, minor, k) in
    rw (← same) (encode-decode bs m d)

decode_of_base :
    (bs key : List ℕ)
    → encode (record base_metadata { key = key }) ≡ some bs
    → decode bs ≡ some (record base_metadata { key = key })
decode_of_base bs key e = elim (Bool-cases (length key == 32)) [
  | inl size ↦
      let (bs', e', d) =
        decode-encode (record base_metadata { key = key }) refl ((==_iff _ _).0 size) in
      let same : bs' ≡ bs = cc (e, e') in rw (← same) d
  | inr size ↦ absurd (cc (e, (encode-none_iff key).1 (ground (arith, size))))
]

read_meta_iff :
    (allowed : List (List ℕ)) (l : Link) (bs key : List ℕ)
    → (read_meta allowed l bs ≡ accepted key)
      ↔ ((encode (record base_metadata { key = key }) ≡ some bs) × IsAllowed allowed l key)
unfolding read_meta
read_meta_iff allowed l bs key = (into, back)
  where
    into :
        read_meta allowed l bs ≡ accepted key
        → (encode (record base_metadata { key = key }) ≡ some bs) × IsAllowed allowed l key
    into g = elim (Option-cases (decode bs)) [
      | inl d ↦ absurd (cc (rw (read_meta, d) at g))
      | inr (m, d) ↦
          let (c, k, ok) = (admit_iff allowed l m key).0 (rw (read_meta, d) at g) in
          (decode_base bs key m d c k, subst (IsAllowed allowed l) k ok)
    ]

    back :
        (encode (record base_metadata { key = key }) ≡ some bs) × IsAllowed allowed l key
        → read_meta allowed l bs ≡ accepted key
    back (e, ok) =
        rw (read_meta, decode_of_base bs key e)
          ((admit_iff allowed l (record base_metadata { key = key }) key).1
            ((check_iff _).1 (refl, refl, refl), refl, ok))

-- The connection's part in a handshake that lets the key in.
abbrev pub Exchanged : Bool → Option ℕ → Option (List ℕ) → Bool → List ℕ → Type 0
Exchanged set written received cleared key =
    (set ≡ true)
    × (written ≡ some meta_length)
    × (cleared ≡ true)
    × ((bs : List ℕ) × (received ≡ some bs)
        × (encode (record base_metadata { key = key }) ≡ some bs))

wire_iff :
    (allowed : List (List ℕ)) (l : Link) (key : List ℕ) (set : Bool) (written : Option ℕ)
    (received : Option (List ℕ)) (cleared : Bool)
    → (handshake allowed l (record {
      deadline_set = set;
      written = written;
      received = received;
      deadline_cleared = cleared;
    })
        ≡ accepted key)
      ↔ (Exchanged set written received cleared key × IsAllowed allowed l key)
unfolding handshake
wire_iff allowed l key false o r c = (λ e. absurd (cc e), λ (h, ok). absurd (cc h.0))
wire_iff allowed l key true none r c = (λ e. absurd (cc e), λ (h, ok). absurd (cc h.1))
wire_iff allowed l key true (some n) none c = elim (Bool-cases (n == meta_length)) [
  | inl whole ↦ (λ e. absurd (cc (rw whole at e)), λ (h, ok). absurd (cc h.3.1))
  | inr part ↦ (λ e. absurd (cc (rw part at e)), λ (h, ok). absurd (cc h.3.1))
]
wire_iff allowed l key true (some n) (some bs) false = elim (Bool-cases (n == meta_length)) [
  | inl whole ↦ (λ e. absurd (cc (rw whole at e)), λ (h, ok). absurd (cc h.2))
  | inr part ↦ (λ e. absurd (cc (rw part at e)), λ (h, ok). absurd (cc h.2))
]
wire_iff allowed l key true (some n) (some bs) true = elim (Bool-cases (n == meta_length)) [
  | inl whole ↦
      let i = read_meta_iff allowed l bs key in
      let size : n ≡ meta_length = (==_iff n meta_length).0 whole in
      (
        λ e.
            let (got, ok) = i.0 (rw whole at e) in
            ((refl, ap some size, refl, (bs, refl, got)), ok),
        λ (h, ok).
            let bs' = h.3.0 in
            let same : bs' ≡ bs = cc h.3.1 in rw whole (i.1 (rw (← same) h.3.2, ok)),
      )
  | inr part ↦ (
    λ e. absurd (cc (rw part at e)),
    λ (h, ok).
        let size : n ≡ meta_length = cc h.1 in absurd (cc (part, (==_iff n meta_length).1 size)),
  )
]

-- A handshake lets a node with the key in exactly where the deadlines are set, all of the local
-- metadata is written, and what is read is the encoding of the compatible metadata with that key;
-- where the key is pinned, if any is; and where it is allowed, if any is, unless the link is
-- outgoing or forced.
pub handshake_iff :
    (allowed : List (List ℕ)) (l : Link) (w : Wire) (key : List ℕ)
    → (handshake allowed l w ≡ accepted key) ↔ (
        Exchanged w.deadline_set w.written w.received w.deadline_cleared key
        × IsAllowed allowed l key)
handshake_iff allowed l w key =
    let i = wire_iff allowed l key w.deadline_set w.written w.received w.deadline_cleared in
    (i.0, i.1)
